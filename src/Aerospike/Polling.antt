-- ===== src/Aerospike/Polling.antt =====
-- The PollingSource of aerospike/aerospike.go. Times are in nanoseconds, and the interval is not
-- negative, as `time.NewTicker` panics on a negative one; the client's `Query` is an
-- argument, which also has the time at which it is called.
pub mod Laws
use go_streams.Prelude.{
  ℕ, ◌-◌, Bool, true, false, Option, none, some, List, [], ◌∷◌, ◌++◌, ◌==◌, if◌then◌else◌,
}
use go_streams.Connector.{Run, still_running, leave, after_sending, ClientSource, conclude_source}
use go_streams.Channel.{Chan, make_chan}

-- An expression of a query policy: one of the caller's, or those that the source builds.
pub data Expression (E : Type 0) : Type 0 where
  given : E → Expression E
  updated_after : ℕ → Expression E
  both : Expression E → Expression E → Expression E

-- `PollingConfig`: the interval, and the policy, of which only its filter expression is looked at.
pub record PollingConfig (E : Type 0) : Type 0 where
  pub polling_interval : ℕ
  pub query_policy : Option (Option (Expression E))

-- The `filterExpression` that `NewPollingSource` sets.
abbrev pub filter_expression : {E : Type 0} → PollingConfig E → Option (Expression E)
filter_expression config = elim config.query_policy [ none ↦ none | some filter ↦ filter ]

-- The statement of a query; `filter` is the filter on a secondary index.
pub record Statement (Filter : Type 0) : Type 0 where
  pub namespace : List ℕ
  pub set_name : List ℕ
  pub filter : Option Filter
  pub bin_names : List (List ℕ)

-- `PollingSource`: its client, its statement, and its two channels.
pub record PollingSource (Client Filter R : Type 0) : Type 0 where
  pub client : Client
  pub statement : Statement Filter
  pub records_chan : Chan (Option R)
  pub out : Chan R

-- `NewPollingSource`, on the fields of its config that make the statement.
unfoldable pub new_polling_source :
    {Client Filter R : Type 0}
    → Client
    → (namespace set_name : List ℕ) → Option Filter
    → List (List ℕ)
    → PollingSource Client Filter R
new_polling_source client namespace set_name filter bin_names = record {
  client = client;
  statement = record {
    namespace = namespace;
    set_name = set_name;
    filter = filter;
    bin_names = bin_names;
  };
  records_chan = make_chan;
  out = make_chan;
}

-- What the goroutine of `pollChanges` meets: the end of the context, or the time `t` of a tick, after
-- which it makes its query at the time `now`.
pub data PollTurn : Type 0 where
  cancelled : PollTurn
  ticked : (t now : ℕ) → PollTurn

-- What `streamRecords` takes: the end of the context, or what `recordsChan` delivers.
pub data StreamTurn (R : Type 0) : Type 0 where
  stopped : StreamTurn R
  result : Option R → StreamTurn R
  exhausted : StreamTurn R

module _ {E R : Type 0} (client_query : ℕ → Option (Expression E) → Option (List (Option R))) where
  -- `query`: what goes to `recordsChan`, where `none` is a result with an error.
  unfoldable pub query : ℕ → Option (Expression E) → List (Option R)
  query now filter = elim (client_query now filter) [ none ↦ [] | some results ↦ results ]

  -- The filter that a tick sets.
  unfoldable pub filter_at : PollingConfig E → ℕ → Expression E
  filter_at config t =
      let last_updated = updated_after (t - config.polling_interval) in
      elim (filter_expression config) [
        | none ↦ last_updated
        | some filter ↦ both last_updated filter
      ]

  -- The loop over the ticks, after which `recordsChan` stays open.
  unfoldable pub poll_loop : PollingConfig E → List PollTurn → Run (Option R)
  unfolding query filter_at
  poll_loop config [] = still_running
  poll_loop config (cancelled ∷ turns) = leave
  poll_loop config (ticked t now ∷ turns) =
      after_sending (query now (some (filter_at config t))) (poll_loop config turns)

  -- `pollChanges`: what it sends to `recordsChan`, and whether it closes that.
  unfoldable pub poll_changes :
      PollingConfig E → (start : ℕ) → List PollTurn → List (Option R) × Bool
  unfolding poll_loop
  poll_changes config start turns =
      if config.polling_interval == 0
      then (query start (filter_expression config), true)
      else ((poll_loop config turns).sent, false)

-- The loop of `streamRecords`.
unfoldable pub stream_loop : {R : Type 0} → List (StreamTurn R) → Run R
stream_loop [] = still_running
stream_loop (stopped ∷ turns) = leave
stream_loop (exhausted ∷ turns) = leave
stream_loop (result none ∷ turns) = stream_loop turns
stream_loop (result (some r) ∷ turns) = after_sending (r ∷ []) (stream_loop turns)

-- `streamRecords`, which closes `out` behind its loop; the client is the caller's.
unfoldable pub stream_records : {R : Type 0} → List (StreamTurn R) → ClientSource R
unfolding stream_loop
stream_records turns = record (conclude_source (stream_loop turns)) { client_closed = false }
