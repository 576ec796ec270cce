-- ===== src/Nats/JetStream.antt =====
-- nats/nats_jetstream.go
pub mod Laws
use go_streams.Prelude.{
  ℕ, Bool, true, false, Option, none, some, List, [], ◌∷◌, ◌++◌, ℤ, pos, nonpositive, if◌then◌else◌,
}
use go_streams.Extension.Options.{Attempt}
use go_streams.Connector.{ClientSink, publish_loop, Run, still_running, leave, after_sending}

-- What `validate` finds wrong.
pub data ConfigError : Type 0 where
  config_is_nil connection_is_nil context_is_nil subject_is_empty nonpositive_batch : ConfigError

pub data Checked (C : Type 0) : Type 0 where
  invalid : ConfigError → Checked C
  valid : C → Checked C

-- A nil slice of options becomes an empty one.
abbrev pub not_nil : {A : Type 0} → Option (List A) → Option (List A)
not_nil none = some []
not_nil (some l) = some l

abbrev pub is_none : {A : Type 0} → Option A → Bool
is_none none = true
is_none (some a) = false

abbrev pub is_empty : {A : Type 0} → List A → Bool
is_empty [] = true
is_empty (a ∷ l) = false

-- What `NewJetStreamSource` comes to; it panics on a nil config and on a nil context.
pub data Creation (C : Type 0) : Type 0 where
  nil_dereference subscribe_failed : Creation C
  rejected : ConfigError → Creation C
  created : C → Creation C

-- `JetStreamSourceConfig`; `none` is nil.
pub record SourceConfig (Conn Js SubOpt PullOpt AckOpt : Type 0) : Type 0 where
  pub conn : Option Conn
  pub jet_stream_ctx : Option Js
  pub subject : List ℕ
  pub consumer_name : List ℕ
  pub fetch_batch_size : ℤ
  pub ack : Bool
  pub sub_opts : Option (List SubOpt)
  pub pull_opts : Option (List PullOpt)
  pub ack_opts : Option (List AckOpt)

module _ {Conn Js SubOpt PullOpt AckOpt : Type 0} where
  -- The source's `validate` on a config that is not nil.
  abbrev pub validate_fields :
      SourceConfig Conn Js SubOpt PullOpt AckOpt
      → Checked (SourceConfig Conn Js SubOpt PullOpt AckOpt)
  validate_fields config =
      if is_none config.conn
      then invalid connection_is_nil
      else if is_none config.jet_stream_ctx
      then invalid context_is_nil
      else if is_empty config.subject
      then invalid subject_is_empty
      else if nonpositive config.fetch_batch_size
      then invalid nonpositive_batch
      else valid (record config {
        sub_opts = not_nil config.sub_opts;
        pull_opts = not_nil config.pull_opts;
        ack_opts = not_nil config.ack_opts;
      })

  -- The source's `validate`
  unfoldable pub validate_source :
      Option (SourceConfig Conn Js SubOpt PullOpt AckOpt)
      → Checked (SourceConfig Conn Js SubOpt PullOpt AckOpt)
  validate_source none = invalid config_is_nil
  validate_source (some config) = validate_fields config

  -- `NewJetStreamSourceConfig`
  unfoldable pub new_source_config :
      Option Conn → Option Js → List ℕ → SourceConfig Conn Js SubOpt PullOpt AckOpt
  new_source_config conn js subject = record {
    conn = conn;
    jet_stream_ctx = js;
    subject = subject;
    consumer_name = [];
    fetch_batch_size = pos 256;
    ack = true;
    sub_opts = none;
    pull_opts = none;
    ack_opts = none;
  }

  -- Behind `PullSubscribe`, on the state `S` of the server and whether it succeeded.
  abbrev pub after_subscribe :
      {S : Type 0}
      → SourceConfig Conn Js SubOpt PullOpt AckOpt
      → S × Bool
      → Creation (SourceConfig Conn Js SubOpt PullOpt AckOpt) × S
  after_subscribe config (s, false) = (subscribe_failed, s)
  after_subscribe config (s, true) = elim (validate_fields config) [
    | invalid e ↦ (rejected e, s)
    | valid config' ↦ (created config', s)
  ]

  -- `NewJetStreamSource`
  unfoldable pub new_source :
      {S : Type 0}
      → (Js → SourceConfig Conn Js SubOpt PullOpt AckOpt → Attempt S)
      → Option (SourceConfig Conn Js SubOpt PullOpt AckOpt)
      → S
      → Creation (SourceConfig Conn Js SubOpt PullOpt AckOpt) × S
  new_source subscribe none s = (nil_dereference, s)
  new_source subscribe (some config) s = elim config.jet_stream_ctx [
    | none ↦ (nil_dereference, s)
    | some js ↦ after_subscribe config (subscribe js config s)
  ]

-- A turn of the loop of the source's `process`: `ctx.Done()` is ready, or what `Fetch` returns.
pub data Turn (M : Type 0) : Type 0 where
  cancelled fetch_failed : Turn M
  fetched : List M → Turn M

-- What the source does with a message. Failures of the last two are logged only.
pub data Effect (M : Type 0) : Type 0 where
  sent_downstream acknowledged in_progress : M → Effect M

-- The loop over a batch.
unfoldable pub send_batch : {M : Type 0} → Bool → List M → List (Effect M)
send_batch ack [] = []
send_batch ack (m ∷ ms) =
    sent_downstream m ∷ (if ack then acknowledged m else in_progress m) ∷ send_batch ack ms

-- The loop of the source's `process`; behind it the subscription is drained and `out` closed.
unfoldable pub fetch_loop : {M : Type 0} → Bool → List (Turn M) → Run (Effect M)
unfolding send_batch
fetch_loop ack [] = still_running
fetch_loop ack (cancelled ∷ turns) = leave
fetch_loop ack (fetch_failed ∷ turns) = leave
fetch_loop ack (fetched ms ∷ turns) = after_sending (send_batch ack ms) (fetch_loop ack turns)

-- `JetStreamSinkConfig`; `none` is nil.
pub record SinkConfig (Conn Js PubOpt : Type 0) : Type 0 where
  pub conn : Option Conn
  pub jet_stream_ctx : Option Js
  pub subject : List ℕ
  pub drain_conn : Bool
  pub pub_opts : Option (List PubOpt)

-- The sink's `validate`
unfoldable pub validate_sink :
    {Conn Js PubOpt : Type 0}
    → Option (SinkConfig Conn Js PubOpt)
    → Checked (SinkConfig Conn Js PubOpt)
validate_sink none = invalid config_is_nil
validate_sink (some config) =
    if is_none config.conn
    then invalid connection_is_nil
    else if is_none config.jet_stream_ctx
    then invalid context_is_nil
    else if is_empty config.subject
    then invalid subject_is_empty
    else valid (record config { pub_opts = not_nil config.pub_opts })

-- `NewJetStreamSink`: the config that it goes on with
unfoldable pub new_sink :
    {Conn Js PubOpt : Type 0}
    → Option (SinkConfig Conn Js PubOpt)
    → Checked (SinkConfig Conn Js PubOpt)
unfolding validate_sink
new_sink config = validate_sink config

-- The dynamic types that the sink tells apart; a message is given by its data.
pub data Element : Type 0 where
  msg bytes : List ℕ → Element
  other : Element

-- The type switch of the sink: the data that it publishes.
unfoldable pub to_data : Element → Option (List ℕ)
to_data (msg b) = some b
to_data (bytes b) = some b
to_data other = none

-- The sink's `process`; it drains the connection only if it is configured to.
unfoldable pub sink_process :
    {C : Type 0}
    → (List ℕ → Attempt C)
    → Attempt C
    → Bool
    → List Element
    → ClientSink C
    → ClientSink C
unfolding publish_loop to_data
sink_process publish drain drain_conn elements s =
    let c = publish_loop to_data publish elements s.client in
    record s { client = if drain_conn then (drain c).0 else c; done = true }
