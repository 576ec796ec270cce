-- ===== src/Aerospike/Polling/Laws.antt =====
-- Which updates the PollingSource sees (aerospike/aerospike.go).
use go_streams.Prelude.{
  ℕ, ◌+◌, ◌-◌, ◌≤◌, ◌<◌, Bool, true, false, Option, none, some, List, [], ◌∷◌, ◌++◌, ◌≡◌, arith,
  map, ◌&&◌, ◌||◌, ◌↔◌, ltb, leb, Bool-cases, inl, inr,
}
use mathlib.Core.List.{Mem, not-mem-nil, mem-append, mem-append_left, mem-append_right}
use mathlib.Core.Bool.{Bool-set}
use mathlib.Core.Logic.Or
use go_streams.Aerospike.Polling.{
  Expression, updated_after, PollingConfig, PollTurn, ticked, query, filter_at, poll_loop,
  poll_changes,
}

-- A tick with the time at which the source makes its query for it.
abbrev pub turn : ℕ × ℕ → PollTurn
turn (t, now) = ticked t now

-- Whether a query is made at or after the time `u` for a tick less than the interval behind `u`.
abbrev pub catches : (interval u : ℕ) → List (ℕ × ℕ) → Bool
catches interval u [] = false
catches interval u ((t, now) ∷ ts) = (leb u now && ltb t (u + interval)) || catches interval u ts

-- What a ticker does, which keeps one tick for a reader that is late and drops those behind it: the
-- next tick that the source takes is due within the interval of its query before, or of the start.
abbrev pub IsTicking : (interval start : ℕ) → List (ℕ × ℕ) → Type 0
IsTicking interval start [] = Unit
IsTicking interval start ((t, now) ∷ ts) = (t ≤ start + interval) × IsTicking interval now ts

-- Whether a query is made at or after the time `u`.
abbrev pub asks_after : ℕ → List (ℕ × ℕ) → Bool
asks_after u [] = false
asks_after u ((t, now) ∷ ts) = leb u now || asks_after u ts

module _ {E R : Type 0} (client_query : ℕ → Option (Expression E) → Option (List (Option R))) where
  -- The client answers every query, and a record that was written at the time `u` for the last time
  -- is among the results of those, made since then, that ask for the updates after an earlier time.
  abbrev pub IsAnswered : R → ℕ → Type 0
  IsAnswered r u =
      (now bound : ℕ)
      → Mem (some r) (query client_query now (some (updated_after bound)))
        ↔ ((u ≤ now) × (bound < u))

  module _ (config : PollingConfig E) (r : R) (u : ℕ) (plain : config.query_policy ≡ none)
      (pos : 1 ≤ u) (answered : IsAnswered r u) where
    abbrev Catches : Bool → List (Option R) → Type 0
    Catches caught results = Mem (some r) results ↔ (caught ≡ true)

    query-Catches :
        (t now : ℕ)
        → Catches
            (leb u now && ltb t (u + config.polling_interval))
            (query client_query now (some (filter_at client_query config t)))
    unfolding filter_at
    query-Catches t now =
        let (sound, complete) = answered now (t - config.polling_interval) in
        rw plain (λ m. ground (arith, sound m, pos), λ e. complete (ground (arith, e, pos)))

    append-Catches :
        (b c : Bool) (l m : List (Option R)) → Catches b l → Catches c m → Catches (b || c) (l ++ m)
    append-Catches b c l m (sound, complete) (sound', complete') = (
      λ h.
          Or.elim (Bool-set (b || c) true) (mem-append.0 h) (λ h'. rw (sound h'))
            (λ h'. ground (arith, sound' h')),
      λ e. elim (Bool-cases b) [
        | inl e' ↦ mem-append_left m (complete e')
        | inr e' ↦ mem-append_right l (complete' (ground (arith, e, e')))
      ],
    )

    poll_loop-Catches :
        (ticks : List (ℕ × ℕ))
        → Catches
            (catches config.polling_interval u ticks)
            (poll_loop client_query config (map turn ticks)).sent
    unfolding poll_loop
    poll_loop-Catches [] = (λ h. absurd (not-mem-nil h), λ e. cc e)
    poll_loop-Catches ((t, now) ∷ ticks) =
        append-Catches _ _ _ _ (query-Catches t now) (poll_loop-Catches ticks)

    -- A source that polls, with no policy of its own and a client that answers, sends a record that
    -- was written at a time `u` for the last time if and only if it makes some query at or after `u`
    -- for a tick that comes less than the polling interval behind `u`, however late its queries are.
    pub poll_changes_lem :
        (start : ℕ) (ticks : List (ℕ × ℕ))
        → 1 ≤ config.polling_interval
        → Mem (some r) (poll_changes client_query config start (map turn ticks)).0
          ↔ (catches config.polling_interval u ticks ≡ true)
    unfolding poll_changes
    poll_changes_lem start ticks polls = ground (arith, polls, poll_loop-Catches ticks)
