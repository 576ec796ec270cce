-- ===== src/Nats/JetStream/Laws.antt =====
-- The order of sends and acknowledgements, and what `NewJetStreamSource` leaves behind
-- (nats/nats_jetstream.go).
use go_streams.Prelude.{
  ℕ, zero, suc, ◌≤◌, Bool, true, false, some, List, [], ◌∷◌, ◌++◌, ◌≡◌, refl, ap, arith, length,
  take,
}
use go_streams.Extension.Options.{Attempt}
use go_streams.Nats.JetStream.{
  ConfigError, invalid, SourceConfig, validate_source, rejected, new_source, Turn, cancelled,
  fetch_failed, fetched, Effect, sent_downstream, acknowledged, in_progress, send_batch, fetch_loop,
}

module _ {M : Type 0} where
  -- The messages sent, and those acknowledged, in order.
  abbrev pub sends : List (Effect M) → List M
  sends [] = []
  sends (sent_downstream m ∷ es) = m ∷ sends es
  sends (_ ∷ es) = sends es

  abbrev pub acks : List (Effect M) → List M
  acks [] = []
  acks (acknowledged m ∷ es) = m ∷ acks es
  acks (_ ∷ es) = acks es

  -- The messages fetched until the loop is left.
  abbrev pub fetched_messages : List (Turn M) → List M
  fetched_messages [] = []
  fetched_messages (fetched ms ∷ turns) = ms ++ fetched_messages turns
  fetched_messages (_ ∷ turns) = []

  -- A message is acknowledged right behind its send.
  abbrev IsPaired : List (Effect M) → Type 0
  IsPaired es =
      (k : ℕ)
      → (pending : List M) × (sends (take k es) ≡ acks (take k es) ++ pending)
        × (length pending ≤ 1)

  pair-IsPaired :
      (m : M) (es : List (Effect M))
      → IsPaired es
      → IsPaired (sent_downstream m ∷ acknowledged m ∷ es)
  pair-IsPaired m es h zero = ([], refl, omega arith)
  pair-IsPaired m es h (suc zero) = (m ∷ [], refl, omega arith)
  pair-IsPaired m es h (suc (suc k)) =
      let (pending, e, le) = h k in (pending, ap (λ l. m ∷ l) e, le)

  send_batch-IsPaired :
      (ms : List M) (es : List (Effect M)) → IsPaired es → IsPaired (send_batch true ms ++ es)
  unfolding send_batch
  send_batch-IsPaired [] es h = h
  send_batch-IsPaired (m ∷ ms) es h = pair-IsPaired m _ (send_batch-IsPaired ms es h)

  nil-IsPaired : IsPaired []
  nil-IsPaired zero = ([], refl, omega arith)
  nil-IsPaired (suc k) = ([], refl, omega arith)

  -- At every moment of a JetStream source that acknowledges, the messages acknowledged are those sent,
  -- in order, but for at most one that has just been sent: none is acknowledged before it is sent.
  pub fetch_loop-acks :
      (turns : List (Turn M)) (k : ℕ)
      → (pending : List M) × (sends (take k (fetch_loop true turns).sent)
          ≡ acks (take k (fetch_loop true turns).sent) ++ pending)
        × (length pending ≤ 1)
  unfolding fetch_loop
  fetch_loop-acks [] = nil-IsPaired
  fetch_loop-acks (cancelled ∷ turns) = nil-IsPaired
  fetch_loop-acks (fetch_failed ∷ turns) = nil-IsPaired
  fetch_loop-acks (fetched ms ∷ turns) =
      send_batch-IsPaired ms (fetch_loop true turns).sent (fetch_loop-acks turns)

  sends-append : (es fs : List (Effect M)) → sends (es ++ fs) ≡ sends es ++ sends fs
  sends-append [] fs = refl
  sends-append (sent_downstream m ∷ es) fs = ap (λ l. m ∷ l) (sends-append es fs)
  sends-append (acknowledged m ∷ es) fs = sends-append es fs
  sends-append (in_progress m ∷ es) fs = sends-append es fs

  sends-send_batch : (ack : Bool) (ms : List M) → sends (send_batch ack ms) ≡ ms
  unfolding send_batch
  sends-send_batch ack [] = refl
  sends-send_batch true (m ∷ ms) = ap (λ l. m ∷ l) (sends-send_batch true ms)
  sends-send_batch false (m ∷ ms) = ap (λ l. m ∷ l) (sends-send_batch false ms)

  -- A JetStream source sends all the messages that it fetches, in order, until it finds its context
  -- cancelled or a fetch fails.
  fetch_loop-sends :
      (ack : Bool) (turns : List (Turn M))
      → sends (fetch_loop ack turns).sent ≡ fetched_messages turns
  unfolding fetch_loop
  fetch_loop-sends ack [] = refl
  fetch_loop-sends ack (cancelled ∷ turns) = refl
  fetch_loop-sends ack (fetch_failed ∷ turns) = refl
  fetch_loop-sends ack (fetched ms ∷ turns) =
      rw (sends-append, sends-send_batch) (ap (λ l. ms ++ l) (fetch_loop-sends ack turns))

module _ {Conn Js SubOpt PullOpt AckOpt S : Type 0}
    (subscribe : Js → SourceConfig Conn Js SubOpt PullOpt AckOpt → Attempt S) where
  -- On a config that is not valid, with a JetStream context and a subscription that succeeds,
  -- `NewJetStreamSource` returns the error and no source, but the subscription has been made.
  new_source-rejected :
      (config : SourceConfig Conn Js SubOpt PullOpt AckOpt) (js : Js) (e : ConfigError) (s : S)
      → config.jet_stream_ctx ≡ some js
      → (subscribe js config s).1 ≡ true
      → validate_source (some config) ≡ invalid e
      → new_source subscribe (some config) s ≡ (rejected e, (subscribe js config s).0)
  unfolding new_source validate_source
  new_source-rejected config js e s present success bad = ground (arith, present, success, bad)
