-- ===== src/Kafka.antt =====
-- kafka/kafka_sarama.go: a source and a sink over a Kafka client library, whose calls are arguments
-- here. The library runs `Setup` and the `ConsumeClaim` of each claim within `Consume`.
pub mod Laws
use go_streams.Prelude.{
  ℕ, Bool, true, false, Option, none, some, List, [], ◌∷◌, ◌&&◌, if◌then◌else◌,
}
use go_streams.Channel.{Outcome, ok, panic, Chan, close, Fault, close_of_closed, make_chan}
use go_streams.Extension.Options.{Attempt}
use go_streams.Connector.{
  ClientSink, publish_all, Run, still_running, leave, after_sending, ClientSource, conclude_source,
}

-- `NewSaramaSource`
unfoldable pub new_sarama_source : {M : Type 0} → ClientSource M
new_sarama_source = record { out = make_chan; client_closed = false }

-- What the `select` of `ConsumeClaim` takes: a message (nil once the claim's channel is closed), or the
-- end of the session.
pub data ClaimEvent (M : Type 0) : Type 0 where
  claimed : Option M → ClaimEvent M
  session_done : ClaimEvent M

-- What `ConsumeClaim` does with a message, in this order.
pub data ClaimEffect (M : Type 0) : Type 0 where
  marked sent_downstream : M → ClaimEffect M

-- `ConsumeClaim`
unfoldable pub consume_claim : {M : Type 0} → List (ClaimEvent M) → Run (ClaimEffect M)
consume_claim [] = still_running
consume_claim (claimed none ∷ events) = consume_claim events
consume_claim (claimed (some m) ∷ events) =
    after_sending (marked m ∷ sent_downstream m ∷ []) (consume_claim events)
consume_claim (session_done ∷ events) = leave

-- `groupHandler`: whether `ready` is closed, and the output of the source.
pub record GroupHandler (M : Type 0) : Type 0 where
  pub ready : Chan {0} Unit
  pub out : Chan M

-- `Setup`, which closes `ready`, and `Cleanup`, which does nothing
unfoldable pub setup : {M : Type 0} → GroupHandler M → Outcome (Chan {0} Unit)
setup handler = close handler.ready

unfoldable pub cleanup : {M : Type 0} → GroupHandler M → GroupHandler M
cleanup handler = handler

-- A turn of the loop of `process`: whether `Consume` came to run `Setup`, what all its claims sent, in
-- the order of the channel, and whether `ctx.Done()` is ready then.
pub record Turn (M : Type 0) : Type 0 where
  pub set_up : Bool
  pub delivered : List M
  pub cancelled : Bool

-- The rest of a run, in which a panic may still come.
abbrev pub after_turn : {M : Type 0} → List M → Outcome (Run M) → Outcome (Run M)
after_turn es (ok r) = ok (after_sending es r)
after_turn es (panic f r) = panic f (after_sending es r)

-- The loop of the source's `process`, on whether `handler.ready` is closed, which `Setup` does; behind
-- `Consume` the channel is a fresh one.
unfoldable pub consume_loop : {M : Type 0} → Bool → List (Turn M) → Outcome (Run M)
consume_loop ready_closed [] = ok still_running
consume_loop ready_closed (turn ∷ turns) =
    let rest = consume_loop false turns in
    if turn.set_up && ready_closed
    then panic close_of_closed still_running
    else if turn.cancelled
    then ok (after_sending turn.delivered leave)
    else after_turn turn.delivered rest

-- The dynamic types that the sink tells apart; a consumer message has a key and a value.
pub data Element (P : Type 0) : Type 0 where
  producer_message : P → Element P
  consumer_message : (key value : List ℕ) → Element P
  string : List ℕ → Element P
  other : Element P

-- What the sink sends: a message as it is, or one of its own for its topic, with a key or without.
pub data Request (P : Type 0) : Type 0 where
  as_given : P → Request P
  for_topic : (topic : List ℕ) (key : Option (List ℕ)) (value : List ℕ) → Request P

-- The type switch of the sink.
unfoldable pub to_request : {P : Type 0} → List ℕ → Element P → Option (Request P)
to_request topic (producer_message p) = some (as_given p)
to_request topic (consumer_message key value) = some (for_topic topic (some key) value)
to_request topic (string b) = some (for_topic topic none b)
to_request topic other = none

-- `NewSaramaSink`
unfoldable pub new_sarama_sink : {Producer : Type 0} → Producer → ClientSink Producer
new_sarama_sink producer = record { client = producer; done = false }

-- The sink's `process`
unfoldable pub sink_process :
    {P Producer : Type 0}
    → (Request P → Attempt Producer)
    → Attempt Producer
    → List ℕ
    → List (Element P)
    → ClientSink Producer
    → ClientSink Producer
unfolding publish_all to_request
sink_process send_message close_producer topic elements s =
    publish_all (to_request topic) send_message close_producer elements s
