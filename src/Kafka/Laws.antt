-- ===== src/Kafka/Laws.antt =====
-- What the Kafka connectors do with their client (kafka/kafka_sarama.go).
use go_streams.Prelude.{ℕ, Bool, true, false, List, [], ◌∷◌, ◌++◌, ◌≡◌, refl, ap, arith}
use go_streams.Channel.{Chan, ok, panic, close_of_closed}
use go_streams.Extension.Options.{Attempt}
use go_streams.Connector.{publish_loop, publish_all}
use go_streams.Connector.Laws.{requests, logged, publish_loop-logged}
use go_streams.Kafka.{
  GroupHandler, setup, Turn, consume_loop, Element, Request, to_request, sink_process,
}

-- The turns up to the first at whose end the context is cancelled.
abbrev pub delivered_until : {M : Type 0} → List (Turn M) → List M
delivered_until [] = []
delivered_until (turn ∷ turns) =
    turn.delivered ++ elim turn.cancelled [ true ↦ [] | false ↦ delivered_until turns ]

abbrev pub any_cancelled : {M : Type 0} → List (Turn M) → Bool
any_cancelled [] = false
any_cancelled (turn ∷ turns) = elim turn.cancelled [ true ↦ true | false ↦ any_cancelled turns ]

-- The source never closes its channel `ready` twice, however often `Consume` is called again; it has
-- sent all that the sessions delivered, up to the first at whose end the context is cancelled.
consume_loop_lem :
    {M : Type 0} (turns : List (Turn M))
    → consume_loop false turns
      ≡ ok (record { sent = delivered_until turns; exited = any_cancelled turns })
unfolding consume_loop
consume_loop_lem [] = refl
consume_loop_lem (turn ∷ turns) = ground (arith, consume_loop_lem turns)

-- The sink makes one request for each message of a supported type, in order, whether or not requests
-- before it failed, and none for the others; then it closes the producer and `done`. The
-- producer here also remembers the requests.
sink_process-requests :
    {P Producer : Type 0} (send_message : Request P → Attempt Producer)
    (close_producer : Attempt (Producer × List (Request P))) (topic : List ℕ)
    (elements : List (Element P)) (producer : Producer)
    → (end : Producer) × (sink_process
          (logged send_message)
          close_producer
          topic
          elements
          (record { client = (producer, []); done = false })
        ≡ record {
          client = (close_producer (end, requests (to_request topic) elements)).0;
          done = true;
        })
unfolding sink_process publish_all
sink_process-requests {Producer = Producer} send_message close_producer topic elements producer = (
  last,
  ap (λ made. record { client = (close_producer (last, made)).0; done = true })
      (publish_loop-logged (to_request topic) send_message elements producer []),
)
  where
    last : Producer
    last = (publish_loop (to_request topic) (logged send_message) elements (producer, [])).0

-- A second `Setup` on one channel `ready` panics, as in `consume_loop`.
setup_twice :
    {M : Type 0} (handler : GroupHandler M) {ready : Chan {0} Unit}
    → handler.ready.closed ≡ false
    → setup handler ≡ ok ready
    → setup (record handler { ready = ready }) ≡ panic close_of_closed ready
unfolding setup
setup_twice handler {ready} open_ready once = ground (arith, once, open_ready)
