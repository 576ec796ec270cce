-- ===== src/Pulsar.antt =====
-- pulsar/pulsar.go: a source and a sink over a client library, whose calls are arguments here.
use go_streams.Prelude.{ℕ, false, Option, none, some, List, [], ◌∷◌}
use go_streams.Channel.{make_chan}
use go_streams.Extension.Options.{Attempt}
use go_streams.Connector.{
  ClientSink, publish_all, Run, still_running, leave, after_sending, ClientSource, conclude_source,
}

-- `NewSource`, on the client and the consumer that the library gives; `none` is one of its errors.
unfoldable pub new_source :
    {Client Consumer M : Type 0}
    → Option Client
    → Option Consumer
    → Option (Client × Consumer × ClientSource M)
new_source none consumer = none
new_source (some client) none = none
new_source (some client) (some consumer) =
    some (client, consumer, record { out = make_chan; client_closed = false })

-- A turn of the loop of `process`: `ctx.Done()` is ready, or what `Receive` returns.
pub data Turn (M : Type 0) : Type 0 where
  cancelled receive_failed : Turn M
  received : M → Turn M

-- The loop of the source's `process`.
unfoldable pub receive_loop : {M : Type 0} → List (Turn M) → Run M
receive_loop [] = still_running
receive_loop (cancelled ∷ turns) = leave
receive_loop (receive_failed ∷ turns) = receive_loop turns
receive_loop (received msg ∷ turns) = after_sending (msg ∷ []) (receive_loop turns)

-- The source's `process`
unfoldable pub process : {M : Type 0} → List (Turn M) → ClientSource M
unfolding receive_loop
process turns = conclude_source (receive_loop turns)

-- The dynamic types that the sink tells apart; a message is given by its payload.
pub data Element : Type 0 where
  message string : List ℕ → Element
  other : Element

-- The type switch of the sink: the payload that it sends.
unfoldable pub to_payload : Element → Option (List ℕ)
to_payload (message payload) = some payload
to_payload (string b) = some b
to_payload other = none

-- `NewSink`, on the client and the producer that the library gives; `none` is one of its errors.
unfoldable pub new_sink :
    {Client Producer : Type 0}
    → Option Client
    → Option Producer
    → Option (ClientSink (Client × Producer))
new_sink none producer = none
new_sink (some client) none = none
new_sink (some client) (some producer) = some (record { client = (client, producer); done = false })

-- The sink's `process`; it closes the producer and then the client, which is `close_both`.
unfoldable pub sink_process :
    {C : Type 0} → (List ℕ → Attempt C) → Attempt C → List Element → ClientSink C → ClientSink C
unfolding publish_all to_payload
sink_process send close_both elements s = publish_all to_payload send close_both elements s
