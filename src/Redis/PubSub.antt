-- ===== src/Redis/PubSub.antt =====
-- redis/redis_pubsub.go
use go_streams.Prelude.{ℕ, Bool, true, false, Option, none, some, List, [], ◌∷◌}
use go_streams.Channel.{make_chan}
use go_streams.Extension.Options.{Attempt}
use go_streams.Connector.{
  ClientSink, publish_all, Run, still_running, leave, after_sending, ClientSource, conclude_source,
}

-- `NewPubSubSource`, on whether the subscription is confirmed; `none` is its error.
unfoldable pub new_pub_sub_source : {M : Type 0} → Bool → Option (ClientSource (Option M))
new_pub_sub_source false = none
new_pub_sub_source true = some (record { out = make_chan; client_closed = false })

-- What the `select` of `process` takes. A receive from the library's channel gives a nil message once
-- that channel is closed.
pub data Turn (M : Type 0) : Type 0 where
  cancelled : Turn M
  received : Option M → Turn M

-- The loop of the source's `process`.
unfoldable pub receive_loop : {M : Type 0} → List (Turn M) → Run (Option M)
receive_loop [] = still_running
receive_loop (cancelled ∷ turns) = leave
receive_loop (received msg ∷ turns) = after_sending (msg ∷ []) (receive_loop turns)

-- The source's `process`
unfoldable pub process : {M : Type 0} → List (Turn M) → ClientSource (Option M)
unfolding receive_loop
process turns = conclude_source (receive_loop turns)

-- The dynamic types that the sink tells apart.
pub data Element : Type 0 where
  string : List ℕ → Element
  other : Element

-- The type switch of the sink: what it publishes.
unfoldable pub to_published : Element → Option (List ℕ)
to_published (string b) = some b
to_published other = none

-- `NewPubSubSink`
unfoldable pub new_pub_sub_sink : {Client : Type 0} → Client → ClientSink Client
new_pub_sub_sink client = record { client = client; done = false }

-- The sink's `process`; `publish` is `client.Publish` on the configured channel.
unfoldable pub sink_process :
    {Client : Type 0}
    → (List ℕ → Attempt Client)
    → Attempt Client
    → List Element
    → ClientSink Client
    → ClientSink Client
unfolding publish_all to_published
sink_process publish close_client elements s =
    publish_all to_published publish close_client elements s
