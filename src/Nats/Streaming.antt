-- ===== src/Nats/Streaming.antt =====
-- nats/nats_streaming.go, over a client library whose calls are arguments here.
pub mod Laws
use go_streams.Prelude.{ℕ, Bool, true, false, Option, none, some, List, [], ◌∷◌}
use go_streams.Channel.{Chan, Outcome, ok, ◌>>=◌, make_chan, send, close}
use go_streams.Extension.Options.{Attempt}
use go_streams.Connector.{ClientSink, publish_all}

-- `StreamingSource`, with its subscriptions and its channel.
pub record StreamingSource (Sub M : Type 0) : Type 0 where
  pub topics : List (List ℕ)
  pub subscriptions : List Sub
  pub out : Chan M

-- `NewStreamingSource`
unfoldable pub new_streaming_source : {Sub M : Type 0} → List (List ℕ) → StreamingSource Sub M
new_streaming_source topics = record { topics = topics; subscriptions = []; out = make_chan }

-- The loop that binds the topics; `subscribe` is what the connection gives for a topic, if it can.
unfoldable pub bind_topics : {Sub : Type 0} → (List ℕ → Option Sub) → List (List ℕ) → List Sub
bind_topics subscribe [] = []
bind_topics subscribe (topic ∷ topics) = elim (subscribe topic) [
  | none ↦ bind_topics subscribe topics
  | some sub ↦ sub ∷ bind_topics subscribe topics
]

-- `unsubscribe`: each subscription is removed; a failure is logged only.
unfoldable pub unsubscribe : {Sub Conn : Type 0} → (Sub → Attempt Conn) → List Sub → Conn → Conn
unsubscribe remove [] conn = conn
unsubscribe remove (sub ∷ subs) conn = unsubscribe remove subs (remove sub conn).0

-- What happens on `out` from then on, in order: the library calls the handler for a message, or the
-- context is cancelled, on which `process` closes `out`.
pub data Event (M : Type 0) : Type 0 where
  handled : M → Event M
  cancelled : Event M

-- The handlers and the closing, as they meet on the channel. The library may call a handler also
-- behind the cancellation, until the subscriptions are removed.
unfoldable pub run : {M : Type 0} → List (Event M) → Chan M → Outcome (Chan M)
run [] c = ok c
run (handled m ∷ events) c = send m c >>= λ c'. run events c'
run (cancelled ∷ events) c = close c >>= λ c'. run events c'

-- The dynamic types that the sink tells apart; a message is given by its data.
pub data Element : Type 0 where
  msg bytes : List ℕ → Element
  other : Element

-- The type switch of the sink: the data that it publishes.
unfoldable pub to_data : Element → Option (List ℕ)
to_data (msg b) = some b
to_data (bytes b) = some b
to_data other = none

-- `NewStreamingSink`
unfoldable pub new_streaming_sink : {Conn : Type 0} → Conn → ClientSink Conn
new_streaming_sink conn = record { client = conn; done = false }

-- The sink's `process`; `publish` is `conn.Publish` on the configured topic.
unfoldable pub sink_process :
    {Conn : Type 0}
    → (List ℕ → Attempt Conn)
    → Attempt Conn
    → List Element
    → ClientSink Conn
    → ClientSink Conn
unfolding publish_all to_data
sink_process publish close_conn elements s = publish_all to_data publish close_conn elements s
