-- ===== src/Websocket.antt =====
-- websocket/web_socket.go: a source and a sink over one connection of a client library, whose reads and
-- writes are arguments here.
pub mod Laws
use go_streams.Prelude.{
  ℕ, zero, suc, Bool, true, false, Option, none, some, List, [], ◌∷◌, ◌==◌, if◌then◌else◌,
}
use go_streams.Channel.{make_chan}
use go_streams.Extension.Options.{Attempt}
use go_streams.Connector.{
  ClientSink, publish_all, Run, still_running, leave, after_sending, ClientSource, conclude_source,
}

-- `Message`
pub record Message : Type 0 where
  pub msg_type : ℕ
  pub payload : List ℕ

-- The message types of RFC 6455 that the code names.
abbrev pub text_message : ℕ
text_message = 1

abbrev pub binary_message : ℕ
binary_message = 2

abbrev pub close_message : ℕ
close_message = 8

-- `NewSourceWithDialer` and `NewSource`, on what the dialer returns; `none` is their error.
unfoldable pub new_source : {Conn : Type 0} → Option Conn → Option (Conn × ClientSource Message)
new_source none = none
new_source (some conn) = some (conn, record { out = make_chan; client_closed = false })

-- A turn of the loop of `process`: `ctx.Done()` is ready, or what `ReadMessage` returns.
pub data Turn : Type 0 where
  cancelled read_failed : Turn
  received : Message → Turn

-- The loop of the source's `process`.
unfoldable pub read_loop : List Turn → Run Message
read_loop [] = still_running
read_loop (cancelled ∷ turns) = leave
read_loop (read_failed ∷ turns) = read_loop turns
read_loop (received msg ∷ turns) =
    let rest = read_loop turns in
    if msg.msg_type == close_message then leave else after_sending (msg ∷ []) rest

-- The source's `process`
unfoldable pub process : List Turn → ClientSource Message
unfolding read_loop
process turns = conclude_source (read_loop turns)

-- The dynamic types that the sink tells apart.
pub data Element : Type 0 where
  message message_pointer : Message → Element
  string bytes : List ℕ → Element
  other : Element

-- The type switch of the sink: what it writes.
unfoldable pub to_message : Element → Option Message
to_message (message m) = some m
to_message (message_pointer m) = some m
to_message (string b) = some (record { msg_type = text_message; payload = b })
to_message (bytes b) = some (record { msg_type = binary_message; payload = b })
to_message other = none

-- `NewSinkWithDialer` and `NewSink`, on what the dialer returns; `none` is their error.
unfoldable pub new_sink : {Conn : Type 0} → Option Conn → Option (ClientSink Conn)
new_sink none = none
new_sink (some conn) = some (record { client = conn; done = false })

-- The sink's `process`
unfoldable pub sink_process :
    {Conn : Type 0}
    → (Message → Attempt Conn)
    → Attempt Conn
    → List Element
    → ClientSink Conn
    → ClientSink Conn
unfolding publish_all to_message
sink_process write_message close_connection elements s =
    publish_all to_message write_message close_connection elements s
