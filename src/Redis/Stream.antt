-- ===== src/Redis/Stream.antt =====
-- redis/redis_stream.go
use go_streams.Prelude.{
  ℕ, Bool, true, false, Option, none, some, List, [], ◌∷◌, concat, if◌then◌else◌,
}
use go_streams.Channel.{make_chan}
use go_streams.Extension.Options.{Attempt}
use go_streams.Connector.{
  ClientSink, publish_all, Run, still_running, leave, after_sending, ClientSource, conclude_source,
}

-- `XGroupCreateArgs`
pub record GroupCreateArgs : Type 0 where
  pub stream : List ℕ
  pub group : List ℕ
  pub start_id : List ℕ
  pub mk_stream : Bool

-- What `NewStreamSource` asks of the client before it starts: to create the group, with its stream or
-- without. The client answers whether it could.
pub data GroupCall : Type 0 where
  group_create_mk_stream group_create : GroupCreateArgs → GroupCall

-- `NewStreamSource`; `none` is its error, and nil arguments stand for a group that exists.
unfoldable pub new_stream_source :
    {M : Type 0} → (GroupCall → Bool) → Option GroupCreateArgs → Option (ClientSource M)
new_stream_source created none = some (record { out = make_chan; client_closed = false })
new_stream_source created (some args) =
    if created (if args.mk_stream then group_create_mk_stream args else group_create args)
    then some (record { out = make_chan; client_closed = false })
    else none

-- The error that `XReadGroup` may return; `no_group` is one whose text begins with NOGROUP.
pub data ReadError : Type 0 where
  no_group other_error : ReadError

-- A turn of the loop: `ctx.Done()` is ready, or the entries that `XReadGroup` returns, by stream, and
-- its error.
pub data Turn (M : Type 0) : Type 0 where
  cancelled : Turn M
  read : (entries : List (List M)) → Option ReadError → Turn M

-- Whether the error makes the loop break.
abbrev pub breaks : Option ReadError → Bool
breaks (some no_group) = true
breaks _ = false

-- The loop of the source's `process`.
unfoldable pub read_loop : {M : Type 0} → List (Turn M) → Run M
read_loop [] = still_running
read_loop (cancelled ∷ turns) = leave
read_loop (read entries error ∷ turns) =
    let rest = read_loop turns in
    if breaks error then leave else after_sending (concat entries) rest

-- The source's `process`
unfoldable pub process : {M : Type 0} → List (Turn M) → ClientSource M
unfolding read_loop
process turns = conclude_source (read_loop turns)

-- The dynamic types that the sink tells apart, by the values that they hold.
pub data Element (Values : Type 0) : Type 0 where
  message_pointer values : Values → Element Values
  other : Element Values

-- The type switch of the sink: the values that it adds to its stream.
unfoldable pub to_values : {Values : Type 0} → Element Values → Option Values
to_values (message_pointer v) = some v
to_values (values v) = some v
to_values other = none

-- `NewStreamSink`
unfoldable pub new_stream_sink : {Client : Type 0} → Client → ClientSink Client
new_stream_sink client = record { client = client; done = false }

-- `xAdd`, on the client's XADD, whose failure is logged
unfoldable pub x_add :
    {Client Values : Type 0} → (List ℕ → Values → Attempt Client) → List ℕ → Values → Attempt Client
x_add add stream v client = add stream v client

-- The sink's `process`
unfoldable pub sink_process :
    {Client Values : Type 0}
    → (List ℕ → Values → Attempt Client)
    → Attempt Client
    → List ℕ
    → List (Element Values)
    → ClientSink Client
    → ClientSink Client
unfolding publish_all to_values x_add
sink_process add close_client stream elements s =
    publish_all to_values (x_add add stream) close_client elements s
