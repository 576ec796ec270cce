-- ===== src/Connector.antt =====
-- What the connectors to other systems share. A client is a state `C` with calls that may fail; the
-- sinks log a failed call and go on.
pub mod Laws
use go_streams.Prelude.{Bool, true, false, Option, none, some, List, [], ◌∷◌, ◌++◌}
use go_streams.Channel.{Chan}
use go_streams.Extension.Options.{Attempt}

-- A sink's client and its channel `done`.
pub record ClientSink (C : Type 0) : Type 0 where
  pub client : C
  pub done : Bool

module _ {C Msg Req : Type 0} (to_request : Msg → Option Req) (exec : Req → Attempt C) where
  -- The loop of a sink over what `in` delivers: one call for a message of a supported type.
  unfoldable pub publish_loop : List Msg → C → C
  publish_loop [] c = c
  publish_loop (msg ∷ msgs) c = elim (to_request msg) [
    | none ↦ publish_loop msgs c
    | some req ↦ publish_loop msgs (exec req c).0
  ]

  -- The whole goroutine: the loop, the closing of the client, and the deferred `close(done)`.
  unfoldable pub publish_all : Attempt C → List Msg → ClientSink C → ClientSink C
  unfolding publish_loop
  publish_all close_client msgs s = record s {
    client = (close_client (publish_loop msgs s.client)).0;
    done = true;
  }

-- What the loop of a source has sent after some turns, and whether it has left the loop by then. No
-- other goroutine closes the channel that it sends on.
pub record Run (A : Type 0) : Type 0 where
  pub sent : List A
  pub exited : Bool

abbrev pub still_running : {A : Type 0} → Run A
still_running = record { sent = []; exited = false }

abbrev pub leave : {A : Type 0} → Run A
leave = record { sent = []; exited = true }

abbrev pub after_sending : {A : Type 0} → List A → Run A → Run A
after_sending es r = record r { sent = es ++ r.sent }

-- A source: its output channel, and whether its client has been closed.
pub record ClientSource (A : Type 0) : Type 0 where
  pub out : Chan A
  pub client_closed : Bool

-- Behind its loop a source closes its channel and its client.
abbrev pub conclude_source : {A : Type 0} → Run A → ClientSource A
conclude_source r = record {
  out = record { history = r.sent; closed = r.exited };
  client_closed = r.exited;
}
