-- ===== src/Websocket/Laws.antt =====
-- What the WebSocket source sends, and what becomes of it when its connection is lost
-- (websocket/web_socket.go).
use go_streams.Prelude.{ℕ, zero, suc, false, List, [], ◌∷◌, ◌≡◌, refl}
use go_streams.Websocket.{Turn, read_failed, read_loop, process}

-- The turns of a source whose context is not cancelled, over `n` reads of its connection.
abbrev pub reads : {Conn : Type 0} → (Conn → Turn × Conn) → ℕ → Conn → List Turn
reads read zero conn = []
reads read (suc n) conn = (read conn).0 ∷ reads read n (read conn).1

-- Once a read has failed the source makes no progress, if failures of reads are permanent: however
-- often it reads, it sends nothing, and its channel stays open as long as its context is not
-- cancelled.
lost_connection :
    {Conn : Type 0} (read : Conn → Turn × Conn)
    → ((c : Conn) → (read c).0 ≡ read_failed → (read (read c).1).0 ≡ read_failed)
    → (n : ℕ) (conn : Conn) → (read conn).0 ≡ read_failed
    → process (reads read n conn)
      ≡ record { out = record { history = []; closed = false }; client_closed = false }
unfolding process read_loop
lost_connection read permanent zero conn failed = refl
lost_connection read permanent (suc n) conn failed =
    rw (failed, read_loop) (lost_connection read permanent n (read conn).1 (permanent conn failed))
