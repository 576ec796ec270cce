-- ===== src/Examples/Brokers.antt =====
-- The theorems on the message connectors at concrete inputs.
use go_streams.Prelude.{ℕ, ◌≤◌, true, List, [], ◌∷◌, ◌++◌, ◌≡◌, take, length}
use go_streams.Nats.JetStream
use go_streams.Nats.JetStream.Laws.{sends, acks, fetch_loop-acks}

-- Two batches, with the moment behind the third message.
abbrev batches : List (JetStream.Turn ℕ)
batches = JetStream.fetched (4 ∷ 5 ∷ []) ∷ JetStream.fetched (6 ∷ []) ∷ JetStream.fetch_failed ∷ []

fetch_loop-acks_example :
    (pending : List ℕ) × (sends (take 5 (JetStream.fetch_loop true batches).sent)
      ≡ acks (take 5 (JetStream.fetch_loop true batches).sent) ++ pending)
    × (length pending ≤ 1)
fetch_loop-acks_example = fetch_loop-acks batches 5
