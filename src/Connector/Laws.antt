-- ===== src/Connector/Laws.antt =====
-- What the loop of every sink does with its client.
use go_streams.Prelude.{
  Option, none, some, List, [], ◌∷◌, ◌++◌, ◌≡◌, ◌∙◌, append-nil, append_assoc, Option-cases, inl,
  inr,
}
use go_streams.Extension.Options.{Attempt}
use go_streams.Connector.{publish_loop}

-- The requests for the messages of supported types.
abbrev pub requests : {Msg Req : Type 0} → (Msg → Option Req) → List Msg → List Req
requests to_request [] = []
requests to_request (msg ∷ msgs) = elim (to_request msg) [
  | none ↦ requests to_request msgs
  | some req ↦ req ∷ requests to_request msgs
]

-- A client that remembers the requests that were made to it, in order.
abbrev pub logged : {C Req : Type 0} → (Req → Attempt C) → Req → Attempt (C × List Req)
logged exec req (c, made) = (((exec req c).0, made ++ (req ∷ [])), (exec req c).1)

module _ {C Msg Req : Type 0} (to_request : Msg → Option Req) (exec : Req → Attempt C) where
  pub publish_loop-logged :
      (msgs : List Msg) (c : C) (made : List Req)
      → (publish_loop to_request (logged exec) msgs (c, made)).1 ≡ made ++ requests to_request msgs
  unfolding publish_loop
  publish_loop-logged [] c made = rw append-nil
  publish_loop-logged (msg ∷ msgs) c made = elim (Option-cases (to_request msg)) [
    | inl skipped ↦ rw (skipped, publish_loop, requests) (publish_loop-logged msgs c made)
    | inr (req, supported) ↦
        rw (supported, publish_loop, requests)
          (publish_loop-logged msgs (exec req c).0 (made ++ (req ∷ []))
            ∙ append_assoc made (req ∷ []) (requests to_request msgs))
  ]
