-- ===== src/Merge/Laws.antt =====
-- What `Merge` delivers (flow/util.go).
use go_streams.Prelude.{
  ℕ, suc, ◌+◌, ◌*◌, ◌≤◌, ◌<◌, Bool, true, false, List, [], ◌∷◌, ◌++◌, ◌≡◌, refl, ap, arith, length,
  weigh, weigh-append, weigh_swap, SameBag, concat, ◌⊎◌, inl, inr, Bool-cases,
}
use native.Mathlib.Decide.{ℕ_discrete}
use go_streams.Merge.{
  Forwarder, ranging, holding, exited, Merge, init, Step, receive, deliver, done, close_merged,
  Crash, late_send, Reach,
}
use go_streams.Merge.Inv.{active, load, Inv, Reach-Inv}

abbrev open_cost : Bool → ℕ
open_cost true = 0
open_cost false = 1

module _ {Any : Type 0} where
  load-eq-zero :
      (w : Any → ℕ) (fs : List (Forwarder Any)) → weigh active fs ≡ 0 → weigh (load w) fs ≡ 0
  load-eq-zero w [] h = refl
  load-eq-zero w (ranging es ∷ fs) h = absurd (omega arith)
  load-eq-zero w (holding e es ∷ fs) h = absurd (omega arith)
  load-eq-zero w (exited ∷ fs) h = omega (arith, load-eq-zero w fs (omega arith))

  no-Crash : {outlets : List (List Any)} {s : Merge Any} → Inv outlets s → ¬ Crash s
  no-Crash inv (late_send fs fs' e es h c) = absurd (
      omega (
        arith,
        inv.counted,
        inv.closing c,
        ap (weigh active) h,
        weigh-append active fs (holding e es ∷ fs'),
      ))

  -- Whatever the interleaving of its goroutines, a merge never sends on its closed flow.
  merge_no-Crash : (outlets : List (List Any)) {s : Merge Any} → Reach (init outlets) s → ¬ Crash s
  merge_no-Crash outlets r = no-Crash (Reach-Inv outlets r)

  -- When the flow of a merge is closed, after any interleaving, it has received exactly the elements of
  -- all outlets, in some order.
  pub merge_complete :
      (outlets : List (List Any)) {s : Merge Any}
      → Reach (init outlets) s
      → s.merged.closed ≡ true
      → SameBag s.merged.history (concat outlets)
  merge_complete outlets {s} r c w =
      let inv = Reach-Inv outlets r in
      omega
        (arith, inv.bag w, load-eq-zero w s.forwarders (omega (arith, inv.counted, inv.closing c)))

  find_active :
      (fs : List (Forwarder Any))
      → 0 < weigh active fs
      → (before after : List (Forwarder Any)) × (f : Forwarder Any) × (fs ≡ before ++ (f ∷ after))
        × (active f ≡ 1)
  find_active [] h = absurd (omega arith)
  find_active (ranging es ∷ fs) h = ([], fs, ranging es, refl, refl)
  find_active (holding e es ∷ fs) h = ([], fs, holding e es, refl, refl)
  find_active (exited ∷ fs) h =
      let (before, after, f, e, p) = find_active fs (omega arith) in
      (exited ∷ before, after, f, ap (λ l. exited ∷ l) e, p)

  abbrev forwarder_cost : Forwarder Any → ℕ
  forwarder_cost (ranging es) = 2 * length es + 1
  forwarder_cost (holding e es) = 2 * length es + 2
  forwarder_cost exited = 0

  -- How many steps a merge can still make.
  abbrev pub steps_left : Merge Any → ℕ
  steps_left s = weigh forwarder_cost s.forwarders + open_cost s.merged.closed

  -- Every step of a merge uses up one of the finitely many that it has left, so that it cannot run
  -- forever.
  pub Step-steps_left : {s t : Merge Any} → Step s t → suc (steps_left t) ≤ steps_left s
  Step-steps_left {s} (receive fs fs' e es h) =
      omega
        (arith, weigh_swap forwarder_cost s.forwarders fs fs' (ranging (e ∷ es)) (holding e es) h)
  Step-steps_left {s} (deliver fs fs' e es h o) =
      ground (arith, weigh_swap forwarder_cost s.forwarders fs fs' (holding e es) (ranging es) h)
  Step-steps_left {s} (done fs fs' h) =
      omega (arith, weigh_swap forwarder_cost s.forwarders fs fs' (ranging []) exited h)
  Step-steps_left (close_merged z o) = ground arith

  forwarder_moves :
      (s : Merge Any) (fs fs' : List (Forwarder Any)) (f : Forwarder Any)
      → s.forwarders ≡ fs ++ (f ∷ fs')
      → active f ≡ 1
      → ((t : Merge Any) × Step s t) ⊎ Crash s
  forwarder_moves s fs fs' (ranging []) h p = inl (_, done fs fs' h)
  forwarder_moves s fs fs' (ranging (e ∷ es)) h p = inl (_, receive fs fs' e es h)
  forwarder_moves s fs fs' (holding e es) h p = elim (Bool-cases s.merged.closed) [
    | inl late ↦ inr (late_send fs fs' e es h late)
    | inr early ↦ inl (_, deliver fs fs' e es h early)
  ]
  forwarder_moves s fs fs' exited h p = absurd (omega arith)

  -- In every state that a merge can reach, its flow is closed or some goroutine can go on.
  merge_progress :
      (outlets : List (List Any)) {s : Merge Any}
      → Reach (init outlets) s
      → (s.merged.closed ≡ true) ⊎ ((t : Merge Any) × Step s t)
  merge_progress outlets {s} r = elim (Bool-cases s.merged.closed) [
    | inl closed ↦ inl closed
    | inr still_open ↦ inr (elim (ℕ_discrete s.wg 0) [
      | yes z ↦ (_, close_merged z still_open)
      | no nz ↦
          let (before, after, f, e, p) = find_active s.forwarders (omega (arith, inv.counted)) in
          elim (forwarder_moves s before after f e p) [
            | inl go ↦ go
            | inr bad ↦ absurd (no-Crash inv bad)
          ]
    ])
  ]
    where
      inv : Inv outlets s
      inv = Reach-Inv outlets r
