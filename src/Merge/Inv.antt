-- ===== src/Merge/Inv.antt =====
-- What holds of a merge between two steps.
use go_streams.Prelude.{
  ℕ, ◌+◌, true, List, [], ◌∷◌, ◌≡◌, refl, arith, map, length, weigh, weigh-append, weigh_swap,
  concat,
}
use go_streams.Merge.{
  Forwarder, ranging, holding, exited, Merge, init, Step, receive, deliver, done, close_merged,
  Reach, here, next,
}

abbrev pub active : {Any : Type 0} → Forwarder Any → ℕ
active exited = 0
active _ = 1

-- The weight of what a forwarder has left to send.
abbrev pub load : {Any : Type 0} → (Any → ℕ) → Forwarder Any → ℕ
load w (ranging es) = weigh w es
load w (holding e es) = w e + weigh w es
load w exited = 0

module _ {Any : Type 0} (outlets : List (List Any)) where
  pub record Inv (s : Merge Any) : Type 0 where
    pub counted : s.wg ≡ weigh active s.forwarders
    pub closing : s.merged.closed ≡ true → s.wg ≡ 0
    pub bag :
        (w : Any → ℕ)
        → weigh w s.merged.history + weigh (load w) s.forwarders ≡ weigh w (concat outlets)

  count-init : (ls : List (List Any)) → length ls ≡ weigh active (map ranging ls)
  count-init [] = refl
  count-init (l ∷ ls) = omega (arith, count-init ls)

  load-init :
      (w : Any → ℕ) (ls : List (List Any)) → weigh (load w) (map ranging ls) ≡ weigh w (concat ls)
  load-init w [] = refl
  load-init w (l ∷ ls) = omega (arith, load-init w ls, weigh-append w l (concat ls))

  init-Inv : Inv (init outlets)
  init-Inv = record {
    counted = count-init outlets;
    closing = λ h. cc;
    bag = λ w. omega (arith, load-init w outlets);
  }

  Step-Inv : {s t : Merge Any} → Step s t → Inv s → Inv t
  Step-Inv {s} (receive fs fs' e es h) inv = record {
    counted = omega (
      arith,
      inv.counted,
      weigh_swap active s.forwarders fs fs' (ranging (e ∷ es)) (holding e es) h,
    );
    closing = inv.closing;
    bag = λ w. omega (
      arith,
      inv.bag w,
      weigh_swap (load w) s.forwarders fs fs' (ranging (e ∷ es)) (holding e es) h,
    );
  }
  Step-Inv {s} (deliver fs fs' e es h o) inv = record {
    counted =
        omega
          (arith, inv.counted, weigh_swap active s.forwarders fs fs' (holding e es) (ranging es) h);
    closing = λ c. cc;
    bag = λ w. omega (
      arith,
      inv.bag w,
      weigh_swap (load w) s.forwarders fs fs' (holding e es) (ranging es) h,
      weigh-append w s.merged.history (e ∷ []),
    );
  }
  Step-Inv {s} (done fs fs' h) inv = record {
    counted =
        omega (arith, inv.counted, weigh_swap active s.forwarders fs fs' (ranging []) exited h);
    closing = λ c. omega (arith, inv.closing c);
    bag = λ w.
        omega (arith, inv.bag w, weigh_swap (load w) s.forwarders fs fs' (ranging []) exited h);
  }
  Step-Inv (close_merged z o) inv = record {
    counted = inv.counted;
    closing = λ _. z;
    bag = inv.bag;
  }

  pub Reach-Inv : {s : Merge Any} → Reach (init outlets) s → Inv s
  Reach-Inv here = init-Inv
  Reach-Inv (next r st) = Step-Inv st (Reach-Inv r)
