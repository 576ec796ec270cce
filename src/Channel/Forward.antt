-- ===== src/Channel/Forward.antt =====
-- The forwarding loop of flow/pass_through.go and of every `transmit`.
use go_streams.Prelude.{true, false, List, [], ◌∷◌, ◌++◌, ◌≡◌, refl, append-nil, append_assoc}
use go_streams.Channel.{Chan, ok, panic, send_on_closed, close_of_closed, Fault, forward}

module _ {ℓ} {A : Type ℓ} where
  forward_from :
      (h es : List A)
      → forward es (record { history = h; closed = false })
        ≡ ok (record { history = h ++ es; closed = true })
  unfolding forward
  forward_from h [] = rw append-nil
  forward_from h (e ∷ es) = rw (forward_from (h ++ e ∷ []) es, append_assoc)

  -- The fault of a forwarding loop whose inlet is closed already.
  abbrev pub late_fault : List A → Fault
  late_fault [] = close_of_closed
  late_fault (_ ∷ _) = send_on_closed

  pub forward_late :
      (h es : List A)
      → forward es (record { history = h; closed = true })
        ≡ panic (late_fault es) (record { history = h; closed = true })
  unfolding forward
  forward_late h [] = refl
  forward_late h (e ∷ es) = refl

  pub forward_open :
      (es : List A) (inlet : Chan A)
      → inlet.closed ≡ false
      → forward es inlet ≡ ok (record { history = inlet.history ++ es; closed = true })
  forward_open es inlet open_inlet = rw (the_inlet inlet open_inlet) (forward_from inlet.history es)
    where
      the_inlet :
          (c : Chan A) → c.closed ≡ false → c ≡ record { history = c.history; closed = false }
      the_inlet c e = λ i. record { history = c.history; closed = e i }
