-- ===== src/SlidingWindow/Windows.antt =====
-- Which elements the windows hold (flow/sliding_window.go, dispatchWindow), for any sorting of the
-- queue.
use go_streams.Prelude.{
  ℕ, zero, suc, ◌+◌, ◌*◌, ◌≤◌, Bool, false, List, [], ◌∷◌, ◌++◌, ◌≡◌, refl, sym, ◌∙◌, ap, arith,
  append-nil, weigh, weigh-append, SameBag, concat, concat-append, keep, if◌then◌else◌,
}
use go_streams.Channel.{Outcome, ok, ◌>>=◌}
use go_streams.SlidingWindow.{TimedElement, SlidingWindow, send_window, dispatch_window}
use go_streams.SlidingWindow.Extract.{
  IsSorted, not_after, after, elements_of, extract_window_elements_lem,
}

-- What `sort.Slice` promises: the same elements, in order. Elements of one time may change places.
pub record Sorting (T : Type 0) : Type 0 where
  pub sort : List (TimedElement T) → List (TimedElement T)
  pub sort-IsSorted : (q : List (TimedElement T)) → IsSorted (sort q)
  pub sort-SameBag : (q : List (TimedElement T)) → SameBag (sort q) q

weigh-keep {ℓ} :
    {A : Type ℓ} (w : A → ℕ) (p : A → Bool) (xs : List A)
    → weigh w (keep p xs) ≡ weigh (λ x. if p x then w x else 0) xs
weigh-keep w p [] = refl
weigh-keep w p (x ∷ xs) = ground (arith, weigh-keep w p xs)

module _ {T : Type 0} (sorting : Sorting T) where
  open sorting use {sort, sort-IsSorted, sort-SameBag}

  weigh-elements_of :
      (w : T → ℕ) (q : List (TimedElement T))
      → weigh w (elements_of q) ≡ weigh (λ (e : TimedElement T). w e.element) q
  weigh-elements_of w [] = refl
  weigh-elements_of w (e ∷ q) = omega (arith, weigh-elements_of w q)

  -- The windows that one dispatch sends: none, if the window is empty.
  abbrev pub chunk : List T → List (List T)
  chunk [] = []
  chunk (x ∷ xs) = (x ∷ xs) ∷ []

  concat-chunk : (xs : List T) → concat (chunk xs) ≡ xs
  concat-chunk [] = refl
  concat-chunk (x ∷ xs) = append-nil (x ∷ xs)

  send_window-open :
      (xs : List T) (sw : SlidingWindow T)
      → sw.out.closed ≡ false
      → send_window xs sw
        ≡ ok (record sw { out = record { history = sw.out.history ++ chunk xs; closed = false } })
  unfolding send_window
  send_window-open [] sw open_out = ground (arith, append-nil sw.out.history)
  send_window-open (x ∷ xs) sw open_out = rw open_out

  -- The window that a dispatch takes, with its times.
  abbrev pub window : SlidingWindow T → List (TimedElement T)
  window sw = keep (not_after (sw.lower_boundary + sw.window_size)) (sort sw.queue)

  abbrev pub dispatched : SlidingWindow T → SlidingWindow T
  dispatched sw = record sw {
    lower_boundary = sw.lower_boundary + sw.sliding_interval;
    queue = keep (after (sw.lower_boundary + sw.sliding_interval)) (sort sw.queue);
    out = record { history = sw.out.history ++ chunk (elements_of (window sw)); closed = false };
  }

  pub dispatch_window_lem :
      (sw : SlidingWindow T)
      → sw.sliding_interval ≤ sw.window_size
      → sw.out.closed ≡ false
      → dispatch_window sort sw ≡ ok (dispatched sw)
  unfolding dispatch_window
  dispatch_window_lem sw fits open_out =
      rw
        (extract_window_elements_lem (record sw { queue = sort sw.queue }) (sort-IsSorted sw.queue)
          fits)
        (send_window-open _ _ open_out)

  pub keep-SameBag :
      (p : TimedElement T → Bool) (q : List (TimedElement T)) → SameBag (keep p (sort q)) (keep p q)
  keep-SameBag p q w = weigh-keep w p (sort q) ∙ sort-SameBag q _ ∙ sym (weigh-keep w p q)

  -- What lies up to `last` is in the window up to `upper`, or stays behind `lower`.
  window_or_left :
      (v : TimedElement T → ℕ) (lower upper last : ℕ)
      → lower ≤ upper
      → (xs : List (TimedElement T))
      → weigh v (keep (not_after last) xs)
        ≤ weigh v (keep (not_after upper) xs)
          + weigh v (keep (not_after last) (keep (after lower) xs))
  window_or_left v lower upper last le [] = omega arith
  window_or_left v lower upper last le (x ∷ xs) =
      ground (arith, window_or_left v lower upper last le xs)

  weigh-sent :
      (w : T → ℕ) (history : List (List T)) (q : List (TimedElement T))
      → weigh w (concat (history ++ chunk (elements_of q)))
        ≡ weigh w (concat history) + weigh (λ (e : TimedElement T). w e.element) q
  weigh-sent w history q = omega (
    arith,
    ap (weigh w) (concat-append history (chunk (elements_of q))),
    weigh-append w (concat history) (concat (chunk (elements_of q))),
    ap (weigh w) (concat-chunk (elements_of q)),
    weigh-elements_of w q,
  )

  -- A dispatch on an open channel sends one window, unless it is empty, with the queued elements up to
  -- the upper boundary; it keeps those after the new lower boundary in the queue, and moves the lower
  -- boundary on by the sliding interval. Both hold up to the order of the elements.
  pub dispatch_window_effect :
      (sw : SlidingWindow T)
      → sw.sliding_interval ≤ sw.window_size
      → sw.out.closed ≡ false
      → (sw' : SlidingWindow T) × (w : List (TimedElement T)) × (dispatch_window sort sw ≡ ok sw')
        × (sw'.out.history ≡ sw.out.history ++ chunk (elements_of w))
        × SameBag w (keep (not_after (sw.lower_boundary + sw.window_size)) sw.queue)
        × SameBag sw'.queue (keep (after (sw.lower_boundary + sw.sliding_interval)) sw.queue)
        × (sw'.lower_boundary ≡ sw.lower_boundary + sw.sliding_interval)
  dispatch_window_effect sw fits open_out = (
    dispatched sw,
    window sw,
    dispatch_window_lem sw fits open_out,
    refl,
    keep-SameBag (not_after (sw.lower_boundary + sw.window_size)) sw.queue,
    keep-SameBag (after (sw.lower_boundary + sw.sliding_interval)) sw.queue,
    refl,
  )

  -- `n` dispatches with no arrival in between.
  abbrev pub dispatch_times : ℕ → SlidingWindow T → Outcome (SlidingWindow T)
  dispatch_times zero sw = ok sw
  dispatch_times (suc n) sw = dispatch_window sort sw >>= λ sw'. dispatch_times n sw'

  -- Over `n + 1` dispatches with no arrival between them, where the sliding interval is at most the
  -- window size and the output is open: none of them panics, and no element that is queued before
  -- the first one and lies up to the upper boundary of the last one is lost. Each is sent in at
  -- least one window, whatever the order of the queue.
  pub dispatch_times_no_loss :
      (n : ℕ) (sw : SlidingWindow T)
      → sw.sliding_interval ≤ sw.window_size
      → sw.out.closed ≡ false
      → (sw' : SlidingWindow T) × (dispatch_times (suc n) sw ≡ ok sw')
        × (sw'.out.closed ≡ false)
        × ((w : T → ℕ)
            → weigh w (concat sw.out.history)
                + weigh
                    (λ (e : TimedElement T). w e.element)
                    (keep
                      (not_after (sw.lower_boundary + n * sw.sliding_interval + sw.window_size))
                      sw.queue)
              ≤ weigh w (concat sw'.out.history))
  dispatch_times_no_loss zero sw fits open_out = (
    dispatched sw,
    rw (dispatch_window_lem sw fits open_out),
    refl,
    λ w. omega (
      arith,
      weigh-sent w sw.out.history (window sw),
      keep-SameBag (not_after (sw.lower_boundary + sw.window_size)) sw.queue (λ e. w e.element),
      ap (λ b. weigh (λ (e : TimedElement T). w e.element) (keep (not_after b) sw.queue)) (same sw),
    ),
  )
    where
      same :
          (s : SlidingWindow T)
          → s.lower_boundary + 0 * s.sliding_interval + s.window_size
            ≡ s.lower_boundary + s.window_size
      same s = omega arith
  dispatch_times_no_loss (suc n) sw fits open_out =
      let (sw', ran, closed', more) = dispatch_times_no_loss n (dispatched sw) fits refl in
      (
        sw',
        rw (dispatch_window_lem sw fits open_out) ran,
        closed',
        λ w. omega (
          arith,
          more w,
          weigh-sent w sw.out.history (window sw),
          window_or_left (λ e. w e.element) (sw.lower_boundary + sw.sliding_interval)
              (sw.lower_boundary + sw.window_size) (bound sw) (omega arith) (sort sw.queue),
          keep-SameBag (not_after (bound sw)) sw.queue (λ e. w e.element),
          ap
              (λ b.
                weigh (λ (e : TimedElement T). w e.element)
                  (keep (not_after b) (dispatched sw).queue))
              (shift sw),
        ),
      )
    where
      bound : SlidingWindow T → ℕ
      bound s = s.lower_boundary + suc n * s.sliding_interval + s.window_size

      shift :
          (s : SlidingWindow T)
          → s.lower_boundary + s.sliding_interval + n * s.sliding_interval + s.window_size ≡ bound s
      shift s = omega arith
