-- ===== src/Examples/Sliding.antt =====
-- Runs of the sliding window (flow/sliding_window.go), with an insertion sort for `sort.Slice`.
use go_streams.Prelude.{
  ℕ, ◌+◌, ◌*◌, ◌≤◌, ◌<◌, true, false, some, List, [], ◌∷◌, ◌++◌, ◌≡◌, refl, arith, ℤ, SameBag,
  weigh, All, keep, concat, leb, Bool-cases, inl, inr, if◌then◌else◌,
}
use go_streams.Channel.{ok, make_chan}
use go_streams.SlidingWindow.{
  TimedElement, SlidingWindow, first_element, extract_window_elements, dispatch_window, on_done,
}
use go_streams.SlidingWindow.Extract.{
  IsSorted, not_after, after, elements_of, extract_window_elements_lem,
}
use go_streams.SlidingWindow.Windows.{
  Sorting, chunk, dispatch_times, dispatch_window_effect, dispatch_times_no_loss,
}
use go_streams.SlidingWindow.Boundary.{first_element_dropped}
use go_streams.SlidingWindow.Shutdown.{on_done_effect}

module _ {T : Type 0} where
  insert : TimedElement T → List (TimedElement T) → List (TimedElement T)
  insert e [] = e ∷ []
  insert e (f ∷ q) =
      let rest = insert e q in if leb e.event_time f.event_time then e ∷ f ∷ q else f ∷ rest

  insertion_sort : List (TimedElement T) → List (TimedElement T)
  insertion_sort [] = []
  insertion_sort (e ∷ q) = insert e (insertion_sort q)

  insert-SameBag : (e : TimedElement T) (q : List (TimedElement T)) → SameBag (insert e q) (e ∷ q)
  unfolding insert
  insert-SameBag e [] w = refl
  insert-SameBag e (f ∷ q) w = ground (arith, insert-SameBag e q w)

  insertion_sort-SameBag : (q : List (TimedElement T)) → SameBag (insertion_sort q) q
  unfolding insertion_sort
  insertion_sort-SameBag [] w = refl
  insertion_sort-SameBag (e ∷ q) w =
      omega (arith, insert-SameBag e (insertion_sort q) w, insertion_sort-SameBag q w)

  abbrev AllFrom : ℕ → List (TimedElement T) → Type 0
  AllFrom low q = All (λ (f : TimedElement T). low ≤ f.event_time) q

  AllFrom-lower :
      (low high : ℕ) (q : List (TimedElement T)) → low ≤ high → AllFrom high q → AllFrom low q
  AllFrom-lower low high [] le h = tt
  AllFrom-lower low high (e ∷ q) le (he, h) = (omega arith, AllFrom-lower low high q le h)

  insert-AllFrom :
      (low : ℕ) (e : TimedElement T) (q : List (TimedElement T))
      → low ≤ e.event_time
      → AllFrom low q
      → AllFrom low (insert e q)
  unfolding insert
  insert-AllFrom low e [] le h = (le, tt)
  insert-AllFrom low e (f ∷ q) le (hf, h) = elim (Bool-cases (leb e.event_time f.event_time)) [
    | inl first ↦ rw (first, insert) (le, (hf, h))
    | inr later ↦ rw (later, insert) (hf, insert-AllFrom low e q le h)
  ]

  insert-IsSorted :
      (e : TimedElement T) (q : List (TimedElement T)) → IsSorted q → IsSorted (insert e q)
  unfolding insert
  insert-IsSorted e [] s = (tt, tt)
  insert-IsSorted e (f ∷ q) (hf, s) = elim (Bool-cases (leb e.event_time f.event_time)) [
    | inl first ↦
        let le : e.event_time ≤ f.event_time = ground arith in
        rw (first, insert) ((le, AllFrom-lower e.event_time f.event_time q le hf), (hf, s))
    | inr later ↦
        rw (later, insert)
          (insert-AllFrom f.event_time e q (ground arith) hf, insert-IsSorted e q s)
  ]

  insertion_sort-IsSorted : (q : List (TimedElement T)) → IsSorted (insertion_sort q)
  unfolding insertion_sort
  insertion_sort-IsSorted [] = tt
  insertion_sort-IsSorted (e ∷ q) = insert-IsSorted e (insertion_sort q) (insertion_sort-IsSorted q)

  abbrev sorting : Sorting T
  sorting = record {
    sort = insertion_sort;
    sort-IsSorted = insertion_sort-IsSorted;
    sort-SameBag = insertion_sort-SameBag;
  }

-- An element with its event time.
abbrev at : ℕ → TimedElement ℕ
at time = record { element = time; event_time = time }

-- Windows of 10 every 5, elements being their own event times, from the boundary 20 on.
abbrev tens : List (TimedElement ℕ) → SlidingWindow ℕ
tens q = record {
  window_size = 10;
  sliding_interval = 5;
  lower_boundary = 20;
  queue = q;
  out = make_chan;
  opts = record {
    event_time_extractor = some (λ t. t);
    emit_partial_window = false;
    allowed_lateness = 0;
  };
}

abbrev unsorted : List (TimedElement ℕ)
unsorted = at 33 ∷ at 21 ∷ at 27 ∷ []

abbrev in_order : List (TimedElement ℕ)
in_order = at 21 ∷ at 27 ∷ at 33 ∷ []

extract_window_elements_example : extract_window_elements (tens in_order) ≡ (
  elements_of (keep (not_after (20 + 10)) in_order),
  record (tens in_order) { lower_boundary = 20 + 5; queue = keep (after (20 + 5)) in_order },
)
extract_window_elements_example =
    extract_window_elements_lem (tens in_order)
      ((omega arith, (omega arith, tt)), ((omega arith, tt), (tt, tt))) (omega arith)

dispatch_window_effect_example :
    (sw' : SlidingWindow ℕ) × (w : List (TimedElement ℕ)) × (dispatch_window insertion_sort
        (tens unsorted)
      ≡ ok sw')
    × (sw'.out.history ≡ [] ++ chunk sorting (elements_of w))
    × SameBag w (keep (not_after (20 + 10)) unsorted)
    × SameBag sw'.queue (keep (after (20 + 5)) unsorted)
    × (sw'.lower_boundary ≡ 20 + 5)
dispatch_window_effect_example = dispatch_window_effect sorting (tens unsorted) (omega arith) refl

dispatch_times_no_loss_example :
    (sw' : SlidingWindow ℕ) × (dispatch_times sorting 2 (tens unsorted) ≡ ok sw')
    × (sw'.out.closed ≡ false)
    × ((w : ℕ → ℕ)
        → weigh w (concat [])
            + weigh
                (λ (e : TimedElement ℕ). w e.element)
                (keep (not_after (20 + 1 * 5 + 10)) unsorted)
          ≤ weigh w (concat sw'.out.history))
dispatch_times_no_loss_example = dispatch_times_no_loss sorting 1 (tens unsorted) (omega arith) refl

first_element_dropped_example :
    (sw' : SlidingWindow ℕ) × (delta : ℤ) × (first_element 100 0 0 23 (tens []) ≡ some (sw', delta))
    × (sw'.queue ≡ [])
    × (23 < sw'.lower_boundary)
first_element_dropped_example =
    first_element_dropped 100 (tens []) 0 0 23 (λ t. t) refl (omega arith) (omega arith)
      (omega arith) (omega arith)

on_done_effect_example :
    ((sw' : SlidingWindow ℕ) × (w : List (TimedElement ℕ)) × (on_done insertion_sort true
          (tens unsorted)
        ≡ ok sw')
      × (sw'.out ≡ record { history = [] ++ chunk sorting (elements_of w); closed = true })
      × ((v : TimedElement ℕ → ℕ)
          → weigh v w + weigh v (keep (after (20 + 10)) unsorted) ≡ weigh v unsorted))
    × (on_done insertion_sort false (tens unsorted)
        ≡ ok (record (tens unsorted) { out = record { history = []; closed = true } }))
on_done_effect_example = on_done_effect sorting (tens unsorted) (omega arith) refl
