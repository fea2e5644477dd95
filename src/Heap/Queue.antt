-- ===== src/Heap/Queue.antt =====
-- `heap_push` and `heap_pop`: what each returns, on every branch.
use mathlib.Core.Bool.{Bool-set}
use mathlib.Core.List.{Mem, not-mem-nil, forall_mem-cons}
use mathlib.Core.List.Perm
use resonance.Prelude.{
  ℕ, zero, suc, ◌+◌, ◌-◌, ◌*◌, ◌/◌, ◌≤◌, ◌<◌, ◌≡◌, ◌⊎◌, refl, Bool, true, false, Option, none, some,
  List, [], ◌∷◌, ◌++◌, Perm, arith, ◌==◌, length, set, take, size_max, Returns, returns, Returns-if,
  Returns-bind, Returns-map, ok, length-append, length-take, length-set, length-perm, get_or-append,
  get_or-take, get_or-set, append-perm, set-perm, take-append-last, ap, Option-cases, inl, inr,
  ◌>>=◌,
}
use resonance.Heap.{
  Event, MinHeap, event_size, parent, grown_capacity, reserve, store_last, sift_up, heap_push,
  remove_root, heap_pop,
}
use resonance.Heap.Order.{no_event, at, NotAfter, IsHeap, load-ok, root_first}
use resonance.Heap.Up.{RisesFrom, sift_up-Sifted}
use resonance.Heap.Down.{SinksFrom, sift_down-Sifted}

-- A heap in order, within its block, whose size in bytes does not wrap.
pub record IsValid (h : MinHeap) : Type 0 where
  pub order : IsHeap h.data_
  pub bounded : length h.data_ ≤ h.capacity
  pub backed : h.capacity ≤ h.slots
  pub fits : h.capacity ≤ size_max / event_size

-- The two ends of a push: the event is in the heap, or there was no room and nothing changed.
pub data Pushed (realloc_ok : Bool) (h : MinHeap) (value : Event)
    : Bool × Option MinHeap → Type 0 where
  stored :
      {g : MinHeap}
      → IsValid g
      → Perm g.data_ (value ∷ h.data_)
      → Pushed realloc_ok h value (true, some g)
  refused :
      length h.data_ ≡ h.capacity
      → (realloc_ok ≡ false) ⊎ (size_max / event_size < h.capacity * 2)
      → Pushed realloc_ok h value (false, some h)

-- The two ends of a pop: an event that none precedes, and a valid heap of the others; or nothing,
-- of an empty heap.
pub data Popped (h : MinHeap) : Option Event × Option MinHeap → Type 0 where
  taken :
      {e : Event} {g : MinHeap}
      → IsValid g
      → Perm (e ∷ g.data_) h.data_
      → ((t : Event) → Mem t h.data_ → NotAfter e t)
      → g.capacity ≡ h.capacity
      → Popped h (some e, some g)
  nothing : h.data_ ≡ [] → Popped h (none, some h)

reserve-some :
    (realloc_ok : Bool) (h : MinHeap) {g : MinHeap}
    → IsValid h
    → reserve realloc_ok h ≡ some g
    → (g.data_ ≡ h.data_)
      × (length h.data_ < g.capacity)
      × (g.capacity ≤ g.slots)
      × (g.capacity ≤ size_max / event_size)
unfolding reserve grown_capacity
reserve-some realloc_ok h v e = ground arith

reserve-none :
    (realloc_ok : Bool) (h : MinHeap)
    → IsValid h
    → reserve realloc_ok h ≡ none
    → (length h.data_ ≡ h.capacity)
      × ((realloc_ok ≡ false) ⊎ (size_max / event_size < h.capacity * 2))
unfolding reserve grown_capacity
reserve-none realloc_ok h v e = ground arith

appended-RisesFrom : (a : List Event) (x : Event) → IsHeap a → RisesFrom (a ++ x ∷ []) (length a)
appended-RisesFrom a x heap =
    let size : length (a ++ x ∷ []) ≡ length a + 1 = length-append a (x ∷ []) in
    record {
      inside = omega (arith, size);
      edges = λ c p q n.
          rw
            (
              get_or-append a (x ∷ []) c no_event (omega (arith, size)),
              get_or-append a (x ∷ []) (parent c) no_event (omega (arith, size)),
            )
            (heap c p (omega (arith, size)));
      bridged = λ c p q e r. absurd (omega (arith, size));
    }

store_last-ok :
    (g : MinHeap) (value : Event)
    → length g.data_ < g.slots
    → store_last g value ≡ ok (g.data_ ++ value ∷ [])
unfolding store_last
store_last-ok g value h = ground arith

-- The rest of a push once there is room in `g`, whose events are those of `h`.
stored-Pushed :
    (realloc_ok : Bool) (h g : MinHeap) (value : Event)
    → IsValid h
    → g.data_ ≡ h.data_
    → length h.data_ < g.capacity
    → g.capacity ≤ g.slots
    → g.capacity ≤ size_max / event_size
    → Returns (Pushed realloc_ok h value) (do
      a ← store_last g value
      b ← sift_up (length g.data_ + 1) a (length g.data_)
      ok (true, some (record g { data_ = b })))
stored-Pushed realloc_ok h g value v same room backed fits =
    let size = length-append h.data_ (value ∷ []) in
    rw (store_last-ok g value (omega (arith, ap length same)), same)
      (Returns-bind
        (sift_up-Sifted (length h.data_ + 1) (h.data_ ++ value ∷ []) (length h.data_) (omega arith)
          (appended-RisesFrom h.data_ value v.order))
        λ b s. returns (
          stored
            (record {
              order = s.0;
              bounded = omega (arith, length-perm s.1, size);
              backed = backed;
              fits = fits;
            })
            (Perm.trans s.1 (append-perm h.data_ value))))

-- `heap_push` on a valid heap always returns: it stores the event in a valid heap that holds it
-- and the old events, or refuses, with the heap unchanged, which happens only if the heap is full
-- and `realloc` fails or twice the capacity is too much.
pub heap_push-Pushed :
    (realloc_ok : Bool) (h : MinHeap) (value : Event)
    → IsValid h
    → Returns (Pushed realloc_ok h value) (heap_push realloc_ok (some h) value)
unfolding heap_push
heap_push-Pushed realloc_ok h value v = elim (Option-cases (reserve realloc_ok h)) [
  | inl e ↦
      let why = reserve-none realloc_ok h v e in rw (e, heap_push) (returns (refused why.0 why.1))
  | inr (g, e) ↦
      let (same, room, backed, fits) = reserve-some realloc_ok h v e in
      rw (e, heap_push) (stored-Pushed realloc_ok h g value v same room backed fits)
]

-- The array that the loop of `heap_pop` starts from.
abbrev rooted : List Event → ℕ → List Event
rooted a n = set (take n a) 0 (at a n)

module _ (a : List Event) (n : ℕ) (size : length a ≡ suc n) (pos : 0 < n) where
  length-rooted : length (rooted a n) ≡ n
  length-rooted = omega (arith, length-set (take n a) 0 (at a n), length-take n a)

  rooted-perm : Perm (at a 0 ∷ rooted a n) a
  rooted-perm =
      let old : at (take n a) 0 ≡ at a 0 = get_or-take n a 0 no_event pos in
      let moved =
        rw old at (set-perm (take n a) 0 (at a n) no_event (omega (arith, length-take n a))) in
      Perm.trans moved
        (rw (take-append-last n a no_event size) at (Perm.symm (append-perm (take n a) (at a n))))

  rooted-SinksFrom : IsHeap a → SinksFrom (rooted a n) 0
  rooted-SinksFrom heap =
      let read =
        λ (c : ℕ). get_or-set (take n a) 0 c (at a n) no_event (omega (arith, length-take n a)) in
      let kept = λ (c : ℕ). get_or-take n a c no_event in
      let room = length-rooted in
      record {
        edges = λ c p q r. ground (arith, read c, read (parent c), kept c, kept (parent c), heap c);
        bridged = λ c p q e r. absurd (omega arith);
      }

remove_root-Sifted :
    (a : List Event) (n : ℕ)
    → length a ≡ suc n
    → IsHeap a
    → Returns (λ b. IsHeap b × Perm (at a 0 ∷ b) a) (remove_root a)
unfolding remove_root
remove_root-Sifted (x ∷ []) zero size heap = returns (λ c p q. absurd (omega arith), Perm.refl _)
remove_root-Sifted (x ∷ y ∷ a) n size heap =
    let a' = x ∷ y ∷ a in
    let pos : 0 < n = omega arith in
    let last : length a' - 1 ≡ n = omega arith in
    rw (last, load-ok a' n (omega arith))
      (Returns-if (n == 0) (λ e. absurd (ground arith))
        (λ _.
          Returns-map
            (sift_down-Sifted (n + 1) (rooted a' n) 0 (omega (arith, length-rooted a' n size pos))
              (omega (arith, length-rooted a' n size pos)) (rooted-SinksFrom a' n size pos heap))
            λ b s. (s.0, Perm.trans (Perm.cons _ s.1) (rooted-perm a' n size pos))))
remove_root-Sifted a n size heap = absurd (omega arith)

-- Whatever is in a heap does not come before the root.
root_first_mem :
    (a : List Event) (e : Event)
    → ((i : ℕ) → i < length a → NotAfter e (at a i))
    → (t : Event) → Mem t a
    → NotAfter e t
root_first_mem [] e h = λ t m. absurd (not-mem-nil m)
root_first_mem (x ∷ a) e h =
    (forall_mem-cons λ t. Bool-set _ _).1
      (h 0 (omega arith), root_first_mem a e λ i p. h (suc i) (omega arith))

-- `heap_pop` on a valid heap always returns: an event of the heap that no other precedes by
-- (time, sequence), with a valid heap of the others, or nothing if the heap is empty.
pub heap_pop-Popped : (h : MinHeap) → IsValid h → Returns (Popped h) (heap_pop (some h))
unfolding heap_pop
heap_pop-Popped h v =
    Returns-if (length h.data_ == 0) (λ none_left. returns (nothing (grind arith)))
      λ some_left.
        let n = length h.data_ - 1 in
        let size : length h.data_ ≡ suc n = ground arith in
        rw (load-ok h.data_ 0 (omega arith)) (
          Returns-bind (remove_root-Sifted h.data_ n size v.order) λ b s. returns (
            taken
              (record {
                order = s.0;
                bounded = omega (arith, length-perm s.1, v.bounded);
                backed = v.backed;
                fits = v.fits;
              })
              s.1 (root_first_mem h.data_ (at h.data_ 0) λ i. root_first h.data_ i v.order) refl))
