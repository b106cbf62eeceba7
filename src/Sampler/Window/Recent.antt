-- ===== src/Sampler/Window/Recent.antt =====
-- The samples of a queue from the bottom, as addresses and as a list.
use contention_prof.Base.{
  arith, ℕ, ◌-◌, ◌≤◌, ◌<◌, ◌≡◌, ◌≢◌, sym, ap, ◌∙◌, false, List, some, ok, ltb, ◌==◌, if◌then◌else◌,
  length, get_elem?, reverse, length-reverse, get_elem?-reverse, inl, inr, Bool-cases, ltb→lt,
  ltb_false→le, ne→==_false,
}
use contention_prof.BoundedQueue.{BoundedQueue, bottom, bottom_at, top, load}
use contention_prof.BoundedQueue.View.{IsQueue, load-ok, holds_item}
use contention_prof.BoundedQueue.Wrap.{slot}
use contention_prof.BoundedQueue.Index.{bottom_at-slot, bottom_at-null, top-bottom_zero}
use contention_prof.Sampler.Window.{find_oldest}

-- different places of a queue are different slots
slot-ne :
    (cap start i j : ℕ)
    → start ≤ cap - 1
    → i < cap
    → j < cap
    → i ≢ j
    → slot cap start i ≢ slot cap start j
slot-ne cap start i j s hi hj ne e = ne (ground arith)

-- The queue holds the items `l`, the latest first.
module _ {A : Type 0} (q : BoundedQueue A) (l : List A) (v : IsQueue q (reverse l)) where
  -- the address of the item `i` from the bottom
  abbrev pub place : ℕ → ℕ
  place i = slot q.cap q.start (q.count - 1 - i)

  pub count-length : q.count ≡ length l
  count-length = v.counted ∙ length-reverse l

  pub bottom-place : (i : ℕ) → i < length l → bottom_at q i ≡ ok (some (place i))
  bottom-place i h = bottom_at-slot q (reverse l) v i (omega (arith, count-length))

  pub load-place : (i : ℕ) (x : A) → get_elem? l i ≡ some x → i < length l → load q (place i) ≡ ok x
  load-place i x e h =
      let n = count-length in
      let (y, f, at) = holds_item (q.count - 1 - i) v (omega arith) in
      let same : q.count - 1 - i ≡ length l - 1 - i = omega arith in
      let found : some y ≡ some x =
        sym f ∙ ap (get_elem? (reverse l)) same ∙ get_elem?-reverse l i h ∙ e in
      load-ok q (place i) x (at ∙ ap some found)

  pub place-ne : (i j : ℕ) → i < length l → j < length l → i ≢ j → (place i == place j) ≡ false
  place-ne i j hi hj ne =
      let n = count-length in
      ne→==_false _ _ (
        slot-ne q.cap q.start (q.count - 1 - i) (q.count - 1 - j) v.start_in (omega (arith, v.fits))
          (omega (arith, v.fits)) (λ e. ne (omega arith)))

  pub bottom-first : 0 < length l → bottom q ≡ ok (some (place 0))
  bottom-first pos = (top-bottom_zero q (reverse l) v).1 ∙ bottom-place 0 pos

  -- find_oldest is the item `window` from the bottom, or the top one
  pub find_oldest-place :
      (window : ℕ)
      → 0 < length l
      → find_oldest window q
        ≡ ok (some (place (if ltb window (length l) then window else length l - 1)))
  unfolding find_oldest top
  find_oldest-place window pos = elim (Bool-cases (ltb window (length l))) [
    | inl inside ↦ rw (bottom-place window (ltb→lt _ _ inside), inside)
    | inr outside ↦
        let n = count-length in
        let some_here : (q.count == 0) ≡ false = ground arith in
        let first : q.start ≡ place (length l - 1) = ground (arith, v.start_in, v.fits) in
        rw
          (
            bottom_at-null q (reverse l) v window (omega (arith, ltb_false→le _ _ outside)),
            outside,
            some_here,
          )
          (ap (λ a. ok (some a)) first)
  ]
