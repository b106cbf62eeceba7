-- ===== src/BoundedQueue/Index.antt =====
-- Random access into a `BoundedQueue` from both sides.
use contention_prof.Base.{
  ℕ, ◌+◌, ◌-◌, ◌≤◌, ◌<◌, ◌≡◌, ◌∙◌, ap, List, Option, none, some, arith, length, get_elem?,
  get_elem?-none, inl, inr, ltb, ◌==◌, if◌then◌else◌, Bool-cases, ok, ltb→lt, ltb_false→le, ◌>>=◌,
  lt→ltb, le→ltb_false, u32, u64, sub64,
}
use contention_prof.BoundedQueue.{BoundedQueue, peek, top, top_at, bottom, bottom_at, mod_cap}
use contention_prof.BoundedQueue.View.{IsQueue, load-ok, holds_item}
use contention_prof.BoundedQueue.Wrap.{slot, mod_cap-u32, mod_cap-slot}

-- The `index`-th item counted from the bottom.
abbrev pub from_bottom {ℓ} : {A : Type ℓ} → List A → ℕ → Option A
from_bottom xs index = if ltb index (length xs) then get_elem? xs (length xs - 1 - index) else none

module _ {A : Type 0} (q : BoundedQueue A) (xs : List A) (v : IsQueue q xs) where
  pub top_at-slot :
      (index : ℕ) → index < q.count → top_at q index ≡ ok (some (slot q.cap q.start index))
  unfolding top_at
  top_at-slot index h =
      let sum : u32 (u64 (q.start + index)) ≡ u32 (q.start + index) =
        omega (arith, v.small, v.fits, v.start_in) in
      rw (
        lt→ltb _ _ h,
        sum,
        mod_cap-u32 q.cap q.start index (omega (arith, v.fits)) v.start_in (omega (arith, v.fits))
            v.small,
      )

  pub bottom_at-slot :
      (index : ℕ)
      → index < q.count
      → bottom_at q index ≡ ok (some (slot q.cap q.start (q.count - 1 - index)))
  unfolding bottom_at
  bottom_at-slot index h =
      let sum : u32 (sub64 (sub64 (u32 (q.start + q.count)) index) 1)
          ≡ q.start + (q.count - 1 - index) =
        omega (arith, v.small, v.fits, v.start_in) in
      rw (
        lt→ltb _ _ h,
        sum,
        mod_cap-slot q.cap q.start (q.count - 1 - index) (omega (arith, v.fits))
            (omega (arith, v.fits, v.start_in)) v.small,
      )

  pub bottom_at-null : (index : ℕ) → q.count ≤ index → bottom_at q index ≡ ok none
  unfolding bottom_at
  bottom_at-null index h = rw (le→ltb_false index q.count h)

  -- What the address of place `i` holds.
  pub peek-slot : (i : ℕ) → i < q.count → peek q (some (slot q.cap q.start i)) ≡ ok (get_elem? xs i)
  peek-slot i h = let (x, e, at) = holds_item i v h in rw (load-ok q (slot q.cap q.start i) x at, e)

  -- top(index) is the address of the index-th item from the top, and NULL past the last, for every
  -- index.
  pub top_at_refines : (index : ℕ) → (top_at q index >>= peek q) ≡ ok (get_elem? xs index)
  unfolding top_at
  top_at_refines index = elim (Bool-cases (ltb index q.count)) [
    | inl inside ↦ rw (top_at-slot index (ltb→lt _ _ inside)) (peek-slot index (ltb→lt _ _ inside))
    | inr outside ↦
        rw (outside, get_elem?-none xs index (omega (arith, v.counted, ltb_false→le _ _ outside)))
  ]

  -- bottom(index) is the address of the index-th item from the bottom, and NULL past the top, for
  -- every index.
  pub bottom_at_refines : (index : ℕ) → (bottom_at q index >>= peek q) ≡ ok (from_bottom xs index)
  bottom_at_refines index = elim (Bool-cases (ltb index q.count)) [
    | inl inside ↦
        let lt : index < q.count = ltb→lt _ _ inside in
        rw (bottom_at-slot index lt, lt→ltb index (length xs) (omega (arith, v.counted)))
          (peek-slot (q.count - 1 - index) (omega arith)
            ∙ ap (λ n. ok (get_elem? xs (n - 1 - index))) v.counted)
    | inr outside ↦
        let le : q.count ≤ index = ltb_false→le _ _ outside in
        rw (bottom_at-null index le, le→ltb_false index (length xs) (omega (arith, v.counted)))
  ]

  -- `top()` is `top(0)`, and `bottom()` is `bottom(0)`.
  pub top-bottom_zero : (ok (top q) ≡ top_at q 0) × (bottom q ≡ bottom_at q 0)
  unfolding top bottom top_at bottom_at
  top-bottom_zero = elim (Bool-cases (q.count == 0)) [
    | inl nothing ↦ (ground arith, ground arith)
    | inr more ↦
        let pos : 0 < q.count = ground arith in
        (
          rw (more, top_at-slot 0 pos) (ap (λ i. ok (some i)) (ground (arith, v.start_in, v.fits))),
          rw (more, lt→ltb 0 q.count pos)
              (ap (λ n. mod_cap n q.cap >>= λ i. ok (some i))
                (omega (arith, v.small, v.fits, v.start_in))),
        )
  ]
