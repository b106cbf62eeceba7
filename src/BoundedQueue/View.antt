-- ===== src/BoundedQueue/View.antt =====
-- The items that a `BoundedQueue` holds, from top to bottom, and what one access does.
use contention_prof.Base.{
  ℕ, ◌-◌, ◌^◌, ◌≤◌, ◌<◌, ◌≡◌, ◌∙◌, ap, List, Option, none, some, arith, get_elem?, get_elem?-total,
  set, length, ok, lt→ltb,
}
use contention_prof.BoundedQueue.{BoundedQueue, slots, with_slots, construct, load, assign, destroy}
use contention_prof.BoundedQueue.Wrap.{slot}

module _ {A : Type 0} where
  -- The storage `s` holds the `count` items `xs` in a ring of `cap` slots, the top one at `start`.
  -- Capacities above 2 ^ 31 are left out, since `_start + _count` could pass 2 ^ 32 there.
  pub record View (cap start count : ℕ) (s : List (Option A)) (xs : List A) : Type 0 where
    pub counted : count ≡ length xs
    pub fits : count ≤ cap
    pub small : cap ≤ 2 ^ 31
    pub start_in : start ≤ cap - 1
    pub storage : cap ≤ length s
    pub holds : (i : ℕ) → i < count → get_elem? s (slot cap start i) ≡ some (get_elem? xs i)

  -- The queue `q` holds the items `xs`, its top first.
  abbrev pub IsQueue : BoundedQueue A → List A → Type 0
  IsQueue q xs = View q.cap q.start q.count (slots q) xs

  pub slots-with_slots :
      (q : BoundedQueue A) (s : List (Option A)) → 0 < length (slots q) → slots (with_slots q s) ≡ s
  slots-with_slots q s pos = ground arith

  pub construct-ok :
      (q : BoundedQueue A) (i : ℕ) (x : A)
      → i < length (slots q)
      → construct q i x ≡ ok (with_slots q (set (slots q) i (some x)))
  unfolding construct
  construct-ok q i x h = rw (lt→ltb _ _ h)

  pub load-ok :
      (q : BoundedQueue A) (i : ℕ) (x : A) → get_elem? (slots q) i ≡ some (some x) → load q i ≡ ok x
  unfolding load
  load-ok q i x h = rw h

  pub assign-ok :
      (q : BoundedQueue A) (i : ℕ) (x y : A)
      → get_elem? (slots q) i ≡ some (some y)
      → assign q i x ≡ ok (with_slots q (set (slots q) i (some x)))
  unfolding assign
  assign-ok q i x y h = rw (load-ok q i y h)

  pub destroy-ok :
      (q : BoundedQueue A) (i : ℕ) (y : A)
      → get_elem? (slots q) i ≡ some (some y)
      → destroy q i ≡ ok (with_slots q (set (slots q) i none))
  unfolding destroy
  destroy-ok q i y h = rw (load-ok q i y h)

  -- The `i`-th item from the top stands in its slot.
  pub holds_item :
      {cap start count : ℕ} {s : List (Option A)} {xs : List A} (i : ℕ)
      → View cap start count s xs
      → i < count
      → (x : A) × (get_elem? xs i ≡ some x) × (get_elem? s (slot cap start i) ≡ some (some x))
  holds_item {xs} i v h =
      let (x, e) = get_elem?-total xs i (omega (arith, v.counted)) in
      (x, e, v.holds i h ∙ ap some e)
