-- ===== src/BoundedQueue/Refine.antt =====
-- A valid `BoundedQueue` against the bounded list of its items.
use contention_prof.Base.{
  ◌≤◌, ◌<◌, ◌≡◌, refl, List, [], ◌∷◌, ◌++◌, true, false, arith, length, inl, inr, ltb, Bool-cases,
  ok, ltb→lt, ltb_false→le, drop, ◌==◌, lt→ltb,
}
use contention_prof.BoundedQueue.{BoundedQueue, push, elim_push, push_top, pop_into}
use contention_prof.BoundedQueue.View.{IsQueue}
use contention_prof.BoundedQueue.Ends.{
  Yields, push-room, elim_push-room, elim_push-full, push_top-room, pop_into-cons,
}
use contention_prof.BoundedQueue.Deque

module _ {A : Type 0} (q : BoundedQueue A) where
  -- On a queue that holds a list of items, push returns the flag of the bounded list and leaves a
  -- queue of the same capacity that holds its new items.
  pub push_refines :
      (xs : List A) (x : A)
      → IsQueue q xs
      → let (r, ys) = Deque.push q.cap xs x in Yields (push q x) r q.cap ys
  unfolding Deque.push push
  push_refines xs x v = elim (Bool-cases (ltb q.count q.cap)) [
    | inl room ↦
        rw (lt→ltb (length xs) q.cap (ground (arith, v.counted)))
          (push-room q xs x v (ltb→lt _ _ room))
    | inr full ↦
        let full' : ltb (length xs) q.cap ≡ false = ground (arith, v.counted) in
        rw (full, full') (q, refl, refl, v)
  ]

  -- push_top returns the flag of the bounded list and leaves a queue of the same capacity that
  -- holds its new items.
  pub push_top_refines :
      (xs : List A) (x : A)
      → IsQueue q xs
      → let (r, ys) = Deque.push_top q.cap xs x in Yields (push_top q x) r q.cap ys
  unfolding Deque.push_top push_top
  push_top_refines xs x v = elim (Bool-cases (ltb q.count q.cap)) [
    | inl room ↦
        rw (lt→ltb (length xs) q.cap (ground (arith, v.counted)))
          (push_top-room q xs x v (ltb→lt _ _ room))
    | inr full ↦
        let full' : ltb (length xs) q.cap ≡ false = ground (arith, v.counted) in
        rw (full, full') (q, refl, refl, v)
  ]

  -- On a queue of some capacity elim_push never fails: it adds the item at the bottom, and a full
  -- queue loses its top item for it.
  pub elim_push_refines :
      (xs : List A) (x : A)
      → IsQueue q xs
      → 0 < q.cap
      → (q' : BoundedQueue A) × (elim_push q x ≡ ok q')
        × (q'.cap ≡ q.cap)
        × IsQueue q' (Deque.elim_push q.cap xs x)
  unfolding Deque.elim_push
  elim_push_refines xs x v pos = elim (Bool-cases (ltb q.count q.cap)) [
    | inl room ↦
        rw (lt→ltb (length xs) q.cap (ground (arith, v.counted)))
          (elim_push-room q xs x v (ltb→lt _ _ room))
    | inr full ↦
        let full' : ltb (length xs) q.cap ≡ false = ground (arith, v.counted) in
        rw full' (at_full xs v (ltb_false→le _ _ full))
  ]
    where
      at_full :
          (xs : List A)
          → IsQueue q xs
          → q.cap ≤ q.count
          → (q' : BoundedQueue A) × (elim_push q x ≡ ok q')
            × (q'.cap ≡ q.cap)
            × IsQueue q' (drop 1 xs ++ (x ∷ []))
      at_full [] v full = absurd (omega (arith, v.counted))
      at_full (y ∷ ys) v full = elim_push-full q y ys x v (omega (arith, v.fits))

  -- pop returns the flag and the item of the bounded list, and leaves a queue of the same capacity
  -- that holds the rest.
  pub pop_refines :
      (xs : List A) → IsQueue q xs → let (r, ys) = Deque.pop xs in Yields (pop_into q) r q.cap ys
  unfolding Deque.pop pop_into
  pop_refines [] v =
      let none_left : (q.count == 0) ≡ true = ground (arith, v.counted) in
      rw none_left (q, refl, refl, v)
  pop_refines (y ∷ ys) v = pop_into-cons q y ys v
