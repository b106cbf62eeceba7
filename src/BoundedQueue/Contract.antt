-- ===== src/BoundedQueue/Contract.antt =====
-- What a queue that holds a list of items promises, operation by operation.
use contention_prof.Base.{
  ℕ, ◌+◌, ◌≤◌, ◌<◌, ◌≡◌, ◌⊎◌, List, [], ◌∷◌, ◌++◌, some, none, true, ok, fault, ◌>>=◌, length,
  get_elem?, inl, inr, ltb, Bool-cases, ltb→lt, ltb_false→le,
}
use contention_prof.BoundedQueue.{
  BoundedQueue, slots, push, elim_push, push_top, pop_into, pop_bottom, pop_bottom_into, clear,
  top_at, bottom_at, peek,
}
use contention_prof.BoundedQueue.Deque
use contention_prof.BoundedQueue.View.{IsQueue}
use contention_prof.BoundedQueue.Wrap.{slot}
use contention_prof.BoundedQueue.Ends.{Yields}
use contention_prof.BoundedQueue.Refine.{
  push_refines, push_top_refines, elim_push_refines, pop_refines,
}
use contention_prof.BoundedQueue.Index.{from_bottom, top_at_refines, bottom_at_refines}
use contention_prof.BoundedQueue.Clear.{clear_refines}
use contention_prof.BoundedQueue.Bottom.{pop_bottom_into-unwrapped, pop_bottom-wrapped}

module _ {A : Type 0} (q : BoundedQueue A) where
  -- On a queue of some capacity that holds a list of items, push, push_top, pop and elim_push
  -- return the flag and the item of the bounded list and leave a queue of the same capacity that
  -- holds its new items, and clear leaves an empty one in whose slots nothing is left of the
  -- items. None of them fails.
  pub operations-refine :
      (xs : List A) (x : A)
      → IsQueue q xs
      → 0 < q.cap
      → (let (r, ys) = Deque.push q.cap xs x in Yields (push q x) r q.cap ys)
        × (let (r, ys) = Deque.push_top q.cap xs x in Yields (push_top q x) r q.cap ys)
        × (let (r, ys) = Deque.pop xs in Yields (pop_into q) r q.cap ys)
        × ((q' : BoundedQueue A) × (elim_push q x ≡ ok q')
            × (q'.cap ≡ q.cap)
            × IsQueue q' (Deque.elim_push q.cap xs x))
        × ((q' : BoundedQueue A) × (clear q ≡ ok q')
            × (q'.cap ≡ q.cap)
            × IsQueue q' []
            × ((i : ℕ) → i < q.count → get_elem? (slots q') (slot q.cap q.start i) ≡ some none))
  operations-refine xs x v pos = (
    push_refines q xs x v,
    push_top_refines q xs x v,
    pop_refines q xs v,
    elim_push_refines q xs x v pos,
    clear_refines q xs v,
  )

  -- For every index, top(index) and bottom(index) are the address of the item so far from the
  -- top and from the bottom, and NULL past the last.
  pub lookups-refine :
      (xs : List A) (index : ℕ)
      → IsQueue q xs
      → ((top_at q index >>= peek q) ≡ ok (get_elem? xs index))
        × ((bottom_at q index >>= peek q) ≡ ok (from_bottom xs index))
  lookups-refine xs index v = (top_at_refines q xs v index, bottom_at_refines q xs v index)

  -- On a queue that fills its storage and holds items: when they do not go round the end of the
  -- storage, pop_bottom(T*) takes the last one and leaves a queue of the others; when they do,
  -- pop_bottom and pop_bottom(T*) touch memory outside of the storage.
  pub pop_bottom-cases :
      (ys : List A) (y : A)
      → IsQueue q (ys ++ (y ∷ []))
      → length (slots q) ≡ q.cap
      → ((q.start + q.count ≤ q.cap) × Yields (pop_bottom_into q) (true, some y) q.cap ys)
        ⊎ ((q.cap < q.start + q.count) × (pop_bottom q ≡ fault) × (pop_bottom_into q ≡ fault))
  pop_bottom-cases ys y v exact = elim (Bool-cases (ltb q.cap (q.start + q.count))) [
    | inl round ↦
        let lt : q.cap < q.start + q.count = ltb→lt _ _ round in
        let (plain, into) = pop_bottom-wrapped q (ys ++ (y ∷ [])) v exact lt in
        inr (lt, plain, into)
    | inr flat ↦
        let le : q.start + q.count ≤ q.cap = ltb_false→le _ _ flat in
        inl (le, pop_bottom_into-unwrapped q ys y v le)
  ]
