-- ===== src/BoundedQueue/Bottom.antt =====
-- `pop_bottom`, which takes `_start + _count` for an address with no `_mod`.
use contention_prof.Base.{
  ℕ, suc, ◌+◌, ◌-◌, ◌≤◌, ◌<◌, ◌≡◌, refl, ◌∙◌, ap, List, [], ◌∷◌, ◌++◌, none, some, true, false,
  arith, length, length-append, get_elem?, set, get_elem?-none, get_elem?-append_length, ◌==◌,
  fault, u32,
}
use contention_prof.BoundedQueue.{
  BoundedQueue, slots, with_slots, load, destroy, pop_bottom, pop_bottom_into,
}
use contention_prof.BoundedQueue.View.{IsQueue, slots-with_slots, load-ok, destroy-ok}
use contention_prof.BoundedQueue.Wrap.{slot}
use contention_prof.BoundedQueue.Update.{View-init}
use contention_prof.BoundedQueue.Ends.{Yields}

module _ {A : Type 0} (q : BoundedQueue A) where
  -- While the items do not go round the end of the storage, pop_bottom takes the last item and
  -- leaves a queue of the others.
  pub pop_bottom_into-unwrapped :
      (ys : List A) (y : A)
      → IsQueue q (ys ++ (y ∷ []))
      → q.start + q.count ≤ q.cap
      → Yields (pop_bottom_into q) (true, some y) q.cap ys
  unfolding pop_bottom_into
  pop_bottom_into-unwrapped ys y v flat =
      let counted : q.count ≡ suc (length ys) =
        omega (arith, v.counted, length-append ys (y ∷ [])) in
      let some_left : (q.count == 0) ≡ false = ground arith in
      let q₁ = record q { count = q.count - 1 } in
      let last = slot q.cap q.start (q.count - 1) in
      let there : u32 (q.start + (q.count - 1)) ≡ last = ground (arith, v.small) in
      let item : get_elem? (slots q) last ≡ some (some y) =
        v.holds (q.count - 1) (omega arith)
        ∙ ap some (get_elem?-append_length ys y (q.count - 1) (omega arith)) in
      (
        with_slots q₁ (set (slots q) last none),
        rw (some_left, there, load-ok q₁ last y item, destroy-ok q₁ last y item),
        refl,
        rw (slots-with_slots q₁ (set (slots q) last none) (omega (arith, v.storage, v.fits)))
            (View-init y v),
      )

  load-outside : (i : ℕ) → length (slots q) ≤ i → load q i ≡ fault
  unfolding load
  load-outside i h = rw (get_elem?-none (slots q) i h)

  destroy-outside : (i : ℕ) → length (slots q) ≤ i → destroy q i ≡ fault
  unfolding destroy
  destroy-outside i h = rw (load-outside i h)

module _ {A : Type 0} (q : BoundedQueue A) (xs : List A) where
  -- Once the items go round the end of storage of exactly _cap slots, both forms of pop_bottom
  -- touch memory behind the storage.
  pub pop_bottom-wrapped :
      IsQueue q xs
      → length (slots q) ≡ q.cap
      → q.cap < q.start + q.count
      → (pop_bottom q ≡ fault) × (pop_bottom_into q ≡ fault)
  unfolding pop_bottom pop_bottom_into
  pop_bottom-wrapped v exact round =
      let some_left : (q.count == 0) ≡ false = ground (arith, v.start_in) in
      let q₁ = record q { count = q.count - 1 } in
      let same : u32 (q.start + (q.count - 1)) ≡ q.start + (q.count - 1) =
        omega (arith, v.small, v.fits, v.start_in) in
      (
        rw (some_left, destroy-outside q₁ (q.start + (q.count - 1)) (omega arith)),
        rw (some_left, same, load-outside q₁ (q.start + (q.count - 1)) (omega arith)),
      )
