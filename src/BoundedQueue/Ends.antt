-- ===== src/BoundedQueue/Ends.antt =====
-- The operations at the two ends of a `BoundedQueue`, against the list of its items.
use contention_prof.Base.{
  ℕ, ◌+◌, ◌-◌, ◌<◌, ◌≡◌, refl, sym, ◌∙◌, ap, List, [], ◌∷◌, ◌++◌, none, some, true, false, arith,
  lt→ltb, get_elem?, set, length, ltb, ◌==◌, if◌then◌else◌, Outcome, ok, u32,
}
use contention_prof.BoundedQueue.{
  BoundedQueue, slots, with_slots, push, elim_push, push_top, before_start, pop, pop_into, mod_cap,
}
use contention_prof.BoundedQueue.Wrap.{slot, mod_cap-u32}
use contention_prof.BoundedQueue.View.{
  IsQueue, slots-with_slots, construct-ok, assign-ok, load-ok, destroy-ok,
}
use contention_prof.BoundedQueue.Update.{View-append, View-cons, View-tail, View-rotate, slot-lt}

-- The call returns `r` and leaves a queue of the same capacity that holds `xs`.
abbrev pub Yields : {A R : Type 0} → Outcome (R × BoundedQueue A) → R → ℕ → List A → Type 0
Yields {A} m r cap xs = (q' : BoundedQueue A) × (m ≡ ok (r, q')) × (q'.cap ≡ cap) × IsQueue q' xs

module _ {A : Type 0} (q : BoundedQueue A) where
  pub push-room :
      (xs : List A) (x : A)
      → IsQueue q xs
      → q.count < q.cap
      → Yields (push q x) true q.cap (xs ++ (x ∷ []))
  unfolding push
  push-room xs x v room =
      let i = slot q.cap q.start q.count in
      let in_range : i < length (slots q) =
        omega (arith, v.storage, slot-lt q.cap q.start q.count v.start_in room) in
      (
        record (with_slots q (set (slots q) i (some x))) { count = u32 (q.count + 1) },
        rw (
          lt→ltb _ _ room,
          mod_cap-u32 q.cap q.start q.count (omega arith) v.start_in (omega arith) v.small,
          construct-ok q i x in_range,
        ),
        refl,
        rw (slots-with_slots q (set (slots q) i (some x)) (omega (arith, in_range)))
            (View-append x (u32 (q.count + 1)) v room (omega (arith, v.small))),
      )

  -- `elim_push` on a queue with room adds the item at the bottom.
  pub elim_push-room :
      (xs : List A) (x : A)
      → IsQueue q xs
      → q.count < q.cap
      → (q' : BoundedQueue A) × (elim_push q x ≡ ok q')
        × (q'.cap ≡ q.cap)
        × IsQueue q' (xs ++ (x ∷ []))
  unfolding elim_push
  elim_push-room xs x v room =
      let i = slot q.cap q.start q.count in
      let in_range : i < length (slots q) =
        omega (arith, v.storage, slot-lt q.cap q.start q.count v.start_in room) in
      (
        record (with_slots q (set (slots q) i (some x))) { count = u32 (q.count + 1) },
        rw (
          lt→ltb _ _ room,
          mod_cap-u32 q.cap q.start q.count (omega arith) v.start_in (omega arith) v.small,
          construct-ok q i x in_range,
        ),
        refl,
        rw (slots-with_slots q (set (slots q) i (some x)) (omega (arith, in_range)))
            (View-append x (u32 (q.count + 1)) v room (omega (arith, v.small))),
      )

  -- the first item stands at `_start`
  first_at :
      (y : A) (ys : List A) → IsQueue q (y ∷ ys) → get_elem? (slots q) q.start ≡ some (some y)
  first_at y ys v =
      let here : slot q.cap q.start 0 ≡ q.start = ground (arith, v.start_in, v.fits, v.counted) in
      ap (get_elem? (slots q)) (sym here) ∙ v.holds 0 (omega (arith, v.counted))

  next_slot :
      (y : A) (ys : List A)
      → IsQueue q (y ∷ ys)
      → mod_cap (u32 (q.start + 1)) q.cap ≡ ok (slot q.cap q.start 1)
  next_slot y ys v =
      mod_cap-u32 q.cap q.start 1 (omega (arith, v.fits, v.counted)) v.start_in
        (omega (arith, v.fits, v.counted)) v.small

  pub elim_push-full :
      (y : A) (ys : List A) (x : A)
      → IsQueue q (y ∷ ys)
      → q.count ≡ q.cap
      → (q' : BoundedQueue A) × (elim_push q x ≡ ok q')
        × (q'.cap ≡ q.cap)
        × IsQueue q' (ys ++ (x ∷ []))
  unfolding elim_push
  elim_push-full y ys x v full =
      let full' : ltb q.count q.cap ≡ false = ground arith in
      (
        record (with_slots q (set (slots q) q.start (some x))) { start = slot q.cap q.start 1 },
        rw (full', assign-ok q q.start x y (first_at y ys v), next_slot y ys v),
        refl,
        rw
            (slots-with_slots q (set (slots q) q.start (some x))
              (omega (arith, v.storage, v.fits, v.counted)))
            (View-rotate x v full),
      )

  pub push_top-room :
      (xs : List A) (x : A)
      → IsQueue q xs
      → q.count < q.cap
      → Yields (push_top q x) true q.cap (x ∷ xs)
  unfolding push_top before_start
  push_top-room xs x v room =
      let i = before_start q in
      let there : i ≡ (if q.start == 0 then q.cap - 1 else q.start - 1) =
        ground (arith, v.small, v.start_in) in
      let in_range : i < length (slots q) = ground (arith, v.storage, v.start_in, v.small) in
      let q₁ = record q { start = i; count = u32 (q.count + 1) } in
      (
        with_slots q₁ (set (slots q) i (some x)),
        rw (lt→ltb _ _ room, construct-ok q₁ i x in_range),
        refl,
        rw (slots-with_slots q₁ (set (slots q) i (some x)) (omega (arith, in_range)))
            (View-cons x i (u32 (q.count + 1)) v room there (omega (arith, v.small))),
      )

  pub pop_into-cons :
      (y : A) (ys : List A) → IsQueue q (y ∷ ys) → Yields (pop_into q) (true, some y) q.cap ys
  unfolding pop_into
  pop_into-cons y ys v =
      let some_left : (q.count == 0) ≡ false = ground (arith, v.counted) in
      let q₁ = record q { count = q.count - 1 } in
      (
        record (with_slots q₁ (set (slots q) q.start none)) { start = slot q.cap q.start 1 },
        rw (
          some_left,
          load-ok q₁ q.start y (first_at y ys v),
          destroy-ok q₁ q.start y (first_at y ys v),
          next_slot y ys v,
        ),
        refl,
        rw
            (slots-with_slots q₁ (set (slots q) q.start none)
              (omega (arith, v.storage, v.fits, v.counted)))
            (View-tail v),
      )

  pub pop-cons : (y : A) (ys : List A) → IsQueue q (y ∷ ys) → Yields (pop q) true q.cap ys
  unfolding pop
  pop-cons y ys v =
      let some_left : (q.count == 0) ≡ false = ground (arith, v.counted) in
      let q₁ = record q { count = q.count - 1 } in
      (
        record (with_slots q₁ (set (slots q) q.start none)) { start = slot q.cap q.start 1 },
        rw (some_left, destroy-ok q₁ q.start y (first_at y ys v), next_slot y ys v),
        refl,
        rw
            (slots-with_slots q₁ (set (slots q) q.start none)
              (omega (arith, v.storage, v.fits, v.counted)))
            (View-tail v),
      )
