-- ===== src/Sampler/Grow.antt =====
-- The samples of a queue that grows.
use contention_prof.Base.{
  arith, ℕ, suc, ◌+◌, ◌*◌, ◌/◌, ◌^◌, ◌≤◌, ◌<◌, ◌≡◌, refl, sym, ◌∙◌, true, List, [], ◌∷◌, ◌++◌,
  Option, none, some, ok, ltb, replicate, length, length-replicate, length-append, u32, inl, inr,
  Bool-cases, ltb→lt, ltb_false→le,
}
use mathlib.Core.Path.{subst}
use mathlib.Core.List.{append-nil, append_assoc}
use native.Mathlib.Nat.{mul-div_cancel_left}
use contention_prof.Base.Int.{ℤ}
use contention_prof.BoundedQueue.{BoundedQueue, StorageOwnership, from_storage}
use contention_prof.BoundedQueue.Deque
use contention_prof.BoundedQueue.View.{IsQueue}
use contention_prof.BoundedQueue.Refine.{elim_push_refines, pop_refines}
use contention_prof.BoundedQueue.Ends.{push-room}
use contention_prof.Sampler.{
  Sample, ReducerSampler, new_capacity, move_all, make_ready, take_sample,
}

module _ {A : Type 0} where
  -- All items go over, in their order.
  move_all_lem :
      (xs ys : List A) (old new : BoundedQueue A)
      → IsQueue old xs
      → IsQueue new ys
      → length ys + length xs ≤ new.cap
      → (old' : BoundedQueue A) × (new' : BoundedQueue A) × (move_all (suc (length xs)) old new
          ≡ ok (old', new'))
        × (new'.cap ≡ new.cap)
        × IsQueue new' (ys ++ xs)
  unfolding move_all Deque.pop
  move_all_lem [] ys old new v w fits =
      let (old', popped, cap, v') = pop_refines old [] v in
      let same : ys ++ [] ≡ ys = append-nil ys in
      (old', new, rw (move_all, popped) refl, refl, rw same w)
  move_all_lem (x ∷ xs) ys old new v w fits =
      let (old', popped, cap, v') = pop_refines old (x ∷ xs) v in
      let (new', pushed, cap', w') = push-room new ys x w (omega (arith, w.counted)) in
      let size = length-append ys (x ∷ []) in
      let (old'', new'', moved, cap'', w'') =
        move_all_lem xs (ys ++ (x ∷ [])) old' new' v' w' (omega (arith, cap', size, fits)) in
      (
        old'',
        new'',
        rw (popped, pushed) moved,
        cap'' ∙ cap',
        rw⁻¹ (append_assoc ys (x ∷ []) xs) w'',
      )

  -- the new, empty queue
  from_storage-IsQueue :
      (n size_of : ℕ)
      → 0 < n
      → n ≤ 2 ^ 31
      → 0 < size_of
      → let q =
          from_storage {A = A}
            (replicate n none)
            (size_of * n)
            size_of
            StorageOwnership.owns_storage in
        (q.cap ≡ n) × IsQueue q []
  unfolding from_storage
  from_storage-IsQueue n size_of pos small sized =
      let whole : size_of * n / size_of ≡ n = mul-div_cancel_left n sized in
      let cap : u32 (size_of * n / size_of) ≡ n = omega (arith, whole) in
      (
        cap,
        record {
          counted = refl;
          fits = omega arith;
          small = omega (arith, cap);
          start_in = omega arith;
          storage = omega (arith, cap, length-replicate {A = Option A} n none);
          holds = λ i lt. absurd (omega arith);
        },
      )

  -- A queue made ready holds the same items, and has room for the window and one more.
  make_ready_lem :
      (size_of window : ℕ) (xs : List A) (q : BoundedQueue A)
      → IsQueue q xs
      → 0 < size_of
      → window < 2 ^ 30
      → (q' : BoundedQueue A) × (make_ready true size_of window q ≡ ok (some q'))
        × (window + 1 ≤ q'.cap)
        × IsQueue q' xs
  unfolding make_ready
  make_ready_lem size_of window xs q v sized small = elim (Bool-cases (ltb q.cap (window + 1))) [
    | inr room ↦ (q, rw room refl, ltb_false→le _ _ room, v)
    | inl short ↦
        let n = new_capacity q.cap window in
        let lt : q.cap < window + 1 = ltb→lt _ _ short in
        let enough : (window + 1 ≤ n) × (q.cap ≤ n) = (ground arith, ground arith) in
        let few : n ≤ 2 ^ 31 = ground arith in
        let (cap, empty) = from_storage-IsQueue n size_of (omega (arith, enough.0)) few sized in
        let (old', new', moved, cap', w) =
          move_all_lem xs [] q
            (from_storage (replicate n none) (size_of * n) size_of StorageOwnership.owns_storage) v
            empty (omega (arith, cap, enough.1, v.counted, v.fits)) in
        let fuel : q.count + 1 ≡ suc (length xs) = omega (arith, v.counted) in
        (new', rw (short, fuel, moved) refl, omega (arith, cap', cap, enough.0), w)
  ]

-- With memory, take_sample never fails: the queue then has room for the window and one more, and
-- holds the samples it held with the new one at the bottom, without the top one if it was full.
-- The window is below 2 ^ 30.
pub take_sample_lem :
    {A : Type 0} (size_of : ℕ) (value : A) (now : ℤ) (s : ReducerSampler A) (xs : List (Sample A))
    → IsQueue s.q xs
    → 0 < size_of
    → s.window_size < 2 ^ 30
    → (s' : ReducerSampler A) × (take_sample true size_of value now s ≡ ok s')
      × (s'.window_size ≡ s.window_size)
      × (s.window_size + 1 ≤ s'.q.cap)
      × IsQueue s'.q (Deque.elim_push s'.q.cap xs (record { data_value = value; time_us = now }))
unfolding take_sample
take_sample_lem size_of value now s xs v sized small =
    let x : Sample _ = record { data_value = value; time_us = now } in
    let (q, ready, room, w) = make_ready_lem size_of s.window_size xs s.q v sized small in
    let (q', pushed, cap, w') = elim_push_refines q xs x w (omega (arith, room)) in
    (
      record s { q = q' },
      rw (ready, pushed) refl,
      refl,
      omega (arith, room, cap),
      subst (λ c. IsQueue q' (Deque.elim_push c xs x)) (sym cap) w',
    )
