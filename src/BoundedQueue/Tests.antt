-- ===== src/BoundedQueue/Tests.antt =====
-- Runs of `BoundedQueue`, and its theorems at concrete queues.
use contention_prof.Base.{
  ℕ, zero, suc, ◌+◌, ◌<◌, ◌≤◌, ◌≡◌, ◌⊎◌, refl, [], ◌∷◌, none, some, true, arith, get_elem?, ok,
  fault, ◌>>=◌,
}
use contention_prof.BoundedQueue.{
  BoundedQueue, StorageOwnership, from_storage, default_queue, slots, push, elim_push, push_top,
  pop_into, pop_bottom, pop_bottom_into, clear, top_at, bottom_at, peek, mod_cap, max_capacity,
  bottom, top,
}
use contention_prof.BoundedQueue.Deque
use contention_prof.BoundedQueue.Wrap.{slot, mod_cap_lem}
use contention_prof.BoundedQueue.View.{IsQueue}
use contention_prof.BoundedQueue.Ends.{Yields}
use contention_prof.BoundedQueue.Refine.{elim_push_refines}
use contention_prof.BoundedQueue.Contract.{operations-refine, lookups-refine, pop_bottom-cases}

-- 8, then 9, round the end of three slots
abbrev wrapped : BoundedQueue ℕ
wrapped = record {
  count = 2;
  cap = 3;
  start = 2;
  ownership = StorageOwnership.owns_storage;
  items = some (some 9 ∷ none ∷ some 8 ∷ []);
}

-- 5, 6 and 7 fill the storage
abbrev filled : BoundedQueue ℕ
filled = record {
  count = 3;
  cap = 3;
  start = 0;
  ownership = StorageOwnership.not_own_storage;
  items = some (some 5 ∷ some 6 ∷ some 7 ∷ []);
}

wrapped-IsQueue : IsQueue wrapped (8 ∷ 9 ∷ [])
wrapped-IsQueue = record {
  counted = refl;
  fits = omega arith;
  small = omega arith;
  start_in = omega arith;
  storage = omega arith;
  holds = λ i h. places i h;
}
  where
    places :
        (i : ℕ) → i < 2 → get_elem? (slots wrapped) (slot 3 2 i) ≡ some (get_elem? (8 ∷ 9 ∷ []) i)
    places zero h = refl
    places (suc zero) h = refl
    places (suc (suc i)) h = absurd (omega arith)

filled-IsQueue : IsQueue filled (5 ∷ 6 ∷ 7 ∷ [])
filled-IsQueue = record {
  counted = refl;
  fits = omega arith;
  small = omega arith;
  start_in = omega arith;
  storage = omega arith;
  holds = λ i h. places i h;
}
  where
    places :
        (i : ℕ)
        → i < 3
        → get_elem? (slots filled) (slot 3 0 i) ≡ some (get_elem? (5 ∷ 6 ∷ 7 ∷ []) i)
    places zero h = refl
    places (suc zero) h = refl
    places (suc (suc zero)) h = refl
    places (suc (suc (suc i))) h = absurd (omega arith)

bytes_over_size :
    (from_storage {A = ℕ} (none ∷ none ∷ none ∷ []) 50 16 StorageOwnership.owns_storage).cap ≡ 3
unfolding from_storage
bytes_over_size = refl

elim_push_without_room : elim_push (default_queue {A = ℕ}) 4 ≡ fault
unfolding elim_push contention_prof.BoundedQueue.assign contention_prof.BoundedQueue.load
elim_push_without_room = refl

bottom_of_wrapped : bottom wrapped ≡ ok (some 0)
unfolding bottom mod_cap
bottom_of_wrapped = refl

four_giga_less_one : max_capacity wrapped ≡ 0xffff_ffff
four_giga_less_one = refl

mod_cap_lem_example : mod_cap 17 5 ≡ ok 2
mod_cap_lem_example = mod_cap_lem 17 5 (omega arith) (omega arith)

operations-refine_example :
    Yields (push wrapped 4) true 3 (8 ∷ 9 ∷ 4 ∷ [])
    × Yields (push_top wrapped 4) true 3 (4 ∷ 8 ∷ 9 ∷ [])
    × Yields (pop_into wrapped) (true, some 8) 3 (9 ∷ [])
    × ((q' : BoundedQueue ℕ) × (elim_push wrapped 4 ≡ ok q')
        × (q'.cap ≡ 3)
        × IsQueue q' (8 ∷ 9 ∷ 4 ∷ []))
    × ((q' : BoundedQueue ℕ) × (clear wrapped ≡ ok q')
        × (q'.cap ≡ 3)
        × IsQueue q' []
        × ((i : ℕ) → i < 2 → get_elem? (slots q') (slot 3 2 i) ≡ some none))
unfolding Deque.push Deque.push_top Deque.pop Deque.elim_push
operations-refine_example = operations-refine wrapped (8 ∷ 9 ∷ []) 4 wrapped-IsQueue (omega arith)

lookups-refine_example :
    ((top_at wrapped 1 >>= peek wrapped) ≡ ok (some 9))
    × ((bottom_at wrapped 1 >>= peek wrapped) ≡ ok (some 8))
lookups-refine_example = lookups-refine wrapped (8 ∷ 9 ∷ []) 1 wrapped-IsQueue

-- A full queue drops its first item for a new one.
elim_push_full :
    (q' : BoundedQueue ℕ) × (elim_push filled 4 ≡ ok q')
    × (q'.cap ≡ 3)
    × IsQueue q' (6 ∷ 7 ∷ 4 ∷ [])
unfolding Deque.elim_push
elim_push_full = elim_push_refines filled (5 ∷ 6 ∷ 7 ∷ []) 4 filled-IsQueue (omega arith)

pop_bottom-cases_example :
    ((2 + 2 ≤ 3) × Yields (pop_bottom_into wrapped) (true, some 9) 3 (8 ∷ []))
    ⊎ ((3 < 2 + 2) × (pop_bottom wrapped ≡ fault) × (pop_bottom_into wrapped ≡ fault))
pop_bottom-cases_example = pop_bottom-cases wrapped (8 ∷ []) 9 wrapped-IsQueue refl

pop_bottom_of_filled :
    ((0 + 3 ≤ 3) × Yields (pop_bottom_into filled) (true, some 7) 3 (5 ∷ 6 ∷ []))
    ⊎ ((3 < 0 + 3) × (pop_bottom filled ≡ fault) × (pop_bottom_into filled ≡ fault))
pop_bottom_of_filled = pop_bottom-cases filled (5 ∷ 6 ∷ []) 7 filled-IsQueue refl
