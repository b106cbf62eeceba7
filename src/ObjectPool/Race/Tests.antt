-- ===== src/ObjectPool/Race/Tests.antt =====
-- Two threads that place a block each in the first group.
use contention_prof.Base.{
  ℕ, ◌+◌, ◌≤◌, ◌<◌, ◌≡◌, ◌≢◌, ◌↔◌, refl, Bool, true, false, List, [], ◌∷◌, none, some, arith,
}
use contention_prof.ObjectPool.{op_max_block_group_count, op_group_block_count, place_block}
use contention_prof.ObjectPool.Race.{
  Pc, placed, storing, fault, advance, System, start_system, Steps, here, later,
}
use contention_prof.ObjectPool.Race.Inv.{holds}
use contention_prof.ObjectPool.Race.Safety.{index_once, store_place, quiet_groups, groups_sound}
use contention_prof.ObjectPool.Race.Alone.{alone-place_block, Returns}
use contention_prof.ObjectPool.Race.Loop.{counts}

record Run (s : System) : Type 0 where
  last : System
  steps : Steps 2 s last

-- `true` is a step of thread 0, `false` one of thread 1
turn : {s : System} → Bool → Run s → Run s
turn true r = record { last = _; steps = later true 0 (omega arith) r.steps }
turn false r = record { last = _; steps = later true 1 (omega arith) r.steps }

play : (s : System) → List Bool → Run s
unfolding turn
play s [] = record { last = s; steps = here }
play s (i ∷ rest) = turn i (play s rest)

-- thread 0 from `idle` to its place
abbrev eleven : List Bool
eleven = true ∷ true ∷ true ∷ true ∷ true ∷ true ∷ true ∷ true ∷ true ∷ true ∷ true ∷ []

abbrev about_to_store : Run start_system
about_to_store = play start_system eleven

abbrev one_placed : Run start_system
one_placed = play start_system (true ∷ eleven)

-- then thread 1
abbrev two_placed : Run one_placed.last
unfolding play
two_placed = play one_placed.last (false ∷ false ∷ false ∷ false ∷ false ∷ [])

abbrev both : Run start_system
both = play start_system (false ∷ false ∷ false ∷ false ∷ false ∷ true ∷ eleven)

one_place : one_placed.last.pc 0 ≡ placed 0 0
unfolding play advance
one_place = refl

two_places : two_placed.last.pc 1 ≡ placed 1 1
unfolding play advance
two_places = refl

index_once_example :
    (two_placed.last.mem.blocks 0 0 ≡ some 0)
    × ((j c : ℕ) → two_placed.last.pc j ≡ placed c 0 → c ≡ 0)
    × ((j c : ℕ) → two_placed.last.pc j ≢ storing c 0 0)
    × ((j c : ℕ) → one_placed.last.pc j ≡ placed c 0 → j ≡ 0)
unfolding play
index_once_example =
    index_once {n = 2} {i = 0} {b = 0} {x = 0} (omega arith) one_placed.steps one_place
      two_placed.steps

store_place_example :
    (0 < about_to_store.last.mem.group_count)
    × (about_to_store.last.mem.group_count ≤ op_max_block_group_count)
    × (0 < op_group_block_count)
    × (about_to_store.last.mem.blocks 0 0 ≡ none)
    × ((j c : ℕ) → about_to_store.last.pc j ≡ storing c 0 0 → j ≡ 0)
unfolding play advance
store_place_example =
    store_place {n = 2} {i = 0} {b = 0} {g = 0} {k = 0} (omega arith) about_to_store.steps refl

quiet_groups_example :
    (both.last.mem.block_count 0 ≤ op_group_block_count)
    × ((k : ℕ)
        → (k < both.last.mem.block_count 0) ↔ ((b : ℕ) × (both.last.mem.blocks 0 k ≡ some b)))
unfolding play advance
quiet_groups_example =
    quiet_groups {n = 2} (omega arith) both.steps (λ i. ground arith) 0 (omega arith)

groups_sound_example :
    ((i : ℕ) → both.last.pc i ≢ fault)
    × ((g : ℕ) → both.last.mem.block_count g ≤ op_group_block_count + 2)
    × ((i j : ℕ) → holds (both.last.pc i) ≡ true → holds (both.last.pc j) ≡ true → i ≡ j)
groups_sound_example = groups_sound {n = 2} (omega arith) both.steps

alone-place_block_example :
    Returns true 14 one_placed.last.mem
      (Pc.reading 1)
      (place_block true (counts one_placed.last.mem.block_count one_placed.last.mem.group_count))
unfolding play advance
alone-place_block_example = alone-place_block {n = 2} true 1 (omega arith) one_placed.steps refl
