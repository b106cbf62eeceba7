-- ===== src/ObjectPool/Owner.antt =====
-- The owners of an object.
use contention_prof.Base.{
  arith, ℕ, ◌+◌, ◌≡◌, ◌≤◌, ◌<◌, refl, ap, Bool, true, false, List, [], ◌∷◌, ◌==◌, ltb,
  if◌then◌else◌, Option, some, none, length, inl, inr, Bool-cases, Option-cases, List-cases, tests,
  ◌⊎◌,
}
use contention_prof.ObjectPool.{
  Obj, Shared, LocalPool, PoolEnv, Got, add_block, push_free_chunk, pop_free_chunk, construct,
  get_from_new_block, get_from_block, get_object, return_object, delete_local_pool, place_block,
  with_block,
}
use contention_prof.ObjectPool.Occurrences.{is_same, one_if, occurrences, in_chunks}

-- 1 if the object was made
abbrev pub constructed : Obj → Shared → ℕ
constructed o s = one_if (ltb o.item (s.item_count o.block))

-- 1 if the object is what a call returned
abbrev pub handed : Obj → Option Obj → ℕ
handed o none = 0
handed o (some p) = one_if (is_same o p)

-- Nothing was made in a block that is not there yet.
abbrev pub IsFresh : Shared → Type 0
IsFresh s = (b : ℕ) → s.made ≤ b → s.item_count b ≡ 0

-- A call moves objects, and adds those that it makes.
abbrev Balance : Obj → Option Obj → LocalPool → Shared → LocalPool → Shared → Type 0
Balance o result local s local' s' =
    handed o result + occurrences o local'.cur_free + in_chunks o s'.free_chunks + constructed o s
    ≡ occurrences o local.cur_free + in_chunks o s.free_chunks + constructed o s'

construct-Balance :
    (o : Obj) (valid : Bool) (b : ℕ) (local : LocalPool) (s : Shared)
    → let g = construct valid b local s in Balance o g.result local s g.local g.shared
unfolding construct
construct-Balance o true b local s = elim (Bool-cases (b == o.block)) [
  | inl same ↦ ground arith
  | inr other ↦ ground arith
]
construct-Balance o false b local s = ground arith

construct-IsFresh :
    (valid : Bool) (b : ℕ) (local : LocalPool) (s : Shared)
    → IsFresh s
    → b < s.made
    → IsFresh (construct valid b local s).shared
unfolding construct
construct-IsFresh true b local s fresh old c above = ground (arith, fresh c above)
construct-IsFresh false b local s fresh old c above = fresh c above

pub add_block_cases :
    (memory : Bool) (s : Shared)
    → (add_block memory s ≡ none)
      ⊎ ((index : ℕ) × (groups : List ℕ) × (add_block memory s
            ≡ some (s.made, index, with_block s groups)))
unfolding add_block
add_block_cases true s = elim (Option-cases (place_block true s.groups)) [
  | inl full ↦ inl (rw full)
  | inr ((i, groups), placed) ↦ inr (i, groups, rw placed)
]
add_block_cases false s = inl refl

with_block-IsFresh : (s : Shared) (groups : List ℕ) → IsFresh s → IsFresh (with_block s groups)
with_block-IsFresh s groups fresh b above = ground (arith, fresh b (omega arith))

with_block-constructed :
    (o : Obj) (s : Shared) (groups : List ℕ)
    → IsFresh s
    → constructed o (with_block s groups) ≡ constructed o s
with_block-constructed o s groups fresh = elim (Bool-cases (s.made == o.block)) [
  | inl same ↦ let new : s.item_count o.block ≡ 0 = fresh o.block (omega tests) in ground arith
  | inr other ↦ rw other
]

-- The current block of a thread was made.
abbrev pub IsMade : LocalPool → Shared → Type 0
IsMade local s = (b : ℕ) → local.cur_block ≡ some b → b < s.made

construct_local :
    (valid : Bool) (b : ℕ) (local : LocalPool) (s : Shared)
    → let g = construct valid b local s in (g.local ≡ local) × (g.shared.made ≡ s.made)
unfolding construct
construct_local true b local s = (refl, refl)
construct_local false b local s = (refl, refl)

construct-IsMade :
    (valid : Bool) (b : ℕ) (local : LocalPool) (s : Shared)
    → IsMade local s
    → let g = construct valid b local s in IsMade g.local g.shared
unfolding construct
construct-IsMade true b local s old = old
construct-IsMade false b local s old = old

-- What each call of the pool keeps.
abbrev Keeps : Obj → LocalPool → Shared → Got → Type 0
Keeps o local s g =
    IsFresh g.shared
    × Balance o g.result local s g.local g.shared
    × (s.made ≤ g.shared.made)
    × IsMade g.local g.shared

get_from_new_block-Keeps :
    (o : Obj) (env : PoolEnv) (local : LocalPool) (s : Shared)
    → IsFresh s
    → Keeps o local s (get_from_new_block env local s)
unfolding get_from_new_block
get_from_new_block-Keeps o env local s fresh = elim (add_block_cases env.memory s) [
  | inl full ↦
      rw (get_from_new_block, full) (fresh, omega arith, omega arith, λ b e. absurd (ground arith))
  | inr (index, groups, added) ↦
      let l : LocalPool = record local { cur_block = some s.made; cur_block_index = index } in
      let t = with_block s groups in
      let same = with_block-constructed o s groups fresh in
      let balance = construct-Balance o env.valid s.made l t in
      rw (get_from_new_block, added)
        (
          construct-IsFresh env.valid s.made l t (with_block-IsFresh s groups fresh) (omega arith),
          omega (arith, balance, same),
          omega (arith, (construct_local env.valid s.made l t).1),
          construct-IsMade env.valid s.made l t (λ b e. ground arith),
        )
]

get_from_block-Keeps :
    (o : Obj) (env : PoolEnv) (n : ℕ) (local : LocalPool) (s : Shared)
    → IsFresh s
    → IsMade local s
    → Keeps o local s (get_from_block env n local s)
unfolding get_from_block
get_from_block-Keeps o env n local s fresh old = elim (Option-cases local.cur_block) [
  | inl missing ↦ rw (get_from_block, missing) (get_from_new_block-Keeps o env local s fresh)
  | inr (b, there) ↦ elim (Bool-cases (ltb (s.item_count b) n)) [
    | inl room ↦
        rw (get_from_block, there, room)
          (
            construct-IsFresh env.valid b local s fresh (old b there),
            construct-Balance o env.valid b local s,
            omega (arith, (construct_local env.valid b local s).1),
            construct-IsMade env.valid b local s old,
          )
    | inr full ↦ rw (get_from_block, there, full) (get_from_new_block-Keeps o env local s fresh)
  ]
]

-- A call of the pool makes at most one object, and moves the others.
pub get_object-Keeps :
    (o : Obj) (env : PoolEnv) (n : ℕ) (local : LocalPool) (s : Shared)
    → IsFresh s
    → IsMade local s
    → Keeps o local s (get_object env n local s)
unfolding get_object pop_free_chunk
get_object-Keeps o env n local s fresh old = elim (List-cases local.cur_free) [
  | inr (p, rest, has) ↦ rw (get_object, has) (fresh, omega arith, omega arith, old)
  | inl empty ↦ elim (List-cases s.free_chunks) [
    | inl no_chunk ↦
        let (fresh', balance, more, made) = get_from_block-Keeps o env n local s fresh old in
        let none_here : occurrences o local.cur_free ≡ 0 = ap (occurrences o) empty in
        let none_there : in_chunks o s.free_chunks ≡ 0 = ap (in_chunks o) no_chunk in
        rw (get_object, empty, no_chunk) (fresh', omega arith, more, made)
    | inr ([], chunks, has) ↦
        let none_here : occurrences o local.cur_free ≡ 0 = ap (occurrences o) empty in
        rw (get_object, empty, has) (fresh, omega arith, omega arith, old)
    | inr (p ∷ rest, chunks, has) ↦
        rw (get_object, empty, has) (fresh, omega arith, omega arith, old)
  ]
]

-- the objects of a local pool and of the shared part
abbrev pub held : Obj → LocalPool → Shared → ℕ
held o local s = occurrences o local.cur_free + in_chunks o s.free_chunks

pub return_object-held :
    (o p : Obj) (memory : Bool) (n : ℕ) (local : LocalPool) (s : Shared)
    → let (done, local', s') = return_object memory n p local s in
      (held o local' s' ≡ held o local s + (if done then one_if (is_same o p) else 0))
      × (s'.made ≡ s.made)
      × (s'.item_count ≡ s.item_count)
      × (local'.cur_block ≡ local.cur_block)
unfolding return_object push_free_chunk
return_object-held o p memory n local s = elim (Bool-cases (ltb (length local.cur_free) n)) [
  | inl room ↦ rw (return_object, room) (omega arith, refl, refl, refl)
  | inr full ↦ elim (Bool-cases memory) [
    | inl has ↦ rw (return_object, full, has) (omega arith, refl, refl, refl)
    | inr lacks ↦ rw (return_object, full, lacks) (omega arith, refl, refl, refl)
  ]
]

pub delete_local_pool-held :
    (o : Obj) (memory : Bool) (local : LocalPool) (s : Shared)
    → let s' = delete_local_pool memory local s in
      (in_chunks o s'.free_chunks ≤ held o local s)
      × (s'.made ≡ s.made)
      × (s'.item_count ≡ s.item_count)
unfolding delete_local_pool push_free_chunk
delete_local_pool-held o memory local s = elim (List-cases local.cur_free) [
  | inl empty ↦ rw (delete_local_pool, empty) (omega arith, refl, refl)
  | inr (p, rest, has) ↦ elim (Bool-cases memory) [
    | inl room ↦ rw (delete_local_pool, has, room) (omega arith, refl, refl)
    | inr lacks ↦ rw (delete_local_pool, has, lacks) (omega arith, refl, refl)
  ]
]
