-- ===== src/ObjectPool/Info/Places.antt =====
-- Where the table of groups has a block, and what describe_objects makes of it.
use contention_prof.Base.{
  arith, ℕ, zero, suc, ◌⊎◌, ◌+◌, ◌*◌, ◌≡◌, ◌≤◌, refl, sym, ap, ◌∙◌, Bool, true, false, ◌&&◌, List,
  [], ◌∷◌, none, some, length, ltb, inl, inr, Bool-cases, Option-cases, List-cases,
}
use contention_prof.ObjectPool.{
  Obj, Shared, LocalPool, PoolEnv, op_group_block_count, op_max_block_group_count, add_block_group,
  place_block, add_block, with_block, construct, get_from_new_block, get_from_block, get_object,
  pop_free_chunk, return_object, delete_local_pool, push_free_chunk,
}
use contention_prof.ObjectPool.Steps.{Pool, Reach}
use contention_prof.ObjectPool.Info.{items_of, describe_groups, describe_objects}

abbrev AreFull : List ℕ → Type 0
AreFull [] = Unit {0}
AreFull (count ∷ groups) = (count ≡ op_group_block_count) × AreFull groups

-- Every group but the last is full, and the table has as many places taken as blocks were made.
abbrev pub Placed : List ℕ → (made : ℕ) → Type 0
Placed [] made = made ≡ 0
Placed (count ∷ groups) made =
    (count ≤ op_group_block_count)
    × AreFull groups
    × (made ≡ length groups * op_group_block_count + count)

place_block-cases :
    (memory : Bool) (groups : List ℕ) (made : ℕ)
    → Placed groups made
    → (place_block memory groups ≡ none)
      ⊎ ((groups' : List ℕ) × (place_block memory groups ≡ some (made, groups'))
          × Placed groups' (made + 1))
unfolding place_block add_block_group
place_block-cases true [] made v = inr (1 ∷ [], rw v refl, (omega arith, tt, omega (arith, v)))
place_block-cases false [] made v = inl refl
place_block-cases memory (count ∷ groups) made (le, full, places) =
    elim (Bool-cases (ltb count op_group_block_count)) [
      | inl room ↦ inr (
        (count + 1) ∷ groups,
        rw (room, places) refl,
        (ground arith, full, omega (arith, places)),
      )
      | inr taken ↦
          let all : count ≡ op_group_block_count = ground arith in
          let next : (length groups + 1) * op_group_block_count ≡ made = omega arith in
          elim (Bool-cases (ltb (length (count ∷ groups)) op_max_block_group_count && memory)) [
            | inl grows ↦ inr (
              1 ∷ count ∷ groups,
              rw (taken, grows, next) refl,
              (omega arith, (all, full), omega (arith, next)),
            )
            | inr stays ↦ inl (rw (taken, stays) refl)
          ]
    ]

-- A new block gets the next place of the table.
add_block-cases :
    (memory : Bool) (s : Shared)
    → Placed s.groups s.made
    → (add_block memory s ≡ none)
      ⊎ ((groups : List ℕ) × (add_block memory s ≡ some (s.made, s.made, with_block s groups))
          × Placed groups (s.made + 1))
unfolding add_block
add_block-cases false s v = inl refl
add_block-cases true s v = elim (place_block-cases true s.groups s.made v) [
  | inl full ↦ inl (rw full refl)
  | inr (groups, placed, w) ↦ inr (groups, rw placed refl, w)
]

abbrev IsPlaced : Shared → Type 0
IsPlaced s = Placed s.groups s.made

construct-IsPlaced :
    (valid : Bool) (b : ℕ) (local : LocalPool) (s : Shared)
    → IsPlaced s
    → IsPlaced (construct valid b local s).shared
unfolding construct
construct-IsPlaced true b local s v = v
construct-IsPlaced false b local s v = v

get_from_new_block-IsPlaced :
    (env : PoolEnv) (local : LocalPool) (s : Shared)
    → IsPlaced s
    → IsPlaced (get_from_new_block env local s).shared
unfolding get_from_new_block
get_from_new_block-IsPlaced env local s v = elim (add_block-cases env.memory s v) [
  | inl full ↦ rw (get_from_new_block, full) v
  | inr (groups, added, w) ↦
      rw (get_from_new_block, added)
        (construct-IsPlaced env.valid s.made
          (record local { cur_block = some s.made; cur_block_index = s.made }) (with_block s groups)
          w)
]

get_from_block-IsPlaced :
    (env : PoolEnv) (n : ℕ) (local : LocalPool) (s : Shared)
    → IsPlaced s
    → IsPlaced (get_from_block env n local s).shared
unfolding get_from_block
get_from_block-IsPlaced env n local s v = elim (Option-cases local.cur_block) [
  | inl missing ↦ rw (get_from_block, missing) (get_from_new_block-IsPlaced env local s v)
  | inr (b, there) ↦ elim (Bool-cases (ltb (s.item_count b) n)) [
    | inl room ↦ rw (get_from_block, there, room) (construct-IsPlaced env.valid b local s v)
    | inr full ↦ rw (get_from_block, there, full) (get_from_new_block-IsPlaced env local s v)
  ]
]

get_object-IsPlaced :
    (env : PoolEnv) (n : ℕ) (local : LocalPool) (s : Shared)
    → IsPlaced s
    → IsPlaced (get_object env n local s).shared
unfolding get_object pop_free_chunk
get_object-IsPlaced env n local s v = elim (List-cases local.cur_free) [
  | inr (p, rest, has) ↦ rw (get_object, has) v
  | inl empty ↦ elim (List-cases s.free_chunks) [
    | inl no_chunk ↦ rw (get_object, empty, no_chunk) (get_from_block-IsPlaced env n local s v)
    | inr ([], chunks, has) ↦ rw (get_object, empty, has) v
    | inr (p ∷ rest, chunks, has) ↦ rw (get_object, empty, has) v
  ]
]

return_object-IsPlaced :
    (x : Obj) (memory : Bool) (n : ℕ) (local : LocalPool) (s : Shared)
    → IsPlaced s
    → IsPlaced (return_object memory n x local s).2
unfolding return_object push_free_chunk
return_object-IsPlaced x memory n local s v = elim (Bool-cases (ltb (length local.cur_free) n)) [
  | inl room ↦ rw (return_object, room) v
  | inr full ↦ elim (Bool-cases memory) [
    | inl has ↦ rw (return_object, full, has) v
    | inr lacks ↦ rw (return_object, full, lacks) v
  ]
]

delete_local_pool-IsPlaced :
    (memory : Bool) (local : LocalPool) (s : Shared)
    → IsPlaced s
    → IsPlaced (delete_local_pool memory local s)
unfolding delete_local_pool push_free_chunk
delete_local_pool-IsPlaced memory local s v = elim (List-cases local.cur_free) [
  | inl empty ↦ rw (delete_local_pool, empty) v
  | inr (p, rest, has) ↦ elim (Bool-cases memory) [
    | inl room ↦ rw (delete_local_pool, has, room) v
    | inr lacks ↦ rw (delete_local_pool, has, lacks) v
  ]
]

Reach-IsPlaced : {n k : ℕ} {p : Pool} → Reach n k p → IsPlaced p.shared
Reach-IsPlaced Reach.start = refl
Reach-IsPlaced (Reach.joins r) = Reach-IsPlaced r
Reach-IsPlaced {n} (Reach.gets {p} env i local here r) =
    get_object-IsPlaced env n local p.shared (Reach-IsPlaced r)
Reach-IsPlaced {n} {k} (Reach.returns {p} memory i x local here has r) =
    return_object-IsPlaced x memory k local p.shared (Reach-IsPlaced r)
Reach-IsPlaced (Reach.exits {p} memory i local here r) =
    delete_local_pool-IsPlaced memory local p.shared (Reach-IsPlaced r)

items_of-sum : (f : ℕ → ℕ) (a b : ℕ) → items_of f 0 (a + b) ≡ items_of f 0 a + items_of f a b
items_of-sum f a zero =
    let same : a + 0 ≡ a = omega arith in
    let sum : items_of f 0 a + 0 ≡ items_of f 0 a = omega arith in ap (items_of f 0) same ∙ sym sum
items_of-sum f a (suc b) =
    let next : a + suc b ≡ suc (a + b) = omega arith in
    let from_zero : 0 + (a + b) ≡ a + b = omega arith in
    let rest = items_of-sum f a b in
    let last : f (0 + (a + b)) ≡ f (a + b) = ap f from_zero in
    ap (items_of f 0) next ∙ omega (arith, rest, last)

describe_groups-cons :
    (f : ℕ → ℕ) (count total : ℕ) (groups : List ℕ)
    → count ≤ op_group_block_count
    → total ≡ length groups * op_group_block_count
    → describe_groups f groups ≡ (total, items_of f 0 total)
    → describe_groups f (count ∷ groups) ≡ (total + count, items_of f 0 (total + count))
unfolding describe_groups
describe_groups-cons f count total groups le e whole =
    let small : ltb op_group_block_count count ≡ false = ground arith in
    rw (describe_groups, small, whole, sym e)
      (ap (λ (x : ℕ). (total + count, x)) (sym (items_of-sum f total count)))

describe_groups-full :
    (f : ℕ → ℕ) (groups : List ℕ) (total : ℕ)
    → AreFull groups
    → total ≡ length groups * op_group_block_count
    → describe_groups f groups ≡ (total, items_of f 0 total)
unfolding describe_groups
describe_groups-full f [] total full e =
    let zero : 0 ≡ total = omega (arith, e) in ap (λ (n : ℕ). (n, items_of f 0 n)) zero
describe_groups-full f (count ∷ groups) total (all, full) e =
    let before = length groups * op_group_block_count in
    let sum : before + count ≡ total = omega (arith, e, all) in
    describe_groups-cons f count before groups (omega arith) refl
      (describe_groups-full f groups before full refl)
    ∙ ap (λ (n : ℕ). (n, items_of f 0 n)) sum

describe_groups-Placed :
    (f : ℕ → ℕ) (groups : List ℕ) (made : ℕ)
    → Placed groups made
    → describe_groups f groups ≡ (made, items_of f 0 made)
unfolding describe_groups
describe_groups-Placed f [] made v = ap (λ (n : ℕ). (n, items_of f 0 n)) (sym v)
describe_groups-Placed f (count ∷ groups) made (le, full, places) =
    let before = length groups * op_group_block_count in
    describe_groups-cons f count before groups le refl
      (describe_groups-full f groups before full refl)
    ∙ ap (λ (n : ℕ). (n, items_of f 0 n)) (sym places)

-- Of every pool that calls of any threads lead to, describe_objects tells as many blocks as were
-- made, the items of all of them, and the bytes of the blocks. A block that is added next gets
-- as its place in the table the number of blocks before it, if there is room for it.
pub describe_objects-Reach :
    {n k : ℕ} {p : Pool} (local_count size_of : ℕ) (memory : Bool)
    → Reach n k p
    → let s = p.shared in
      let info = describe_objects local_count size_of n k s in
      (info.block_num ≡ s.made)
      × (info.item_num ≡ items_of s.item_count 0 s.made)
      × (info.total_size ≡ s.made * n * size_of)
      × ((add_block memory s ≡ none)
          ⊎ ((s' : Shared) × (add_block memory s ≡ some (s.made, s.made, s'))))
unfolding describe_objects
describe_objects-Reach {n} {k} {p} local_count size_of memory r =
    let s = p.shared in
    let v = Reach-IsPlaced r in
    let whole = describe_groups-Placed s.item_count s.groups s.made v in
    let next : (add_block memory s ≡ none)
        ⊎ ((s' : Shared) × (add_block memory s ≡ some (s.made, s.made, s'))) =
      elim (add_block-cases memory s v) [
        | inl full ↦ inl full
        | inr (groups, added, w) ↦ inr (with_block s groups, added)
      ] in
    (
      ap (λ (x : ℕ × ℕ). x.0) whole,
      ap (λ (x : ℕ × ℕ). x.1) whole,
      ap (λ (x : ℕ × ℕ). x.0 * n * size_of) whole,
      next,
    )
