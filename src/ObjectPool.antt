-- ===== src/ObjectPool.antt =====
-- src/common/object_pool_inl.h: objects that are handed out and taken back, with a free list for
-- each thread, a list of chunks that all threads share, and blocks of raw memory.
-- An object is its block and its place in the block; a block is the number of its `new`. One call is
-- one step of its thread; Race takes `add_block` apart, Locals has the life of a local pool. The
-- size of a chunk and of a block are arguments, as are what the validator of the object says and
-- whether memory can be had.
use contention_prof.Base.{
  ℕ, zero, suc, ◌+◌, ◌-◌, ◌*◌, ◌^◌, Bool, true, false, ◌&&◌, not, List, [], ◌∷◌, Option, none, some,
  ltb, ◌==◌, if◌then◌else◌, length,
}
pub mod Occurrences
pub mod Owner
pub mod Steps
pub mod Chunks
pub mod Info
pub mod Race
pub mod Locals
mod Tests

-- a `T*` of the pool
pub record Obj : Type 0 where
  pub block : ℕ
  pub item : ℕ

abbrev pub op_max_block_group_count : ℕ
op_max_block_group_count = 65536

abbrev pub op_group_block_count : ℕ
op_group_block_count = 2 ^ 16

-- The part that all threads share: `free_chunks_` from its back, the `block_count` of each group
-- from the last (what a call adds to the count of a full group it takes back), how many blocks
-- were ever made, and `item_count` of each.
pub record Shared : Type 0 where
  pub free_chunks : List (List Obj)
  pub groups : List ℕ
  pub made : ℕ
  pub item_count : ℕ → ℕ

-- `LocalPool`: `cur_free_` from its last item, `cur_block_` and `cur_block_index_`
pub record LocalPool : Type 0 where
  pub cur_free : List Obj
  pub cur_block : Option ℕ
  pub cur_block_index : ℕ

-- the constructor of `LocalPool`
abbrev pub new_local_pool : LocalPool
new_local_pool = record { cur_free = []; cur_block = none; cur_block_index = 0 }

-- what memory and the validator answer during one call
pub record PoolEnv : Type 0 where
  pub memory : Bool
  pub valid : Bool

-- `add_block_group`, when no other thread added one meanwhile: `none` for false
unfoldable pub add_block_group : Bool → List ℕ → Option (List ℕ)
add_block_group memory groups =
    if ltb (length groups) op_max_block_group_count && memory then some (0 ∷ groups) else none

-- the loop of `add_block` over the groups: the index of the new block, and the groups
unfoldable pub place_block : Bool → List ℕ → Option (ℕ × List ℕ)
unfolding add_block_group
place_block memory [] = elim (add_block_group memory []) [ none ↦ none | some g ↦ some (0, 1 ∷ []) ]
place_block memory (count ∷ groups) =
    if ltb count op_group_block_count
    then some (length groups * op_group_block_count + count, (count + 1) ∷ groups)
    else elim (add_block_group memory (count ∷ groups)) [
      | none ↦ none
      | some g ↦ some ((length groups + 1) * op_group_block_count, 1 ∷ count ∷ groups)
    ]

-- `new Block()`
abbrev pub with_block : Shared → List ℕ → Shared
with_block s groups = record s {
  groups = groups;
  made = s.made + 1;
  item_count = λ b. if s.made == b then 0 else s.item_count b;
}

-- `add_block`: the new block and its index
unfoldable pub add_block : Bool → Shared → Option (ℕ × ℕ × Shared)
unfolding place_block
add_block memory s =
    if memory
    then elim (place_block memory s.groups) [
      | none ↦ none
      | some (index, groups) ↦ some (s.made, index, with_block s groups)
    ]
    else none

-- `push_free_chunk`
unfoldable pub push_free_chunk : Bool → List Obj → Shared → Option Shared
push_free_chunk memory chunk s =
    if memory then some (record s { free_chunks = chunk ∷ s.free_chunks }) else none

-- `pop_free_chunk`
unfoldable pub pop_free_chunk : Shared → Option (List Obj × Shared)
pop_free_chunk s = elim s.free_chunks [
  | [] ↦ none
  | chunk ∷ rest ↦ some (chunk, record s { free_chunks = rest })
]

-- The result of a call, the local pool and the shared part after it.
pub record Got : Type 0 where
  pub result : Option Obj
  pub local : LocalPool
  pub shared : Shared

-- an object made in block `b`, if the validator takes it
unfoldable pub construct : Bool → ℕ → LocalPool → Shared → Got
construct valid b local s =
    if valid
    then record {
      result = some (record { block = b; item = s.item_count b });
      local = local;
      shared = record s { item_count = λ c. if b == c then s.item_count b + 1 else s.item_count c };
    }
    else record { result = none; local = local; shared = s }

-- From `cur_block_ = add_block(&cur_block_index_)` on.
unfoldable pub get_from_new_block : PoolEnv → LocalPool → Shared → Got
unfolding add_block construct
get_from_new_block env local s = elim (add_block env.memory s) [
  | none ↦ record { result = none; local = record local { cur_block = none }; shared = s }
  | some (b, index, s') ↦
      construct env.valid b (record local { cur_block = some b; cur_block_index = index }) s'
]

-- From the test of `cur_block_` on.
unfoldable pub get_from_block : PoolEnv → (block_items : ℕ) → LocalPool → Shared → Got
unfolding get_from_new_block construct
get_from_block env block_items local s = elim local.cur_block [
  | none ↦ get_from_new_block env local s
  | some b ↦
      if ltb (s.item_count b) block_items
      then construct env.valid b local s
      else get_from_new_block env local s
]

-- `OBJECT_POOL_GET`. A chunk with no object would be read at index -1; `none` stands for that.
-- Chunks says when no chunk is empty.
unfoldable pub get_object : PoolEnv → (block_items : ℕ) → LocalPool → Shared → Got
unfolding pop_free_chunk get_from_block
get_object env block_items local s = elim local.cur_free [
  | p ∷ rest ↦ record { result = some p; local = record local { cur_free = rest }; shared = s }
  | [] ↦ elim (pop_free_chunk s) [
    | some ([], s') ↦ record { result = none; local = local; shared = s' }
    | some (p ∷ rest, s') ↦ record {
      result = some p;
      local = record local { cur_free = rest };
      shared = s';
    }
    | none ↦ get_from_block env block_items local s
  ]
]

-- `LocalPool::return_object`: whether it returns 0, and what is left
unfoldable pub return_object :
    (memory : Bool) (chunk_items : ℕ) → Obj → LocalPool → Shared → Bool × LocalPool × Shared
unfolding push_free_chunk
return_object memory chunk_items p local s =
    if ltb (length local.cur_free) chunk_items
    then (true, record local { cur_free = p ∷ local.cur_free }, s)
    else elim (push_free_chunk memory local.cur_free s) [
      | none ↦ (false, local, s)
      | some s' ↦ (true, record local { cur_free = p ∷ [] }, s')
    ]

-- The destructor of `LocalPool`. The objects of the free list are lost when there is no memory.
unfoldable pub delete_local_pool : Bool → LocalPool → Shared → Shared
unfolding push_free_chunk
delete_local_pool memory local s = elim local.cur_free [
  | [] ↦ s
  | p ∷ rest ↦ elim (push_free_chunk memory (p ∷ rest) s) [ none ↦ s | some s' ↦ s' ]
]
