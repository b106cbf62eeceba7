-- ===== src/ObjectPool/Info.antt =====
-- `describe_objects` of src/common/object_pool_inl.h. A block's number is its place in the table of
-- the groups, which Places shows.
use contention_prof.Base.{
  arith, ℕ, zero, suc, ◌⊎◌, ◌+◌, ◌-◌, ◌*◌, ◌^◌, ◌≡◌, ◌≤◌, ◌<◌, refl, sym, ap, ◌∙◌, Bool, true,
  false, ◌&&◌, List, [], ◌∷◌, Option, none, some, length, ltb, if◌then◌else◌, inl, inr, Bool-cases,
  Option-cases, List-cases,
}
use contention_prof.ObjectPool.{
  Obj, Shared, LocalPool, PoolEnv, op_group_block_count, op_max_block_group_count, add_block_group,
  place_block, add_block, with_block, construct, get_from_new_block, get_from_block, get_object,
  pop_free_chunk, return_object, delete_local_pool, push_free_chunk,
}
pub mod Places

-- `ObjectPoolInfo`
pub record ObjectPoolInfo : Type 0 where
  pub local_pool_num : ℕ
  pub block_group_num : ℕ
  pub block_num : ℕ
  pub item_num : ℕ
  pub block_item_num : ℕ
  pub free_chunk_item_num : ℕ
  pub total_size : ℕ

-- the sum of `item_count` over `n` blocks from the one numbered `first` on
abbrev pub items_of : (ℕ → ℕ) → (first n : ℕ) → ℕ
items_of item_count first zero = 0
items_of item_count first (suc n) = items_of item_count first n + item_count (first + n)

-- the loop over the groups: `block_num` and `item_num`
unfoldable pub describe_groups : (ℕ → ℕ) → List ℕ → ℕ × ℕ
describe_groups item_count [] = (0, 0)
describe_groups item_count (count ∷ groups) =
    let block_count = if ltb op_group_block_count count then op_group_block_count else count in
    let (blocks, items) = describe_groups item_count groups in
    (
      blocks + block_count,
      items + items_of item_count (length groups * op_group_block_count) block_count,
    )

-- `describe_objects`
unfoldable pub describe_objects :
    (local_count size_of block_items chunk_items : ℕ) → Shared → ObjectPoolInfo
unfolding describe_groups
describe_objects local_count size_of block_items chunk_items s =
    let (blocks, items) = describe_groups s.item_count s.groups in
    record {
      local_pool_num = local_count;
      block_group_num = length s.groups;
      block_num = blocks;
      item_num = items;
      block_item_num = block_items;
      free_chunk_item_num = chunk_items;
      total_size = blocks * block_items * size_of;
    }
