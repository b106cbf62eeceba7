-- ===== src/ObjectPool/Tests.antt =====
-- A thread that gets two objects and returns one.
use contention_prof.Base.{ℕ, ◌+◌, ◌*◌, ◌⊎◌, none, ◌≡◌, ◌≤◌, refl, true, some}
use contention_prof.ObjectPool.{
  Obj, Shared, PoolEnv, new_local_pool, get_object, pop_free_chunk, get_from_block,
  get_from_new_block, add_block, place_block, add_block_group, construct,
}
use contention_prof.ObjectPool.Occurrences.{in_locals, in_chunks}
use contention_prof.ObjectPool.Owner.{constructed}
use contention_prof.ObjectPool.Steps.{
  Pool, empty_pool, join_pool, get_in, Reach, Reach-owners, get_object-Reach,
}
use contention_prof.ObjectPool.Info.{items_of, describe_objects}
use contention_prof.ObjectPool.Info.Places.{describe_objects-Reach}

abbrev normal : PoolEnv
normal = record { memory = true; valid = true }

abbrev obj : ℕ → ℕ → Obj
obj block item = record { block = block; item = item }

abbrev one_thread : Pool
one_thread = join_pool empty_pool

abbrev got_one : Pool
got_one = get_in normal 4 0 new_local_pool one_thread

got_one-Reach : Reach 4 2 got_one
got_one-Reach = Reach.gets normal 0 new_local_pool refl (Reach.joins Reach.start)

Reach-owners_example :
    got_one.out (obj 0 0)
      + in_locals (obj 0 0) got_one.locals
      + in_chunks (obj 0 0) got_one.shared.free_chunks
    ≤ constructed (obj 0 0) got_one.shared
Reach-owners_example = Reach-owners got_one-Reach (obj 0 0)

first_object : (get_object normal 4 new_local_pool one_thread.shared).result ≡ some (obj 0 0)
unfolding get_object pop_free_chunk get_from_block get_from_new_block add_block place_block
    add_block_group construct
first_object = refl

one_thread-Reach : Reach 4 2 one_thread
one_thread-Reach = Reach.joins Reach.start

get_object-Reach_example : one_thread.out (obj 0 0) ≡ 0
get_object-Reach_example =
    get_object-Reach one_thread-Reach normal 0 new_local_pool (obj 0 0) refl first_object

-- one block with one object of 24 bytes
describe_objects-Reach_example :
    let s = got_one.shared in
    let info = describe_objects 1 24 4 2 s in
    (info.block_num ≡ s.made)
    × (info.item_num ≡ items_of s.item_count 0 s.made)
    × (info.total_size ≡ s.made * 4 * 24)
    × ((add_block true s ≡ none) ⊎ ((s' : Shared) × (add_block true s ≡ some (s.made, s.made, s'))))
describe_objects-Reach_example = describe_objects-Reach 1 24 true got_one-Reach
