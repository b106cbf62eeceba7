-- ===== src/ObjectPool/Chunks.antt =====
-- The chunks that all threads share.
use mathlib.Core.Path.{subst}
use contention_prof.Base.{
  arith, ℕ, ◌≡◌, ◌<◌, ◌≤◌, refl, ◌∙◌, Bool, true, false, List, [], ◌∷◌, some, length, ltb,
  ltb_false→le, All, inl, inr, Bool-cases, Option-cases, List-cases,
}
use contention_prof.ObjectPool.{
  Obj, Shared, LocalPool, PoolEnv, construct, get_from_new_block, get_from_block, get_object,
  pop_free_chunk, push_free_chunk, return_object, delete_local_pool, with_block,
}
use contention_prof.ObjectPool.Owner.{add_block_cases}
use contention_prof.ObjectPool.Steps.{Pool, Reach}

abbrev pub AreFilled : List (List Obj) → Type 0
AreFilled chunks = All (λ c. 0 < length c) chunks

construct_chunks :
    (valid : Bool) (b : ℕ) (local : LocalPool) (s : Shared)
    → (construct valid b local s).shared.free_chunks ≡ s.free_chunks
unfolding construct
construct_chunks true b local s = refl
construct_chunks false b local s = refl

get_from_new_block_chunks :
    (env : PoolEnv) (local : LocalPool) (s : Shared)
    → (get_from_new_block env local s).shared.free_chunks ≡ s.free_chunks
unfolding get_from_new_block
get_from_new_block_chunks env local s = elim (add_block_cases env.memory s) [
  | inl full ↦ rw (get_from_new_block, full) refl
  | inr (index, groups, added) ↦
      rw (get_from_new_block, added)
        (construct_chunks env.valid s.made
          (record local { cur_block = some s.made; cur_block_index = index }) (with_block s groups))
]

get_from_block_chunks :
    (env : PoolEnv) (n : ℕ) (local : LocalPool) (s : Shared)
    → (get_from_block env n local s).shared.free_chunks ≡ s.free_chunks
unfolding get_from_block
get_from_block_chunks env n local s = elim (Option-cases local.cur_block) [
  | inl missing ↦ rw (get_from_block, missing) (get_from_new_block_chunks env local s)
  | inr (b, there) ↦ elim (Bool-cases (ltb (s.item_count b) n)) [
    | inl room ↦ rw (get_from_block, there, room) (construct_chunks env.valid b local s)
    | inr full ↦ rw (get_from_block, there, full) (get_from_new_block_chunks env local s)
  ]
]

get_object-AreFilled :
    (env : PoolEnv) (n : ℕ) (local : LocalPool) (s : Shared)
    → AreFilled s.free_chunks
    → AreFilled (get_object env n local s).shared.free_chunks
unfolding get_object pop_free_chunk
get_object-AreFilled env n local s filled = elim (List-cases local.cur_free) [
  | inr (p, rest, has) ↦ rw (get_object, has) filled
  | inl empty ↦ elim (List-cases s.free_chunks) [
    | inl no_chunk ↦
        let same : (get_from_block env n local s).shared.free_chunks ≡ [] =
          get_from_block_chunks env n local s ∙ no_chunk in
        rw (get_object, empty, no_chunk, same) tt
    | inr ([], chunks, has) ↦
        let front : AreFilled ([] ∷ chunks) = subst AreFilled has filled in
        rw (get_object, empty, has) front.1
    | inr (p ∷ rest, chunks, has) ↦
        let front : AreFilled ((p ∷ rest) ∷ chunks) = subst AreFilled has filled in
        rw (get_object, empty, has) front.1
  ]
]

return_object-AreFilled :
    (p : Obj) (memory : Bool) (n : ℕ) (local : LocalPool) (s : Shared)
    → 0 < n
    → AreFilled s.free_chunks
    → AreFilled (return_object memory n p local s).2.free_chunks
unfolding return_object push_free_chunk
return_object-AreFilled p memory n local s pos filled =
    elim (Bool-cases (ltb (length local.cur_free) n)) [
      | inl room ↦ rw (return_object, room) filled
      | inr full ↦
          let le : n ≤ length local.cur_free = ltb_false→le _ _ full in
          elim (Bool-cases memory) [
            | inl has ↦ rw (return_object, full, has) (omega arith, filled)
            | inr lacks ↦ rw (return_object, full, lacks) filled
          ]
    ]

delete_local_pool-AreFilled :
    (memory : Bool) (local : LocalPool) (s : Shared)
    → AreFilled s.free_chunks
    → AreFilled (delete_local_pool memory local s).free_chunks
unfolding delete_local_pool push_free_chunk
delete_local_pool-AreFilled memory local s filled = elim (List-cases local.cur_free) [
  | inl empty ↦ rw (delete_local_pool, empty) filled
  | inr (p, rest, has) ↦ elim (Bool-cases memory) [
    | inl room ↦ rw (delete_local_pool, has, room) (omega arith, filled)
    | inr lacks ↦ rw (delete_local_pool, has, lacks) filled
  ]
]

-- Every chunk of a reachable pool holds an object, if the free lists of the threads may hold one.
pub Reach-AreFilled : {n k : ℕ} {p : Pool} → 0 < k → Reach n k p → AreFilled p.shared.free_chunks
Reach-AreFilled pos Reach.start = tt
Reach-AreFilled pos (Reach.joins r) = Reach-AreFilled pos r
Reach-AreFilled {n} pos (Reach.gets {p} env i local here r) =
    get_object-AreFilled env n local p.shared (Reach-AreFilled pos r)
Reach-AreFilled {n} {k} pos (Reach.returns {p} memory i x local here has r) =
    return_object-AreFilled x memory k local p.shared pos (Reach-AreFilled pos r)
Reach-AreFilled pos (Reach.exits {p} memory i local here r) =
    delete_local_pool-AreFilled memory local p.shared (Reach-AreFilled pos r)
