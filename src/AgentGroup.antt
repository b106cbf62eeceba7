-- ===== src/AgentGroup.antt =====
-- src/common/agent_group.h: the ids of the agents, and where each thread keeps its agents.
-- A function that takes `mtx_` is one step. An id of type `int` is a number; the destructor of a
-- combiner is the only caller of `destroy_agent`, with its own id.
use contention_prof.Base.{
  ℕ, zero, suc, ◌+◌, ◌-◌, ◌*◌, ◌/◌, ◌%◌, ◌≡◌, ◌==◌, Bool, true, false, List, [], ◌∷◌, ◌++◌, Option,
  none, some, ltb, if◌then◌else◌, length, get_elem?, set, replicate,
}
pub mod Ids
pub mod Blocks
pub mod Places
pub mod Apart
mod Tests

-- `agent_kinds_` and `free_ids_` from its back
pub record IdTable : Type 0 where
  pub agent_kinds : ℕ
  pub free_ids : List ℕ

-- `create_new_agent`
unfoldable pub create_new_agent : IdTable → ℕ × IdTable
create_new_agent s = elim s.free_ids [
  | [] ↦ (s.agent_kinds, record s { agent_kinds = s.agent_kinds + 1 })
  | id ∷ rest ↦ (id, record s { free_ids = rest })
]

-- `destroy_agent` with an id that is not negative: whether it returns 0
unfoldable pub destroy_agent : ℕ → IdTable → Bool × IdTable
destroy_agent id s =
    if ltb id s.agent_kinds then (true, record s { free_ids = id ∷ s.free_ids }) else (false, s)

-- `tls_blocks_` of a thread: a block that is not null is the number of its `new`
pub record TlsBlocks : Type 0 where
  pub blocks : Option (List (Option ℕ))
  pub made : ℕ

-- an `Agent*`: a block, and the offset in it
pub record AgentAddress : Type 0 where
  pub block : ℕ
  pub offset : ℕ

abbrev pub address_in : (element_per_block id : ℕ) → ℕ → AgentAddress
address_in n id block = record { block = block; offset = id - id / n * n }

-- `get_tls_agent`; `n` is `ELEMENT_PER_BLOCK`
unfoldable pub get_tls_agent : (n id : ℕ) → TlsBlocks → Option AgentAddress
get_tls_agent n id s = elim s.blocks [
  | none ↦ none
  | some blocks ↦ elim (get_elem? blocks (id / n)) [
    | some (some b) ↦ some (address_in n id b)
    | _ ↦ none
  ]
]

-- `tls_blocks_->resize(std::max(block_id + 1, 32UL))`, when the vector is too short
unfoldable pub grow : (block_id : ℕ) → List (Option ℕ) → List (Option ℕ)
grow block_id blocks =
    let wanted = if ltb (block_id + 1) 32 then 32 else block_id + 1 in
    if ltb block_id (length blocks)
    then blocks
    else blocks ++ replicate (wanted - length blocks) none

-- `if (tls_blocks_ == nullptr)`
abbrev pub or_new : Option (List (Option ℕ)) → List (Option ℕ)
or_new none = []
or_new (some blocks) = blocks

-- `get_or_create_tls_agent`, with memory to be had
unfoldable pub get_or_create_tls_agent : (n id : ℕ) → TlsBlocks → Option AgentAddress × TlsBlocks
unfolding grow
get_or_create_tls_agent n id s =
    let blocks = grow (id / n) (or_new s.blocks) in
    elim (get_elem? blocks (id / n)) [
      | none ↦ (none, s)
      | some (some b) ↦ (some (address_in n id b), record s { blocks = some blocks })
      | some none ↦ (
        some (address_in n id s.made),
        record { blocks = some (set blocks (id / n) (some s.made)); made = s.made + 1 },
      )
    ]
