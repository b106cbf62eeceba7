-- ===== src/AgentGroup/Blocks.antt =====
-- Where a thread keeps its agents.
use contention_prof.Base.{
  arith, ℕ, ◌+◌, ◌-◌, ◌/◌, ◌≡◌, ◌<◌, refl, ap, ◌∙◌, List, Option, none, some, ltb, if◌then◌else◌,
  length, get_elem?, set, replicate, length-append, length-replicate, get_elem?-total,
  get_elem?-set_self, inl, inr, Bool-cases, Option-cases, ltb→lt,
}
use contention_prof.AgentGroup.{
  TlsBlocks, AgentAddress, address_in, get_tls_agent, grow, or_new, get_or_create_tls_agent,
}

-- The grown vector has the block.
pub grow-length : (b : ℕ) (blocks : List (Option ℕ)) → b < length (grow b blocks)
unfolding grow
grow-length b blocks = elim (Bool-cases (ltb b (length blocks))) [
  | inl inside ↦ rw inside (ltb→lt _ _ inside)
  | inr short ↦
      let wanted = if ltb (b + 1) 32 then 32 else b + 1 in
      let enough : b < wanted = ground arith in
      rw short (
        omega (
          arith,
          length-append blocks (replicate (wanted - length blocks) none),
          length-replicate {A = Option ℕ} (wanted - length blocks) none,
          enough,
        ))
]

-- With memory to be had, get_or_create_tls_agent always gives an agent, and afterwards
-- get_tls_agent finds the same one.
pub get_or_create_tls_agent_lem :
    (n id : ℕ) (s : TlsBlocks)
    → let (agent, s') = get_or_create_tls_agent n id s in
      (a : AgentAddress) × (agent ≡ some a) × (get_tls_agent n id s' ≡ some a)
unfolding get_or_create_tls_agent get_tls_agent
get_or_create_tls_agent_lem n id s =
    let blocks = grow (id / n) (or_new s.blocks) in
    let inside = grow-length (id / n) (or_new s.blocks) in
    let (slot, found) = get_elem?-total blocks (id / n) inside in
    elim (Option-cases slot) [
      | inr (b, there) ↦
          let here : get_elem? blocks (id / n) ≡ some (some b) = found ∙ ap some there in
          (
            address_in n id b,
            rw (get_or_create_tls_agent, here) refl,
            rw (get_or_create_tls_agent, here, get_tls_agent, here) refl,
          )
      | inl missing ↦
          let here : get_elem? blocks (id / n) ≡ some none = found ∙ ap some missing in
          let after : get_elem? (set blocks (id / n) (some s.made)) (id / n) ≡ some (some s.made) =
            get_elem?-set_self blocks (id / n) (some s.made) inside in
          (
            address_in n id s.made,
            rw (get_or_create_tls_agent, here) refl,
            rw (get_or_create_tls_agent, here, get_tls_agent, after) refl,
          )
    ]
