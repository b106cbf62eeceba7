-- ===== src/AgentGroup/Ids.antt =====
-- Which ids are live, and which are free.
use contention_prof.Base.{
  arith, ℕ, ◌+◌, ◌-◌, ◌<◌, ◌≡◌, ap, ◌==◌, Bool, List, [], ◌∷◌, ltb, if◌then◌else◌, inl, inr,
  Bool-cases, List-cases, ==→eq,
}
use contention_prof.AgentGroup.{IdTable, create_new_agent, destroy_agent}

abbrev pub one_if : Bool → ℕ
one_if b = if b then 1 else 0

abbrev pub occurrences : ℕ → List ℕ → ℕ
occurrences id [] = 0
occurrences id (x ∷ l) = one_if (id == x) + occurrences id l

abbrev pub no_ids : IdTable
no_ids = record { agent_kinds = 0; free_ids = [] }

-- The ids of the agents that live, with how often each is in use. Only a live id is destroyed.
pub data Reach : (ℕ → ℕ) → IdTable → Type 0 where
  start : Reach (λ id. 0) no_ids
  creates :
      {live : ℕ → ℕ} {s : IdTable}
      → Reach live s
      → Reach (λ id. live id + one_if (id == (create_new_agent s).0)) (create_new_agent s).1
  destroys :
      {live : ℕ → ℕ} {s : IdTable} (id : ℕ)
      → 0 < live id
      → Reach live s
      → Reach (λ x. live x - one_if (x == id)) (destroy_agent id s).1

-- Each id below the count of ids is either live once or free once, and no other is either, if
-- only live ids are destroyed.
pub Reach-once :
    {live : ℕ → ℕ} {s : IdTable}
    → Reach live s
    → (id : ℕ) → live id + occurrences id s.free_ids ≡ one_if (ltb id s.agent_kinds)
unfolding create_new_agent destroy_agent
Reach-once Reach.start id = ground arith
Reach-once (Reach.creates {live} {s} r) id = elim (List-cases s.free_ids) [
  | inl empty ↦
      let before : live id + occurrences id s.free_ids ≡ one_if (ltb id s.agent_kinds) =
        Reach-once r id in
      let none_free : occurrences id s.free_ids ≡ 0 = ap (occurrences id) empty in
      rw (create_new_agent, empty) (ground arith)
  | inr (x, rest, has) ↦
      let before : live id + occurrences id s.free_ids ≡ one_if (ltb id s.agent_kinds) =
        Reach-once r id in
      let split : occurrences id s.free_ids ≡ one_if (id == x) + occurrences id rest =
        ap (occurrences id) has in
      rw (create_new_agent, has) (omega arith)
]
Reach-once (Reach.destroys {live} {s} x used r) id =
    let before : live id + occurrences id s.free_ids ≡ one_if (ltb id s.agent_kinds) =
      Reach-once r id in
    let there : live x + occurrences x s.free_ids ≡ one_if (ltb x s.agent_kinds) = Reach-once r x in
    elim (Bool-cases (ltb x s.agent_kinds)) [
      | inl known ↦ elim (Bool-cases (id == x)) [
        | inl same ↦
            let e : id ≡ x = ==→eq id x same in
            let here : live id ≡ live x = ap live e in rw (destroy_agent, known, same) (omega arith)
        | inr other ↦ rw (destroy_agent, known, other) (omega arith)
      ]
      | inr unknown ↦ absurd (ground arith)
    ]
