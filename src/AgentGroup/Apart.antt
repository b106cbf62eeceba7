-- ===== src/AgentGroup/Apart.antt =====
-- The addresses of the agents of different ids.
use mathlib.Core.Option
use contention_prof.Base.{
  ◌⊎◌, arith, ℕ, zero, suc, ◌+◌, ◌-◌, ◌*◌, ◌/◌, ◌≡◌, ◌<◌, refl, sym, ap, ◌∙◌, List, [], ◌∷◌, Option,
  none, some, if◌then◌else◌, get_elem?, inl, inr, Bool-cases, Option-cases, ◌==◌, ==→eq,
  get_elem?-total,
}
use native.Mathlib.Nat.{div-mul-le_self}
use contention_prof.AgentGroup.{
  TlsBlocks, AgentAddress, address_in, get_tls_agent, grow, or_new, get_or_create_tls_agent,
}
use contention_prof.AgentGroup.Blocks.{grow-length, get_or_create_tls_agent_lem}
use contention_prof.AgentGroup.Places.{
  block_at, absurd_none, block_at-grow, block_at-set, get_elem?-block_at,
}

-- the block of each place of a thread's vector
abbrev pub block_of : TlsBlocks → ℕ → Option ℕ
block_of s i = block_at (or_new s.blocks) i

get_elem?-no_block : (l : List (Option ℕ)) (i : ℕ) → get_elem? l i ≡ none → block_at l i ≡ none
get_elem?-no_block [] i e = refl
get_elem?-no_block (y ∷ l) zero e = cc
get_elem?-no_block (y ∷ l) (suc i) e = get_elem?-no_block l i e

get_tls_agent-block_at :
    (n id made : ℕ) (blocks : Option (List (Option ℕ)))
    → get_tls_agent n id (record { blocks = blocks; made = made })
      ≡ Option.map (address_in n id) (block_at (or_new blocks) (id / n))
unfolding get_tls_agent
get_tls_agent-block_at n id made none = refl
get_tls_agent-block_at n id made (some l) = elim (Option-cases (get_elem? l (id / n))) [
  | inl out ↦ rw (get_tls_agent, out, get_elem?-no_block l (id / n) out) refl
  | inr (x, found) ↦ elim (Option-cases x) [
    | inl empty ↦
        let e = found ∙ ap some empty in rw (get_tls_agent, e, get_elem?-block_at l (id / n) e) refl
    | inr (b, there) ↦
        let e = found ∙ ap some there in rw (get_tls_agent, e, get_elem?-block_at l (id / n) e) refl
  ]
]

get_tls_agent-block_of :
    (n id : ℕ) (s : TlsBlocks)
    → get_tls_agent n id s ≡ Option.map (address_in n id) (block_of s (id / n))
unfolding get_tls_agent
get_tls_agent-block_of n id s = get_tls_agent-block_at n id s.made s.blocks

-- What a call leaves in each place, and how many blocks it makes.
get_or_create-block_of :
    (n id : ℕ) (s : TlsBlocks)
    → let s' = (get_or_create_tls_agent n id s).1 in
      ((b : ℕ) × (block_of s (id / n) ≡ some b)
        × ((i : ℕ) → block_of s' i ≡ block_of s i)
        × (s'.made ≡ s.made))
      ⊎ ((block_of s (id / n) ≡ none)
          × ((i : ℕ) → block_of s' i ≡ (if id / n == i then some s.made else block_of s i))
          × (s'.made ≡ s.made + 1))
unfolding get_or_create_tls_agent
get_or_create-block_of n id s =
    let blocks = grow (id / n) (or_new s.blocks) in
    let inside = grow-length (id / n) (or_new s.blocks) in
    let (slot, found) = get_elem?-total blocks (id / n) inside in
    elim (Option-cases slot) [
      | inr (b, there) ↦
          let here : get_elem? blocks (id / n) ≡ some (some b) = found ∙ ap some there in
          let old : block_of s (id / n) ≡ some b =
            sym (block_at-grow (id / n) (or_new s.blocks) (id / n))
            ∙ get_elem?-block_at blocks (id / n) here in
          inl (
            b,
            old,
            λ i. rw (get_or_create_tls_agent, here) (block_at-grow (id / n) (or_new s.blocks) i),
            rw (get_or_create_tls_agent, here) refl,
          )
      | inl missing ↦
          let here : get_elem? blocks (id / n) ≡ some none = found ∙ ap some missing in
          let old : block_of s (id / n) ≡ none =
            sym (block_at-grow (id / n) (or_new s.blocks) (id / n))
            ∙ get_elem?-block_at blocks (id / n) here in
          inr (
            old,
            λ i.
                rw (get_or_create_tls_agent, here)
                  (block_at-set blocks (id / n) s.made i inside
                    ∙ ap (λ x. if id / n == i then some s.made else x)
                        (block_at-grow (id / n) (or_new s.blocks) i)),
            rw (get_or_create_tls_agent, here) refl,
          )
    ]

-- Each block is in one place.
pub record IsApart (s : TlsBlocks) : Type 0 where
  pub known : (i b : ℕ) → block_of s i ≡ some b → b < s.made
  pub once : (i j b : ℕ) → block_of s i ≡ some b → block_of s j ≡ some b → i ≡ j

get_or_create-IsApart :
    (n id : ℕ) (s : TlsBlocks) → IsApart s → IsApart (get_or_create_tls_agent n id s).1
get_or_create-IsApart n id s a = elim (get_or_create-block_of n id s) [
  | inl (b, old, same, made) ↦ record {
    known = λ i c e. ground (arith, same i, a.known i c, made);
    once = λ i j c ei ej. a.once i j c (sym (same i) ∙ ei) (sym (same j) ∙ ej);
  }
  | inr (old, placed, made) ↦ record {
    known = λ i c e. ground (arith, placed i, a.known i c, made);
    once =
        λ i j c ei ej. ground (arith, placed i, placed j, a.known i c, a.known j c, a.once i j c);
  }
]

get_or_create-keeps :
    (n id : ℕ) (s : TlsBlocks) (i b : ℕ)
    → block_of s i ≡ some b
    → block_of (get_or_create_tls_agent n id s).1 i ≡ some b
get_or_create-keeps n id s i b e = elim (get_or_create-block_of n id s) [
  | inl (c, old, same, made) ↦ same i ∙ e
  | inr (old, placed, made) ↦ elim (Bool-cases (id / n == i)) [
    | inl here ↦ absurd (absurd_none (sym old ∙ ap (block_of s) (==→eq (id / n) i here) ∙ e))
    | inr away ↦ placed i ∙ (rw away e)
  ]
]

-- calls for some ids
unfoldable pub get_all : (n : ℕ) → List ℕ → TlsBlocks → TlsBlocks
unfolding get_or_create_tls_agent
get_all n [] s = s
get_all n (id ∷ l) s = get_all n l (get_or_create_tls_agent n id s).1

abbrev pub new_thread : TlsBlocks
new_thread = record { blocks = none; made = 0 }

get_all-IsApart : (n : ℕ) (ids : List ℕ) (s : TlsBlocks) → IsApart s → IsApart (get_all n ids s)
unfolding get_all
get_all-IsApart n [] s a = a
get_all-IsApart n (id ∷ l) s a = get_all-IsApart n l _ (get_or_create-IsApart n id s a)

get_all-keeps :
    (n : ℕ) (ids : List ℕ) (s : TlsBlocks) (i b : ℕ)
    → block_of s i ≡ some b
    → block_of (get_all n ids s) i ≡ some b
unfolding get_all
get_all-keeps n [] s i b e = e
get_all-keeps n (id ∷ l) s i b e = get_all-keeps n l _ i b (get_or_create-keeps n id s i b e)

map-some :
    (n id : ℕ) (o : Option ℕ) {a : AgentAddress}
    → Option.map (address_in n id) o ≡ some a
    → (b : ℕ) × (o ≡ some b) × (address_in n id b ≡ a)
map-some n id none e = cc
map-some n id (some b) e = (b, refl, cc)

same_number : (n i j : ℕ) → i / n ≡ j / n → i - i / n * n ≡ j - j / n * n → i ≡ j
same_number n i j q o =
    omega (arith, div-mul-le_self i n, div-mul-le_self j n, ap (λ (x : ℕ). x * n) q)

-- In a thread that asked for the agents of any ids, with memory to be had: agents of different
-- ids are at different addresses, get_or_create_tls_agent gives an agent for every id, and
-- get_tls_agent finds the same one after any further calls.
pub get_all-agents :
    (n : ℕ) (before after : List ℕ)
    → let s = get_all n before new_thread in
      ((i j : ℕ) (a : AgentAddress)
        → get_tls_agent n i s ≡ some a
        → get_tls_agent n j s ≡ some a
        → i ≡ j)
      × ((id : ℕ)
          → let (agent, s') = get_or_create_tls_agent n id s in
            (a : AgentAddress) × (agent ≡ some a)
            × (get_tls_agent n id (get_all n after s') ≡ some a))
get_all-agents n before after = (
  λ i j a ei ej. same_id i j a ei ej,
  λ id.
      let (a, got, there) = get_or_create_tls_agent_lem n id s in
      (a, got, stays id (get_or_create_tls_agent n id s).1 a there),
)
  where
    s : TlsBlocks
    s = get_all n before new_thread

    apart : IsApart s
    apart =
        get_all-IsApart n before new_thread (record { known = λ i b e. cc; once = λ i j b e. cc })

    same_id :
        (i j : ℕ) (a : AgentAddress)
        → get_tls_agent n i s ≡ some a
        → get_tls_agent n j s ≡ some a
        → i ≡ j
    same_id i j a ei ej =
        let (b, there, at) =
          map-some n i (block_of s (i / n)) (sym (get_tls_agent-block_of n i s) ∙ ei) in
        let (c, there', at') =
          map-some n j (block_of s (j / n)) (sym (get_tls_agent-block_of n j s) ∙ ej) in
        let one_block : c ≡ b = ap (λ (x : AgentAddress). x.block) (at' ∙ sym at) in
        let one_offset : i - i / n * n ≡ j - j / n * n =
          ap (λ (x : AgentAddress). x.offset) (at ∙ sym at') in
        let one_place : i / n ≡ j / n =
          apart.once (i / n) (j / n) b there (there' ∙ ap some one_block) in
        same_number n i j one_place one_offset

    stays :
        (id : ℕ) (t : TlsBlocks) (a : AgentAddress)
        → get_tls_agent n id t ≡ some a
        → get_tls_agent n id (get_all n after t) ≡ some a
    stays id t a e =
        let (b, there, at) =
          map-some n id (block_of t (id / n)) (sym (get_tls_agent-block_of n id t) ∙ e) in
        get_tls_agent-block_of n id (get_all n after t)
        ∙ ap (Option.map (address_in n id)) (get_all-keeps n after t (id / n) b there)
        ∙ ap some at
