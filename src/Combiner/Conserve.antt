-- ===== src/Combiner/Conserve.antt =====
-- The total of the values that the threads add to a combiner.
use contention_prof.Base.{
  arith, ℕ, ◌≡◌, refl, sym, ap, ◌∙◌, true, List, [], ◌∷◌, ◌==◌, inl, inr, Bool-cases,
}
use contention_prof.Combiner.{
  Agent, AgentCombiner, IsCommutativeMonoid, new_combiner, combine_from, combine_agents,
  exchange_all, reset_all_agents, has_agent, append, get_or_create_tls_agent, modify_in, add_value,
  remove_agent, element_of, commit_and_erase, Reach,
}

-- the specification: the values, put together
abbrev pub total {ℓ} : {A : Type ℓ} → (A → A → A) → A → List A → A
total op identity [] = identity
total op identity (v ∷ vs) = op (total op identity vs) v

module _ {ℓ} {A : Type ℓ} (op : A → A → A) (identity : A)
    (m : IsCommutativeMonoid op identity) where
  -- the right operands of two in a row can be swapped
  swap_right : (a b c : A) → op (op a b) c ≡ op (op a c) b
  swap_right a b c = m.assoc a b c ∙ ap (op a) (m.comm b c) ∙ sym (m.assoc a c b)

  combine_from-op :
      (r v : A) (l : List (Agent A))
      → combine_from op identity (op r v) l ≡ op (combine_from op identity r l) v
  unfolding combine_from
  combine_from-op r v [] = refl
  combine_from-op r v (a ∷ l) =
      ap (λ x. combine_from op identity x l) (swap_right r v a.element)
      ∙ combine_from-op (op r a.element) v l

  combine_from-exchange_all :
      (r : A) (l : List (Agent A)) → combine_from op identity r (exchange_all op identity l) ≡ r
  unfolding combine_from exchange_all
  combine_from-exchange_all r [] = refl
  combine_from-exchange_all r (a ∷ l) = combine_from-exchange_all (op r identity) l ∙ m.unit r

  combine_from-append :
      (r : A) (l : List (Agent A)) (thread : ℕ)
      → combine_from op identity r
          (append op identity l (record { thread = thread; element = identity }))
        ≡ combine_from op identity r l
  unfolding combine_from
  combine_from-append r [] thread = m.unit r
  combine_from-append r (a ∷ l) thread = combine_from-append (op r a.element) l thread

  has_agent-append :
      (thread : ℕ) (l : List (Agent A)) (v : A)
      → has_agent op identity thread
          (append op identity l (record { thread = thread; element = v }))
        ≡ true
  unfolding has_agent
  has_agent-append thread [] v = ground arith
  has_agent-append thread (a ∷ l) v = elim (Bool-cases (a.thread == thread)) [
    | inl same ↦ rw same
    | inr other ↦ rw other (has_agent-append thread l v)
  ]

  combine_from-modify_in :
      (r : A) (thread : ℕ) (v : A) (l : List (Agent A))
      → has_agent op identity thread l ≡ true
      → combine_from op identity r (modify_in op identity thread v l)
        ≡ op (combine_from op identity r l) v
  unfolding combine_from modify_in has_agent
  combine_from-modify_in r thread v [] h = ground arith
  combine_from-modify_in r thread v (a ∷ l) h = elim (Bool-cases (a.thread == thread)) [
    | inl same ↦ rw same (
        ap (λ x. combine_from op identity x l) (sym (m.assoc r a.element v))
        ∙ combine_from-op (op r a.element) v l)
    | inr other ↦
        let h' : has_agent op identity thread l ≡ true = ground arith in
        rw other (combine_from-modify_in (op r a.element) thread v l h')
  ]

  combine_from-remove_agent :
      (r : A) (thread : ℕ) (l : List (Agent A))
      → has_agent op identity thread l ≡ true
      → combine_from op identity
          (op r (element_of op identity thread l))
          (remove_agent op identity thread l)
        ≡ combine_from op identity r l
  unfolding combine_from remove_agent element_of has_agent
  combine_from-remove_agent r thread [] h = ground arith
  combine_from-remove_agent r thread (a ∷ l) h = elim (Bool-cases (a.thread == thread)) [
    | inl same ↦ rw same
    | inr other ↦
        let h' : has_agent op identity thread l ≡ true = ground arith in
        let e = element_of op identity thread l in
        rw other (
          ap (λ x. combine_from op identity x (remove_agent op identity thread l))
            (swap_right r e a.element)
          ∙ combine_from-remove_agent (op r a.element) thread l h')
  ]

  has_agent-get_or_create :
      (thread : ℕ) (s : AgentCombiner A)
      → has_agent op identity thread (get_or_create_tls_agent op identity thread s).agents ≡ true
  unfolding get_or_create_tls_agent
  has_agent-get_or_create thread s = elim (Bool-cases (has_agent op identity thread s.agents)) [
    | inl there ↦ rw there there
    | inr missing ↦ rw missing (has_agent-append thread s.agents identity)
  ]

  combine_agents-get_or_create :
      (thread : ℕ) (s : AgentCombiner A)
      → combine_agents op identity (get_or_create_tls_agent op identity thread s)
        ≡ combine_agents op identity s
  unfolding get_or_create_tls_agent combine_agents
  combine_agents-get_or_create thread s =
      elim (Bool-cases (has_agent op identity thread s.agents)) [
        | inl there ↦ rw there
        | inr missing ↦ rw missing (combine_from-append s.global_result s.agents thread)
      ]

  combine_agents-add_value :
      (thread : ℕ) (v : A) (s : AgentCombiner A)
      → combine_agents op identity (add_value op identity thread v s)
        ≡ op (combine_agents op identity s) v
  unfolding combine_agents add_value
  combine_agents-add_value thread v s =
      let t = get_or_create_tls_agent op identity thread s in
      combine_from-modify_in t.global_result thread v t.agents (has_agent-get_or_create thread s)
      ∙ ap (λ x. op x v) (combine_agents-get_or_create thread s)

  combine_agents-commit_and_erase :
      (thread : ℕ) (s : AgentCombiner A)
      → combine_agents op identity (commit_and_erase op identity thread s)
        ≡ combine_agents op identity s
  unfolding combine_agents commit_and_erase
  combine_agents-commit_and_erase thread s =
      elim (Bool-cases (has_agent op identity thread s.agents)) [
        | inl there ↦ rw there (combine_from-remove_agent s.global_result thread s.agents there)
        | inr missing ↦ rw missing
      ]

  -- Whatever the threads did, combine_agents gives the values added since the last reset, put
  -- together, if the operator is commutative and associative with the identity as unit.
  pub combine_agents-Reach :
      {vs : List A} {s : AgentCombiner A}
      → Reach op identity vs s
      → combine_agents op identity s ≡ total op identity vs
  unfolding combine_agents combine_from new_combiner reset_all_agents
  combine_agents-Reach Reach.start = refl
  combine_agents-Reach (Reach.adds {vs} {s} thread v r) =
      combine_agents-add_value thread v s ∙ ap (λ x. op x v) (combine_agents-Reach r)
  combine_agents-Reach (Reach.exits {vs} {s} thread r) =
      combine_agents-commit_and_erase thread s ∙ combine_agents-Reach r
  combine_agents-Reach (Reach.resets {vs} {s} r) = combine_from-exchange_all identity s.agents

  -- what reset_all_agents hands out and leaves
  pub reset_all_agents-Reach :
      {vs : List A} {s : AgentCombiner A}
      → Reach op identity vs s
      → let (result, t) = reset_all_agents op identity s in
        (result ≡ total op identity vs) × (combine_agents op identity t ≡ identity)
  unfolding combine_agents reset_all_agents
  reset_all_agents-Reach {vs} {s} r =
      (combine_agents-Reach r, combine_from-exchange_all identity s.agents)

  -- Whatever the threads did, if the operator is commutative and associative with the identity
  -- as unit: combine_agents gives the values added since the last reset, put together;
  -- reset_all_agents hands out the same and leaves a combiner of the identity.
  pub Reach-total :
      {vs : List A} {s : AgentCombiner A}
      → Reach op identity vs s
      → let (result, t) = reset_all_agents op identity s in
        (combine_agents op identity s ≡ total op identity vs)
        × (result ≡ total op identity vs)
        × (combine_agents op identity t ≡ identity)
  Reach-total r = let (out, left) = reset_all_agents-Reach r in (combine_agents-Reach r, out, left)
