-- ===== src/Combiner/Lifetime/Refine.antt =====
-- The steps of a combiner among others, against those that Combiner has for it alone.
use mathlib.Core.Path.{subst}
use contention_prof.Base.{
  ℕ, ◌≡◌, refl, sym, ap, ◌∙◌, List, none, some, inl, inr, Option-cases, eq→==,
}
use contention_prof.Combiner
use contention_prof.Combiner.{AgentCombiner}
use contention_prof.Combiner.Lifetime.{
  LiveCombiner, Agents, combine_threads, reset_all_agents, delete_agent, Reach,
}
use contention_prof.Combiner.Conserve.{total, Reach-total}
use contention_prof.Combiner.Lifetime.Lists.{some_eq, combine_threads-cells}
use contention_prof.Combiner.Lifetime.Steps.{Inv}
use contention_prof.Combiner.Lifetime.Adds.{add_value-Inv}
use contention_prof.Combiner.Lifetime.Clears.{reset_all_agents-Inv, delete_agent-Inv, destroy-Inv}
use contention_prof.Combiner.Lifetime.Creates.{no_combiners-Inv, construct-Inv}

-- The combiners that any calls lead to.
module _ {ℓ} {A : Type ℓ} (op : A → A → A) (identity default : A) where
  -- The destructor of an agent always finds its combiner.
  Deleted : (ℕ → List A) → Agents A → (thread id : ℕ) → Type ℓ
  Deleted vs w thread id =
      (w' : Agents A) × (delete_agent op identity default thread id w ≡ some w')
      × ((w'.agent thread id).combiner ≡ none)
      × Inv op identity vs w'

  delete_agent-Deleted :
      {vs : ℕ → List A} {w : Agents A}
      → Inv op identity vs w
      → (thread id : ℕ) → Deleted vs w thread id
  unfolding Deleted delete_agent
  delete_agent-Deleted {vs} {w} inv thread id = elim (Option-cases (w.agent thread id).combiner) [
    | inl free ↦ (w, rw (delete_agent, free) refl, free, inv)
    | inr (c, taken) ↦
        let (s, e, same, member) = inv.owned thread id c taken in
        subst (Deleted vs w thread) same (
          let mine : (w.agent thread s.id).combiner ≡ some c =
            ap (λ i. (w.agent thread i).combiner) same ∙ taken in
          (
            _,
            rw (delete_agent, mine, e) refl,
            rw (eq→== thread thread refl, eq→== s.id s.id refl) refl,
            delete_agent-Inv op identity default inv c s e thread member,
          ))
  ]

  pub Reach-Inv :
      {vs : ℕ → List A} {w : Agents A} → Reach op identity default vs w → Inv op identity vs w
  unfolding Deleted
  Reach-Inv Reach.start = no_combiners-Inv op identity default
  Reach-Inv (Reach.constructs r) = construct-Inv op identity default (Reach-Inv r)
  Reach-Inv (Reach.adds thread c value s e r) =
      add_value-Inv op identity default (Reach-Inv r) c s e thread value
  Reach-Inv (Reach.resets c s e r) = reset_all_agents-Inv op identity default (Reach-Inv r) c s e
  Reach-Inv (Reach.destroys c s e r) = destroy-Inv op identity default (Reach-Inv r) c s e
  Reach-Inv {vs} (Reach.exits thread id e r) =
      let (w', done, _, inv) = delete_agent-Deleted (Reach-Inv r) thread id in
      subst (Inv op identity vs) (some_eq (sym done ∙ e)) inv

  -- Whatever combiners are constructed and destroyed, values added and reset and agents deleted:
  -- the destructor of the agent of any thread for any id never meets a destroyed combiner, and
  -- leaves the agent without one.
  pub delete_agent-total :
      {vs : ℕ → List A} {w : Agents A}
      → Reach op identity default vs w
      → (thread id : ℕ)
      → (w' : Agents A) × (delete_agent op identity default thread id w ≡ some w')
        × ((w'.agent thread id).combiner ≡ none)
  unfolding Deleted
  delete_agent-total r thread id =
      let (w', done, free, _) = delete_agent-Deleted (Reach-Inv r) thread id in (w', done, free)

  -- Whatever combiners are constructed and destroyed, values added and reset and agents deleted
  -- at the end of their threads, so that ids and agents are used again: if the operator is
  -- associative and commutative with the identity, combine_agents and reset_all_agents of a live
  -- combiner give the values that were added to this combiner since its construction or its last
  -- reset, put together.
  pub combine_threads-total :
      {vs : ℕ → List A} {w : Agents A}
      → Combiner.IsCommutativeMonoid op identity
      → Reach op identity default vs w
      → (c : ℕ) (s : LiveCombiner A) → w.combiners c ≡ some s
      → (combine_threads op identity default s.global_result s.id w.agent s.threads
          ≡ total op identity (vs c))
        × ((reset_all_agents op identity default c s w).0 ≡ total op identity (vs c))
  unfolding Combiner.combine_agents reset_all_agents
  combine_threads-total {vs} {w} m r c s e =
      let inv = Reach-Inv r in
      let sums =
        combine_threads-cells op identity default s.global_result s.id w.agent s.threads
        ∙ (Reach-total op identity m (inv.refines c s e)).0 in
      (sums, sums)
