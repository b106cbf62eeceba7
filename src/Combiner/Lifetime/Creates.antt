-- ===== src/Combiner/Lifetime/Creates.antt =====
-- A combiner is constructed among others.
use mathlib.Core.Path.{subst}
use contention_prof.Base.{
  arith, ℕ, ◌+◌, ◌≡◌, ◌<◌, ◌≢◌, ◌⊎◌, refl, sym, ap, ◌∙◌, true, false, List, [], some, ◌==◌, inl,
  inr, Bool-cases, ==→eq, eq→==, ne→==_false,
}
use contention_prof.AgentGroup.{create_new_agent}
use contention_prof.AgentGroup.Ids
use contention_prof.AgentGroup.Ids.{one_if, Reach-once, no_ids, occurrences}
use contention_prof.Combiner
use contention_prof.Combiner.{AgentCombiner}
use contention_prof.Combiner.Lifetime.{LiveCombiner, Agents, put_combiner, no_combiners, construct}
use contention_prof.Combiner.Lifetime.Lists.{
  some_eq, absurd_none, absurd_bool, has, distinct, cells,
}
use contention_prof.Combiner.Lifetime.Steps.{view, Inv}

module _ {ℓ} {A : Type ℓ} (op : A → A → A) (identity default : A) where
  pub no_combiners-Inv : Inv op identity (λ c. []) (no_combiners op identity default)
  no_combiners-Inv = record {
    known = λ c s e. absurd (absurd_none e);
    fresh = λ c above. refl;
    apart = λ c d s t e. absurd (absurd_none e);
    live = (λ id. 0, Ids.Reach.start, λ c s e. absurd (absurd_none e));
    owned = λ t id c e. absurd (absurd_none e);
    listed = λ c t s e. absurd (absurd_none e);
    once = λ c s e. absurd (absurd_none e);
    refines = λ c s e. absurd (absurd_none e);
  }

  module _ {vs : ℕ → List A} {w : Agents A} (inv : Inv op identity vs w) where
    abbrev created : LiveCombiner A
    created = record { id = (create_new_agent w.ids).0; global_result = identity; threads = [] }

    construct-cases :
        (d : ℕ) (r : LiveCombiner A)
        → put_combiner w.made (some created) w.combiners d ≡ some r
        → ((d ≡ w.made) × (created ≡ r)) ⊎ (((d == w.made) ≡ false) × (w.combiners d ≡ some r))
    construct-cases d r e = elim (Bool-cases (d == w.made)) [
      | inl here ↦ inl (==→eq d w.made here, some_eq (rw here at e))
      | inr away ↦ inr (away, rw away at e)
    ]

    -- The id of a new combiner is that of no other.
    new_id : (d : ℕ) (r : LiveCombiner A) → w.combiners d ≡ some r → r.id ≢ created.id
    new_id d r old same =
        let (l, reach, positive) = inv.live in
        let most = Reach-once (Ids.Reach.creates reach) r.id in
        let used = positive d r old in
        let twice : one_if (r.id == (create_new_agent w.ids).0) ≡ 1 =
          rw (eq→== r.id created.id same) refl in
        ground (arith, most, used, twice)

    pub construct-Inv : Inv op identity vs (construct op identity default w)
    unfolding construct Combiner.new_combiner cells
    construct-Inv = record {
      known = λ d r e. elim (construct-cases d r e) [
        | inl (here, _) ↦ omega arith
        | inr (_, old) ↦ omega (arith, inv.known d r old)
      ];
      fresh = λ d above. inv.fresh d (omega arith);
      apart = λ d d' r r' e e' same. elim (construct-cases d r e) [
        | inl (here, is_new) ↦ elim (construct-cases d' r' e') [
          | inl (here', _) ↦ omega arith
          | inr (_, old') ↦
              absurd (new_id d' r' old' (sym same ∙ sym (ap (λ (x : LiveCombiner A). x.id) is_new)))
        ]
        | inr (_, old) ↦ elim (construct-cases d' r' e') [
          | inl (_, is_new) ↦
              absurd (new_id d r old (same ∙ sym (ap (λ (x : LiveCombiner A). x.id) is_new)))
          | inr (_, old') ↦ inv.apart d d' r r' old old' same
        ]
      ];
      live =
          let (l, reach, positive) = inv.live in
          (
            λ id. l id + one_if (id == (create_new_agent w.ids).0),
            Ids.Reach.creates reach,
            λ d r e. elim (construct-cases d r e) [
              | inl (_, is_new) ↦
                  subst
                    (λ (x : LiveCombiner A).
                      0 < l x.id + one_if (x.id == (create_new_agent w.ids).0))
                    is_new (rw (eq→== created.id created.id refl) (omega arith))
              | inr (_, old) ↦ omega (arith, positive d r old)
            ],
          );
      owned = λ t i d e.
          let (r, old, id, member) = inv.owned t i d e in
          let away : (d == w.made) ≡ false =
            ne→==_false d w.made (λ same. absurd (omega (arith, inv.known d r old))) in
          (r, (rw away old), id, member);
      listed = λ d t r e h. elim (construct-cases d r e) [
        | inl (_, is_new) ↦ absurd (
            absurd_bool
              (sym (subst (λ (x : LiveCombiner A). has t x.threads ≡ true) (sym is_new) h) ∙ refl))
        | inr (_, old) ↦ inv.listed d t r old h
      ];
      once = λ d r e. elim (construct-cases d r e) [
        | inl (_, is_new) ↦ subst (λ (x : LiveCombiner A). distinct x.threads ≡ true) is_new refl
        | inr (_, old) ↦ inv.once d r old
      ];
      refines = λ d r e. elim (construct-cases d r e) [
        | inl (here, is_new) ↦
            subst
              (λ (x : LiveCombiner A).
                Combiner.Reach op identity (vs d) (view op identity w.agent x))
              is_new
              (subst (λ x. Combiner.Reach op identity x (Combiner.new_combiner op identity))
                (sym (inv.fresh d (omega arith))) Combiner.Reach.start)
        | inr (_, old) ↦ inv.refines d r old
      ];
    }
