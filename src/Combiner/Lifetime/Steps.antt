-- ===== src/Combiner/Lifetime/Steps.antt =====
-- What a step leaves of the combiners and of the agents of the threads.
use contention_prof.Base.{
  arith, ℕ, ◌≡◌, ◌≤◌, ◌<◌, ◌⊎◌, refl, sym, ap, ◌∙◌, true, false, List, [], none, some, ◌==◌,
  if◌then◌else◌, inl, inr, Bool-cases, ==→eq, eq→==, ne→==_false, ==_false→ne,
}
use mathlib.Core.Path.{subst}
use contention_prof.AgentGroup.Ids
use contention_prof.AgentGroup.Ids.{one_if, Reach-once, no_ids, occurrences}
use contention_prof.Combiner
use contention_prof.Combiner.{AgentCombiner}
use contention_prof.Combiner.Lifetime.{TlsAgent, LiveCombiner, Agents}
use contention_prof.Combiner.Lifetime.Lists.{some_eq, absurd_some, has, distinct, cells, cells_ext}

module _ {ℓ} {A : Type ℓ} (op : A → A → A) (identity : A) where
  -- the combiner as the model of Combiner has it
  abbrev pub view : (ℕ → ℕ → TlsAgent A) → LiveCombiner A → AgentCombiner A
  view agent s = record {
    global_result = s.global_result;
    agents = cells (λ t. (agent t s.id).element) s.threads;
  }

  -- The agent of a thread for an id belongs to a combiner just when that has it in its list.
  pub record Inv (vs : ℕ → List A) (w : Agents A) : Type ℓ where
    pub known : (c : ℕ) (s : LiveCombiner A) → w.combiners c ≡ some s → c < w.made
    pub fresh : (c : ℕ) → w.made ≤ c → vs c ≡ []
    pub apart :
        (c d : ℕ) (s t : LiveCombiner A)
        → w.combiners c ≡ some s
        → w.combiners d ≡ some t
        → s.id ≡ t.id
        → c ≡ d
    pub live :
        (l : ℕ → ℕ) × Ids.Reach l w.ids
        × ((c : ℕ) (s : LiveCombiner A) → w.combiners c ≡ some s → 0 < l s.id)
    pub owned :
        (t id c : ℕ)
        → (w.agent t id).combiner ≡ some c
        → (s : LiveCombiner A) × (w.combiners c ≡ some s) × (s.id ≡ id) × (has t s.threads ≡ true)
    pub listed :
        (c t : ℕ) (s : LiveCombiner A)
        → w.combiners c ≡ some s
        → has t s.threads ≡ true
        → (w.agent t s.id).combiner ≡ some c
    pub once : (c : ℕ) (s : LiveCombiner A) → w.combiners c ≡ some s → distinct s.threads ≡ true
    pub refines :
        (c : ℕ) (s : LiveCombiner A)
        → w.combiners c ≡ some s
        → Combiner.Reach op identity (vs c) (view w.agent s)

  -- A step of the combiner `c`, which was `s` and is `s'`, and of agents for its id.
  pub record Change (c : ℕ) (s s' : LiveCombiner A) (vs vs' : ℕ → List A) (w w' : Agents A)
      : Type ℓ where
    pub before : w.combiners c ≡ some s
    pub same_id : s'.id ≡ s.id
    pub ids : w'.ids ≡ w.ids
    pub made : w'.made ≡ w.made
    pub combiners : (d : ℕ) → w'.combiners d ≡ (if d == c then some s' else w.combiners d)
    pub others : (t i : ℕ) → (i == s.id) ≡ false → w'.agent t i ≡ w.agent t i
    pub values : (d : ℕ) → (d == c) ≡ false → vs' d ≡ vs d
    pub owned :
        (t d : ℕ) → (w'.agent t s.id).combiner ≡ some d → (d ≡ c) × (has t s'.threads ≡ true)
    pub listed : (t : ℕ) → has t s'.threads ≡ true → (w'.agent t s.id).combiner ≡ some c
    pub once : distinct s'.threads ≡ true
    pub refines : Combiner.Reach op identity (vs' c) (view w'.agent s')

  module _ {c : ℕ} {s s' : LiveCombiner A} {vs vs' : ℕ → List A} {w w' : Agents A} (inv : Inv vs w)
      (ch : Change c s s' vs vs' w w') where
    -- A combiner after the step is the changed one, or one with another id that was there.
    combiner-cases :
        (d : ℕ) (r : LiveCombiner A)
        → w'.combiners d ≡ some r
        → ((d ≡ c) × (r ≡ s'))
          ⊎ (((d == c) ≡ false) × (w.combiners d ≡ some r) × ((r.id == s.id) ≡ false))
    combiner-cases d r e = elim (Bool-cases (d == c)) [
      | inl here ↦ inl (==→eq d c here, ground (arith, ch.combiners d))
      | inr other ↦
          let old : w.combiners d ≡ some r = ground (arith, ch.combiners d) in
          inr (
            other,
            old,
            ne→==_false r.id s.id
                (λ same. ==_false→ne d c other (inv.apart d c r s old ch.before same)),
          )
    ]

    view-others : (r : LiveCombiner A) → (r.id == s.id) ≡ false → view w.agent r ≡ view w'.agent r
    view-others r away =
        ap (λ (l : List (Combiner.Agent A)). record { global_result = r.global_result; agents = l })
          (cells_ext _ _ r.threads
            (λ t h. ap (λ (x : TlsAgent A). x.element) (sym (ch.others t r.id away))))

    pub Change-Inv : Inv vs' w'
    Change-Inv = record {
      known = λ d r e. elim (combiner-cases d r e) [
        | inl (same, _) ↦ omega (arith, inv.known c s ch.before, ch.made)
        | inr (_, old, _) ↦ omega (arith, inv.known d r old, ch.made)
      ];
      fresh = λ d above.
          let far : (d == c) ≡ false = ground (arith, inv.known c s ch.before, ch.made) in
          ch.values d far ∙ inv.fresh d (omega (arith, ch.made));
      apart = λ d d' r r' e e' same. elim (combiner-cases d r e) [
        | inl (here, is_new) ↦ elim (combiner-cases d' r' e') [
          | inl (here', _) ↦ omega arith
          | inr (_, _, away) ↦
              absurd (ground (arith, ap (λ (x : LiveCombiner A). x.id) is_new, ch.same_id))
        ]
        | inr (_, old, away) ↦ elim (combiner-cases d' r' e') [
          | inl (_, is_new) ↦
              absurd (ground (arith, ap (λ (x : LiveCombiner A). x.id) is_new, ch.same_id))
          | inr (_, old', _) ↦ inv.apart d d' r r' old old' same
        ]
      ];
      live =
          let (l, reach, positive) = inv.live in
          (
            l,
            subst (Ids.Reach l) (sym ch.ids) reach,
            λ d r e. elim (combiner-cases d r e) [
              | inl (_, is_new) ↦
                  subst (λ x. 0 < l x) (sym (ap (λ (x : LiveCombiner A). x.id) is_new ∙ ch.same_id))
                    (positive c s ch.before)
              | inr (_, old, _) ↦ positive d r old
            ],
          );
      owned = λ t i d e. elim (Bool-cases (i == s.id)) [
        | inl here ↦
            let at_id : i ≡ s.id = ==→eq i s.id here in
            let (same, member) =
              ch.owned t d (subst (λ x. (w'.agent t x).combiner ≡ some d) at_id e) in
            (s', ch.combiners d ∙ (rw (eq→== d c same) refl), ch.same_id ∙ sym at_id, member)
        | inr away ↦
            let (r, old, id, member) =
              inv.owned t i d
                (ap (λ (x : TlsAgent A). x.combiner) (sym (ch.others t i away)) ∙ e) in
            let other : (d == c) ≡ false = ne→==_false d c (λ same. ==_false→ne i s.id away (
              sym id
              ∙ ap (λ (x : LiveCombiner A). x.id)
                  (some_eq (sym old ∙ ap w.combiners same ∙ ch.before)))) in
            (r, ch.combiners d ∙ (rw other old), id, member)
      ];
      listed = λ d t r e h. elim (combiner-cases d r e) [
        | inl (same, is_new) ↦
            subst (λ x. (w'.agent t x).combiner ≡ some d)
              (sym (ap (λ (x : LiveCombiner A). x.id) is_new ∙ ch.same_id))
              (ch.listed t (sym (ap (λ (x : LiveCombiner A). has t x.threads) is_new) ∙ h)
                ∙ ap some (sym same))
        | inr (_, old, away) ↦
            ap (λ (x : TlsAgent A). x.combiner) (ch.others t r.id away) ∙ inv.listed d t r old h
      ];
      once = λ d r e. elim (combiner-cases d r e) [
        | inl (_, is_new) ↦ ap (λ (x : LiveCombiner A). distinct x.threads) is_new ∙ ch.once
        | inr (_, old, _) ↦ inv.once d r old
      ];
      refines = λ d r e. elim (combiner-cases d r e) [
        | inl (same, is_new) ↦
            subst (λ x. Combiner.Reach op identity (vs' d) (view w'.agent x)) (sym is_new)
              (subst (λ x. Combiner.Reach op identity (vs' x) (view w'.agent s')) (sym same)
                ch.refines)
        | inr (other, old, away) ↦
            subst (λ x. Combiner.Reach op identity x (view w'.agent r)) (sym (ch.values d other))
              (subst (Combiner.Reach op identity (vs d)) (view-others r away) (inv.refines d r old))
      ];
    }

  module _ {vs : ℕ → List A} {w : Agents A} (inv : Inv vs w) (c : ℕ) (s : LiveCombiner A)
      (before : w.combiners c ≡ some s) where
    -- a thread with no agent of the combiner
    pub not_listed : (t : ℕ) → (w.agent t s.id).combiner ≡ none → has t s.threads ≡ false
    not_listed t e = elim (Bool-cases (has t s.threads)) [
      | inl there ↦ absurd_some (sym e ∙ inv.listed c t s before there)
      | inr missing ↦ missing
    ]

    -- a thread's agent for the id of the combiner is the combiner's, if it is one's
    pub is_listed :
        (t d : ℕ) → (w.agent t s.id).combiner ≡ some d → (d ≡ c) × (has t s.threads ≡ true)
    is_listed t d e =
        let (r, old, id, member) = inv.owned t s.id d e in
        let same : d ≡ c = inv.apart d c r s old before id in
        let now : r ≡ s = some_eq (sym old ∙ ap w.combiners same ∙ before) in
        (same, subst (λ (x : LiveCombiner A). has t x.threads ≡ true) now member)
