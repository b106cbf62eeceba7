-- ===== src/Combiner/Lifetime/Clears.antt =====
-- A combiner among others is reset, loses the agent of a thread, or is destroyed.
use mathlib.Core.Path.{subst}
use contention_prof.Base.{
  arith, ℕ, ◌-◌, ◌≡◌, refl, sym, ap, ap₂, ◌∙◌, true, false, not, ◌&&◌, List, [], none, some, ◌==◌,
  if◌then◌else◌, inl, inr, Bool-cases, eq→==, ne→==_false, ==_false→ne,
}
use contention_prof.AgentGroup.Ids
use contention_prof.AgentGroup.Ids.{one_if, Reach-once, no_ids, occurrences}
use contention_prof.Combiner
use contention_prof.Combiner.{AgentCombiner}
use contention_prof.Combiner.Lifetime.{
  TlsAgent, LiveCombiner, Agents, without, put_combiner, put_agent, store_all, reset_all_agents,
  destroy,
}
use contention_prof.Combiner.Lifetime.Lists.{
  some_eq, absurd_none, absurd_bool, has, has-without, distinct-without, cells_ext, has_agent-cells,
  exchange_all-cells, element_of-cells, remove_agent-cells, store_all_lem,
}
use contention_prof.Combiner.Lifetime.Steps.{is_listed, view, Inv, Change-Inv}

module _ {ℓ} {A : Type ℓ} (op : A → A → A) (identity default : A) where
  module _ {vs : ℕ → List A} {w : Agents A} (inv : Inv op identity vs w) (c : ℕ)
      (s : LiveCombiner A) (before : w.combiners c ≡ some s) where
    abbrev f : ℕ → A
    f t = (w.agent t s.id).element

    store_outside :
        (g : TlsAgent A → TlsAgent A) (t i : ℕ)
        → (has t s.threads && i == s.id) ≡ false
        → store_all op identity default g s.id s.threads w.agent t i ≡ w.agent t i
    store_outside g t i away =
        store_all_lem op identity default g s.id s.threads w.agent t i (inv.once c s before)
        ∙ (rw away refl)

    store_inside :
        (g : TlsAgent A → TlsAgent A) (t i : ℕ)
        → (has t s.threads && i == s.id) ≡ true
        → store_all op identity default g s.id s.threads w.agent t i ≡ g (w.agent t i)
    store_inside g t i here =
        store_all_lem op identity default g s.id s.threads w.agent t i (inv.once c s before)
        ∙ (rw here refl)

    is_own : (t : ℕ) → has t s.threads ≡ true → (has t s.threads && s.id == s.id) ≡ true
    is_own t h = rw (h, eq→== s.id s.id refl) refl

    abbrev cleared : TlsAgent A → TlsAgent A
    cleared a = record a { element = identity }

    cleared-combiner :
        (t : ℕ)
        → (store_all op identity default cleared s.id s.threads w.agent t s.id).combiner
          ≡ (w.agent t s.id).combiner
    cleared-combiner t = elim (Bool-cases (has t s.threads)) [
      | inl there ↦
          ap (λ (x : TlsAgent A). x.combiner) (store_inside cleared t s.id (is_own t there))
      | inr missing ↦
          ap (λ (x : TlsAgent A). x.combiner) (store_outside cleared t s.id (rw missing refl))
    ]

    pub reset_all_agents-Inv :
        Inv op identity
          (λ d. if d == c then [] else vs d)
          (reset_all_agents op identity default c s w).1
    unfolding reset_all_agents Combiner.reset_all_agents
    reset_all_agents-Inv = Change-Inv op identity inv (record {
      before = before;
      same_id = refl;
      ids = refl;
      made = refl;
      combiners = λ d. refl;
      others = λ t i away. store_outside cleared t i (ground arith);
      values = λ d away. rw away refl;
      owned = λ t d e. is_listed op identity inv c s before t d (sym (cleared-combiner t) ∙ e);
      listed = λ t h. cleared-combiner t ∙ inv.listed c t s before h;
      once = inv.once c s before;
      refines = rw (eq→== c c refl) (
          subst (Combiner.Reach op identity [])
            (ap (λ (x : List (Combiner.Agent A)). record { global_result = identity; agents = x })
              (exchange_all-cells op identity default f s.threads
                ∙ cells_ext _ _ s.threads (λ t h.
                  sym (
                    ap (λ (x : TlsAgent A). x.element)
                      (store_inside cleared t s.id (is_own t h))))))
            (Combiner.Reach.resets (inv.refines c s before)));
    })

    erased :
        (thread : ℕ)
        → has thread s.threads ≡ true
        → Combiner.commit_and_erase op identity thread (view op identity w.agent s)
          ≡ view op identity
              (put_agent thread s.id (record (w.agent thread s.id) { combiner = none }) w.agent)
              (record s {
                global_result = op s.global_result (f thread);
                threads = without thread s.threads;
              })
    unfolding Combiner.commit_and_erase
    erased thread there = rw (has_agent-cells op identity default f thread s.threads ∙ there) (
        ap₂ (λ (x : A) (l : List (Combiner.Agent A)). record { global_result = x; agents = l })
          (ap (op s.global_result) (element_of-cells op identity default f thread s.threads there))
          (remove_agent-cells op identity default f thread s.threads
            ∙ cells_ext _ _ (without thread s.threads) (λ t h.
              let both : (has t s.threads && not (t == thread)) ≡ true =
                sym (has-without t thread s.threads (inv.once c s before)) ∙ h in
              let away : (t == thread) ≡ false = ground arith in rw away refl)))

    -- `commit_and_erase` of the agent of a thread in the list
    pub delete_agent-Inv :
        (thread : ℕ)
        → has thread s.threads ≡ true
        → Inv op identity vs (record w {
          combiners =
              put_combiner c
                (some (record s {
                  global_result = op s.global_result (f thread);
                  threads = without thread s.threads;
                }))
                w.combiners;
          agent = put_agent thread s.id (record (w.agent thread s.id) { combiner = none }) w.agent;
        })
    unfolding Combiner.commit_and_erase
    delete_agent-Inv thread there = Change-Inv op identity inv (record {
      before = before;
      same_id = refl;
      ids = refl;
      made = refl;
      combiners = λ d. refl;
      others =
          λ t i away. let out : (t == thread && i == s.id) ≡ false = ground arith in rw out refl;
      values = λ d away. refl;
      owned = λ t d e. elim (Bool-cases (t == thread)) [
        | inl here ↦ absurd (absurd_none (rw (here, eq→== s.id s.id refl) at e))
        | inr away ↦
            let (same, member) = is_listed op identity inv c s before t d (rw away at e) in
            (same, has-without t thread s.threads (inv.once c s before) ∙ (rw (member, away) refl))
      ];
      listed = λ t h.
          let both : (has t s.threads && not (t == thread)) ≡ true =
            sym (has-without t thread s.threads (inv.once c s before)) ∙ h in
          let away : (t == thread) ≡ false = ground arith in
          rw away (inv.listed c t s before (ground arith));
      once = distinct-without thread s.threads (inv.once c s before);
      refines =
          subst (Combiner.Reach op identity (vs c)) (erased thread there)
            (Combiner.Reach.exits thread (inv.refines c s before));
    })

    -- The destructor of the combiner.
    other_id :
        (d : ℕ) (r : LiveCombiner A)
        → (d == c) ≡ false
        → w.combiners d ≡ some r
        → (r.id == s.id) ≡ false
    other_id d r away e =
        ne→==_false r.id s.id (λ same. ==_false→ne d c away (inv.apart d c r s e before same))

    -- a combiner that is left is another one
    left_over :
        (d : ℕ) (r : LiveCombiner A)
        → put_combiner c none w.combiners d ≡ some r
        → ((d == c) ≡ false) × (w.combiners d ≡ some r)
    left_over d r e = elim (Bool-cases (d == c)) [
      | inl here ↦ absurd (absurd_none (rw here at e))
      | inr away ↦ (away, rw away at e)
    ]

    pub destroy-Inv : Inv op identity vs (destroy op identity default c s w)
    unfolding destroy
    destroy-Inv = record {
      known = λ d r e. inv.known d r (left_over d r e).1;
      fresh = inv.fresh;
      apart = λ d d' r r' e e'. inv.apart d d' r r' (left_over d r e).1 (left_over d' r' e').1;
      live =
          let (l, reach, positive) = inv.live in
          (
            λ x. l x - one_if (x == s.id),
            Ids.Reach.destroys s.id (positive c s before) reach,
            λ d r e.
                let (away, old) = left_over d r e in
                rw (other_id d r away old) (omega (arith, positive d r old)),
          );
      owned = λ t i d e. elim (Bool-cases (has t s.threads && i == s.id)) [
        | inl here ↦ absurd (
            absurd_none
              (sym (ap (λ (x : TlsAgent A). x.combiner) (store_inside gone t i here)) ∙ e))
        | inr away ↦
            let (r, old, id, member) =
              inv.owned t i d
                (ap (λ (x : TlsAgent A). x.combiner) (sym (store_outside gone t i away)) ∙ e) in
            let apart_from : (d == c) ≡ false = ne→==_false d c (λ same.
              let now : r ≡ s = some_eq (sym old ∙ ap w.combiners same ∙ before) in
              absurd_bool (
                sym (
                  rw
                    (
                      subst (λ (x : LiveCombiner A). has t x.threads ≡ true) now member,
                      eq→== i s.id (sym id ∙ ap (λ (x : LiveCombiner A). x.id) now),
                    )
                    refl)
                ∙ away)) in
            (r, (rw apart_from old), id, member)
      ];
      listed = λ d t r e h.
          let (away, old) = left_over d r e in
          ap (λ (x : TlsAgent A). x.combiner) (others t r.id (other_id d r away old))
          ∙ inv.listed d t r old h;
      once = λ d r e. inv.once d r (left_over d r e).1;
      refines = λ d r e.
          let (away, old) = left_over d r e in
          subst (Combiner.Reach op identity (vs d))
            (ap
              (λ (l : List (Combiner.Agent A)). record {
                global_result = r.global_result;
                agents = l;
              })
              (cells_ext _ _ r.threads (λ t h.
                ap (λ (x : TlsAgent A). x.element) (sym (others t r.id (other_id d r away old))))))
            (inv.refines d r old);
    }
      where
        gone : TlsAgent A → TlsAgent A
        gone a = record { combiner = none; element = default }

        others :
            (t i : ℕ)
            → (i == s.id) ≡ false
            → store_all op identity default gone s.id s.threads w.agent t i ≡ w.agent t i
        others t i away = store_outside gone t i (ground arith)
