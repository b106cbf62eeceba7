-- ===== src/Combiner/Lifetime/Adds.antt =====
-- A thread adds a value to one combiner among others.
use mathlib.Core.Path.{subst}
use contention_prof.Base.{
  arith, ℕ, ◌≡◌, refl, sym, ap, ap₂, ◌∙◌, true, false, ◌&&◌, List, [], ◌∷◌, ◌++◌, some, ◌==◌,
  if◌then◌else◌, inl, inr, Bool-cases, Option-cases, ==→eq, eq→==, ne→==_false,
}
use contention_prof.Combiner
use contention_prof.Combiner.{AgentCombiner}
use contention_prof.Combiner.Lifetime.{
  TlsAgent, LiveCombiner, Agents, get_or_create_tls_agent, add_value,
}
use contention_prof.Combiner.Lifetime.Lists.{
  some_eq, absurd_bool, has, distinct, join, has-join, distinct-join, distinct-append, cells,
  cells_ext, has_agent-cells, append-cells, modify_in-cells,
}
use contention_prof.Combiner.Lifetime.Steps.{not_listed, is_listed, Inv, Change, Change-Inv}

module _ {ℓ} {A : Type ℓ} (op : A → A → A) (identity default : A) where
  added :
      (h g : ℕ → A) (t : ℕ) (v : A)
      → ((u : ℕ) → (u == t) ≡ false → g u ≡ h u)
      → g t ≡ op (h t) v
      → (u : ℕ) → (if u == t then op (h u) v else h u) ≡ g u
  added h g t v same new u = elim (Bool-cases (u == t)) [
    | inl here ↦ rw here (subst (λ x. op (h x) v ≡ g x) (sym (==→eq u t here)) (sym new))
    | inr other ↦ rw other (sym (same u other))
  ]

  -- `operator<<` on the list of agents: the thread's value, and the thread at the end if it is new
  add_value-cells :
      (f g : ℕ → A) (t : ℕ) (v r : A) (l : List ℕ)
      → distinct l ≡ true
      → ((u : ℕ) → (u == t) ≡ false → g u ≡ f u)
      → g t ≡ op (if has t l then f t else identity) v
      → Combiner.add_value op identity t v (record { global_result = r; agents = cells f l })
        ≡ record { global_result = r; agents = cells g (join t l) }
  unfolding Combiner.add_value Combiner.get_or_create_tls_agent
  add_value-cells f g t v r l d same new = elim (Bool-cases (has t l)) [
    | inl there ↦
        rw (has_agent-cells op identity default f t l, there)
          (ap (λ (x : List (Combiner.Agent A)). record { global_result = r; agents = x })
            (modify_in-cells op identity default f t v l d
              ∙ cells_ext _ g l (λ u h. added f g t v same (rw there at new) u)))
    | inr missing ↦
        rw (has_agent-cells op identity default f t l, missing)
          (ap
              (λ (x : List (Combiner.Agent A)). record {
                global_result = r;
                agents = Combiner.modify_in op identity t v x;
              })
              (appended l missing)
            ∙ ap (λ (x : List (Combiner.Agent A)). record { global_result = r; agents = x })
                (modify_in-cells op identity default h t v (l ++ (t ∷ []))
                    (distinct-append t l d missing)
                  ∙ cells_ext _ g (l ++ (t ∷ [])) (λ u _.
                    added h g t v others (rw missing at new ∙ ap (λ x. op x v) (sym at_t)) u)))
  ]
    where
      h : ℕ → A
      h u = if u == t then identity else f u

      at_t : h t ≡ identity
      at_t = rw (eq→== t t refl) refl

      others : (u : ℕ) → (u == t) ≡ false → g u ≡ h u
      others u away = rw away (same u away)

      appended :
          (k : List ℕ)
          → has t k ≡ false
          → Combiner.append op identity (cells f k) (record { thread = t; element = identity })
            ≡ cells h (k ++ (t ∷ []))
      appended k missing =
          ap₂
            (λ (x : List (Combiner.Agent A)) (y : A).
              Combiner.append op identity x (record { thread = t; element = y }))
            (cells_ext f h k (λ u there.
              let away : (u == t) ≡ false =
                ne→==_false u t
                  (λ e. absurd_bool (sym (subst (λ x. has x k ≡ true) e there) ∙ missing)) in
              rw away refl))
            (sym at_t)
          ∙ append-cells op identity default h t k

  module _ {vs : ℕ → List A} {w : Agents A} (inv : Inv op identity vs w) (c : ℕ)
      (s : LiveCombiner A) (before : w.combiners c ≡ some s) where
    abbrev f : ℕ → A
    f t = (w.agent t s.id).element

    -- `operator<<`, by what it leaves of each combiner and agent
    add_value-Change :
        (thread : ℕ) (v : A) (w' : Agents A)
        → w'.ids ≡ w.ids
        → w'.made ≡ w.made
        → ((d : ℕ)
            → w'.combiners d ≡ (
                if d == c
                then some (record s { threads = join thread s.threads })
                else w.combiners d))
        → w'.agent thread s.id ≡ record {
          combiner = some c;
          element = op (if has thread s.threads then f thread else identity) v;
        }
        → ((t i : ℕ) → (t == thread && i == s.id) ≡ false → w'.agent t i ≡ w.agent t i)
        → Change op identity c s
            (record s { threads = join thread s.threads })
            vs
            (λ d. if d == c then v ∷ vs d else vs d)
            w
            w'
    add_value-Change thread v w' ids made combiners mine rest = record {
      before = before;
      same_id = refl;
      ids = ids;
      made = made;
      combiners = combiners;
      others = λ t i away. rest t i (ground arith);
      values = λ d away. rw away refl;
      owned = λ t d e. elim (Bool-cases (t == thread)) [
        | inl here ↦
            let at_t : t ≡ thread = ==→eq t thread here in
            let got : some c ≡ some d =
              ap (λ (x : TlsAgent A). x.combiner) (sym mine)
              ∙ subst (λ x. (w'.agent x s.id).combiner ≡ some d) at_t e in
            (sym (some_eq got), has-join t thread s.threads ∙ ground arith)
        | inr away ↦
            let (same, member) =
              is_listed op identity inv c s before t d
                (ap (λ (x : TlsAgent A). x.combiner) (sym (rest t s.id (ground arith))) ∙ e) in
            (same, has-join t thread s.threads ∙ ground arith)
      ];
      listed = λ t h. elim (Bool-cases (t == thread)) [
        | inl here ↦
            ap (λ x. (w'.agent x s.id).combiner) (==→eq t thread here)
            ∙ ap (λ (x : TlsAgent A). x.combiner) mine
        | inr away ↦
            ap (λ (x : TlsAgent A). x.combiner) (rest t s.id (ground arith))
            ∙ inv.listed c t s before (ground (arith, has-join t thread s.threads))
      ];
      once = distinct-join thread s.threads (inv.once c s before);
      refines = rw (eq→== c c refl) (
          subst (Combiner.Reach op identity (v ∷ vs c))
            (add_value-cells f (λ t. (w'.agent t s.id).element) thread v s.global_result s.threads
              (inv.once c s before)
              (λ u away. ap (λ (x : TlsAgent A). x.element) (rest u s.id (ground arith)))
              (ap (λ (x : TlsAgent A). x.element) mine))
            (Combiner.Reach.adds thread v (inv.refines c s before)));
    }

    pub add_value-Inv :
        (thread : ℕ) (v : A)
        → Inv op identity
            (λ d. if d == c then v ∷ vs d else vs d)
            (add_value op identity default thread c v s w)
    unfolding add_value get_or_create_tls_agent
    add_value-Inv thread v = elim (Option-cases (w.agent thread s.id).combiner) [
      | inl missing ↦
          let new : has thread s.threads ≡ false =
            not_listed op identity inv c s before thread missing in
          rw (add_value, get_or_create_tls_agent, missing)
            (Change-Inv op identity inv (
              add_value-Change thread v _ refl refl (λ d. rw new refl)
                (rw (new, eq→== thread thread refl, eq→== s.id s.id refl) refl)
                (λ t i away. rw away refl)))
      | inr (d, there) ↦
          let (same, member) = is_listed op identity inv c s before thread d there in
          rw (add_value, get_or_create_tls_agent, there)
            (Change-Inv op identity inv (
              add_value-Change thread v _ refl refl
                (λ e. elim (Bool-cases (e == c)) [
                  | inl here ↦ rw (here, member) (ap w.combiners (==→eq e c here) ∙ before)
                  | inr away ↦ rw away refl
                ])
                (rw (member, eq→== thread thread refl, eq→== s.id s.id refl)
                  (rw (there ∙ ap some same) refl))
                (λ t i away. rw away refl)))
    ]
