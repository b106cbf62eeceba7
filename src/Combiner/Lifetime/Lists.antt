-- ===== src/Combiner/Lifetime/Lists.antt =====
-- The list of a combiner's threads, and the list of agents that Combiner has for it.
use mathlib.Core.Path.{subst}
use contention_prof.Base.{
  arith, ℕ, ◌≡◌, refl, ap, ap₂, Bool, true, false, not, ◌&&◌, ◌||◌, List, [], ◌∷◌, ◌++◌, none, some,
  ◌==◌, if◌then◌else◌, inl, inr, Bool-cases, ==→eq,
}
use contention_prof.Combiner.{
  Agent, combine_from, exchange_all, has_agent, append, modify_in, remove_agent, element_of,
}
use contention_prof.Combiner.Lifetime.{TlsAgent, without, put_agent, combine_threads, store_all}

abbrev pub has : ℕ → List ℕ → Bool
has t [] = false
has t (u ∷ l) = if u == t then true else has t l

abbrev pub distinct : List ℕ → Bool
distinct [] = true
distinct (t ∷ l) = not (has t l) && distinct l

pub has-append : (u t : ℕ) (l : List ℕ) → has u (l ++ (t ∷ [])) ≡ (has u l || t == u)
has-append u t [] = ground arith
has-append u t (x ∷ l) = ground (arith, has-append u t l)

pub distinct-append :
    (t : ℕ) (l : List ℕ) → distinct l ≡ true → has t l ≡ false → distinct (l ++ (t ∷ [])) ≡ true
distinct-append t [] d h = refl
distinct-append t (x ∷ l) d h = ground (arith, has-append x t l, distinct-append t l)

-- the list with a thread, at the end if it is new
abbrev pub join : ℕ → List ℕ → List ℕ
join t l = if has t l then l else l ++ (t ∷ [])

pub has-join : (u t : ℕ) (l : List ℕ) → has u (join t l) ≡ (has u l || t == u)
has-join u t l = elim (Bool-cases (has t l)) [
  | inl there ↦ elim (Bool-cases (t == u)) [
    | inl same ↦
        let e : t ≡ u = ==→eq t u same in
        rw there (let h : has u l ≡ true = subst (λ x. has x l ≡ true) e there in rw h refl)
    | inr other ↦ rw there (ground arith)
  ]
  | inr missing ↦ rw missing (has-append u t l)
]

pub distinct-join : (t : ℕ) (l : List ℕ) → distinct l ≡ true → distinct (join t l) ≡ true
distinct-join t l d = elim (Bool-cases (has t l)) [
  | inl there ↦ rw there d
  | inr missing ↦ rw missing (distinct-append t l d missing)
]

pub has-without :
    (u t : ℕ) (l : List ℕ) → distinct l ≡ true → has u (without t l) ≡ (has u l && not (u == t))
unfolding without
has-without u t [] d = refl
has-without u t (x ∷ l) d = ground (arith, has-without u t l, ==→eq x t)

pub distinct-without : (t : ℕ) (l : List ℕ) → distinct l ≡ true → distinct (without t l) ≡ true
unfolding without
distinct-without t [] d = refl
distinct-without t (x ∷ l) d = ground (arith, distinct-without t l, has-without x t l)

pub absurd_some {ℓ} : {A : Type ℓ} {b : Bool} {a : A} → none ≡ some a → b ≡ false
absurd_some e = cc

pub some_eq {ℓ} : {A : Type ℓ} {a b : A} → some a ≡ some b → a ≡ b
some_eq e = cc

pub absurd_none {ℓ} : {A : Type ℓ} {a : A} → none ≡ some a → ⊥
absurd_none e = cc

pub absurd_bool : true ≡ false → ⊥
absurd_bool e = cc

module _ {ℓ} {A : Type ℓ} where
  -- the agents of the threads, with their elements
  unfoldable pub cells : (ℕ → A) → List ℕ → List (Agent A)
  cells f [] = []
  cells f (t ∷ l) = record { thread = t; element = f t } ∷ cells f l

  pub cells_ext :
      (f g : ℕ → A) (l : List ℕ) → ((t : ℕ) → has t l ≡ true → f t ≡ g t) → cells f l ≡ cells g l
  unfolding cells
  cells_ext f g [] same = refl
  cells_ext f g (t ∷ l) same =
      ap₂ (λ (x : A) (r : List (Agent A)). record { thread = t; element = x } ∷ r)
        (same t (ground arith)) (cells_ext f g l (λ u h. same u (ground arith)))

  module _ (op : A → A → A) (identity default : A) where
    pub has_agent-cells :
        (f : ℕ → A) (t : ℕ) (l : List ℕ) → has_agent op identity t (cells f l) ≡ has t l
    unfolding has_agent cells
    has_agent-cells f t [] = refl
    has_agent-cells f t (u ∷ l) = ground (arith, has_agent-cells f t l)

    pub append-cells :
        (f : ℕ → A) (t : ℕ) (l : List ℕ)
        → append op identity (cells f l) (record { thread = t; element = f t })
          ≡ cells f (l ++ (t ∷ []))
    unfolding cells
    append-cells f t [] = refl
    append-cells f t (u ∷ l) =
        ap (λ (r : List (Agent A)). record { thread = u; element = f u } ∷ r) (append-cells f t l)

    pub modify_in-cells :
        (f : ℕ → A) (t : ℕ) (v : A) (l : List ℕ)
        → distinct l ≡ true
        → modify_in op identity t v (cells f l) ≡ cells (λ u. if u == t then op (f u) v else f u) l
    unfolding modify_in cells
    modify_in-cells f t v [] d = refl
    modify_in-cells f t v (u ∷ l) d = elim (Bool-cases (u == t)) [
      | inl same ↦
          let e : has t l ≡ false = ground arith in
          rw same (
            ap (λ (r : List (Agent A)). record { thread = u; element = op (f u) v } ∷ r)
              (cells_ext f (λ u. if u == t then op (f u) v else f u) l
                (λ x h. let other : (x == t) ≡ false = ground (arith, ==→eq x t) in rw other refl)))
      | inr other ↦ rw other (
          ap (λ (r : List (Agent A)). record { thread = u; element = f u } ∷ r)
            (modify_in-cells f t v l (ground arith)))
    ]

    pub exchange_all-cells :
        (f : ℕ → A) (l : List ℕ) → exchange_all op identity (cells f l) ≡ cells (λ t. identity) l
    unfolding exchange_all cells
    exchange_all-cells f [] = refl
    exchange_all-cells f (t ∷ l) =
        ap (λ (r : List (Agent A)). record { thread = t; element = identity } ∷ r)
          (exchange_all-cells f l)

    pub element_of-cells :
        (f : ℕ → A) (t : ℕ) (l : List ℕ)
        → has t l ≡ true
        → element_of op identity t (cells f l) ≡ f t
    unfolding element_of cells
    element_of-cells f t [] h = cc
    element_of-cells f t (u ∷ l) h = elim (Bool-cases (u == t)) [
      | inl same ↦ rw same (ap f (==→eq u t same))
      | inr other ↦ rw other (element_of-cells f t l (ground arith))
    ]

    pub remove_agent-cells :
        (f : ℕ → A) (t : ℕ) (l : List ℕ)
        → remove_agent op identity t (cells f l) ≡ cells f (without t l)
    unfolding remove_agent cells without
    remove_agent-cells f t [] = refl
    remove_agent-cells f t (u ∷ l) = elim (Bool-cases (u == t)) [
      | inl same ↦ rw same refl
      | inr other ↦ rw other (
          ap (λ (r : List (Agent A)). record { thread = u; element = f u } ∷ r)
            (remove_agent-cells f t l))
    ]

    pub combine_threads-cells :
        (ret : A) (id : ℕ) (agent : ℕ → ℕ → TlsAgent A) (l : List ℕ)
        → combine_threads op identity default ret id agent l
          ≡ combine_from op identity ret (cells (λ t. (agent t id).element) l)
    unfolding combine_threads combine_from cells
    combine_threads-cells ret id agent [] = refl
    combine_threads-cells ret id agent (t ∷ l) =
        combine_threads-cells (op ret (agent t id).element) id agent l

    -- The loops over the threads of a list write those agents, and no other.
    pub store_all_lem :
        (f : TlsAgent A → TlsAgent A) (id : ℕ) (l : List ℕ) (agent : ℕ → ℕ → TlsAgent A) (t i : ℕ)
        → distinct l ≡ true
        → store_all op identity default f id l agent t i
          ≡ (if has t l && i == id then f (agent t i) else agent t i)
    unfolding store_all
    store_all_lem f id [] agent t i d = refl
    store_all_lem f id (u ∷ l) agent t i d =
        let rest =
          store_all_lem f id l (put_agent u id (f (agent u id)) agent) t i (ground arith) in
        ground (arith, rest, ==→eq u t, ==→eq t u, ==→eq i id)
