-- ===== src/Reducer/Total.antt =====
-- What a reader of a sampled reducer is told of the values that were added.
use mathlib.Core.Path.{subst}
use mathlib.Core.List.{append_assoc}
use mathlib.Core.Option
use contention_prof.Base.{
  arith, ℕ, zero, suc, ◌-◌, ◌≤◌, ◌<◌, ◌≡◌, refl, sym, ap, ◌∙◌, List, [], ◌∷◌, ◌++◌, Option, none,
  some, ok, ltb, if◌then◌else◌, length, get_elem?, get_elem?-map, take, drop, foldl, reverse, inl,
  inr, List-cases,
}
use contention_prof.Base.Int.{◌-ℤ◌}
use contention_prof.BoundedQueue.View.{IsQueue}
use contention_prof.Combiner.{IsCommutativeMonoid}
use contention_prof.Combiner.Conserve.{total}
use contention_prof.Sampler.{Sample, ReducerSampler}
use contention_prof.Sampler.Window.{get_value}
use contention_prof.Sampler.Window.Recent.{count-length}
use contention_prof.Sampler.Window.Value.{values, span, get_value_lem}
use contention_prof.Reducer.Latest.{get_elem?-take}
use contention_prof.Reducer.Windows.{concat, readings, Reach-Inv}
use contention_prof.Reducer.{Reducer, Reach}

-- what the inverse operator, where there is one, owes to the operator
abbrev pub Inverts : {A : Type 0} → (A → A → A) → Option (A → A → A) → Type 0
Inverts op none = Unit
Inverts {A} op (some inverse) = (a b : A) → inverse (op a b) a ≡ b

module _ {A : Type 0} (op : A → A → A) (identity : A) (m : IsCommutativeMonoid op identity) where
  pub total-append :
      (xs ys : List A)
      → total op identity (xs ++ ys) ≡ op (total op identity ys) (total op identity xs)
  total-append [] ys = sym (m.unit (total op identity ys))
  total-append (x ∷ xs) ys =
      ap (λ t. op t x) (total-append xs ys)
      ∙ m.assoc (total op identity ys) (total op identity xs) x

  foldl-readings :
      (a : A) (n : ℕ) (past : List (List A))
      → foldl op a (take n (readings op identity none m past))
        ≡ op a (total op identity (concat (take n past)))
  foldl-readings a zero past = sym (m.unit a)
  foldl-readings a (suc n) [] = sym (m.unit a)
  foldl-readings a (suc n) (vs ∷ past) =
      let rest = total op identity (concat (take n past)) in
      foldl-readings (op a (total op identity vs)) n past
      ∙ m.assoc a (total op identity vs) rest
      ∙ ap (op a)
          (m.comm (total op identity vs) rest ∙ sym (total-append vs (concat (take n past))))

  get_elem?-readings :
      (inverse : A → A → A) (past : List (List A)) (k : ℕ) (a : A)
      → get_elem? (readings op identity (some inverse) m past) k ≡ some a
      → total op identity (concat (drop k past)) ≡ a
  get_elem?-readings inverse [] k a e = grind arith
  get_elem?-readings inverse (vs ∷ past) zero a e = grind arith
  get_elem?-readings inverse (vs ∷ past) (suc k) a e = get_elem?-readings inverse past k a e

values-get_elem? :
    {A : Type 0} (k : ℕ) (l : List (Sample A)) (rs : List A)
    → values (take (suc k) l) ≡ take (suc k) rs
    → (i : ℕ) (x : Sample A) → i ≤ k
    → get_elem? l i ≡ some x
    → get_elem? rs i ≡ some x.data_value
values-get_elem? k l rs same i x h e =
    let inside : i < suc k = omega arith in
    sym (get_elem?-take rs i (suc k) inside)
    ∙ ap (λ t. get_elem? t i) (sym same)
    ∙ get_elem?-map (λ s. s.data_value) (take (suc k) l) i
    ∙ ap (Option.map (λ s. s.data_value)) (get_elem?-take l i (suc k) inside ∙ e)

-- the value of the first of some, put together with the others
abbrev fold_from : {A : Type 0} → (A → A → A) → A → List A → A
fold_from op a [] = a
fold_from op a (x ∷ l) = foldl op x l

module _ {A : Type 0} (op : A → A → A) (identity : A) (m : IsCommutativeMonoid op identity) where
  fold_from-readings :
      (n : ℕ) (past : List (List A))
      → fold_from op identity (take n (readings op identity none m past))
        ≡ total op identity (concat (take n past))
  fold_from-readings zero past = refl
  fold_from-readings (suc n) [] = refl
  fold_from-readings (suc n) (vs ∷ past) =
      let rest = total op identity (concat (take n past)) in
      foldl-readings op identity m (total op identity vs) n past
      ∙ m.comm (total op identity vs) rest
      ∙ sym (total-append op identity m vs (concat (take n past)))

  concat-take-drop :
      (k : ℕ) (past : List (List A)) → concat past ≡ concat (take k past) ++ concat (drop k past)
  concat-take-drop zero past = refl
  concat-take-drop (suc k) [] = refl
  concat-take-drop (suc k) (l ∷ past) =
      ap (λ t. l ++ t) (concat-take-drop k past)
      ∙ sym (append_assoc l (concat (take k past)) (concat (drop k past)))

  -- a reading less one that is `k` before it
  inverse-readings :
      (inverse : A → A → A) (past : List (List A)) (k : ℕ) (a b : A)
      → Inverts op (some inverse)
      → get_elem? (readings op identity (some inverse) m past) 0 ≡ some a
      → get_elem? (readings op identity (some inverse) m past) k ≡ some b
      → inverse a b ≡ total op identity (concat (take k past))
  inverse-readings inverse past k a b law first last =
      let front = total op identity (concat (take k past)) in
      let back = total op identity (concat (drop k past)) in
      let whole : op back front ≡ a =
        sym (total-append op identity m (concat (take k past)) (concat (drop k past)))
        ∙ ap (total op identity) (sym (concat-take-drop k past))
        ∙ get_elem?-readings op identity m inverse past 0 a first in
      let rest : back ≡ b = get_elem?-readings op identity m inverse past k b last in
      rw (sym whole, sym rest) (law back front)

  -- Of two samples the one that is `k` before the latest differs by the values of the last `k`.
  window-value :
      (inv_op : Option (A → A → A)) (latest oldest : Sample A) (older : List (Sample A))
      (past : List (List A)) (k : ℕ)
      → Inverts op inv_op
      → 0 < k
      → k ≤ length older
      → ((n : ℕ)
          → n ≤ length (latest ∷ older)
          → values (take n (latest ∷ older)) ≡ take n (readings op identity inv_op m past))
      → get_elem? (latest ∷ older) k ≡ some oldest
      → (elim inv_op [
        | none ↦ foldl op latest.data_value (values (take (k - 1) older))
        | some inverse ↦ inverse latest.data_value oldest.data_value
      ])
        ≡ total op identity (concat (take k past))
  window-value inv_op latest oldest older past zero law pos le read at = absurd (omega arith)
  window-value none latest oldest older past (suc j) law pos le read at =
      let same : suc j - 1 ≡ j = omega arith in
      rw same
        (ap (fold_from op identity) (read (suc j) (omega arith)) ∙ fold_from-readings (suc j) past)
  window-value (some inverse) latest oldest older past (suc j) law pos le read at =
      let k = suc j in
      let rs = readings op identity (some inverse) m past in
      let firsts = read (suc k) (omega arith) in
      let l = latest ∷ older in
      inverse-readings inverse past k latest.data_value oldest.data_value law
        (values-get_elem? k l rs firsts 0 latest (omega arith) refl)
        (values-get_elem? k l rs firsts k oldest (omega arith) at)

-- `get_value_lem` for both kinds of operator
get_value-value :
    {A : Type 0} (op : A → A → A) (inv_op : Option (A → A → A)) (window : ℕ) (s : ReducerSampler A)
    (latest : Sample A) (older : List (Sample A))
    → IsQueue s.q (reverse (latest ∷ older))
    → 0 < window
    → 0 < length older
    → let k = span window older in
      (oldest : Sample A) × (get_elem? (latest ∷ older) k ≡ some oldest)
      × (get_value op inv_op window s
          ≡ ok (
              some (record {
                data_value = elim inv_op [
                  | none ↦ foldl op latest.data_value (values (take (k - 1) older))
                  | some inverse ↦ inverse latest.data_value oldest.data_value
                ];
                time_us = latest.time_us -ℤ oldest.time_us;
              })))
get_value-value op none window s latest older v pos enough =
    let (oldest, at, plain, _) = get_value_lem window s latest older v pos enough op op in
    (oldest, at, plain)
get_value-value op (some inverse) window s latest older v pos enough =
    let (oldest, at, _, undone) = get_value_lem window s latest older v pos enough op inverse in
    (oldest, at, undone)

module _ {A : Type 0} (op : A → A → A) (identity : A) (inv_op : Option (A → A → A))
    (m : IsCommutativeMonoid op identity) where
  -- A reducer has an associative and commutative operator with its identity as the unit, and an
  -- inverse operator that undoes it or none. Its samples have a size above 0, and memory for a
  -- larger queue is always to be had. When two samples or more are in the queue, get_value of a
  -- window that is not 0 is true, and its value is the operator over all values that the threads
  -- added between the oldest and the latest sample of the window, each of them once.
  pub get_value-total :
      {size_of : ℕ} {vs : List A} {past : List (List A)} {s : ReducerSampler A} {r : Reducer A}
      (window : ℕ)
      → Inverts op inv_op
      → 0 < size_of
      → Reach op identity inv_op size_of vs past s r
      → 0 < window
      → 2 ≤ s.q.count
      → let k = if ltb window s.q.count then window else s.q.count - 1 in
        (sample : Sample A) × (get_value op inv_op window s ≡ ok (some sample))
        × (sample.data_value ≡ total op identity (concat (take k past)))
  get_value-total {size_of} {vs} {past} {s} {r} window law sized reach some_window enough =
      let v = Reach-Inv op identity inv_op m sized reach in
      let size = count-length s.q v.latest v.queued in
      elim (List-cases v.latest) [
        | inl empty ↦ absurd (omega (arith, enough, size, ap length empty))
        | inr (latest, older, e) ↦
            let q = subst (λ l. IsQueue s.q (reverse l)) e v.queued in
            let read =
              subst
                (λ l.
                  (n : ℕ)
                  → n ≤ length l
                  → values (take n l) ≡ take n (readings op identity inv_op m past))
                e v.read in
            let count : s.q.count ≡ suc (length older) = size ∙ ap length e in
            let many : 0 < length older = omega (arith, enough, count) in
            let rest : suc (length older) - 1 ≡ length older = omega arith in
            let (oldest, at, out) =
              get_value-value op inv_op window s latest older q some_window many in
            let pos : 0 < span window older = ground arith in
            let le : span window older ≤ length older = ground arith in
            let k = if ltb window s.q.count then window else s.q.count - 1 in
            let same : span window older ≡ k = rw (count, rest) refl in
            let value =
              window-value op identity m inv_op latest oldest older past (span window older) law pos
                le read at in
            (_, out, value ∙ ap (λ n. total op identity (concat (take n past))) same)
      ]
