-- ===== src/BoundedQueue/Update.antt =====
-- How the items of a ring change when one slot is written and the ends move.
use contention_prof.Base.{
  ℕ, zero, suc, ◌+◌, ◌-◌, ◌≤◌, ◌<◌, ◌≡◌, ◌≢◌, sym, ◌∙◌, ap, List, [], ◌∷◌, ◌++◌, Option, none, some,
  arith, get_elem?, set, length-set, length-append, get_elem?-set_self, get_elem?-set_ne,
  get_elem?-append_left, get_elem?-append_length, inl, inr, ◌==◌, if◌then◌else◌, ◌⊎◌,
}
use contention_prof.BoundedQueue.Wrap.{slot}
use contention_prof.BoundedQueue.View.{View}

-- Places of a ring that differ stand in slots that differ.
pub slot-ne :
    (cap start i j : ℕ)
    → start ≤ cap - 1
    → i < cap
    → j < cap
    → i ≢ j
    → slot cap start i ≢ slot cap start j
slot-ne cap start i j hs hi hj ne = ground arith

pub slot-lt : (cap start i : ℕ) → start ≤ cap - 1 → i < cap → slot cap start i < cap
slot-lt cap start i hs hi = ground arith

slot-slot :
    (cap start i : ℕ)
    → start ≤ cap - 1
    → suc i < cap
    → slot cap (slot cap start 1) i ≡ slot cap start (suc i)
slot-slot cap start i hs hi = ground arith

lt_or_eq : (i n : ℕ) → i < suc n → (i < n) ⊎ (i ≡ n)
lt_or_eq i n h = omega arith

module _ {A : Type 0} {cap start count : ℕ} {s : List (Option A)} {xs : List A} where
  -- A new item behind the last.
  pub View-append :
      (x : A) (count' : ℕ)
      → View cap start count s xs
      → count < cap
      → count' ≡ count + 1
      → View cap start count' (set s (slot cap start count) (some x)) (xs ++ (x ∷ []))
  View-append x count' v room e = record {
    counted = omega (arith, v.counted, length-append xs (x ∷ []));
    fits = omega arith;
    small = v.small;
    start_in = v.start_in;
    storage = omega (arith, v.storage, length-set s (slot cap start count) (some x));
    holds = λ i h. elim (lt_or_eq i count (omega arith)) [
      | inl old ↦
          get_elem?-set_ne s (slot cap start count) (slot cap start i) (some x)
            (slot-ne cap start count i v.start_in room (omega arith) (omega arith))
          ∙ v.holds i old
          ∙ ap some (sym (get_elem?-append_left xs (x ∷ []) i (omega (arith, v.counted))))
      | inr last ↦
          ap (λ k. get_elem? (set s (slot cap start count) (some x)) (slot cap start k)) last
          ∙ get_elem?-set_self s (slot cap start count) (some x)
              (omega (arith, v.storage, slot-lt cap start count v.start_in room))
          ∙ ap some (sym (get_elem?-append_length xs x i (last ∙ v.counted)))
    ];
  }

  -- A new item before the first.
  pub View-cons :
      (x : A) (start' count' : ℕ)
      → View cap start count s xs
      → count < cap
      → start' ≡ (if start == 0 then cap - 1 else start - 1)
      → count' ≡ count + 1
      → View cap start' count' (set s start' (some x)) (x ∷ xs)
  View-cons x start' count' v room e ec = record {
    counted = omega (arith, v.counted);
    fits = omega arith;
    small = v.small;
    start_in = in_range;
    storage = omega (arith, v.storage, length-set s start' (some x));
    holds = here;
  }
    where
      in_range : start' ≤ cap - 1
      in_range = ground (arith, v.start_in)

      moved : (i : ℕ) → i < count → slot cap start' (suc i) ≡ slot cap start i
      moved i h = ground (arith, v.start_in)

      here :
          (i : ℕ)
          → i < count'
          → get_elem? (set s start' (some x)) (slot cap start' i) ≡ some (get_elem? (x ∷ xs) i)
      here zero h =
          let first : slot cap start' zero ≡ start' = ground (arith, in_range) in
          ap (get_elem? (set s start' (some x))) first
          ∙ get_elem?-set_self s start' (some x) (omega (arith, v.storage, in_range))
      here (suc i) h =
          let apart : start' ≢ slot cap start' (suc i) = ground (arith, in_range) in
          get_elem?-set_ne s start' (slot cap start' (suc i)) (some x) apart
          ∙ ap (get_elem? s) (moved i (omega arith))
          ∙ v.holds i (omega arith)

module _ {A : Type 0} {cap start count : ℕ} {s : List (Option A)} {y : A} {ys : List A} where
  -- The first item goes, and its slot is raw again.
  pub View-tail :
      View cap start count s (y ∷ ys)
      → View cap (slot cap start 1) (count - 1) (set s start none) ys
  View-tail v = record {
    counted = omega (arith, v.counted);
    fits = omega (arith, v.fits);
    small = v.small;
    start_in = ground (arith, v.start_in);
    storage = omega (arith, v.storage, length-set s start none);
    holds = λ i h.
        let apart : start ≢ slot cap start (suc i) = ground (arith, v.start_in, v.fits) in
        ap (get_elem? (set s start none)) (slot-slot cap start i v.start_in (omega (arith, v.fits)))
        ∙ get_elem?-set_ne s start (slot cap start (suc i)) none apart
        ∙ v.holds (suc i) (omega arith);
  }

  -- In a full ring the first item is overwritten and becomes the last.
  pub View-rotate :
      (x : A)
      → View cap start count s (y ∷ ys)
      → count ≡ cap
      → View cap (slot cap start 1) count (set s start (some x)) (ys ++ (x ∷ []))
  View-rotate x v full = record {
    counted = omega (arith, v.counted, length-append ys (x ∷ []));
    fits = v.fits;
    small = v.small;
    start_in = ground (arith, v.start_in, v.counted);
    storage = omega (arith, v.storage, length-set s start (some x));
    holds = λ i h. elim (lt_or_eq (suc i) count (omega arith)) [
      | inl old ↦
          let apart : start ≢ slot cap start (suc i) = ground (arith, v.start_in) in
          ap (get_elem? (set s start (some x))) (slot-slot cap start i v.start_in (omega arith))
          ∙ get_elem?-set_ne s start (slot cap start (suc i)) (some x) apart
          ∙ v.holds (suc i) old
          ∙ ap some (sym (get_elem?-append_left ys (x ∷ []) i (omega (arith, v.counted))))
      | inr last ↦
          let round : slot cap (slot cap start 1) i ≡ start = ground (arith, v.start_in) in
          ap (get_elem? (set s start (some x))) round
          ∙ get_elem?-set_self s start (some x) (omega (arith, v.storage, v.start_in))
          ∙ ap some (sym (get_elem?-append_length ys x i (omega (arith, v.counted))))
    ];
  }

module _ {A : Type 0} {cap start count : ℕ} {s : List (Option A)} {ys : List A} where
  -- The last item goes, and its slot is raw again.
  pub View-init :
      (y : A)
      → View cap start count s (ys ++ (y ∷ []))
      → View cap start (count - 1) (set s (slot cap start (count - 1)) none) ys
  View-init y v = record {
    counted = omega (arith, v.counted, length-append ys (y ∷ []));
    fits = omega (arith, v.fits);
    small = v.small;
    start_in = v.start_in;
    storage = omega (arith, v.storage, length-set s (slot cap start (count - 1)) none);
    holds = λ i h.
        let apart : slot cap start (count - 1) ≢ slot cap start i =
          slot-ne cap start (count - 1) i v.start_in (omega (arith, v.fits)) (omega (arith, v.fits))
            (omega arith) in
        get_elem?-set_ne s (slot cap start (count - 1)) (slot cap start i) none apart
        ∙ v.holds i (omega arith)
        ∙ ap some (
            get_elem?-append_left ys (y ∷ []) i
              (omega (arith, v.counted, length-append ys (y ∷ []))));
  }
