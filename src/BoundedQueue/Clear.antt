-- ===== src/BoundedQueue/Clear.antt =====
-- `clear` destroys the items one by one.
use mathlib.Core.Path.{subst}
use contention_prof.Base.{
  ℕ, zero, suc, ◌+◌, ◌-◌, ◌^◌, ◌≤◌, ◌<◌, ◌≡◌, ◌≢◌, refl, ◌∙◌, ap, ap₂, sym, List, [], ◌∷◌, Option,
  none, some, arith, length, length-set, get_elem?, set, get_elem?-set_self, get_elem?-set_ne, inl,
  inr, ok, u32, ◌⊎◌,
}
use contention_prof.BoundedQueue.{BoundedQueue, slots, with_slots, clear, clear_from, mod_cap}
use contention_prof.BoundedQueue.View.{IsQueue, slots-with_slots, destroy-ok, holds_item}
use contention_prof.BoundedQueue.Wrap.{slot, mod_cap-u32}
use contention_prof.BoundedQueue.Update.{slot-ne, slot-lt}

module _ {A : Type 0} where
  -- The storage with the items of the places `i`, …, `i + n - 1` gone.
  cleared : (cap start n i : ℕ) → List (Option A) → List (Option A)
  cleared cap start zero i s = s
  cleared cap start (suc n) i s = cleared cap start n (i + 1) (set s (slot cap start i) none)

  length-cleared :
      (cap start n i : ℕ) (s : List (Option A)) → length (cleared cap start n i s) ≡ length s
  unfolding cleared
  length-cleared cap start zero i s = refl
  length-cleared cap start (suc n) i s =
      length-cleared cap start n (i + 1) (set s (slot cap start i) none)
      ∙ length-set s (slot cap start i) none

  cleared_other :
      (cap start n i : ℕ) (s : List (Option A)) (p : ℕ)
      → ((j : ℕ) → i ≤ j → j < i + n → slot cap start j ≢ p)
      → get_elem? (cleared cap start n i s) p ≡ get_elem? s p
  unfolding cleared
  cleared_other cap start zero i s p apart = refl
  cleared_other cap start (suc n) i s p apart =
      cleared_other cap start n (i + 1) (set s (slot cap start i) none) p
        (λ j lo hi. apart j (omega arith) (omega arith))
      ∙ get_elem?-set_ne s (slot cap start i) p none (apart i (omega arith) (omega arith))

  with_slots-with_slots :
      (q : BoundedQueue A) (s t : List (Option A)) → with_slots (with_slots q s) t ≡ with_slots q t
  with_slots-with_slots q s t = ground arith

  slots-with_slots_same :
      (q : BoundedQueue A) (s : List (Option A))
      → length s ≡ length (slots q)
      → slots (with_slots q s) ≡ s
  slots-with_slots_same q [] e = ground arith
  slots-with_slots_same q (x ∷ s) e = slots-with_slots q (x ∷ s) (omega arith)

  with_slots_self : (q : BoundedQueue A) → with_slots q (slots q) ≡ q
  with_slots_self q = ground arith

first_or_later : (i j : ℕ) → i ≤ j → (i ≡ j) ⊎ (i + 1 ≤ j)
first_or_later i j h = omega arith

module _ {A : Type 0} (cap start : ℕ) (start_in : start ≤ cap - 1) (small : cap ≤ 2 ^ 31) where
  cleared_raw :
      (n i : ℕ) (s : List (Option A)) (j : ℕ)
      → cap ≤ length s
      → i + n ≤ cap
      → i ≤ j
      → j < i + n
      → get_elem? (cleared cap start n i s) (slot cap start j) ≡ some none
  unfolding cleared
  cleared_raw zero i s j big fits lo hi = absurd (omega arith)
  cleared_raw (suc n) i s j big fits lo hi = elim (first_or_later i j lo) [
    | inl now ↦
        let here = slot cap start i in
        ap (λ k. get_elem? (cleared cap start n (i + 1) (set s here none)) (slot cap start k))
          (sym now)
        ∙ cleared_other cap start n (i + 1) (set s here none) here
            (λ k lo' hi'. slot-ne cap start k i start_in (omega arith) (omega arith) (omega arith))
        ∙ get_elem?-set_self s here none (omega (arith, slot-lt cap start i start_in (omega arith)))
    | inr later ↦
        cleared_raw n (i + 1) (set s (slot cap start i) none) j
          (omega (arith, length-set s (slot cap start i) none)) (omega arith) later (omega arith)
  ]

  clear_from-cleared :
      (n i : ℕ) (q : BoundedQueue A)
      → q.cap ≡ cap
      → q.start ≡ start
      → cap ≤ length (slots q)
      → i + n ≤ cap
      → ((j : ℕ)
          → i ≤ j
          → j < i + n
          → (x : A) × (get_elem? (slots q) (slot cap start j) ≡ some (some x)))
      → clear_from n i q ≡ ok (with_slots q (cleared cap start n i (slots q)))
  unfolding clear_from cleared
  clear_from-cleared zero i q ec es big fits live = ap ok (sym (with_slots_self q))
  clear_from-cleared (suc n) i q ec es big fits live =
      let here = slot cap start i in
      let (x, item) = live i (omega arith) (omega arith) in
      let q₁ = with_slots q (set (slots q) here none) in
      let now : slots q₁ ≡ set (slots q) here none =
        slots-with_slots q (set (slots q) here none) (omega arith) in
      let found : mod_cap (u32 (q.start + i)) q.cap ≡ ok here =
        ap₂ (λ a b. mod_cap (u32 (a + i)) b) es ec
        ∙ mod_cap-u32 cap start i (omega arith) start_in (omega arith) small in
      rw (found, destroy-ok q here x item)
        (clear_from-cleared n (i + 1) q₁ ec es
            (rw now (omega (arith, length-set (slots q) here none))) (omega arith)
            (λ j lo hi.
              let (y, at) = live j (omega arith) (omega arith) in
              (
                y,
                ap (λ s. get_elem? s (slot cap start j)) now
                    ∙ get_elem?-set_ne (slots q) here (slot cap start j) none
                        (slot-ne cap start i j start_in (omega arith) (omega arith) (omega arith))
                    ∙ at,
              ))
          ∙ ap (λ s. ok (with_slots q₁ (cleared cap start n (i + 1) s))) now
          ∙ ap ok (with_slots-with_slots q _ _))

module _ {A : Type 0} (q : BoundedQueue A) (xs : List A) where
  -- clear never fails on a queue that holds a list of items, leaves an empty queue of the same
  -- capacity, and the slots that held the items are raw.
  pub clear_refines :
      IsQueue q xs
      → (q' : BoundedQueue A) × (clear q ≡ ok q')
        × (q'.cap ≡ q.cap)
        × IsQueue q' []
        × ((i : ℕ) → i < q.count → get_elem? (slots q') (slot q.cap q.start i) ≡ some none)
  unfolding clear
  clear_refines v =
      let s' = cleared q.cap q.start q.count 0 (slots q) in
      let loop : clear_from q.count 0 q ≡ ok (with_slots q s') =
        clear_from-cleared q.cap q.start v.start_in v.small q.count 0 q refl refl v.storage
          (omega (arith, v.fits))
          (λ j lo hi. let (x, e, at) = holds_item j v (omega arith) in (x, at)) in
      let same : length s' ≡ length (slots q) = length-cleared q.cap q.start q.count 0 (slots q) in
      let now : slots (with_slots q s') ≡ s' = slots-with_slots_same q s' same in
      (
        record (with_slots q s') { count = 0; start = 0 },
        rw loop,
        refl,
        record {
          counted = refl;
          fits = omega arith;
          small = v.small;
          start_in = omega arith;
          storage = subst (λ t. q.cap ≤ length t) (sym now) (omega (arith, v.storage));
          holds = λ i h. absurd (omega arith);
        },
        λ i h.
            ap (λ t. get_elem? t (slot q.cap q.start i)) now
            ∙ cleared_raw q.cap q.start v.start_in v.small q.count 0 (slots q) i v.storage
                (omega (arith, v.fits)) (omega arith) (omega arith),
      )
