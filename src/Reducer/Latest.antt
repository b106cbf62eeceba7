-- ===== src/Reducer/Latest.antt =====
-- A queue that keeps its latest items, as a list with the latest first.
use contention_prof.Base.{
  arith, ℕ, zero, suc, ◌-◌, ◌≤◌, ◌<◌, ◌≡◌, refl, sym, ap, ◌∙◌, List, [], ◌∷◌, ◌++◌, ltb,
  if◌then◌else◌, length, take, drop, get_elem?, reverse, length-reverse, inl, inr, Bool-cases,
}
use contention_prof.BoundedQueue.Deque

-- A full list loses its last item for the new first one.
abbrev pub keep_latest {ℓ} : {A : Type ℓ} → ℕ → List A → A → List A
keep_latest cap l x = x ∷ (if ltb (length l) cap then l else take (length l - 1) l)

pub take-length {ℓ} : {A : Type ℓ} (l : List A) → take (length l) l ≡ l
take-length [] = refl
take-length (x ∷ l) = ap (λ t. x ∷ t) (take-length l)

drop_one-append {ℓ} :
    {A : Type ℓ} (xs ys : List A) → 0 < length xs → drop 1 (xs ++ ys) ≡ drop 1 xs ++ ys
drop_one-append [] ys h = absurd (omega arith)
drop_one-append (x ∷ xs) ys h = refl

drop-reverse {ℓ} : {A : Type ℓ} (l : List A) → drop 1 (reverse l) ≡ reverse (take (length l - 1) l)
drop-reverse [] = refl
drop-reverse (x ∷ []) = refl
drop-reverse (x ∷ y ∷ l) =
    let more : 0 < length (reverse (y ∷ l)) = omega (arith, length-reverse (y ∷ l)) in
    let outer : suc (suc (length l)) - 1 ≡ suc (length l) = omega arith in
    let inner : suc (length l) - 1 ≡ length l = omega arith in
    let rest : drop 1 (reverse (y ∷ l)) ≡ reverse (take (length l) (y ∷ l)) =
      drop-reverse (y ∷ l) ∙ ap (λ n. reverse (take n (y ∷ l))) inner in
    drop_one-append (reverse (y ∷ l)) (x ∷ []) more
    ∙ ap (λ t. t ++ (x ∷ [])) rest
    ∙ ap (λ n. reverse (take n (x ∷ y ∷ l))) (sym outer)

pub elim_push-reverse :
    {A : Type 0} (cap : ℕ) (l : List A) (x : A)
    → Deque.elim_push cap (reverse l) x ≡ reverse (keep_latest cap l x)
unfolding Deque.elim_push
elim_push-reverse cap l x =
    let size = length-reverse l in
    elim (Bool-cases (ltb (length l) cap)) [
      | inl room ↦ rw (size, room) refl
      | inr full ↦ rw (size, full) (ap (λ t. t ++ (x ∷ [])) (drop-reverse l))
    ]

pub take-take {ℓ} : {A : Type ℓ} (n m : ℕ) (l : List A) → n ≤ m → take n (take m l) ≡ take n l
take-take zero m l h = refl
take-take (suc n) zero l h = absurd (omega arith)
take-take (suc n) (suc m) [] h = refl
take-take (suc n) (suc m) (x ∷ l) h = ap (λ t. x ∷ t) (take-take n m l (omega arith))

pub length-take {ℓ} : {A : Type ℓ} (n : ℕ) (l : List A) → length (take n l) ≤ n
length-take zero l = omega arith
length-take (suc n) [] = omega arith
length-take (suc n) (x ∷ l) = omega (arith, length-take n l)

pub get_elem?-take {ℓ} :
    {A : Type ℓ} (l : List A) (i n : ℕ) → i < n → get_elem? (take n l) i ≡ get_elem? l i
get_elem?-take [] i zero h = refl
get_elem?-take [] i (suc n) h = refl
get_elem?-take (x ∷ l) i zero h = absurd (omega arith)
get_elem?-take (x ∷ l) zero (suc n) h = refl
get_elem?-take (x ∷ l) (suc i) (suc n) h = get_elem?-take l i n (omega arith)
