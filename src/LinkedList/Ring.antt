-- ===== src/LinkedList/Ring.antt =====
-- The lists that stand in the heap of `LinkNode`s.
use contention_prof.Base.{
  ◌≡◌, ◌≢◌, refl, sym, ◌∙◌, ap, List, [], ◌∷◌, ◌++◌, Bool, true, false, ◌||◌, arith, ◌==◌, inl, inr,
  Bool-cases,
}
use contention_prof.LinkedList.{Node, Heap}

abbrev pub has : Node → List Node → Bool
has p [] = false
has p (x ∷ xs) = (p == x) || has p xs

abbrev pub Distinct : List Node → Type 0
Distinct [] = Unit {0}
Distinct (x ∷ xs) = (has x xs ≡ false) × Distinct xs

-- No node of the first list is one of the second.
abbrev pub Disjoint : List Node → List Node → Type 0
Disjoint [] ys = Unit {0}
Disjoint (x ∷ xs) ys = (has x ys ≡ false) × Disjoint xs ys

abbrev pub last : Node → List Node → Node
last a [] = a
last a (x ∷ xs) = last x xs

-- The nodes `a`, then `xs`, are linked to one another in order, both ways.
abbrev pub Seg : Heap → Node → List Node → Type 0
Seg h a [] = Unit {0}
Seg h a (x ∷ xs) = (h.next a ≡ x) × (h.previous x ≡ a) × Seg h x xs

-- From `r` the pointers lead once round the distinct nodes `xs` and back to `r`.
pub record Ring (h : Heap) (r : Node) (xs : List Node) : Type 0 where
  pub seg : Seg h r xs
  pub next_last : h.next (last r xs) ≡ r
  pub previous_first : h.previous r ≡ last r xs
  pub distinct : Distinct (r ∷ xs)

pub has-append : (p : Node) (xs ys : List Node) → has p (xs ++ ys) ≡ (has p xs || has p ys)
has-append p [] ys = refl
has-append p (x ∷ xs) ys = ground (arith, has-append p xs ys)

pub last-append :
    (a : Node) (xs : List Node) (t : Node) (ys : List Node) → last a (xs ++ (t ∷ ys)) ≡ last t ys
last-append a [] t ys = refl
last-append a (x ∷ xs) t ys = last-append x xs t ys

pub has-last : (a : Node) (xs : List Node) → has (last a xs) (a ∷ xs) ≡ true
has-last a [] = ground arith
has-last a (x ∷ xs) = ground (arith, has-last x xs)

pub Seg-append :
    (h : Heap) (a : Node) (xs : List Node) (t : Node) (ys : List Node)
    → Seg h a xs
    → h.next (last a xs) ≡ t
    → h.previous t ≡ last a xs
    → Seg h t ys
    → Seg h a (xs ++ (t ∷ ys))
Seg-append h a [] t ys s n p s' = (n, p, s')
Seg-append h a (x ∷ xs) t ys s n p s' = (s.0, s.1, Seg-append h x xs t ys s.2 n p s')

pub Seg-split :
    (h : Heap) (a : Node) (xs : List Node) (t : Node) (ys : List Node)
    → Seg h a (xs ++ (t ∷ ys))
    → Seg h a xs × (h.next (last a xs) ≡ t) × (h.previous t ≡ last a xs) × Seg h t ys
Seg-split h a [] t ys s = (tt, s.0, s.1, s.2)
Seg-split h a (x ∷ xs) t ys s =
    let (s', n, p, r) = Seg-split h x xs t ys s.2 in ((s.0, s.1, s'), n, p, r)

-- A segment survives writes that spare its `next_` pointers but the last, and its `previous_`
-- pointers but the first.
pub Seg-frame :
    (h g : Heap) (a : Node) (xs : List Node)
    → Distinct (a ∷ xs)
    → ((p : Node) → has p (a ∷ xs) ≡ true → p ≢ last a xs → g.next p ≡ h.next p)
    → ((p : Node) → has p xs ≡ true → g.previous p ≡ h.previous p)
    → Seg h a xs
    → Seg g a xs
Seg-frame h g a [] d n p s = tt
Seg-frame h g a (x ∷ xs) d n p s = (
  n a (ground arith) apart ∙ s.0,
  p x (ground arith) ∙ s.1,
  Seg-frame h g x xs d.1 (λ q i ne. n q (ground arith) ne) (λ q i. p q (ground arith)) s.2,
)
  where
    apart : a ≢ last x xs
    apart e = ground (arith, has-last x xs)

pub Distinct-append :
    (xs ys : List Node) → Distinct xs → Distinct ys → Disjoint xs ys → Distinct (xs ++ ys)
Distinct-append [] ys dx dy apart = dy
Distinct-append (x ∷ xs) ys dx dy apart =
    (ground (arith, has-append x xs ys), Distinct-append xs ys dx.1 dy apart.1)

pub Distinct-split :
    (xs ys : List Node) → Distinct (xs ++ ys) → Distinct xs × Distinct ys × Disjoint xs ys
Distinct-split [] ys d = (tt, d, tt)
Distinct-split (x ∷ xs) ys d =
    let (dx, dy, apart) = Distinct-split xs ys d.1 in
    ((ground (arith, has-append x xs ys), dx), dy, (ground (arith, has-append x xs ys), apart))

pub Disjoint-has :
    (xs ys : List Node) (p : Node) → Disjoint xs ys → has p xs ≡ true → has p ys ≡ false
Disjoint-has [] ys p apart i = ground arith
Disjoint-has (x ∷ xs) ys p apart i = elim (Bool-cases (p == x)) [
  | inl here ↦ ground (arith, apart.0)
  | inr later ↦ Disjoint-has xs ys p apart.1 (ground arith)
]

pub Disjoint-drop :
    (xs : List Node) (y : Node) (ys : List Node)
    → Disjoint xs (y ∷ ys)
    → (has y xs ≡ false) × Disjoint xs ys
Disjoint-drop [] y ys apart = (refl, tt)
Disjoint-drop (x ∷ xs) y ys apart =
    let (out, rest) = Disjoint-drop xs y ys apart.1 in (ground arith, (ground arith, rest))

pub Disjoint-sym : (xs ys : List Node) → Disjoint xs ys → Disjoint ys xs
Disjoint-sym xs [] apart = tt
Disjoint-sym xs (y ∷ ys) apart =
    let (out, rest) = Disjoint-drop xs y ys apart in (out, Disjoint-sym xs ys rest)

-- A ring can be read from any of its nodes.
pub Ring-rotate :
    (h : Heap) (r : Node) (xs : List Node) (t : Node) (ys : List Node)
    → Ring h r (xs ++ (t ∷ ys))
    → Ring h t (ys ++ (r ∷ xs))
Ring-rotate h r xs t ys ring =
    let (front, n, p, back) = Seg-split h r xs t ys ring.seg in
    let (dx, dy, apart) = Distinct-split (r ∷ xs) (t ∷ ys) ring.distinct in
    record {
      seg =
          Seg-append h t ys r xs back (ap h.next (sym (last-append r xs t ys)) ∙ ring.next_last)
            (ring.previous_first ∙ last-append r xs t ys) front;
      next_last = ap h.next (last-append t ys r xs) ∙ n;
      previous_first = p ∙ sym (last-append t ys r xs);
      distinct = Distinct-append (t ∷ ys) (r ∷ xs) dy dx (Disjoint-sym (r ∷ xs) (t ∷ ys) apart);
    }
