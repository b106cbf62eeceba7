-- ===== src/ObjectPool/Occurrences.antt =====
-- How often an object stands in the lists of the pool.
use contention_prof.Base.{
  arith, ℕ, zero, suc, ◌+◌, ◌≡◌, Bool, true, ◌&&◌, List, [], ◌∷◌, ◌==◌, if◌then◌else◌, some,
  get_elem?, set, ap₂, ◌≤◌, ◌<◌, inl, inr, Bool-cases,
}
use contention_prof.ObjectPool.{Obj, LocalPool}

abbrev pub is_same : Obj → Obj → Bool
is_same o p = (o.block == p.block) && (o.item == p.item)

abbrev pub one_if : Bool → ℕ
one_if b = if b then 1 else 0

abbrev pub occurrences : Obj → List Obj → ℕ
occurrences o [] = 0
occurrences o (p ∷ l) = one_if (is_same o p) + occurrences o l

abbrev pub in_chunks : Obj → List (List Obj) → ℕ
in_chunks o [] = 0
in_chunks o (c ∷ l) = occurrences o c + in_chunks o l

-- in the free lists of all threads
abbrev pub in_locals : Obj → List LocalPool → ℕ
in_locals o [] = 0
in_locals o (p ∷ l) = occurrences o p.cur_free + in_locals o l

pub in_locals-set :
    (o : Obj) (l : List LocalPool) (i : ℕ) (old new : LocalPool)
    → get_elem? l i ≡ some old
    → in_locals o (set l i new) + occurrences o old.cur_free
      ≡ in_locals o l + occurrences o new.cur_free
in_locals-set o [] i old new h = ground arith
in_locals-set o (p ∷ l) zero old new h = let same : p ≡ old = ground arith in rw same (omega arith)
in_locals-set o (p ∷ l) (suc i) old new h = omega (arith, in_locals-set o l i old new h)

is_same→eq : (o p : Obj) → is_same o p ≡ true → o ≡ p
is_same→eq o p h =
    let same_block : o.block ≡ p.block = ground arith in
    let same_item : o.item ≡ p.item = ground arith in
    ap₂ (λ b i. record { block = b; item = i }) same_block same_item

-- An object that is counted at `x` is counted there at least once.
pub is_same-le : (out : Obj → ℕ) (x o : Obj) → 0 < out x → one_if (is_same o x) ≤ out o
is_same-le out x o has = elim (Bool-cases (is_same o x)) [
  | inl same ↦ rw (is_same→eq o x same) (ground arith)
  | inr other ↦ rw other (omega arith)
]

pub is_same_self : (o : Obj) → one_if (is_same o o) ≡ 1
is_same_self o = ground arith

pub one_if-le : (b : Bool) → one_if b ≤ 1
one_if-le b = ground arith
