-- ===== src/LinkedList/Splice.antt =====
-- Insertion into a ring, of one node and of a whole ring.
use mathlib.Core.Path.{subst}
use mathlib.Core.List.{append-nil, append_assoc}
use contention_prof.Base.{
  ◌≡◌, refl, sym, ◌∙◌, ap, List, [], ◌∷◌, ◌++◌, true, false, arith, ◌==◌, if◌then◌else◌,
}
use contention_prof.LinkedList.{
  Node, Heap, insert_before, insert_before_as_list, insert_after, insert_after_as_list, append,
}
use contention_prof.LinkedList.Ring.{
  Ring, Seg, Seg-append, Seg-frame, has, has-last, last, last-append, Distinct, Disjoint,
  Distinct-append, Disjoint-has, Disjoint-sym, Ring-rotate,
}

-- The heap after the ring of `t`, whose last node is `l`, is put behind the last node `k` of the
-- ring of `e`.
abbrev spliced : (h : Heap) (k e l t : Node) → Heap
spliced h k e l t = record {
  next = λ p. if k == p then t else if l == p then e else h.next p;
  previous = λ p. if e == p then l else if t == p then k else h.previous p;
}

Ring-spliced :
    (h g : Heap) (e : Node) (xs : List Node) (t : Node) (ys : List Node)
    → ((p : Node) → g.next p ≡ (spliced h (last e xs) e (last t ys) t).next p)
    → ((p : Node) → g.previous p ≡ (spliced h (last e xs) e (last t ys) t).previous p)
    → Distinct (e ∷ xs)
    → Seg h e xs
    → Distinct (t ∷ ys)
    → Seg h t ys
    → Disjoint (e ∷ xs) (t ∷ ys)
    → Ring g e (xs ++ (t ∷ ys))
Ring-spliced h g e xs t ys n p dx sx dy sy apart = record {
  seg =
      Seg-append g e xs t ys
        (Seg-frame h g e xs dx (λ q i ne. ground (arith, n q, out_t q i, has-last t ys))
          (λ q i. ground (arith, p q, out_t q, dx.0)) sx)
        (ground (arith, n (last e xs))) (ground (arith, p t, apart.0))
        (Seg-frame h g t ys dy (λ q i ne. ground (arith, n q, out_e q i, has-last e xs))
          (λ q i. ground (arith, p q, out_e q, dy.0)) sy);
  next_last = ap g.next (last-append e xs t ys) ∙ ground (arith, n (last t ys), lasts);
  previous_first = ground (arith, p e) ∙ sym (last-append e xs t ys);
  distinct = Distinct-append (e ∷ xs) (t ∷ ys) dx dy apart;
}
  where
    out_t : (q : Node) → has q (e ∷ xs) ≡ true → has q (t ∷ ys) ≡ false
    out_t q i = Disjoint-has (e ∷ xs) (t ∷ ys) q apart i

    out_e : (q : Node) → has q (t ∷ ys) ≡ true → has q (e ∷ xs) ≡ false
    out_e q i = Disjoint-has (t ∷ ys) (e ∷ xs) q (Disjoint-sym (e ∷ xs) (t ∷ ys) apart) i

    lasts : (last e xs == last t ys) ≡ false
    lasts = ground (arith, out_t (last e xs) (has-last e xs), has-last t ys)

-- insert_before_as_list of a ring before a node of a disjoint ring makes one ring: from that node,
-- its own nodes, then those of the inserted ring.
pub insert_before_as_list_lem :
    {h : Heap} (e : Node) (xs : List Node) (t : Node) (ys : List Node)
    → Ring h e xs
    → Ring h t ys
    → Disjoint (e ∷ xs) (t ∷ ys)
    → Ring (insert_before_as_list t e h) e (xs ++ (t ∷ ys))
unfolding insert_before_as_list
insert_before_as_list_lem {h} e xs t ys r s apart =
    Ring-spliced h _ e xs t ys (λ p. ground (arith, apart.0, r.previous_first, s.previous_first))
      (λ p. ground (arith, apart.0, r.previous_first, s.previous_first)) r.distinct r.seg s.distinct
      s.seg apart

-- A single node put before `e` becomes the last of the ring; what it was linked to is forgotten.
pub insert_before_lem :
    {h : Heap} (e : Node) (xs : List Node) (t : Node)
    → Ring h e xs
    → has t (e ∷ xs) ≡ false
    → Ring (insert_before t e h) e (xs ++ (t ∷ []))
unfolding insert_before
insert_before_lem {h} e xs t r out =
    let apart = Disjoint-sym (t ∷ []) (e ∷ xs) (out, tt) in
    Ring-spliced h _ e xs t [] (λ p. ground (arith, apart.0, r.previous_first))
      (λ p. ground (arith, apart.0, r.previous_first)) r.distinct r.seg (refl, tt) tt apart

Disjoint-snoc :
    (xs : List Node) (e : Node) (zs : List Node)
    → Disjoint xs zs
    → has e zs ≡ false
    → Disjoint (xs ++ (e ∷ [])) zs
Disjoint-snoc [] e zs apart out = (out, tt)
Disjoint-snoc (x ∷ xs) e zs apart out = (apart.0, Disjoint-snoc xs e zs apart.1 out)

-- Putting the ring of `t` behind `e` makes one ring: from `e`, the nodes of `t`, then its own.
pub insert_after_as_list_lem :
    {h : Heap} (e : Node) (xs : List Node) (t : Node) (ys : List Node)
    → Ring h e xs
    → Ring h t ys
    → Disjoint (e ∷ xs) (t ∷ ys)
    → Ring (insert_after_as_list t e h) e ((t ∷ ys) ++ xs)
unfolding insert_after_as_list
insert_after_as_list_lem {h} e [] t ys r s apart = rw (append-nil (t ∷ ys)) (
    Ring-spliced h (insert_after_as_list t e h) e [] t ys
      (λ p. ground (arith, apart.0, r.next_last, s.previous_first))
      (λ p. ground (arith, apart.0, r.next_last, s.previous_first)) r.distinct r.seg s.distinct
      s.seg apart)
insert_after_as_list_lem {h} e (x ∷ xs) t ys r s apart =
    let g = insert_after_as_list t e h in
    let turned : Ring h x (xs ++ (e ∷ [])) = Ring-rotate h e [] x xs r in
    let far : Disjoint (x ∷ (xs ++ (e ∷ []))) (t ∷ ys) =
      (apart.1.0, Disjoint-snoc xs e (t ∷ ys) apart.1.1 apart.0) in
    let joined : Ring g x ((xs ++ (e ∷ [])) ++ (t ∷ ys)) =
      Ring-spliced h g x (xs ++ (e ∷ [])) t ys
        (λ p. ground (arith, apart, r.seg, s.previous_first, last-append x xs e []))
        (λ p. ground (arith, apart, r.seg, s.previous_first, last-append x xs e [])) turned.distinct
        turned.seg s.distinct s.seg far in
    Ring-rotate g x xs e (t ∷ ys) (subst (Ring g x) (append_assoc xs (e ∷ []) (t ∷ ys)) joined)

-- A single node put behind `e` becomes the one after `e`.
pub insert_after_lem :
    {h : Heap} (e : Node) (xs : List Node) (t : Node)
    → Ring h e xs
    → has t (e ∷ xs) ≡ false
    → Ring (insert_after t e h) e (t ∷ xs)
unfolding insert_after
insert_after_lem {h} e [] t r out =
    let apart = Disjoint-sym (t ∷ []) (e ∷ []) (out, tt) in
    Ring-spliced h (insert_after t e h) e [] t [] (λ p. ground (arith, apart.0, r.next_last))
      (λ p. ground (arith, apart.0, r.next_last)) r.distinct r.seg (refl, tt) tt apart
insert_after_lem {h} e (x ∷ xs) t r out =
    let g = insert_after t e h in
    let turned : Ring h x (xs ++ (e ∷ [])) = Ring-rotate h e [] x xs r in
    let apart = Disjoint-sym (t ∷ []) (e ∷ x ∷ xs) (out, tt) in
    let far : Disjoint (x ∷ (xs ++ (e ∷ []))) (t ∷ []) =
      (apart.1.0, Disjoint-snoc xs e (t ∷ []) apart.1.1 apart.0) in
    let joined : Ring g x ((xs ++ (e ∷ [])) ++ (t ∷ [])) =
      Ring-spliced h g x (xs ++ (e ∷ [])) t []
        (λ p. ground (arith, out, r.seg, last-append x xs e []))
        (λ p. ground (arith, out, r.seg, last-append x xs e [])) turned.distinct turned.seg
        (refl, tt) tt far in
    Ring-rotate g x xs e (t ∷ []) (subst (Ring g x) (append_assoc xs (e ∷ []) (t ∷ [])) joined)

-- `Append` adds a node at the end of the list.
pub append_lem :
    {h : Heap} (root : Node) (xs : List Node) (e : Node)
    → Ring h root xs
    → has e (root ∷ xs) ≡ false
    → Ring (append root e h) root (xs ++ (e ∷ []))
unfolding append
append_lem root xs e r out = insert_before_lem root xs e r out
