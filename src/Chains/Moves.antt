-- ===== src/Chains/Moves.antt =====
-- Chains in the heap, and the lists they stand for.
use mathlib.Core.Path.{subst}
use mathlib.Core.List.{append-nil}
use contention_prof.Base.{◌≡◌, refl, sym, List, [], ◌∷◌, ◌++◌, false, Option, none, some, arith}
use contention_prof.LinkedList.{
  Node, Heap, make_node, insert_before_as_list, remove_from_list, head,
}
use contention_prof.LinkedList.Ring.{
  Ring, has, Disjoint, Disjoint-sym, Disjoint-drop, Disjoint-has, Ring-rotate,
}
use contention_prof.LinkedList.Splice.{insert_before_as_list_lem}
use contention_prof.LinkedList.Detach.{remove_root}
use contention_prof.Chains.{combine, adopt, move_list}
use contention_prof.Chains.Frame.{
  Same, Ring-frame, remove_root-Same, make_node-Same, insert_before_as_list-Same,
}

-- The pointer leads round exactly the samples of the list, in order; a null pointer to none.
abbrev pub Chain : Heap → Option Node → List Node → Type 0
Chain h none [] = Unit {0}
Chain h none (x ∷ l) = ⊥
Chain h (some s) [] = ⊥
Chain h (some s) (x ∷ l) = (s ≡ x) × Ring h x l

make_node-Ring : (h : Heap) (root : Node) → Ring (make_node root h) root []
unfolding make_node
make_node-Ring h root = record {
  seg = tt;
  next_last = ground arith;
  previous_first = ground arith;
  distinct = (refl, tt);
}

-- On chains of two lists that share no sample, the combination is a chain of the first list,
-- then the second.
pub combine-Chain :
    (h : Heap) (s1 s2 : Option Node) (l m : List Node)
    → Chain h s1 l
    → Chain h s2 m
    → Disjoint l m
    → let (s, g) = combine s1 s2 h in Chain g s (l ++ m)
unfolding combine
combine-Chain h s1 none l [] c d apart = subst (Chain h s1) (sym (append-nil l)) c
combine-Chain h s1 none l (y ∷ m) c d apart = absurd d
combine-Chain h none (some s2) [] m c d apart = d
combine-Chain h none (some s2) (x ∷ l) m c d apart = absurd c
combine-Chain h (some s1) (some s2) [] m c d apart = absurd c
combine-Chain h (some s1) (some s2) (x ∷ l) [] c d apart = absurd d
combine-Chain h (some s1) (some s2) (x ∷ l) (y ∷ m) c d apart =
    let joined = insert_before_as_list_lem y m x l d.1 c.1 (Disjoint-sym (x ∷ l) (y ∷ m) apart) in
    (c.0, rw (c.0, d.0) (Ring-rotate (insert_before_as_list x y h) y m x l joined))

-- The new root is followed by the samples of the chain, if it is none of them.
pub adopt-Ring :
    (h : Heap) (root s x : Node) (l : List Node)
    → Chain h (some s) (x ∷ l)
    → has root (x ∷ l) ≡ false
    → Ring (adopt root s h) root (x ∷ l)
unfolding adopt
adopt-Ring h root s x l (e, r) out =
    let g = make_node root h in
    let apart : Disjoint (x ∷ l) (root ∷ []) = Disjoint-sym (root ∷ []) (x ∷ l) (out, tt) in
    let still =
      Ring-frame h g x l
        (λ q i.
          make_node-Same h root q (ground (arith, Disjoint-has (x ∷ l) (root ∷ []) q apart i)))
        r in
    rw e (insert_before_as_list_lem root [] x l (make_node-Ring h root) still (out, tt))

-- The list of a root goes behind the list of another, in order, and the first root is left
-- alone, if the lists have no node in common and the first is not empty.
pub move_list-Ring :
    (h : Heap) (root to x : Node) (l m : List Node)
    → Ring h root (x ∷ l)
    → Ring h to m
    → Disjoint (to ∷ m) (root ∷ x ∷ l)
    → Ring (move_list root to h) to (m ++ (x ∷ l)) × Ring (move_list root to h) root []
unfolding move_list head
move_list-Ring h root to x l m r s apart =
    let g = remove_from_list root h in
    let (cut, alone) = remove_root root x l r in
    let still =
      Ring-frame h g to m
        (λ q i.
          remove_root-Same h root (x ∷ l) q r (Disjoint-has (to ∷ m) (root ∷ x ∷ l) q apart i))
        s in
    let (out_to, inside) = Disjoint-drop (to ∷ m) root (x ∷ l) apart in
    let out_x = r.distinct.0 in
    let same = insert_before_as_list-Same g to m x l root still cut inside out_to out_x in
    let g' = insert_before_as_list x to g in
    let left =
      Ring-frame g g' root [] (λ q i. let e : root ≡ q = ground arith in subst (Same g g') e same)
        alone in
    subst
      (λ a.
        Ring (insert_before_as_list a to g) to (m ++ (x ∷ l))
        × Ring (insert_before_as_list a to g) root [])
      (sym r.seg.0) (insert_before_as_list_lem to m x l still cut inside, left)
