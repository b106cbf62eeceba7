-- ===== src/Chains/Frame.antt =====
-- What an operation on one ring leaves of the others.
use contention_prof.Base.{◌≡◌, ◌∙◌, List, [], ◌∷◌, true, false, arith, ◌==◌}
use contention_prof.LinkedList.{Node, Heap, make_node, insert_before_as_list, remove_from_list}
use contention_prof.LinkedList.Ring.{Ring, Seg-frame, has, has-last, last, Disjoint}

-- the same links at the node
abbrev pub Same : Heap → Heap → Node → Type 0
Same h g q = (g.next q ≡ h.next q) × (g.previous q ≡ h.previous q)

pub Ring-frame :
    (h g : Heap) (r : Node) (xs : List Node)
    → ((q : Node) → has q (r ∷ xs) ≡ true → Same h g q)
    → Ring h r xs
    → Ring g r xs
Ring-frame h g r xs same ring = record {
  seg =
      Seg-frame h g r xs ring.distinct (λ q i ne. (same q i).0) (λ q i. (same q (ground arith)).1)
        ring.seg;
  next_last = (same (last r xs) (has-last r xs)).0 ∙ ring.next_last;
  previous_first = (same r (ground arith)).1 ∙ ring.previous_first;
  distinct = ring.distinct;
}

-- remove_from_list of a root changes no node outside its ring.
pub remove_root-Same :
    (h : Heap) (t : Node) (xs : List Node) (q : Node)
    → Ring h t xs
    → has q (t ∷ xs) ≡ false
    → Same h (remove_from_list t h) q
unfolding remove_from_list
remove_root-Same h t [] q ring out = (
  ground (arith, ring.previous_first, ring.next_last),
  ground (arith, ring.previous_first, ring.next_last),
)
remove_root-Same h t (x ∷ xs) q ring out = (
  ground (arith, ring.previous_first, ring.seg, has-last x xs),
  ground (arith, ring.previous_first, ring.seg, has-last x xs),
)

pub make_node-Same : (h : Heap) (t q : Node) → (q == t) ≡ false → Same h (make_node t h) q
unfolding make_node
make_node-Same h t q out = (ground arith, ground arith)

-- insert_before_as_list changes no node outside the two rings.
pub insert_before_as_list-Same :
    (h : Heap) (e : Node) (xs : List Node) (t : Node) (ys : List Node) (q : Node)
    → Ring h e xs
    → Ring h t ys
    → Disjoint (e ∷ xs) (t ∷ ys)
    → has q (e ∷ xs) ≡ false
    → has q (t ∷ ys) ≡ false
    → Same h (insert_before_as_list t e h) q
unfolding insert_before_as_list
insert_before_as_list-Same h e xs t ys q r s apart out_e out_t =
    let last_e = has-last e xs in
    let last_t = has-last t ys in
    (
      ground (arith, apart.0, r.previous_first, s.previous_first, last_e, last_t),
      ground (arith, apart.0, r.previous_first, s.previous_first, last_e, last_t),
    )
