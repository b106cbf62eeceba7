-- ===== src/LinkedList/Detach.antt =====
-- Taking a node out of a ring.
use mathlib.Core.List.{append-nil}
use contention_prof.Base.{◌≡◌, refl, List, [], ◌∷◌, ◌++◌, Bool, true, false, arith}
use contention_prof.LinkedList.{Node, Heap, remove_from_list, head, tail, empty}
use contention_prof.LinkedList.Ring.{Ring, Seg-frame, has-last, last, Ring-rotate}

abbrev pub first : Node → List Node → Node
first root [] = root
first root (x ∷ xs) = x

abbrev pub is_nil : List Node → Bool
is_nil [] = true
is_nil (x ∷ xs) = false

remove_from_list_first :
    {h : Heap} (t x : Node) (xs : List Node)
    → Ring h t (x ∷ xs)
    → Ring (remove_from_list t h) x xs × Ring (remove_from_list t h) t []
unfolding remove_from_list
remove_from_list_first {h} t x xs r = (
  record {
    seg =
        Seg-frame h (remove_from_list t h) x xs r.distinct.1
          (λ q i ne. ground (arith, r.distinct, r.previous_first))
          (λ q i. ground (arith, r.distinct, r.seg, r.previous_first)) r.seg.2;
    next_last = ground (arith, r.distinct, r.seg, r.previous_first, has-last x xs);
    previous_first = ground (arith, r.distinct, r.seg, r.previous_first, has-last x xs);
    distinct = r.distinct.1;
  },
  record {
    seg = tt;
    next_last = ground arith;
    previous_first = ground arith;
    distinct = (refl, tt);
  },
)

-- remove_from_list on a node of a larger ring leaves two rings: the others in their order, and
-- the node alone.
pub remove_from_list_lem :
    {h : Heap} (r : Node) (xs : List Node) (t : Node) (ys : List Node)
    → Ring h r (xs ++ (t ∷ ys))
    → Ring (remove_from_list t h) r (xs ++ ys) × Ring (remove_from_list t h) t []
remove_from_list_lem {h} r xs t [] ring =
    let (others, alone) = remove_from_list_first t r xs (Ring-rotate h r xs t [] ring) in
    (rw (append-nil xs) others, alone)
remove_from_list_lem {h} r xs t (y ∷ ys) ring =
    let g = remove_from_list t h in
    let (others, alone) =
      remove_from_list_first t y (ys ++ (r ∷ xs)) (Ring-rotate h r xs t (y ∷ ys) ring) in
    (Ring-rotate g y ys r xs others, alone)

-- The same call on the root of a list cuts the whole list off: its nodes keep their ring.
pub remove_root :
    {h : Heap} (r x : Node) (xs : List Node)
    → Ring h r (x ∷ xs)
    → Ring (remove_from_list r h) x xs × Ring (remove_from_list r h) r []
remove_root r x xs ring = remove_from_list_first r x xs ring

-- `head` of a list is its first node, and the root of an empty one, which is what `empty` tests.
pub head-empty :
    {h : Heap} (root : Node) (xs : List Node)
    → Ring h root xs
    → (head root h ≡ first root xs) × (empty root h ≡ is_nil xs) × (tail root h ≡ last root xs)
unfolding tail empty head
head-empty root [] r = (r.next_last, ground (arith, r.next_last), r.previous_first)
head-empty root (x ∷ xs) r = (r.seg.0, ground (arith, r.seg, r.distinct), r.previous_first)
