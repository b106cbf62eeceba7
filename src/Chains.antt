-- ===== src/Chains.antt =====
-- src/collector.cpp and src/common/sampler.cpp: what the threads do with chains of linked samples,
-- on the links themselves. A null pointer is none.
use contention_prof.Base.{
  ℕ, zero, suc, Bool, true, false, not, List, [], ◌∷◌, ◌++◌, Option, none, some, Outcome, ok, spin,
  ◌==◌, if◌then◌else◌,
}
use contention_prof.LinkedList.{
  Node, Heap, make_node, insert_before, insert_before_as_list, remove_from_list, head,
}
pub mod Frame
pub mod Moves
pub mod Loops
mod Tests

-- `CombineCollected` and `CombineSampler`: s1 and the links behind it
unfoldable pub combine : Option Node → Option Node → Heap → Option Node × Heap
unfolding insert_before_as_list
combine s1 none h = (s1, h)
combine none (some s2) h = (some s2, h)
combine (some s1) (some s2) h = (some s1, insert_before_as_list s1 s2 h)

-- A new root is put before the chain of `s`.
unfoldable pub adopt : (root s : Node) → Heap → Heap
unfolding make_node insert_before_as_list
adopt root s h = insert_before_as_list s root (make_node root h)

-- The list of one root goes behind that of another.
unfoldable pub move_list : (root to : Node) → Heap → Heap
unfolding remove_from_list insert_before_as_list head
move_list root to h = insert_before_as_list (head root h) to (remove_from_list root h)

-- The loop over the list of `root` from `p` on, which takes out the nodes that `removes` names:
-- the nodes in the order of the visits, and the links behind it. It runs at most `fuel` times.
unfoldable pub walk :
    (removes : Node → Bool) (root : Node) (fuel : ℕ) (p : Node)
    → List Node
    → Heap
    → Outcome (List Node × Heap)
walk removes root zero p visited h = spin
walk removes root (suc fuel) p visited h =
    let rest =
      walk removes root fuel (h.next p) (visited ++ (p ∷ []))
        (if removes p then remove_from_list p h else h) in
    if p == root then ok (visited, h) else rest

-- The loop of `dump_thread` over its list, whose test finds `stop_` false `goes` times at most:
-- the samples that it dumped, and the links behind it.
unfoldable pub dump_loop : (root : Node) (goes : ℕ) (p : Node) → List Node → Heap → List Node × Heap
dump_loop root zero p dumped h = (dumped, h)
dump_loop root (suc goes) p dumped h =
    let rest = dump_loop root goes (h.next p) (dumped ++ (p ∷ [])) (remove_from_list p h) in
    if p == root then (dumped, h) else rest

-- What `grab_thread` does with the chain that the reducer gives: every sample is taken out of the
-- list of `tmp_root`, and given to its preprocessor.
unfoldable pub take_all :
    (tmp_root : Node) (fuel : ℕ) (chain : Option Node) → Heap → Outcome (List Node × Heap)
unfolding adopt walk
take_all tmp_root fuel none h = ok ([], h)
take_all tmp_root fuel (some s) h =
    let g = adopt tmp_root s h in walk (λ p. true) tmp_root fuel (g.next tmp_root) [] g

-- A round of `SamplerCollector::run` over its list and the chain of new samplers: the samplers that
-- it visits. One that is not `used` is deleted, and the others take a sample.
unfoldable pub sampler_round :
    (used : Node → Bool) (root : Node) (fuel : ℕ) (chain : Option Node)
    → Heap
    → Outcome (List Node × Heap)
unfolding insert_before_as_list walk
sampler_round used root fuel chain h =
    let g : Heap = elim chain [ none ↦ h | some s ↦ insert_before_as_list s root h ] in
    walk (λ p. not (used p)) root fuel (g.next root) [] g
