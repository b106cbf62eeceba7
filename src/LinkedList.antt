-- ===== src/LinkedList.antt =====
-- src/common/linked_list.h: the intrusive circular list of `LinkNode`s. Nodes are addresses, and
-- the two pointers of every node are the two functions of a heap. Each assignment of the source is
-- one write, in the source's order, so aliasing nodes are treated as the source treats them.
pub mod Ring
pub mod Splice
pub mod Detach
mod Tests
use contention_prof.Base.{ℕ, Bool, ◌==◌, if◌then◌else◌}

abbrev pub Node : Type 0
Node = ℕ

-- `next_` and `previous_` of each node
pub record Heap : Type 0 where
  pub next : Node → Node
  pub previous : Node → Node

abbrev pub update : (Node → Node) → Node → Node → Node → Node
update f p v q = if p == q then v else f q

-- `p->next_ = v`
abbrev pub set_next : Node → Node → Heap → Heap
set_next p v h = record h { next = update h.next p v }

-- `p->previous_ = v`
abbrev pub set_previous : Node → Node → Heap → Heap
set_previous p v h = record h { previous = update h.previous p v }

-- `LinkNode()`: a node linked to itself
unfoldable pub make_node : Node → Heap → Heap
make_node this h = set_next this this (set_previous this this h)

-- `LinkNode(previous, next)`
unfoldable pub make_linked : Node → Node → Node → Heap → Heap
make_linked this previous next h = set_next this next (set_previous this previous h)

unfoldable pub insert_before : Node → Node → Heap → Heap
insert_before this e h =
    let h₁ = set_next this e h in
    let h₂ = set_previous this (h₁.previous e) h₁ in
    let h₃ = set_next (h₂.previous e) this h₂ in set_previous e this h₃

unfoldable pub insert_before_as_list : Node → Node → Heap → Heap
insert_before_as_list this e h =
    let prev = h.previous this in
    let h₁ = set_next prev e h in
    let h₂ = set_previous this (h₁.previous e) h₁ in
    let h₃ = set_next (h₂.previous e) this h₂ in set_previous e prev h₃

unfoldable pub insert_after : Node → Node → Heap → Heap
insert_after this e h =
    let h₁ = set_next this (h.next e) h in
    let h₂ = set_previous this e h₁ in
    let h₃ = set_previous (h₂.next e) this h₂ in set_next e this h₃

unfoldable pub insert_after_as_list : Node → Node → Heap → Heap
insert_after_as_list this e h =
    let prev = h.previous this in
    let h₁ = set_next prev (h.next e) h in
    let h₂ = set_previous this e h₁ in
    let h₃ = set_previous (h₂.next e) prev h₂ in set_next e this h₃

unfoldable pub remove_from_list : Node → Heap → Heap
remove_from_list this h =
    let h₁ = set_next (h.previous this) (h.next this) h in
    let h₂ = set_previous (h₁.next this) (h₁.previous this) h₁ in
    let h₃ = set_next this this h₂ in set_previous this this h₃

-- `LinkedList`: its state is the node `root_`.
unfoldable pub append : Node → Node → Heap → Heap
unfolding insert_before
append root e = insert_before e root

unfoldable pub head : Node → Heap → Node
head root h = h.next root

unfoldable pub tail : Node → Heap → Node
tail root h = h.previous root

unfoldable pub empty : Node → Heap → Bool
unfolding head
empty root h = head root h == root
