-- ===== src/Chains/Loops.antt =====
-- The loops over a list that take samples out of it.
use mathlib.Core.Path.{subst}
use mathlib.Core.List.{append-nil, append_assoc}
use contention_prof.Base.{
  ℕ, zero, suc, ◌<◌, ◌≡◌, refl, sym, ◌∙◌, ap, List, [], ◌∷◌, ◌++◌, Bool, true, false, not, Option,
  none, some, ok, arith, ◌==◌, if◌then◌else◌, length, take, drop, inl, inr, Bool-cases,
}
use contention_prof.LinkedList.{Node, Heap, remove_from_list, insert_before_as_list}
use contention_prof.LinkedList.Ring.{Ring, Disjoint, has, has-append, Ring-rotate}
use contention_prof.LinkedList.Splice.{insert_before_as_list_lem}
use contention_prof.LinkedList.Detach.{remove_from_list_lem, first}
use contention_prof.Chains.{walk, dump_loop, adopt, take_all, sampler_round}
use contention_prof.Chains.Moves.{Chain, adopt-Ring}

-- the nodes that stay
abbrev pub kept : (Node → Bool) → List Node → List Node
kept removes [] = []
kept removes (p ∷ l) = if removes p then kept removes l else p ∷ kept removes l

-- In a ring the node `t` behind `front` is not the root, and the next one follows.
Ring-at :
    (h : Heap) (root : Node) (front : List Node) (t : Node) (l : List Node)
    → Ring h root (front ++ (t ∷ l))
    → ((t == root) ≡ false) × (h.next t ≡ first root l)
Ring-at h root front t [] ring =
    let turned = Ring-rotate h root front t [] ring in
    (ground (arith, turned.distinct), turned.seg.0)
Ring-at h root front t (y ∷ l) ring =
    let turned = Ring-rotate h root front t (y ∷ l) ring in
    (ground (arith, turned.distinct, has-append t (y ∷ l) (root ∷ front)), turned.seg.0)

pub walk-Ring :
    (removes : Node → Bool) (root : Node) (fuel : ℕ) (front l visited : List Node) (h : Heap)
    → Ring h root (front ++ l)
    → length l < fuel
    → (g : Heap) × (walk removes root fuel (first root l) visited h ≡ ok (visited ++ l, g))
      × Ring g root (front ++ kept removes l)
unfolding walk
walk-Ring removes root zero front l visited h ring enough = absurd (omega arith)
walk-Ring removes root (suc fuel) front [] visited h ring enough =
    let over : (root == root) ≡ true = ground arith in (h, rw (over, append-nil visited) refl, ring)
walk-Ring removes root (suc fuel) front (t ∷ l) visited h ring enough =
    let (inside, next) = Ring-at h root front t l ring in
    elim (Bool-cases (removes t)) [
      | inl out ↦
          let (others, _) = remove_from_list_lem root front t l ring in
          let (g, e, r) =
            walk-Ring removes root fuel front l (visited ++ (t ∷ [])) (remove_from_list t h) others
              (omega arith) in
          (
            g,
            rw (inside, out)
                (ap (λ q. walk removes root fuel q (visited ++ (t ∷ [])) (remove_from_list t h))
                    next
                  ∙ e
                  ∙ ap (λ v. ok (v, g)) (append_assoc visited (t ∷ []) l)),
            rw out r,
          )
      | inr stays ↦
          let moved = subst (Ring h root) (sym (append_assoc front (t ∷ []) l)) ring in
          let (g, e, r) =
            walk-Ring removes root fuel (front ++ (t ∷ [])) l (visited ++ (t ∷ [])) h moved
              (omega arith) in
          (
            g,
            rw (inside, stays)
                (ap (λ q. walk removes root fuel q (visited ++ (t ∷ [])) h) next
                  ∙ e
                  ∙ ap (λ v. ok (v, g)) (append_assoc visited (t ∷ []) l)),
            rw stays (subst (Ring g root) (append_assoc front (t ∷ []) (kept removes l)) r),
          )
    ]

-- The dump loop over a list dumps as many of its samples, from the first on, as it finds stop_
-- false, and leaves the others in the list.
pub dump_loop-Ring :
    (root : Node) (goes : ℕ) (l dumped : List Node) (h : Heap)
    → Ring h root l
    → let (out, g) = dump_loop root goes (first root l) dumped h in
      (out ≡ dumped ++ take goes l) × Ring g root (drop goes l)
unfolding dump_loop
dump_loop-Ring root zero l dumped h ring = (sym (append-nil dumped), ring)
dump_loop-Ring root (suc goes) [] dumped h ring =
    let over : (root == root) ≡ true = ground arith in
    (rw over (sym (append-nil dumped)), rw over ring)
dump_loop-Ring root (suc goes) (t ∷ l) dumped h ring =
    let (inside, next) = Ring-at h root [] t l ring in
    let (others, _) = remove_from_list_lem root [] t l ring in
    let g = remove_from_list t h in
    let (e, r) = dump_loop-Ring root goes l (dumped ++ (t ∷ [])) g others in
    let go : Node → List Node × Heap = λ q. dump_loop root goes q (dumped ++ (t ∷ [])) g in
    (
      rw inside (ap (λ q. (go q).0) next ∙ e ∙ append_assoc dumped (t ∷ []) (take goes l)),
      rw inside (subst (λ q. Ring (go q).1 root (drop goes l)) (sym next) r),
    )

kept-all : (l : List Node) → kept (λ p. true) l ≡ []
kept-all [] = refl
kept-all (t ∷ l) = kept-all l

first-next : (h : Heap) (root : Node) (l : List Node) → Ring h root l → h.next root ≡ first root l
first-next h root [] ring = ring.next_last
first-next h root (x ∷ l) ring = ring.seg.0

walk-all :
    (removes : Node → Bool) (root : Node) (fuel : ℕ) (l : List Node) (h : Heap)
    → Ring h root l
    → length l < fuel
    → (g : Heap) × (walk removes root fuel (h.next root) [] h ≡ ok (l, g))
      × Ring g root (kept removes l)
walk-all removes root fuel l h ring enough =
    let (g, e, r) = walk-Ring removes root fuel [] l [] h ring enough in
    (g, ap (λ q. walk removes root fuel q [] h) (first-next h root l ring) ∙ e, r)

-- From a chain of samples, none of them the new root, grab_thread gets them all, each once and
-- in the order of the chain, and no sample stays in the list of the root. One round more of the
-- loop than there are samples is enough.
pub take_all-Chain :
    (h : Heap) (tmp_root s : Node) (fuel : ℕ) (l : List Node)
    → Chain h (some s) l
    → has tmp_root l ≡ false
    → length l < fuel
    → (g : Heap) × (take_all tmp_root fuel (some s) h ≡ ok (l, g)) × Ring g tmp_root []
unfolding take_all
take_all-Chain h tmp_root s fuel [] c out enough = absurd c
take_all-Chain h tmp_root s fuel (x ∷ l) c out enough =
    let g₀ = adopt tmp_root s h in
    let ring = adopt-Ring h tmp_root s x l c out in
    let (g, e, r) = walk-all (λ p. true) tmp_root fuel (x ∷ l) g₀ ring enough in
    (g, e, subst (Ring g tmp_root) (kept-all l) r)

-- Over the samplers of the list and a chain of other ones, a round of the sampler thread visits
-- each of them once, first those of the list, and exactly the used ones are in the list after
-- it. One round more of the loop than there are samplers is enough.
pub sampler_round-Ring :
    (h : Heap) (used : Node → Bool) (root : Node) (fuel : ℕ) (chain : Option Node)
    (olds news : List Node)
    → Ring h root olds
    → Chain h chain news
    → Disjoint (root ∷ olds) news
    → length (olds ++ news) < fuel
    → (g : Heap) × (sampler_round used root fuel chain h ≡ ok (olds ++ news, g))
      × Ring g root (kept (λ p. not (used p)) (olds ++ news))
unfolding sampler_round
sampler_round-Ring h used root fuel none olds [] ring c apart enough =
    walk-all (λ p. not (used p)) root fuel (olds ++ []) h
      (subst (Ring h root) (sym (append-nil olds)) ring) enough
sampler_round-Ring h used root fuel none olds (x ∷ l) ring c apart enough = absurd c
sampler_round-Ring h used root fuel (some s) olds [] ring c apart enough = absurd c
sampler_round-Ring h used root fuel (some s) olds (x ∷ l) ring (e, r) apart enough =
    let joined = insert_before_as_list_lem root olds x l ring r apart in
    let g = insert_before_as_list s root h in
    let all : Ring g root (olds ++ (x ∷ l)) =
      subst (λ a. Ring (insert_before_as_list a root h) root (olds ++ (x ∷ l))) (sym e) joined in
    walk-all (λ p. not (used p)) root fuel (olds ++ (x ∷ l)) g all enough
