-- ===== src/Chains/Tests.antt =====
-- Chains of two samples each.
use contention_prof.Base.{◌≡◌, refl, not, [], ◌∷◌, some, ok, arith, ◌==◌, if◌then◌else◌}
use contention_prof.LinkedList.{Node, Heap}
use contention_prof.LinkedList.Ring.{Ring}
use contention_prof.Chains.{combine, move_list, dump_loop, take_all, sampler_round}
use contention_prof.Chains.Moves.{Chain, combine-Chain, move_list-Ring}
use contention_prof.Chains.Loops.{dump_loop-Ring, take_all-Chain, sampler_round-Ring}

abbrev other : Node → Node
other p = if p == 1 then 2 else if p == 2 then 1 else if p == 5 then 6 else if p == 6 then 5 else p

-- 1 and 2 in a ring, 5 and 6 in another, and every other node alone
abbrev two_pairs : Heap
two_pairs = record { next = other; previous = other }

one_two : Ring two_pairs 1 (2 ∷ [])
one_two = record {
  seg = (refl, refl, tt);
  next_last = refl;
  previous_first = refl;
  distinct = (refl, (refl, tt));
}

five_six : Ring two_pairs 5 (6 ∷ [])
five_six = record {
  seg = (refl, refl, tt);
  next_last = refl;
  previous_first = refl;
  distinct = (refl, (refl, tt));
}

combine-Chain_example :
    let (s, g) = combine (some 1) (some 5) two_pairs in Chain g s (1 ∷ 2 ∷ 5 ∷ 6 ∷ [])
combine-Chain_example =
    combine-Chain two_pairs (some 1) (some 5) (1 ∷ 2 ∷ []) (5 ∷ 6 ∷ []) (refl, one_two)
      (refl, five_six) (refl, (refl, tt))

move_list-Ring_example :
    Ring (move_list 5 1 two_pairs) 1 (2 ∷ 6 ∷ []) × Ring (move_list 5 1 two_pairs) 5 []
move_list-Ring_example =
    move_list-Ring two_pairs 5 1 6 [] (2 ∷ []) five_six one_two (refl, (refl, tt))

dump_loop-Ring_example : let (out, g) = dump_loop 5 1 6 [] two_pairs in (out ≡ 6 ∷ []) × Ring g 5 []
dump_loop-Ring_example = dump_loop-Ring 5 1 (6 ∷ []) [] two_pairs five_six

take_all-Chain_example :
    (g : Heap) × (take_all 9 3 (some 1) two_pairs ≡ ok (1 ∷ 2 ∷ [], g)) × Ring g 9 []
take_all-Chain_example =
    take_all-Chain two_pairs 9 1 3 (1 ∷ 2 ∷ []) (refl, one_two) refl (omega arith)

-- 5 is the root, 6 its sampler, and 1 and 2 are new ones, of which 2 is not used any more.
sampler_round-Ring_example :
    (g : Heap) × (sampler_round (λ p. not (p == 2)) 5 4 (some 1) two_pairs ≡ ok (6 ∷ 1 ∷ 2 ∷ [], g))
    × Ring g 5 (6 ∷ 1 ∷ [])
sampler_round-Ring_example =
    sampler_round-Ring two_pairs (λ p. not (p == 2)) 5 4 (some 1) (6 ∷ []) (1 ∷ 2 ∷ []) five_six
      (refl, one_two) (refl, (refl, tt)) (omega arith)
