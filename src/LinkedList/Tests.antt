-- ===== src/LinkedList/Tests.antt =====
-- The theorems of the circular list at concrete heaps.
use contention_prof.Base.{◌≡◌, refl, [], ◌∷◌, false, ◌==◌, if◌then◌else◌}
use contention_prof.LinkedList.{
  Heap, insert_before, insert_before_as_list, insert_after, insert_after_as_list, remove_from_list,
  head, tail, empty,
}
use contention_prof.LinkedList.Ring.{Ring}
use contention_prof.LinkedList.Splice.{
  insert_before_lem, insert_before_as_list_lem, insert_after_lem, insert_after_as_list_lem,
}
use contention_prof.LinkedList.Detach.{remove_from_list_lem, remove_root, head-empty}

-- Every node is alone.
abbrev apart : Heap
apart = record { next = λ p. p; previous = λ p. p }

-- 1, 2, 3 in a ring and 7, 8 in another
abbrev two_rings : Heap
two_rings = record {
  next = λ p.
      if p == 1
      then 2
      else if p == 2
      then 3
      else if p == 3
      then 1
      else if p == 7
      then 8
      else if p == 8
      then 7
      else p;
  previous = λ p.
      if p == 1
      then 3
      else if p == 2
      then 1
      else if p == 3
      then 2
      else if p == 7
      then 8
      else if p == 8
      then 7
      else p;
}

one_two_three : Ring two_rings 1 (2 ∷ 3 ∷ [])
one_two_three = record {
  seg = (refl, refl, (refl, refl, tt));
  next_last = refl;
  previous_first = refl;
  distinct = (refl, (refl, (refl, tt)));
}

seven_eight : Ring two_rings 7 (8 ∷ [])
seven_eight = record {
  seg = (refl, refl, tt);
  next_last = refl;
  previous_first = refl;
  distinct = (refl, (refl, tt));
}

insert_before_lem_example : Ring (insert_before 9 1 two_rings) 1 (2 ∷ 3 ∷ 9 ∷ [])
insert_before_lem_example = insert_before_lem 1 (2 ∷ 3 ∷ []) 9 one_two_three refl

insert_before_as_list_lem_example :
    Ring (insert_before_as_list 7 1 two_rings) 1 (2 ∷ 3 ∷ 7 ∷ 8 ∷ [])
insert_before_as_list_lem_example =
    insert_before_as_list_lem 1 (2 ∷ 3 ∷ []) 7 (8 ∷ []) one_two_three seven_eight
      (refl, (refl, (refl, tt)))

insert_after_lem_example : Ring (insert_after 9 1 two_rings) 1 (9 ∷ 2 ∷ 3 ∷ [])
insert_after_lem_example = insert_after_lem 1 (2 ∷ 3 ∷ []) 9 one_two_three refl

insert_after_as_list_lem_example : Ring (insert_after_as_list 7 1 two_rings) 1 (7 ∷ 8 ∷ 2 ∷ 3 ∷ [])
insert_after_as_list_lem_example =
    insert_after_as_list_lem 1 (2 ∷ 3 ∷ []) 7 (8 ∷ []) one_two_three seven_eight
      (refl, (refl, (refl, tt)))

remove_from_list_lem_example :
    Ring (remove_from_list 2 two_rings) 1 (3 ∷ []) × Ring (remove_from_list 2 two_rings) 2 []
remove_from_list_lem_example = remove_from_list_lem 1 [] 2 (3 ∷ []) one_two_three

remove_root_example :
    Ring (remove_from_list 1 two_rings) 2 (3 ∷ []) × Ring (remove_from_list 1 two_rings) 1 []
remove_root_example = remove_root 1 2 (3 ∷ []) one_two_three

head-empty_example : (head 7 two_rings ≡ 8) × (empty 7 two_rings ≡ false) × (tail 7 two_rings ≡ 8)
head-empty_example = head-empty 7 (8 ∷ []) seven_eight
