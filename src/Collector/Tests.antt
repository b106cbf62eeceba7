-- ===== src/Collector/Tests.antt =====
-- The collector at concrete samples.
use contention_prof.Base.{ℕ, ◌≤◌, ◌≡◌, refl, true, false, List, [], ◌∷◌, ◌++◌, length}
use contention_prof.Collector.{
  Collected, State, initial, submit, grab_one, grab_round, classify, Reach,
}
use contention_prof.Collector.Ordered.{at, clear_lists}
use contention_prof.Collector.Classify.{IsOrdered, classify_lem}
use contention_prof.Collector.Pending.{Accounts, Reach-Accounts, pending}
use contention_prof.Collector.Order.{Merge, Reach-Merge, admitted}
use contention_prof.Collector.Rounds.{grab_round_lem, batches}

abbrev sample : ℕ → ℕ → Collected
sample address preprocessor = record {
  address = address;
  preprocessor = preprocessor;
  speed_limit = 100;
}

-- two samples are admitted when at most 3 may be pending, the third is destroyed
abbrev three : List Collected
three = sample 1 0 ∷ sample 2 0 ∷ sample 3 0 ∷ []

abbrev after_three : State
after_three =
    grab_one 99 3 (sample 3 0) (grab_one 99 3 (sample 2 0) (grab_one 99 3 (sample 1 0) initial))

three-Reach : Reach 99 3 three after_three
three-Reach =
    Reach.grabs (sample 3 0) (Reach.grabs (sample 2 0) (Reach.grabs (sample 1 0) Reach.start))

third_destroyed : after_three.destroyed ≡ sample 3 0 ∷ []
unfolding grab_one
third_destroyed = refl

in_time : submit 1_199_999 1_000_000 ≡ true
unfolding submit
in_time = refl

too_late : submit 1_200_000 1_000_000 ≡ false
unfolding submit
too_late = refl

Reach-Accounts_example : Accounts 3 three after_three
Reach-Accounts_example = Reach-Accounts 99 3 three-Reach

Reach-Merge_example : Merge after_three.destroyed (admitted after_three) three
Reach-Merge_example = Reach-Merge 99 3 three-Reach

classify_lem_example :
    IsOrdered (classify (sample 1 7 ∷ sample 2 0 ∷ sample 3 7 ∷ []) [])
    × (at 7 [] (classify (sample 1 7 ∷ sample 2 0 ∷ sample 3 7 ∷ []) [])
        ≡ at 7 [] [] ++ (sample 1 7 ∷ sample 3 7 ∷ []))
classify_lem_example = classify_lem 7 (sample 1 7 ∷ sample 2 0 ∷ sample 3 7 ∷ []) [] tt

grab_round_lem_example :
    let t = (grab_round 99 3 (λ k l. l) (sample 1 7 ∷ sample 2 0 ∷ []) ([], initial)).1 in
    Merge t.destroyed (admitted t) (batches (λ k l. l) (classify (sample 1 7 ∷ sample 2 0 ∷ []) []))
    × (length (pending t) ≤ 2)
    × (t.root ≡ [])
unfolding clear_lists
grab_round_lem_example =
    grab_round_lem 99 3 (λ k l. l) (sample 1 7) (sample 2 0 ∷ []) [] [] initial Reach.start
