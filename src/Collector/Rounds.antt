-- ===== src/Collector/Rounds.antt =====
-- A whole round of the grab thread, against the steps of the two threads.
use mathlib.Core.Path.{subst}
use mathlib.Core.List.{append-nil, append_assoc}
use contention_prof.Base.{
  ℕ, ◌-◌, ◌≤◌, ◌≡◌, refl, sym, arith, ◌==◌, if◌then◌else◌, List, [], ◌∷◌, ◌++◌, length,
  length-append,
}
use contention_prof.Collector.{
  Collected, State, grab_one, grab_list, grab_groups, hand_over, grab_round, classify, Reach,
}
use contention_prof.Collector.Ordered.{Keyed, clear_lists}
use contention_prof.Collector.Pending.{Reach-Accounts, pending}
use contention_prof.Collector.Order.{Merge, admitted, Reach-Merge}

-- what the grab thread takes from each group, in the order of the map
pub batches : (ℕ → List Collected → List Collected) → Keyed (List Collected) → List Collected
batches process [] = []
batches process ((prep, []) ∷ groups) = batches process groups
batches process ((prep, p ∷ ps) ∷ groups) =
    (if prep == 0 then p ∷ ps else process prep (p ∷ ps)) ++ batches process groups

module _ (null_speed_limit max_pending_samples : ℕ) where
  grab_list-Reach :
      {ps : List Collected} (qs : List Collected) (s : State)
      → Reach null_speed_limit max_pending_samples ps s
      → Reach null_speed_limit max_pending_samples
          (ps ++ qs)
          (grab_list null_speed_limit max_pending_samples qs s)
  unfolding grab_list
  grab_list-Reach {ps} [] s r =
      subst (λ l. Reach null_speed_limit max_pending_samples l s) (sym (append-nil ps)) r
  grab_list-Reach {ps} (q ∷ qs) s r =
      subst
        (λ l. Reach null_speed_limit max_pending_samples l (
          grab_list null_speed_limit max_pending_samples qs
            (grab_one null_speed_limit max_pending_samples q s)))
        (append_assoc ps (q ∷ []) qs)
        (grab_list-Reach qs (grab_one null_speed_limit max_pending_samples q s) (Reach.grabs q r))

  grab_groups-Reach :
      (process : ℕ → List Collected → List Collected) (groups : Keyed (List Collected))
      (ps : List Collected) (s : State)
      → Reach null_speed_limit max_pending_samples ps s
      → Reach null_speed_limit max_pending_samples
          (ps ++ batches process groups)
          (grab_groups null_speed_limit max_pending_samples process groups s)
  unfolding grab_groups batches
  grab_groups-Reach process [] ps s r =
      subst (λ l. Reach null_speed_limit max_pending_samples l s) (sym (append-nil ps)) r
  grab_groups-Reach process ((prep, []) ∷ groups) ps s r = grab_groups-Reach process groups ps s r
  grab_groups-Reach process ((prep, q ∷ qs) ∷ groups) ps s r =
      let batch = if prep == 0 then q ∷ qs else process prep (q ∷ qs) in
      let t = grab_list null_speed_limit max_pending_samples batch s in
      subst
        (λ l.
          Reach null_speed_limit max_pending_samples l
            (grab_groups null_speed_limit max_pending_samples process groups t))
        (append_assoc ps batch (batches process groups))
        (grab_groups-Reach process groups (ps ++ batch) t (grab_list-Reach batch s r))

  grab_round-Reach :
      (process : ℕ → List Collected → List Collected) (p : Collected) (head : List Collected)
      (groups : Keyed (List Collected)) (ps : List Collected) (s : State)
      → Reach null_speed_limit max_pending_samples ps s
      → Reach null_speed_limit max_pending_samples
          (ps ++ batches process (classify (p ∷ head) (clear_lists groups)))
          (grab_round null_speed_limit max_pending_samples process (p ∷ head) (groups, s)).1
  unfolding grab_round
  grab_round-Reach process p head groups ps s r =
      Reach.hands_over (grab_groups-Reach process (classify (p ∷ head) (clear_lists groups)) ps s r)

  -- A round of the grab thread over a chain that is not empty, from any reachable state and with
  -- any preprocessors: the samples grabbed grow by the processed groups in the order of the map,
  -- they stay a merge of the destroyed and the admitted ones, fewer than max_pending_samples
  -- wait (none, if it is 0), and the own chain of the grab thread is empty.
  pub grab_round_lem :
      (process : ℕ → List Collected → List Collected) (p : Collected) (head : List Collected)
      (groups : Keyed (List Collected)) (ps : List Collected) (s : State)
      → Reach null_speed_limit max_pending_samples ps s
      → let t =
          (grab_round null_speed_limit max_pending_samples process (p ∷ head) (groups, s)).1 in
        Merge t.destroyed
          (admitted t)
          (ps ++ batches process (classify (p ∷ head) (clear_lists groups)))
        × (length (pending t) ≤ max_pending_samples - 1)
        × (t.root ≡ [])
  unfolding hand_over grab_round
  grab_round_lem process p head groups ps s r =
      let t = (grab_round null_speed_limit max_pending_samples process (p ∷ head) (groups, s)).1 in
      let r' = grab_round-Reach process p head groups ps s r in
      let v = Reach-Accounts null_speed_limit max_pending_samples r' in
      (
        Reach-Merge null_speed_limit max_pending_samples r',
        omega (
          arith,
          v.bounded,
          length-append t.dump_root t.root,
          length-append t.dumping (t.dump_root ++ t.root),
        ),
        refl,
      )
