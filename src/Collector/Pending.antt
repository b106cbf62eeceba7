-- ===== src/Collector/Pending.antt =====
-- The samples that are grabbed, dumped and dropped, over the steps of both threads.
use contention_prof.Base.{
  ℕ, suc, ◌+◌, ◌-◌, ◌≤◌, ◌≡◌, refl, ap, arith, List, [], ◌∷◌, ◌++◌, length, length-append,
}
use contention_prof.Collector.{
  Collected, State, grab_one, hand_over, take_chain, dump_one, dump_first, Reach,
}

-- samples that were admitted and not yet dumped
abbrev pub pending : State → List Collected
pending s = s.dumping ++ (s.dump_root ++ s.root)

pub record Accounts (max_pending_samples : ℕ) (ps : List Collected) (s : State) : Type 0 where
  pub grabbed : s.grab_count ≡ length ps
  pub dropped : s.drop_count ≡ length s.destroyed
  pub dumped : s.dump_count ≡ length s.dumped
  pub balance :
      s.grab_count
      ≡ s.drop_count + s.dump_count + (length s.dumping + (length s.dump_root + length s.root))
  pub bounded : length s.dumping + (length s.dump_root + length s.root) ≤ max_pending_samples - 1

module _ (null_speed_limit max_pending_samples : ℕ) where
  grab_one-Accounts :
      {ps : List Collected} {s : State} (p : Collected)
      → Accounts max_pending_samples ps s
      → Accounts max_pending_samples
          (ps ++ (p ∷ []))
          (grab_one null_speed_limit max_pending_samples p s)
  unfolding grab_one
  grab_one-Accounts {ps} {s} p v = ground (
    arith,
    length-append ps (p ∷ []),
    length-append s.destroyed (p ∷ []),
    length-append s.root (p ∷ []),
  )

  hand_over-Accounts :
      {ps : List Collected} {s : State}
      → Accounts max_pending_samples ps s
      → Accounts max_pending_samples ps (hand_over s)
  unfolding hand_over
  hand_over-Accounts {s} v = ground (arith, length-append s.dump_root s.root)

  take_chain-Accounts :
      {ps : List Collected} {s : State}
      → Accounts max_pending_samples ps s
      → Accounts max_pending_samples ps (take_chain s)
  unfolding take_chain
  take_chain-Accounts {s} v = ground (arith, length-append s.dumping s.dump_root)

  dump_first-Accounts :
      {ps : List Collected} (s : State) (l : List Collected)
      → s.dumping ≡ l
      → Accounts max_pending_samples ps s
      → Accounts max_pending_samples ps (dump_first l s)
  unfolding dump_first
  dump_first-Accounts s [] e v = v
  dump_first-Accounts s (p ∷ r) e v =
      let size : length s.dumping ≡ suc (length r) = ap length e in
      ground (arith, length-append s.dumped (p ∷ []))

  -- In every reachable state of the two threads fewer than max_pending_samples samples wait to
  -- be dumped (none, if it is 0), and the counters count the samples that were grabbed,
  -- destroyed and dumped.
  pub Reach-Accounts :
      {ps : List Collected} {s : State}
      → Reach null_speed_limit max_pending_samples ps s
      → Accounts max_pending_samples ps s
  unfolding dump_one
  Reach-Accounts Reach.start = record {
    grabbed = refl;
    dropped = refl;
    dumped = refl;
    balance = refl;
    bounded = omega arith;
  }
  Reach-Accounts (Reach.grabs p r) = grab_one-Accounts p (Reach-Accounts r)
  Reach-Accounts (Reach.hands_over r) = hand_over-Accounts (Reach-Accounts r)
  Reach-Accounts (Reach.takes r) = take_chain-Accounts (Reach-Accounts r)
  Reach-Accounts (Reach.dumps {s} r) = dump_first-Accounts s s.dumping refl (Reach-Accounts r)
