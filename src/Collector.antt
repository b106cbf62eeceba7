-- ===== src/Collector.antt =====
-- src/collector.cpp: the grab thread, the dump thread and `Collected::submit`. A chain of linked
-- samples is the list of its nodes in order (the operations on the links are those of LinkedList).
-- The counters do not reach 2 ^ 63, so they are numbers.
pub mod Ordered
pub mod Classify
pub mod Pending
pub mod Order
pub mod Rounds
pub mod Limits
pub mod Shutdown
mod Tests
use contention_prof.Base.{
  ℕ, suc, ◌+◌, ◌*◌, ◌<◌, ◌≡◌, ◌≢◌, Bool, true, false, List, [], ◌∷◌, ◌++◌, ltb, leb, ◌==◌,
  if◌then◌else◌, u64,
}
use contention_prof.Collector.Ordered.{Keyed, push_back, increment, clear_lists}

-- A `Collected*`: its address, and what its virtual functions answer (0 is nullptr).
pub record Collected : Type 0 where
  pub address : ℕ
  pub preprocessor : ℕ
  pub speed_limit : ℕ

-- COLLECTOR_GRAB_INTERVAL_US
abbrev pub grab_interval_us : ℕ
grab_interval_us = 100000

-- `Collected::submit`: whether the sample goes into the reducer; if not it is destroyed
unfoldable pub submit : (cpu_time_us last_active_cpuwide_us : ℕ) → Bool
submit cpu_time_us last_active_cpuwide_us =
    ltb cpu_time_us (u64 (last_active_cpuwide_us + grab_interval_us * 2))

-- `prep_map[prep].push_back(p)` for each sample of the chain
unfoldable pub classify : List Collected → Keyed (List Collected) → Keyed (List Collected)
classify [] m = m
classify (p ∷ ps) m = classify ps (push_back p.preprocessor p m)

-- The counters, the chains and the fate of the samples. `root` is the grab thread's own chain,
-- `dump_root` the one that both threads share, `dumping` the dump thread's.
pub record State : Type 0 where
  pub grab_count : ℕ
  pub drop_count : ℕ
  pub dump_count : ℕ
  pub grab_counts : Keyed ℕ
  pub root : List Collected
  pub dump_root : List Collected
  pub dumping : List Collected
  pub destroyed : List Collected
  pub dumped : List Collected

abbrev pub initial : State
initial = record {
  grab_count = 0;
  drop_count = 0;
  dump_count = 0;
  grab_counts = [];
  root = [];
  dump_root = [];
  dumping = [];
  destroyed = [];
  dumped = [];
}

-- The address of `g_null_speed_limit`, which no sample's limit has, is given.
module _ (null_speed_limit max_pending_samples : ℕ) where
  -- the body of the loop over `list[i]`
  unfoldable pub grab_one : Collected → State → State
  grab_one p s =
      let counts =
        increment (if p.speed_limit == 0 then null_speed_limit else p.speed_limit) s.grab_counts in
      let grab_count = s.grab_count + 1 in
      if leb (s.drop_count + s.dump_count + max_pending_samples) grab_count
      then record s {
        grab_count = grab_count;
        drop_count = s.drop_count + 1;
        grab_counts = counts;
        destroyed = s.destroyed ++ (p ∷ []);
      }
      else record s { grab_count = grab_count; grab_counts = counts; root = s.root ++ (p ∷ []) }

  unfoldable pub grab_list : List Collected → State → State
  unfolding grab_one
  grab_list [] s = s
  grab_list (p ∷ ps) s = grab_list ps (grab_one p s)

  -- The loop over `prep_map`; `process` is the preprocessor's virtual function, which may change
  -- the list that it is given.
  unfoldable pub grab_groups :
      (process : ℕ → List Collected → List Collected) → Keyed (List Collected) → State → State
  unfolding grab_list
  grab_groups process [] s = s
  grab_groups process ((prep, []) ∷ groups) s = grab_groups process groups s
  grab_groups process ((prep, p ∷ ps) ∷ groups) s =
      grab_groups process groups (grab_list (if prep == 0 then p ∷ ps else process prep (p ∷ ps)) s)

-- `head2->insert_before_as_list(&dump_root_)`: the grab thread's chain goes to the end of the
-- shared one.
unfoldable pub hand_over : State → State
hand_over s = record s { root = []; dump_root = s.dump_root ++ s.root }

-- One round of the grab thread over the chain that `reset` returned: `prep_map` keeps its keys from
-- the last round, with empty lists.
unfoldable pub grab_round :
    (null_speed_limit max_pending_samples : ℕ) (process : ℕ → List Collected → List Collected)
    → (head : List Collected) → Keyed (List Collected) × State
    → Keyed (List Collected) × State
unfolding classify grab_groups hand_over
grab_round null_speed_limit max_pending_samples process [] (m, s) = (clear_lists m, s)
grab_round null_speed_limit max_pending_samples process (p ∷ ps) (m, s) =
    let groups = classify (p ∷ ps) (clear_lists m) in
    (groups, hand_over (grab_groups null_speed_limit max_pending_samples process groups s))

-- The dump thread takes the whole shared chain, when it is not empty, into its own.
unfoldable pub take_chain : State → State
take_chain s = record s { dump_root = []; dumping = s.dumping ++ s.dump_root }

-- `p->remove_from_list(); s->dump_and_destroy(round); ++dump_count_;` for the first sample `p`
unfoldable pub dump_first : List Collected → State → State
dump_first [] s = s
dump_first (p ∷ ps) s = record s {
  dumping = ps;
  dump_count = s.dump_count + 1;
  dumped = s.dumped ++ (p ∷ []);
}

-- One step of the dump thread's inner loop.
unfoldable pub dump_one : State → State
unfolding dump_first
dump_one s = dump_first s.dumping s

-- The two threads interleave; the grab thread works on its own chain, under no lock.
module _ (null_speed_limit max_pending_samples : ℕ) where
  -- The states that can be reached, with the samples grabbed so far.
  pub data Reach : List Collected → State → Type 0 where
    start : Reach [] initial
    grabs :
        {ps : List Collected} {s : State} (p : Collected)
        → Reach ps s
        → Reach (ps ++ (p ∷ [])) (grab_one null_speed_limit max_pending_samples p s)
    hands_over : {ps : List Collected} {s : State} → Reach ps s → Reach ps (hand_over s)
    takes : {ps : List Collected} {s : State} → Reach ps s → Reach ps (take_chain s)
    dumps : {ps : List Collected} {s : State} → Reach ps s → Reach ps (dump_one s)
