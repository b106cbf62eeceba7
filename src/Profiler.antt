-- ===== src/Profiler.antt =====
-- src/profiler.cpp: the samples that wait to be written, and the start and the stop.
-- The set of samples holds pointers, compared as such; its order is that of the list. The weight
-- `count`, a `double`, is of a type of its own; its addition and `ceil` are arguments.
use contention_prof.Base.{
  ℕ, zero, suc, ◌+◌, ◌-◌, ◌%◌, ◌^◌, ◌==◌, Bool, true, false, not, List, [], ◌∷◌, ◌++◌, ltb,
  if◌then◌else◌, length, u64, drop, take, map,
}
pub mod Cache
pub mod Lifecycle
mod Tests

abbrev pub max_cached_contentions : ℕ
max_cached_contentions = 512

abbrev pub skipped_stack_frames : ℕ
skipped_stack_frames = 2

-- `SampledContention`, with its address; `stack` holds `frames_count` frames
pub record SampledContention {ℓ} (C : Type ℓ) : Type ℓ where
  pub address : ℕ
  pub duration_ns : ℕ
  pub count : C
  pub stack : List ℕ

-- a line of the file
pub record Line : Type 0 where
  pub duration : ℕ
  pub weight : ℕ
  pub frames : List ℕ

-- `ContentionProfiler`: `init_`, `hash_set`, and what it has written and destroyed, in order
pub record ContentionProfiler {ℓ} (C : Type ℓ) : Type ℓ where
  pub init : Bool
  pub hash_set : List (SampledContention C)
  pub written : List Line
  pub destroyed : List ℕ
  pub maps_written : ℕ

module _ {ℓ} {C : Type ℓ} (add : C → C → C) (ceil : C → ℕ) where
  -- the constructor
  abbrev pub new_profiler : ContentionProfiler C
  new_profiler = record {
    init = false;
    hash_set = [];
    written = [];
    destroyed = [];
    maps_written = 0;
  }

  -- `init_if_needed`, when the file can be opened
  unfoldable pub init_if_needed : ContentionProfiler C → ContentionProfiler C
  init_if_needed p = if p.init then p else record p { init = true }

  -- `hash_set.find(c) != hash_set.end()`
  unfoldable pub is_cached : ℕ → List (SampledContention C) → Bool
  is_cached address [] = false
  is_cached address (c ∷ l) = if c.address == address then true else is_cached address l

  -- `(*iter)->duration_ns += c->duration_ns` and the same for `count`
  unfoldable pub merge_in :
      SampledContention C → List (SampledContention C) → List (SampledContention C)
  merge_in c [] = []
  merge_in c (d ∷ l) =
      let rest = merge_in c l in
      if d.address == c.address
      then record d {
        duration_ns = u64 (d.duration_ns + c.duration_ns);
        count = add d.count c.count;
      }
        ∷ l
      else d ∷ rest

  -- what the loop of `flush_to_disk` writes for a sample
  unfoldable pub line_of : SampledContention C → Line
  line_of c = record {
    duration = c.duration_ns;
    weight = ceil c.count;
    frames = drop skipped_stack_frames c.stack;
  }

  unfoldable pub flush_to_disk : Bool → ContentionProfiler C → ContentionProfiler C
  unfolding line_of
  flush_to_disk ending p = record p {
    written = p.written ++ map line_of p.hash_set;
    destroyed = p.destroyed ++ map (λ (c : SampledContention C). c.address) p.hash_set;
    hash_set = [];
    maps_written = if ending then p.maps_written + 1 else p.maps_written;
  }

  unfoldable pub dump_and_destroy :
      SampledContention C → ContentionProfiler C → ContentionProfiler C
  unfolding init_if_needed is_cached merge_in flush_to_disk
  dump_and_destroy c p₀ =
      let p = init_if_needed p₀ in
      let q : ContentionProfiler C =
        if is_cached c.address p.hash_set
        then record p {
          hash_set = merge_in c p.hash_set;
          destroyed = p.destroyed ++ (c.address ∷ []);
        }
        else record p { hash_set = c ∷ p.hash_set } in
      let flushed = flush_to_disk false q in
      if ltb max_cached_contentions (length q.hash_set) then flushed else q

  -- the destructor, up to closing the file
  unfoldable pub destroy_profiler : ContentionProfiler C → ContentionProfiler C
  unfolding flush_to_disk
  destroy_profiler p = if not p.init then p else flush_to_disk true p

  abbrev pub dump_all : List (SampledContention C) → ContentionProfiler C → ContentionProfiler C
  dump_all [] p = p
  dump_all (c ∷ l) p = dump_all l (dump_and_destroy c p)

-- `g_cp` (whether it is set) and `g_cp_version`
pub record ProfilerState : Type 0 where
  pub running : Bool
  pub version : ℕ

-- `contention_profiler_start` for a file name, which may be null: whether it started
unfoldable pub contention_profiler_start : (has_name : Bool) → ProfilerState → Bool × ProfilerState
contention_profiler_start false s = (false, s)
contention_profiler_start true s =
    if s.running
    then (false, s)
    else (true, record { running = true; version = u64 (s.version + 1) })

-- `contention_profiler_stop`: whether a profiler was deleted
unfoldable pub contention_profiler_stop : ProfilerState → Bool × ProfilerState
contention_profiler_stop s = if s.running then (true, record s { running = false }) else (false, s)
