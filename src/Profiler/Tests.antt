-- ===== src/Profiler/Tests.antt =====
-- Two samples, and the file they leave.
use contention_prof.Base.{ℕ, ◌+◌, ◌≡◌, ◌≤◌, refl, true, false, List, [], ◌∷◌, length}
use contention_prof.Profiler.{
  SampledContention, new_profiler, dump_all, destroy_profiler, max_cached_contentions,
  dump_and_destroy, flush_to_disk, is_cached, init_if_needed, line_of,
}
use contention_prof.Profiler.Cache.{dump_all-destroy}
use contention_prof.Profiler.Lifecycle.{Event, no_profiler, stop, react_all, react_all-stop}

abbrev plus : ℕ → ℕ → ℕ
plus a b = a + b

abbrev ident : ℕ → ℕ
ident n = n

abbrev sample : ℕ → ℕ → SampledContention ℕ
sample address duration = record {
  address = address;
  duration_ns = duration;
  count = 4;
  stack = 11 ∷ 12 ∷ 13 ∷ 14 ∷ [];
}

-- the two innermost frames are left out
two_lines :
    (destroy_profiler plus ident
      (dump_all plus ident (sample 1 100 ∷ sample 2 200 ∷ []) (new_profiler plus ident))).written
    ≡ record { duration = 200; weight = 4; frames = 13 ∷ 14 ∷ [] }
      ∷ record { duration = 100; weight = 4; frames = 13 ∷ 14 ∷ [] }
      ∷ []
unfolding destroy_profiler dump_and_destroy flush_to_disk is_cached init_if_needed line_of
two_lines = refl

dump_all-destroy_example :
    let p = dump_all plus ident (sample 1 100 ∷ sample 2 200 ∷ []) (new_profiler plus ident) in
    let q = destroy_profiler plus ident p in
    (length p.hash_set ≤ max_cached_contentions)
    × (length p.destroyed + length p.hash_set ≡ 2)
    × (length p.written ≤ length p.destroyed)
    × (length q.destroyed ≡ 2)
    × (q.hash_set ≡ [])
dump_all-destroy_example = dump_all-destroy plus ident (sample 1 100) (sample 2 200 ∷ [])

-- A sample comes before the start, one in time, and one finds that the profiler was just stopped.
abbrev a_session : List (Event ℕ)
a_session =
    Event.comes false (sample 1 100)
    ∷ Event.starts
    ∷ Event.comes true (sample 2 200)
    ∷ Event.stops true
    ∷ Event.comes true (sample 3 300)
    ∷ Event.starts
    ∷ Event.comes true (sample 4 400)
    ∷ []

react_all-stop_example :
    length (stop plus ident true (react_all plus ident a_session no_profiler)).returned ≡ 4
react_all-stop_example = react_all-stop plus ident a_session
