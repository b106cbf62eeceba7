-- ===== src/ThreadExit/Tests.antt =====
-- Two functions registered in turn.
use contention_prof.Base.{ℕ, ◌≡◌, refl, true, [], ◌∷◌, some}
use contention_prof.ThreadExit.{
  Pair, add, remove, skip_run, run_all, thread_atexit, thread_atexit_cancel,
}
use contention_prof.ThreadExit.Order.{thread_atexit_lem}

abbrev pair : ℕ → ℕ → Pair
pair fn arg = record { fn = fn; arg = arg }

last_first : run_all (add 8 2 (add 7 1 [])) ≡ pair 8 2 ∷ pair 7 1 ∷ []
unfolding run_all add
last_first = refl

-- only the first run of equal pairs goes
first_run :
    remove 7 1 (pair 8 2 ∷ pair 7 1 ∷ pair 7 1 ∷ pair 8 2 ∷ pair 7 1 ∷ [])
    ≡ pair 8 2 ∷ pair 8 2 ∷ pair 7 1 ∷ []
unfolding remove skip_run
first_run = refl

thread_atexit_lem_example :
    let fns = pair 7 1 ∷ [] in
    let (done, h) = thread_atexit 8 2 (some fns) in
    (done ≡ true)
    × (h ≡ some (add 8 2 fns))
    × (run_all (add 8 2 fns) ≡ pair 8 2 ∷ run_all fns)
    × (thread_atexit_cancel 8 2 h ≡ some fns)
thread_atexit_lem_example = thread_atexit_lem 8 2 (pair 7 1 ∷ []) refl refl
