-- ===== src/ObjectPool/Locals/Registered.antt =====
-- How often a function is among those that run at the end of a thread.
use contention_prof.Base.{
  arith, ℕ, ◌≡◌, refl, false, List, [], ◌∷◌, ◌++◌, Option, none, some, ◌==◌, if◌then◌else◌,
}
use contention_prof.ThreadExit.{
  Pair, add, skip_run, remove, run_all, thread_atexit, thread_atexit_cancel, helper_exit,
  get_or_new_thread_exit_helper,
}

-- the arguments that a function is registered with
abbrev pub registered : ℕ → List Pair → List ℕ
registered fn [] = []
registered fn (p ∷ l) = if p.fn == fn then p.arg ∷ registered fn l else registered fn l

abbrev pub pairs_of : Option (List Pair) → List Pair
pairs_of none = []
pairs_of (some l) = l

abbrev pub alone : Option ℕ → List ℕ
alone none = []
alone (some lp) = lp ∷ []

abbrev pub has_pool : Option ℕ → ℕ
has_pool none = 0
has_pool (some lp) = 1

registered-append :
    (fn : ℕ) (l : List Pair) (p : Pair)
    → registered fn (l ++ (p ∷ [])) ≡ registered fn l ++ registered fn (p ∷ [])
registered-append fn [] p = refl
registered-append fn (q ∷ l) p = ground (arith, registered-append fn l p)

registered-skip_run :
    (fn arg : ℕ) (l : List Pair) → registered fn l ≡ [] → registered fn (skip_run fn arg l) ≡ []
unfolding skip_run
registered-skip_run fn arg [] h = refl
registered-skip_run fn arg (p ∷ l) h = ground (arith, registered-skip_run fn arg l)

registered-remove :
    (fn arg : ℕ) (l : List Pair) → registered fn l ≡ arg ∷ [] → registered fn (remove fn arg l) ≡ []
unfolding remove
registered-remove fn arg [] h = cc
registered-remove fn arg (p ∷ l) h =
    ground (arith, registered-remove fn arg l, registered-skip_run fn arg l)

registered-run_all :
    (fn : ℕ) (o : Option ℕ) (l : List Pair)
    → registered fn l ≡ alone o
    → registered fn (run_all l) ≡ alone o
unfolding run_all
registered-run_all fn none [] h = refl
registered-run_all fn (some lp) [] h = h
registered-run_all fn none (p ∷ l) h =
    ground (arith, registered-append fn (run_all l) p, registered-run_all fn none l)
registered-run_all fn (some lp) (p ∷ l) h = ground (
  arith,
  registered-append fn (run_all l) p,
  registered-run_all fn none l,
  registered-run_all fn (some lp) l,
)

pub registered-thread_atexit :
    (d fn arg : ℕ) (h : Option (List Pair))
    → (fn == 0) ≡ false
    → registered d (pairs_of (thread_atexit fn arg h).1)
      ≡ registered d (pairs_of h) ++ registered d (record { fn = fn; arg = arg } ∷ [])
unfolding thread_atexit add get_or_new_thread_exit_helper
registered-thread_atexit d fn arg none real = rw real refl
registered-thread_atexit d fn arg (some l) real =
    rw real (registered-append d l (record { fn = fn; arg = arg }))

pub registered-thread_atexit_cancel :
    (fn arg : ℕ) (h : Option (List Pair))
    → (fn == 0) ≡ false
    → registered fn (pairs_of h) ≡ arg ∷ []
    → registered fn (pairs_of (thread_atexit_cancel fn arg h)) ≡ []
unfolding thread_atexit_cancel
registered-thread_atexit_cancel fn arg none real e = cc
registered-thread_atexit_cancel fn arg (some l) real e = rw real (registered-remove fn arg l e)

pub registered-helper_exit :
    (fn : ℕ) (o : Option ℕ) (h : Option (List Pair))
    → registered fn (pairs_of h) ≡ alone o
    → registered fn (helper_exit h).0 ≡ alone o
unfolding helper_exit
registered-helper_exit fn o none e = e
registered-helper_exit fn o (some l) e = registered-run_all fn o l e
