-- ===== src/ThreadExit/Order.antt =====
-- The order of the functions at exit.
use contention_prof.Base.{
  arith, ℕ, ◌≡◌, refl, ap, ◌==◌, Bool, true, false, List, [], ◌∷◌, ◌++◌, some, if◌then◌else◌, inl,
  inr, Bool-cases,
}
use contention_prof.ThreadExit.{
  Pair, is_pair, add, skip_run, remove, run_all, thread_atexit, thread_atexit_cancel,
}

-- no pair of the list is the one asked for
abbrev pub lacks : ℕ → ℕ → List Pair → Bool
lacks fn arg [] = true
lacks fn arg (p ∷ l) = if is_pair fn arg p then false else lacks fn arg l

run_all-append : (l : List Pair) (p : Pair) → run_all (l ++ (p ∷ [])) ≡ p ∷ run_all l
unfolding run_all
run_all-append [] p = refl
run_all-append (q ∷ l) p = ap (λ r. r ++ (q ∷ [])) (run_all-append l p)

remove-add : (fn arg : ℕ) (l : List Pair) → lacks fn arg l ≡ true → remove fn arg (add fn arg l) ≡ l
unfolding remove add skip_run
remove-add fn arg [] h =
    let same : is_pair fn arg (record { fn = fn; arg = arg }) ≡ true = ground arith in rw same
remove-add fn arg (p ∷ l) h = elim (Bool-cases (is_pair fn arg p)) [
  | inl same ↦ absurd (ground arith)
  | inr other ↦
      let rest : lacks fn arg l ≡ true = ground arith in
      rw other (ap (λ r. p ∷ r) (remove-add fn arg l rest))
]

-- A function that is registered with an argument that it is not registered with yet runs before
-- those that the thread has already, and to cancel it leaves the helper as it was.
pub thread_atexit_lem :
    (fn arg : ℕ) (fns : List Pair)
    → (fn == 0) ≡ false
    → lacks fn arg fns ≡ true
    → let (done, h) = thread_atexit fn arg (some fns) in
      (done ≡ true)
      × (h ≡ some (add fn arg fns))
      × (run_all (add fn arg fns) ≡ record { fn = fn; arg = arg } ∷ run_all fns)
      × (thread_atexit_cancel fn arg h ≡ some fns)
unfolding thread_atexit thread_atexit_cancel add
thread_atexit_lem fn arg fns good new = rw good (
  refl,
  refl,
  run_all-append fns (record { fn = fn; arg = arg }),
  rw good (ap some (remove-add fn arg fns new)),
)
