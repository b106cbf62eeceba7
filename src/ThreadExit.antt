-- ===== src/ThreadExit.antt =====
-- src/common/thread_local.cpp: the functions that run when a thread exits.
-- A function and its argument are addresses, 0 for null. The registered functions themselves are not
-- modelled: what the destructor calls is a list.
use contention_prof.Base.{
  ℕ, zero, suc, ◌==◌, Bool, true, false, ◌&&◌, List, [], ◌∷◌, ◌++◌, Option, none, some,
  if◌then◌else◌,
}
pub mod Order
pub mod Locals
mod Tests

-- `Pair`
pub record Pair : Type 0 where
  pub fn : ℕ
  pub arg : ℕ

abbrev pub is_pair : ℕ → ℕ → Pair → Bool
is_pair fn arg p = (p.fn == fn) && (p.arg == arg)

-- `ThreadExitHelper::add` on `fns_` from its begin, with memory to be had
unfoldable pub add : ℕ → ℕ → List Pair → List Pair
add fn arg fns = fns ++ (record { fn = fn; arg = arg } ∷ [])

-- the loop that moves `end_iter`: what is left behind the run of equal pairs
unfoldable pub skip_run : ℕ → ℕ → List Pair → List Pair
skip_run fn arg [] = []
skip_run fn arg (p ∷ l) = let rest = skip_run fn arg l in if is_pair fn arg p then rest else p ∷ l

-- `ThreadExitHelper::remove`
unfoldable pub remove : ℕ → ℕ → List Pair → List Pair
unfolding skip_run
remove fn arg [] = []
remove fn arg (p ∷ l) =
    let rest = remove fn arg l in if is_pair fn arg p then skip_run fn arg l else p ∷ rest

-- The destructor: the last function first.
unfoldable pub run_all : List Pair → List Pair
run_all [] = []
run_all (p ∷ l) = run_all l ++ (p ∷ [])

-- What `thread_atexit_key` gives in a thread is its helper, if it has one.
-- `get_or_new_thread_exit_helper`, with memory to be had
unfoldable pub get_or_new_thread_exit_helper : Option (List Pair) → List Pair
get_or_new_thread_exit_helper none = []
get_or_new_thread_exit_helper (some fns) = fns

-- `delete_thread_exit_helper` at the end of a thread, and `helper_exit_global` at the end of the
-- process: what they call, and the helper after it
unfoldable pub helper_exit : Option (List Pair) → List Pair × Option (List Pair)
unfolding run_all
helper_exit none = ([], none)
helper_exit (some fns) = (run_all fns, none)

-- `thread_atexit`: whether it returns 0, and the helper
unfoldable pub thread_atexit : ℕ → ℕ → Option (List Pair) → Bool × Option (List Pair)
unfolding add get_or_new_thread_exit_helper
thread_atexit fn arg h =
    if fn == 0 then (false, h) else (true, some (add fn arg (get_or_new_thread_exit_helper h)))

-- `thread_atexit_cancel`
unfoldable pub thread_atexit_cancel : ℕ → ℕ → Option (List Pair) → Option (List Pair)
unfolding remove
thread_atexit_cancel fn arg none = none
thread_atexit_cancel fn arg (some fns) = if fn == 0 then some fns else some (remove fn arg fns)

-- `thread_atexit` of a function with no argument; `call` is the address of `call_single_arg_fn`
unfoldable pub thread_atexit_no_arg : (call fn : ℕ) → Option (List Pair) → Bool × Option (List Pair)
unfolding thread_atexit
thread_atexit_no_arg call fn h = if fn == 0 then (false, h) else thread_atexit call fn h

-- `thread_atexit_cancel` of a function with no argument
unfoldable pub thread_atexit_cancel_no_arg : (call fn : ℕ) → Option (List Pair) → Option (List Pair)
unfolding thread_atexit_cancel
thread_atexit_cancel_no_arg call fn h = if fn == 0 then h else thread_atexit_cancel call fn h
