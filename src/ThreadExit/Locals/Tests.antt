-- ===== src/ThreadExit/Locals/Tests.antt =====
-- Objects of two types.
use contention_prof.Base.{ℕ, ◌+◌, ◌≡◌, refl, List, [], ◌∷◌, map, reverse, arith}
use contention_prof.ThreadExit.{helper_exit}
use contention_prof.ThreadExit.Locals.{new_thread, get_all, lookup, made, deletion, get_all-exit}

abbrev deleter : ℕ → ℕ
deleter type = type + 1

-- the object of type 4 is asked for twice
abbrev calls : List (ℕ × ℕ)
calls = (4, 100) ∷ (7, 200) ∷ (4, 300) ∷ []

two_objects : made [] calls ≡ (4, 100) ∷ (7, 200) ∷ []
two_objects = refl

get_all-exit_example :
    let t = get_all deleter calls new_thread in
    let objects = made [] calls in
    ((helper_exit t.helper).0 ≡ reverse (map (deletion deleter) objects))
    × ((type : ℕ) → t.values type ≡ lookup type objects)
get_all-exit_example = get_all-exit deleter (λ type. ground arith) calls
