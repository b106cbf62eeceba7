-- ===== src/ThreadExit/Locals.antt =====
-- src/common/thread_local_inl.h, and the helper of a thread in src/common/thread_local.cpp: objects
-- of a thread, one for each type, which are deleted when it exits. A type is a number, and `deleter`
-- of it the address of `delete_object<T>`, which is not null. Memory is to be had.
use mathlib.Core.Path.{subst}
use contention_prof.Base.{
  ℕ, zero, suc, ◌==◌, ◌≡◌, refl, sym, ◌∙◌, ap, Bool, true, false, ◌||◌, List, [], ◌∷◌, ◌++◌, Option,
  none, some, if◌then◌else◌, map, reverse, arith, inl, inr, Bool-cases, Option-cases, ==→eq,
}
use contention_prof.ThreadExit.{
  Pair, add, run_all, thread_atexit, get_or_new_thread_exit_helper, helper_exit,
}
mod Tests

-- What `thread_atexit_key` gives in a thread, and `value` of the ThreadLocalHelper of each type.
pub record Locals : Type 0 where
  pub helper : Option (List Pair)
  pub values : ℕ → Option ℕ

abbrev pub new_thread : Locals
new_thread = record { helper = none; values = λ type. none }

module _ (deleter : ℕ → ℕ) where
  -- `ThreadLocalHelper<T>::get`; `fresh` is what `new T()` gives
  unfoldable pub get : (type fresh : ℕ) → Locals → ℕ × Locals
  unfolding thread_atexit
  get type fresh t = elim (t.values type) [
    | some a ↦ (a, t)
    | none ↦
        let (done, helper) = thread_atexit (deleter type) fresh t.helper in
        (
          fresh,
          record { helper = helper; values = λ u. if u == type then some fresh else t.values u },
        )
  ]

  -- calls of `get`, each a type and what `new` would give
  unfoldable pub get_all : List (ℕ × ℕ) → Locals → Locals
  unfolding get
  get_all [] t = t
  get_all ((type, fresh) ∷ l) t = get_all l (get type fresh t).1

-- the specification: the first object of each type
abbrev pub lookup : ℕ → List (ℕ × ℕ) → Option ℕ
lookup type [] = none
lookup type ((u, a) ∷ l) = if type == u then some a else lookup type l

abbrev is_some : Option ℕ → Bool
is_some none = false
is_some (some a) = true

abbrev pub made : List (ℕ × ℕ) → List (ℕ × ℕ) → List (ℕ × ℕ)
made have [] = have
made have ((type, fresh) ∷ l) =
    if is_some (lookup type have) then made have l else made (have ++ ((type, fresh) ∷ [])) l

-- what deletes an object
abbrev pub deletion : (ℕ → ℕ) → ℕ × ℕ → Pair
deletion deleter (type, a) = record { fn = deleter type; arg = a }

lookup-append :
    (type u a : ℕ) (l : List (ℕ × ℕ))
    → lookup u l ≡ none
    → lookup type (l ++ ((u, a) ∷ [])) ≡ (if type == u then some a else lookup type l)
lookup-append type u a [] h = refl
lookup-append type u a ((v, b) ∷ l) h = ground (arith, lookup-append type u a l)

map-append :
    {A B : Type 0} (f : A → B) (l : List A) (x : A) → map f (l ++ (x ∷ [])) ≡ map f l ++ (f x ∷ [])
map-append f [] x = refl
map-append f (y ∷ l) x = ap (λ t. f y ∷ t) (map-append f l x)

run_all-reverse : (l : List Pair) → run_all l ≡ reverse l
unfolding run_all
run_all-reverse [] = refl
run_all-reverse (p ∷ l) = ap (λ t. t ++ (p ∷ [])) (run_all-reverse l)

module _ (deleter : ℕ → ℕ) (some_deleter : (type : ℕ) → (deleter type == 0) ≡ false) where
  record Inv (have : List (ℕ × ℕ)) (t : Locals) : Type 0 where
    registered : get_or_new_thread_exit_helper t.helper ≡ map (deletion deleter) have
    known : (type : ℕ) → t.values type ≡ lookup type have

  new_thread-Inv : Inv [] new_thread
  unfolding get_or_new_thread_exit_helper
  new_thread-Inv = record { registered = refl; known = λ type. refl }

  calls :
      (h : Option (List Pair)) (objects : List (ℕ × ℕ))
      → get_or_new_thread_exit_helper h ≡ map (deletion deleter) objects
      → (helper_exit h).0 ≡ reverse (map (deletion deleter) objects)
  unfolding helper_exit get_or_new_thread_exit_helper
  calls none objects e = ap reverse e
  calls (some fns) objects e = run_all-reverse fns ∙ ap reverse e

  get-old :
      (type fresh a : ℕ) (t : Locals) → t.values type ≡ some a → get deleter type fresh t ≡ (a, t)
  unfolding get
  get-old type fresh a t e = rw (get, e) refl

  abbrev with_object : ℕ → ℕ → Locals → Locals
  with_object type fresh t = record {
    helper = some (get_or_new_thread_exit_helper t.helper ++ (deletion deleter (type, fresh) ∷ []));
    values = λ u. if u == type then some fresh else t.values u;
  }

  get-new :
      (type fresh : ℕ) (t : Locals)
      → t.values type ≡ none
      → get deleter type fresh t ≡ (fresh, with_object type fresh t)
  unfolding get
  get-new type fresh t e = rw (get, e, some_deleter type) refl

  with_object-Inv :
      (type fresh : ℕ) (have : List (ℕ × ℕ)) (t : Locals)
      → lookup type have ≡ none
      → Inv have t
      → Inv (have ++ ((type, fresh) ∷ [])) (with_object type fresh t)
  unfolding get_or_new_thread_exit_helper
  with_object-Inv type fresh have t new v = record {
    registered =
        ap (λ l. l ++ (deletion deleter (type, fresh) ∷ [])) v.registered
        ∙ sym (map-append (deletion deleter) have (type, fresh));
    known = λ u.
        ap (λ o. if u == type then some fresh else o) (v.known u)
        ∙ sym (lookup-append u type fresh have new);
  }

  get-Inv :
      (type fresh : ℕ) (have : List (ℕ × ℕ)) (t : Locals)
      → Inv have t
      → Inv (made have ((type, fresh) ∷ [])) (get deleter type fresh t).1
  get-Inv type fresh have t v = elim (Option-cases (lookup type have)) [
    | inl new ↦
        let step = get-new type fresh t (v.known type ∙ new) in
        rw new (
          subst (λ p. Inv (have ++ ((type, fresh) ∷ [])) p.1) (sym step)
            (with_object-Inv type fresh have t new v))
    | inr (a, old) ↦
        let step = get-old type fresh a t (v.known type ∙ old) in
        rw old (subst (λ p. Inv have p.1) (sym step) v)
  ]

  made-cons :
      (have : List (ℕ × ℕ)) (x : ℕ × ℕ) (l : List (ℕ × ℕ))
      → made (made have (x ∷ [])) l ≡ made have (x ∷ l)
  made-cons have (type, fresh) l = elim (Bool-cases (is_some (lookup type have))) [
    | inl old ↦ rw old refl
    | inr new ↦ rw new refl
  ]

  get_all-Inv :
      (l have : List (ℕ × ℕ)) (t : Locals) → Inv have t → Inv (made have l) (get_all deleter l t)
  unfolding get_all
  get_all-Inv [] have t v = v
  get_all-Inv ((type, fresh) ∷ l) have t v =
      subst (λ h. Inv h (get_all deleter l (get deleter type fresh t).1))
        (made-cons have (type, fresh) l)
        (get_all-Inv l (made have ((type, fresh) ∷ [])) (get deleter type fresh t).1
          (get-Inv type fresh have t v))

  -- A new thread that asks for objects of any types, in any order, holds the first one made for
  -- each type, and when it exits exactly these are deleted, the latest first. The deleters are
  -- not null.
  pub get_all-exit :
      (l : List (ℕ × ℕ))
      → let t = get_all deleter l new_thread in
        let objects = made [] l in
        ((helper_exit t.helper).0 ≡ reverse (map (deletion deleter) objects))
        × ((type : ℕ) → t.values type ≡ lookup type objects)
  unfolding helper_exit get_or_new_thread_exit_helper
  get_all-exit l =
      let t = get_all deleter l new_thread in
      let v = get_all-Inv l [] new_thread new_thread-Inv in
      (calls t.helper (made [] l) v.registered, v.known)
