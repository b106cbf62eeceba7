-- ===== src/ObjectPool/Locals/Count.antt =====
-- `local_count_`, and the threads that have a local pool.
use contention_prof.Base.{
  arith, ℕ, ◌≡◌, ◌<◌, refl, sym, ap, ◌∙◌, Bool, false, List, [], ◌∷◌, ◌++◌, Option, none, some,
  ◌==◌, inl, inr, Bool-cases, Option-cases, ==→eq, eq→==,
}
use mathlib.Core.Path.{fun_ext}
use mathlib.Core.List.{append-nil}
use contention_prof.Base.Int.{pos, ◌+ℤ◌, ◌-ℤ◌}
use contention_prof.ThreadExit.{
  Pair, add, thread_atexit, thread_atexit_cancel, helper_exit, get_or_new_thread_exit_helper,
}
use contention_prof.ObjectPool.Race.{update}
use contention_prof.ObjectPool.Race.Family.{total, total-update, total-eq-zero}
use contention_prof.ObjectPool.Locals.{
  LocalPools, get_or_new_local_pool, clear_from_destructor_of_local_pool, clear_objects, run_pairs,
  exit_thread, Reach,
}
use contention_prof.ObjectPool.Locals.Registered.{
  registered, pairs_of, alone, has_pool, registered-thread_atexit, registered-thread_atexit_cancel,
  registered-helper_exit,
}

module _ (deleter : ℕ) where
  run_pairs-none :
      (t : ℕ) (l : List Pair) (s : LocalPools)
      → registered deleter l ≡ []
      → run_pairs deleter t l s ≡ s
  unfolding run_pairs
  run_pairs-none t [] s h = refl
  run_pairs-none t (p ∷ l) s h = elim (Bool-cases (p.fn == deleter)) [
    | inl mine ↦ absurd (ground arith)
    | inr other ↦ rw other (run_pairs-none t l s (ground arith))
  ]

  run_pairs-one :
      (t lp : ℕ) (l : List Pair) (s : LocalPools)
      → registered deleter l ≡ lp ∷ []
      → run_pairs deleter t l s ≡ clear_from_destructor_of_local_pool deleter t s
  unfolding run_pairs
  run_pairs-one t lp [] s h = cc
  run_pairs-one t lp (p ∷ l) s h = elim (Bool-cases (p.fn == deleter)) [
    | inl mine ↦ rw mine (run_pairs-none t l _ (ground arith))
    | inr other ↦ rw other (run_pairs-one t lp l s (ground arith))
  ]

  pub record Inv (n : ℕ) (s : LocalPools) : Type 0 where
    pub count : s.local_count ≡ pos (total has_pool n s.local_pool)
    pub tied : (t : ℕ) → registered deleter (pairs_of (s.helper t)) ≡ alone (s.local_pool t)

  -- A thread's pool and its helper change together.
  Inv-update :
      {n : ℕ} {s : LocalPools} (inv : Inv n s) (t : ℕ) (lp : Option ℕ) (h : Option (List Pair))
      (s' : LocalPools)
      → t < n
      → ((u : ℕ) → s'.local_pool u ≡ update s.local_pool t lp u)
      → ((u : ℕ) → s'.helper u ≡ update s.helper t h u)
      → s'.local_count ≡ pos (total has_pool n (update s.local_pool t lp))
      → registered deleter (pairs_of h) ≡ alone lp
      → Inv n s'
  Inv-update {n} {s} inv t lp h s' lt pools helpers counted here = record {
    count = counted ∙ ap (λ (f : ℕ → Option ℕ). pos (total has_pool n f)) (sym (fun_ext pools));
    tied = λ u. elim (Bool-cases (t == u)) [
      | inl same ↦ ground (arith, pools u, helpers u, here)
      | inr other ↦ ground (arith, pools u, helpers u, inv.tied u)
    ];
  }

  -- A thread with a pool gives it up.
  count-minus :
      {n : ℕ} {s : LocalPools}
      → Inv n s
      → (t lp : ℕ) → t < n
      → s.local_pool t ≡ some lp
      → s.local_count -ℤ pos 1 ≡ pos (total has_pool n (update s.local_pool t none))
  unfolding ◌-ℤ◌
  count-minus {n} {s} inv t lp lt e =
      let moved = total-update has_pool n s.local_pool t none lt in ground (arith, inv.count, moved)

  count-plus :
      {n : ℕ} {s : LocalPools}
      → Inv n s
      → (t lp : ℕ) → t < n
      → s.local_pool t ≡ none
      → s.local_count +ℤ pos 1 ≡ pos (total has_pool n (update s.local_pool t (some lp)))
  unfolding ◌+ℤ◌
  count-plus {n} {s} inv t lp lt e =
      let moved = total-update has_pool n s.local_pool t (some lp) lt in
      ground (arith, inv.count, moved)

  get-Inv :
      {n : ℕ} {s : LocalPools}
      → (deleter == 0) ≡ false
      → Inv n s
      → (memory : Bool) (t : ℕ) → t < n
      → Inv n (get_or_new_local_pool deleter memory t s).1
  unfolding get_or_new_local_pool thread_atexit add get_or_new_thread_exit_helper
  get-Inv {n} {s} real inv memory t lt = elim (Option-cases (s.local_pool t)) [
    | inr (lp, there) ↦ rw (get_or_new_local_pool, there) inv
    | inl missing ↦ elim (Bool-cases memory) [
      | inr no_memory ↦ rw (get_or_new_local_pool, missing, no_memory) inv
      | inl some_memory ↦
          rw (get_or_new_local_pool, missing, some_memory)
            (Inv-update inv t (some s.made) (thread_atexit deleter s.made (s.helper t)).1 _ lt
              (λ u. refl) (λ u. refl) (count-plus inv t s.made lt missing)
              (registered-thread_atexit deleter deleter s.made (s.helper t) real
                ∙ ap (λ x. x ++ registered deleter (record { fn = deleter; arg = s.made } ∷ []))
                    (inv.tied t ∙ ap alone missing)
                ∙ (rw (eq→== deleter deleter refl) refl)))
    ]
  ]

  clear-Inv :
      {n : ℕ} {s : LocalPools}
      → (deleter == 0) ≡ false
      → Inv n s
      → (t : ℕ) → t < n
      → Inv n (clear_objects deleter t s)
  unfolding clear_objects clear_from_destructor_of_local_pool thread_atexit_cancel
  clear-Inv {n} {s} real inv t lt = elim (Option-cases (s.local_pool t)) [
    | inl missing ↦ rw (clear_objects, missing) inv
    | inr (lp, there) ↦
        rw (clear_objects, there)
          (Inv-update inv t none (thread_atexit_cancel deleter lp (s.helper t)) _ lt
            (λ u. ground arith) (λ u. refl) (count-minus inv t lp lt there)
            (registered-thread_atexit_cancel deleter lp (s.helper t) real
              (inv.tied t ∙ ap alone there)))
  ]

  helper_exit-none : (h : Option (List Pair)) → (helper_exit h).1 ≡ none
  unfolding helper_exit
  helper_exit-none none = refl
  helper_exit-none (some l) = refl

  exit-Inv : {n : ℕ} {s : LocalPools} → Inv n s → (t : ℕ) → t < n → Inv n (exit_thread deleter t s)
  unfolding exit_thread clear_from_destructor_of_local_pool
  exit-Inv {n} {s} inv t lt =
      let calls = (helper_exit (s.helper t)).0 in
      let s' : LocalPools = record s { helper = update s.helper t (helper_exit (s.helper t)).1 } in
      elim (Option-cases (s.local_pool t)) [
        | inl missing ↦
            rw
              (run_pairs-none t calls s'
                (registered-helper_exit deleter none (s.helper t) (inv.tied t ∙ ap alone missing)))
              (Inv-update inv t none none s' lt (λ u. ground (arith, missing)) (λ u. helper-none u)
                (let moved = total-update has_pool n s.local_pool t none lt in
                  ground (arith, inv.count, moved, missing))
                refl)
        | inr (lp, there) ↦
            rw
              (run_pairs-one t lp calls s' (
                registered-helper_exit deleter (some lp) (s.helper t)
                  (inv.tied t ∙ ap alone there)))
              (Inv-update inv t none none _ lt (λ u. refl) (λ u. helper-none u)
                (count-minus inv t lp lt there) refl)
      ]
    where
      helper-none :
          (u : ℕ) → update s.helper t (helper_exit (s.helper t)).1 u ≡ update s.helper t none u
      helper-none u = ap (λ h. update s.helper t h u) (helper_exit-none (s.helper t))

  register-Inv :
      {n : ℕ} {s : LocalPools}
      → Inv n s
      → (t fn arg : ℕ) → (fn == deleter) ≡ false
      → Inv n (record s { helper = update s.helper t (thread_atexit fn arg (s.helper t)).1 })
  unfolding thread_atexit
  register-Inv {n} {s} inv t fn arg other = record {
    count = inv.count;
    tied = λ u. elim (Bool-cases (t == u)) [
      | inr away ↦ rw away (inv.tied u)
      | inl same ↦ elim (Bool-cases (fn == 0)) [
        | inl null ↦ rw (same, null) (tied_at u (==→eq t u same))
        | inr real ↦ rw same (
            registered-thread_atexit deleter fn arg (s.helper t) real
            ∙ (rw other (append-nil _ ∙ tied_at u (==→eq t u same))))
      ]
    ];
  }
    where
      tied_at :
          (u : ℕ) → t ≡ u → registered deleter (pairs_of (s.helper t)) ≡ alone (s.local_pool u)
      tied_at u e = inv.tied t ∙ ap (λ x. alone (s.local_pool x)) e

  Reach-Inv : {n : ℕ} {s : LocalPools} → (deleter == 0) ≡ false → Reach deleter n s → Inv n s
  Reach-Inv {n} real Reach.start = record {
    count = ap pos (sym (total-eq-zero has_pool n (λ t. none) (λ t. refl)));
    tied = λ t. refl;
  }
  Reach-Inv real (Reach.gets memory t lt r) = get-Inv real (Reach-Inv real r) memory t lt
  Reach-Inv real (Reach.clears t lt r) = clear-Inv real (Reach-Inv real r) t lt
  Reach-Inv real (Reach.registers t fn arg lt other r) =
      register-Inv (Reach-Inv real r) t fn arg other
  Reach-Inv real (Reach.exits t lt r) = exit-Inv (Reach-Inv real r) t lt

  exit_thread-none :
      {n : ℕ} {s : LocalPools} → Inv n s → (t : ℕ) → (exit_thread deleter t s).local_pool t ≡ none
  unfolding exit_thread clear_from_destructor_of_local_pool
  exit_thread-none {n} {s} inv t =
      let calls = (helper_exit (s.helper t)).0 in
      let s' : LocalPools = record s { helper = update s.helper t (helper_exit (s.helper t)).1 } in
      elim (Option-cases (s.local_pool t)) [
        | inl missing ↦
            ap (λ (x : LocalPools). x.local_pool t)
              (run_pairs-none t calls s'
                (registered-helper_exit deleter none (s.helper t) (inv.tied t ∙ ap alone missing)))
            ∙ missing
        | inr (lp, there) ↦
            ap (λ (x : LocalPools). x.local_pool t)
              (run_pairs-one t lp calls s' (
                registered-helper_exit deleter (some lp) (s.helper t)
                  (inv.tied t ∙ ap alone there)))
            ∙ (rw (eq→== t t refl) refl)
      ]

  -- Whatever threads below n get their local pool, clear it, register other functions and exit,
  -- and if the address of delete_local_pool is not null: local_count_ is the number of threads
  -- with a local pool, a thread has delete_local_pool registered once, with its own pool, if it
  -- has one, and not at all otherwise, and a thread that exits has no local pool afterwards.
  pub local_count-Reach :
      {n : ℕ} {s : LocalPools}
      → (deleter == 0) ≡ false
      → Reach deleter n s
      → (s.local_count ≡ pos (total has_pool n s.local_pool))
        × ((t : ℕ) → registered deleter (pairs_of (s.helper t)) ≡ alone (s.local_pool t))
        × ((t : ℕ) → (exit_thread deleter t s).local_pool t ≡ none)
  unfolding exit_thread clear_from_destructor_of_local_pool
  local_count-Reach {n} {s} real r =
      let inv = Reach-Inv real r in (inv.count, inv.tied, exit_thread-none inv)
