-- ===== src/Contention/Tests.antt =====
-- A contended lock and its unlock at concrete times.
use mathlib.Core.Path.{subst}
use contention_prof.Base.{
  ℕ, ◌+◌, ◌≡◌, ◌≢◌, ◌%◌, ◌/◌, ◌^◌, ◌⊎◌, refl, true, false, [], ◌∷◌, none, some, arith, inl, inr,
  sym, ap, ◌∙◌,
}
use contention_prof.Hash.{fmix64}
use contention_prof.SpeedLimit.{initial}
use contention_prof.Contention.{
  Site, MutexAndSite, Tls, Globals, LockEnv, UnlockEnv, map_index, add_site, remove_site, no_others,
  Others, owns_entry, copy_csite, invalidate_csite, lock_in_map, find_slot, waited, Submission,
  is_contention_site_valid, pthread_mutex_lock_impl, pthread_mutex_unlock_impl,
}
use contention_prof.Contention.Sites.{IsValid, IsUsable, MapIsUsable}
use contention_prof.Contention.Lock.{lock_impl_safe}
use contention_prof.Contention.Unlock.{Divides, LeavesSite, unlock_impl_safe}
use contention_prof.Contention.Race.{stale_entry_race}
use contention_prof.Contention.Map.{is_free, Refuses, add_site_lem, add-remove_site}

abbrev no_site : Site
no_site = record { duration_ns = 0; sampling_range = 0 }

abbrev blank : MutexAndSite
blank = record { mutex = 0; csite = no_site }

abbrev new_thread : Tls
new_thread = record {
  count = 0;
  cp_version = 0;
  list = blank ∷ blank ∷ blank ∷ [];
  inside_lock = false;
}

-- a profiler that runs since version 1
abbrev started : Globals
started = record {
  cp = true;
  cp_version = 1;
  mutex_map = λ i. record { versioned_mutex = 0; csite = no_site };
  cp_sl = initial;
}

abbrev busy : LockEnv
busy = record {
  expected = 1000;
  monotonic_us = 77;
  random = 5;
  ebusy = true;
  trylock_result = 16;
  lock_result = 0;
  start_time_ns = 1_000;
  end_time_ns = 4_000;
  seen = 0;
}

abbrev free : UnlockEnv
free = record {
  others = no_others;
  unlock_result = 0;
  start_time_ns = 9_000;
  end_time_ns = 9_200;
  last_active_cpuwide_us = 0;
}

abbrev mutex_a : ℕ
mutex_a = 0x7f0000001000

new_thread-IsValid : IsValid new_thread
new_thread-IsValid = record { slots = refl; within = omega arith }

started-MapIsUsable : MapIsUsable started
started-MapIsUsable i = inl refl

lock_impl_safe_example :
    let r = pthread_mutex_lock_impl busy mutex_a new_thread started in
    IsValid r.tls × MapIsUsable r.globals
lock_impl_safe_example =
    lock_impl_safe busy mutex_a new_thread started new_thread-IsValid started-MapIsUsable

-- a mutex that shares its entry of the map with `mutex_a`
abbrev mutex_b : ℕ
mutex_b = 0x7f0000001ac8

same_entry : map_index mutex_a ≡ map_index mutex_b
unfolding map_index fmix64
same_entry = refl

-- `mutex_a` owns its entry from version 1, and the profiler is started again.
abbrev restarted : Globals
restarted = record started {
  cp_version = 2;
  mutex_map = λ i. record {
    versioned_mutex = 2 ^ 48 + mutex_a;
    csite = record { duration_ns = 50; sampling_range = 8 };
  };
}

-- Another thread takes the entry for `mutex_b` behind the copy.
abbrev takes_entry : Others
takes_entry = record no_others { after_copy = λ g. (add_site (2 ^ 48 + mutex_a) mutex_b g).1 }

takes_entry-other :
    (g : Globals) (j : ℕ)
    → map_index mutex_a ≢ j
    → (takes_entry.after_copy g).mutex_map j ≡ g.mutex_map j
takes_entry-other g j other = elim (add_site_lem (2 ^ 48 + mutex_a) mutex_b g (omega arith)) [
  | inl (_, _, _, _, _, rest) ↦ rest j (λ e. other (same_entry ∙ e))
  | inr (_, same, _) ↦ ap (λ (x : Globals). x.mutex_map j) same
]

takes_entry-LeavesSite : LeavesSite takes_entry mutex_a
takes_entry-LeavesSite = record {
  same_site = λ g. refl;
  loaded = λ g j other u. u;
  copied = λ g j other u. subst IsUsable (sym (takes_entry-other g j other)) u;
  invalidated = λ g j other u. u;
}

abbrev interrupted : UnlockEnv
interrupted = record free { others = takes_entry }

unlock_impl_safe_example :
    let r = pthread_mutex_unlock_impl interrupted mutex_a new_thread restarted in
    IsValid r.tls × MapIsUsable r.globals × Divides r.submitted
unlock_impl_safe_example =
    unlock_impl_safe interrupted mutex_a new_thread restarted (omega arith) takes_entry-LeavesSite
      new_thread-IsValid (λ i. inr (omega arith))

abbrev full_thread : Tls
full_thread = record new_thread { count = 3; cp_version = 2 }

abbrev sees_mutex_a : LockEnv
sees_mutex_a = record busy { seen = 2 ^ 48 + mutex_a }

stale_entry_race_example :
    let locked = lock_in_map sees_mutex_a mutex_b 4 full_thread restarted in
    let others : Others = record no_others {
      after_copy = λ x. (lock_in_map sees_mutex_a mutex_b 4 full_thread x).globals;
      after_invalidate = λ x. (pthread_mutex_unlock_impl free mutex_b locked.tls x).globals;
    } in
    let unlocked =
      pthread_mutex_unlock_impl free mutex_b locked.tls (invalidate_csite mutex_a locked.globals) in
    ((remove_site others mutex_a restarted).0 ≡ some (copy_csite mutex_a restarted))
    × (copy_csite mutex_b locked.globals ≡ waited sees_mutex_a 4)
    × ((s : Submission) × (unlocked.submitted ≡ some s) × (s.count_denominator ≡ 0))
unfolding owns_entry find_slot
stale_entry_race_example =
    stale_entry_race sees_mutex_a free mutex_a mutex_b 4 full_thread restarted (omega arith)
      same_entry refl (omega arith) refl (omega arith) refl refl refl refl (λ x. refl) (omega arith)

add-remove_site_example :
    let g = started in
    let i = map_index mutex_a in
    (let (slot, g') = add_site 0 mutex_a g in
      ((slot ≡ some i)
        × (is_free 0 g.cp_version ≡ true)
        × ((g.mutex_map i).versioned_mutex ≡ 0)
        × ((g'.mutex_map i).versioned_mutex % 2 ^ 48 ≡ mutex_a)
        × ((g'.mutex_map i).versioned_mutex / 2 ^ 48 ≡ g.cp_version % 2 ^ 16)
        × ((j : ℕ) → i ≢ j → g'.mutex_map j ≡ g.mutex_map j))
      ⊎ ((slot ≡ none) × (g' ≡ g) × Refuses 0 (g.mutex_map i).versioned_mutex g.cp_version))
    × (let (site, g') = remove_site no_others mutex_a g in
        ((site ≡ some (g.mutex_map i).csite)
          × ((g.mutex_map i).versioned_mutex % 2 ^ 48 ≡ mutex_a)
          × ((g'.mutex_map i).versioned_mutex ≡ 0)
          × (is_contention_site_valid (g'.mutex_map i).csite ≡ false)
          × ((j : ℕ) → i ≢ j → g'.mutex_map j ≡ g.mutex_map j))
        ⊎ ((site ≡ none) × (g' ≡ g) × ((g.mutex_map i).versioned_mutex % 2 ^ 48 ≢ mutex_a)))
add-remove_site_example = add-remove_site 0 mutex_a started (omega arith)
