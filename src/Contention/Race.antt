-- ===== src/Contention/Race.antt =====
-- Two threads at one entry of the map, whose version is an old one.
use contention_prof.Base.{
  arith, ℕ, ◌/◌, ◌%◌, ◌<◌, ◌^◌, ◌==◌, ◌≡◌, ◌≢◌, refl, true, false, not, ◌||◌, none, some, ap, ◌∙◌,
}
use contention_prof.Contention.{
  Tls, Globals, LockEnv, UnlockEnv, Submission, Others, add_site, find_slot, fill_site, finish,
  lock_in_map, map_index, owns_entry, copy_csite, invalidate_csite, remove_site, submit_contention,
  no_others, pthread_mutex_unlock_impl, waited,
}
use contention_prof.Contention.Map.{is_free, versioned_lem}
use contention_prof.Contention.Unlock.{unlock_missed}

-- A sampled wait that gets an entry of the map.
lock_in_map-entry :
    (env : LockEnv) (mutex range : ℕ) (tls : Tls) (g : Globals)
    → mutex < 2 ^ 48
    → is_free env.seen g.cp_version ≡ true
    → (g.mutex_map (map_index mutex)).versioned_mutex ≡ env.seen
    → 0 < range
    → env.lock_result ≡ 0
    → let r = lock_in_map env mutex range tls g in
      (r.tls ≡ tls)
      × (r.globals.cp ≡ g.cp)
      × (owns_entry mutex r.globals ≡ true)
      × (copy_csite mutex r.globals ≡ waited env range)
unfolding lock_in_map add_site fill_site owns_entry copy_csite
lock_in_map-entry env mutex range tls g small free was sampled locked =
    let some_range : (range == 0) ≡ false = ground arith in
    let won : (env.lock_result == 0) ≡ true = ground arith in
    let same : ((g.mutex_map (map_index mutex)).versioned_mutex == env.seen) ≡ true =
      ground arith in
    let own : (map_index mutex == map_index mutex) ≡ true = ground arith in
    let word = versioned_lem g.cp_version mutex small in
    rw (some_range, won, free, same, copy_csite, own) (refl, refl, ground (arith, word), refl)

-- What the invalidation by one mutex leaves of the entry, for another mutex with the same entry.
invalidate_csite-shared :
    (a b : ℕ) (g : Globals)
    → map_index a ≡ map_index b
    → (owns_entry b (invalidate_csite a g) ≡ owns_entry b g)
      × ((copy_csite b (invalidate_csite a g)).sampling_range ≡ 0)
      × ((invalidate_csite a g).cp ≡ g.cp)
unfolding owns_entry copy_csite invalidate_csite
invalidate_csite-shared a b g e =
    let here : (map_index b == map_index b) ≡ true = ground arith in
    rw (e, copy_csite, here) (refl, refl, refl)

-- The unlock of a mutex whose entry has a range of 0.
unlock_zero :
    (env : UnlockEnv) (mutex : ℕ) (tls : Tls) (g : Globals)
    → g.cp ≡ true
    → tls.inside_lock ≡ false
    → find_slot tls.list mutex tls.count ≡ none
    → owns_entry mutex g ≡ true
    → ((x : Globals) → env.others.after_load x ≡ x)
    → (copy_csite mutex g).sampling_range ≡ 0
    → env.start_time_ns ≢ 0
    → let r = pthread_mutex_unlock_impl env mutex tls g in
      (s : Submission) × (r.submitted ≡ some s) × (s.count_denominator ≡ 0)
unfolding finish remove_site submit_contention
unlock_zero env mutex tls g on outside missed owns still zero timed =
    let active : (not g.cp || tls.inside_lock) ≡ false = ground arith in
    let time : (env.start_time_ns == 0) ≡ false = ground arith in
    rw (unlock_missed env mutex tls g active missed, owns, still g, time) (_, refl, zero)

-- Two mutexes share an entry of the map, which the one owns from another version than the one
-- that the profiler runs in. Its unlock has copied the site when the lock of the other mutex,
-- below 2 ^ 48, gets the entry for a sampled wait, in a thread that is not inside
-- submit_contention and has no slot left. If the unlock then invalidates the site, and the other
-- mutex, which is in no slot, is unlocked before the store, with no third thread between its
-- load and its copy, then the first unlock still gets its own site, and the second divides by 0
-- in submit_contention, unless the clock says 0 at its start.
pub stale_entry_race :
    (env : LockEnv) (env' : UnlockEnv) (a b range : ℕ) (tls : Tls) (g : Globals)
    → b < 2 ^ 48
    → map_index a ≡ map_index b
    → owns_entry a g ≡ true
    → env.seen / 2 ^ 48 ≢ g.cp_version % 2 ^ 16
    → (g.mutex_map (map_index b)).versioned_mutex ≡ env.seen
    → 0 < range
    → env.lock_result ≡ 0
    → g.cp ≡ true
    → tls.inside_lock ≡ false
    → find_slot tls.list b tls.count ≡ none
    → ((x : Globals) → env'.others.after_load x ≡ x)
    → env'.start_time_ns ≢ 0
    → let locked = lock_in_map env b range tls g in
      let others : Others = record no_others {
        after_copy = λ x. (lock_in_map env b range tls x).globals;
        after_invalidate = λ x. (pthread_mutex_unlock_impl env' b locked.tls x).globals;
      } in
      let unlocked =
        pthread_mutex_unlock_impl env' b locked.tls (invalidate_csite a locked.globals) in
      ((remove_site others a g).0 ≡ some (copy_csite a g))
      × (copy_csite b locked.globals ≡ waited env range)
      × ((s : Submission) × (unlocked.submitted ≡ some s) × (s.count_denominator ≡ 0))
unfolding remove_site
stale_entry_race env env' a b range tls g small same owns stale was sampled won on outside missed
      still timed =
    let locked = lock_in_map env b range tls g in
    let other : (env.seen / 2 ^ 48 == g.cp_version % 2 ^ 16) ≡ false = ground arith in
    let free : is_free env.seen g.cp_version ≡ true = ground (arith, other) in
    let (tls_same, on_same, owned, site) =
      lock_in_map-entry env b range tls g small free was sampled won in
    let (owns_same, zero, cp_same) = invalidate_csite-shared a b locked.globals same in
    (
      rw owns refl,
      site,
      unlock_zero env' b locked.tls (invalidate_csite a locked.globals) (cp_same ∙ on_same ∙ on)
          (ap (λ (t : Tls). t.inside_lock) tls_same ∙ outside)
          (ap (λ (t : Tls). find_slot t.list b t.count) tls_same ∙ missed) (owns_same ∙ owned) still
          zero timed,
    )
