-- ===== src/Contention.antt =====
-- src/contention.cpp: the hooks for `pthread_mutex_lock` and `pthread_mutex_unlock`.
-- A mutex is its address. What the real functions, the clock and the random words answer during one
-- call is a record of arguments. An `int64_t` or `uint64_t` is a word. Other threads write the map
-- during a call only where an argument says so: `seen` is what the load of the lock hook saw, and
-- `others` is what they do between the accesses of the unlock hook to its entry.
pub mod Map
pub mod Sites
pub mod Lock
pub mod Unlock
pub mod Race
pub mod Wait
mod Tests
use Prim.Native.Nat.{bit_or}
use contention_prof.Base.{
  ℕ, zero, suc, ◌+◌, ◌-◌, ◌*◌, ◌/◌, ◌%◌, ◌^◌, Bool, true, false, not, ◌||◌, List, [], ◌∷◌, Option,
  none, some, ltb, ◌==◌, if◌then◌else◌, u64, sub64, get_elem?, set,
}
use contention_prof.Hash.{fmix64}
use contention_prof.SpeedLimit.{SpeedLimit, Answer, sampling_base, is_collectable}
use contention_prof.Collector

-- `pthread_contention_site_t`
pub record Site : Type 0 where
  pub duration_ns : ℕ
  pub sampling_range : ℕ

-- `MutexAndContentionSite`
pub record MutexAndSite : Type 0 where
  pub mutex : ℕ
  pub csite : Site

-- `TLSPthreadContentionSites` and `tls_inside_lock`, one of each for a thread
pub record Tls : Type 0 where
  pub count : ℕ
  pub cp_version : ℕ
  pub list : List MutexAndSite
  pub inside_lock : Bool

-- `MutexMapEntry`
pub record MapEntry : Type 0 where
  pub versioned_mutex : ℕ
  pub csite : Site

-- `g_cp` (whether it is set), `g_cp_version`, `g_mutex_map` and `g_cp_sl`
pub record Globals : Type 0 where
  pub cp : Bool
  pub cp_version : ℕ
  pub mutex_map : ℕ → MapEntry
  pub cp_sl : SpeedLimit

abbrev pub tls_max_count : ℕ
tls_max_count = 3

abbrev pub mutex_map_size : ℕ
mutex_map_size = 1024

-- `is_contention_site_valid`
unfoldable pub is_contention_site_valid : Site → Bool
is_contention_site_valid cs = not (cs.sampling_range == 0)

-- `make_contention_site_invalid`
unfoldable pub make_contention_site_invalid : Site → Site
make_contention_site_invalid cs = record cs { sampling_range = 0 }

-- `hash_mutex_ptr(mutex) & (MUTEX_MAP_SIZE - 1)`
unfoldable pub map_index : ℕ → ℕ
map_index mutex = fmix64 mutex % mutex_map_size

abbrev pub write_entry : (ℕ → MapEntry) → ℕ → MapEntry → ℕ → MapEntry
write_entry m i e j = if i == j then e else m j

-- `add_pthread_contention_site`: the index of the entry, if the mutex got it. `expected` is what
-- the relaxed load saw, which another thread may have changed before the compare-and-exchange.
unfoldable pub add_site : (expected mutex : ℕ) → Globals → Option ℕ × Globals
unfolding map_index
add_site expected mutex g =
    let i = map_index mutex in
    let entry = g.mutex_map i in
    if (expected == 0) || not (expected / 2 ^ 48 == g.cp_version % 2 ^ 16)
    then (if entry.versioned_mutex == expected
        then (
          some i,
          record g {
            mutex_map =
                write_entry g.mutex_map i
                  (record entry { versioned_mutex = bit_or (u64 (g.cp_version * 2 ^ 48)) mutex });
          },
        )
        else (none, g))
    else (none, g)

-- `csite->… = …` through the address of an entry of the map
abbrev pub write_map_csite : Globals → ℕ → Site → Globals
write_map_csite g i site = record g {
  mutex_map = write_entry g.mutex_map i (record (g.mutex_map i) { csite = site });
}

-- The four accesses of `remove_pthread_contention_site` to the entry: the load with its test, the
-- copy, the invalidation and the store.
unfoldable pub owns_entry : (mutex : ℕ) → Globals → Bool
unfolding map_index
owns_entry mutex g = (g.mutex_map (map_index mutex)).versioned_mutex % 2 ^ 48 == mutex

unfoldable pub copy_csite : (mutex : ℕ) → Globals → Site
unfolding map_index
copy_csite mutex g = (g.mutex_map (map_index mutex)).csite

unfoldable pub invalidate_csite : (mutex : ℕ) → Globals → Globals
unfolding map_index make_contention_site_invalid
invalidate_csite mutex g =
    let i = map_index mutex in
    write_map_csite g i (make_contention_site_invalid (g.mutex_map i).csite)

unfoldable pub release_entry : (mutex : ℕ) → Globals → Globals
unfolding map_index
release_entry mutex g =
    let i = map_index mutex in
    record g {
      mutex_map = write_entry g.mutex_map i (record (g.mutex_map i) { versioned_mutex = 0 });
    }

-- What other threads do between these accesses.
pub record Others : Type 0 where
  pub after_load : Globals → Globals
  pub after_copy : Globals → Globals
  pub after_invalidate : Globals → Globals

abbrev pub no_others : Others
no_others = record { after_load = λ g. g; after_copy = λ g. g; after_invalidate = λ g. g }

-- `remove_pthread_contention_site`: `*saved_csite`, if the entry is the mutex's
unfoldable pub remove_site : Others → (mutex : ℕ) → Globals → Option Site × Globals
unfolding owns_entry copy_csite invalidate_csite release_entry
remove_site others mutex g =
    let at_copy = others.after_load g in
    let at_write = others.after_copy at_copy in
    let at_store = others.after_invalidate (invalidate_csite mutex at_write) in
    if owns_entry mutex g
    then (some (copy_csite mutex at_copy), release_entry mutex at_store)
    else (none, g)

-- What `submit_contention` hands to the collector. `count` is the fraction
-- `count_numerator / count_denominator`.
pub record Submission : Type 0 where
  pub duration_ns : ℕ
  pub count_numerator : ℕ
  pub count_denominator : ℕ
  pub accepted : Bool

-- `submit_contention`, on a pool that is not exhausted; `accepted` says whether the sample went to
-- the collector or was destroyed.
unfoldable pub submit_contention : Site → (now_ns last_active_cpuwide_us : ℕ) → Submission
submit_contention csite now_ns last_active_cpuwide_us = record {
  duration_ns = u64 (csite.duration_ns * sampling_base) / csite.sampling_range;
  count_numerator = sampling_base;
  count_denominator = csite.sampling_range;
  accepted = Collector.submit (now_ns / 1000) last_active_cpuwide_us;
}

-- What the surroundings answer during a call of the lock hook; `ebusy` says whether the trylock
-- failed because the mutex is held, and its result is then not used.
pub record LockEnv : Type 0 where
  pub expected : ℕ
  pub monotonic_us : ℕ
  pub random : ℕ
  pub ebusy : Bool
  pub trylock_result : ℕ
  pub lock_result : ℕ
  pub start_time_ns : ℕ
  pub end_time_ns : ℕ
  pub seen : ℕ

-- the result and the state after the call
pub record Locked : Type 0 where
  pub result : ℕ
  pub tls : Tls
  pub globals : Globals

-- `if (fast_alt.cp_version != g_cp_version)`
unfoldable pub refresh : Tls → ℕ → Tls
refresh tls version =
    if tls.cp_version == version then tls else record tls { cp_version = version; count = 0 }

-- `entry` of a slot of the list; no slot is read past the third
abbrev pub entry_at : List MutexAndSite → ℕ → MutexAndSite
entry_at [] i = record { mutex = 0; csite = record { duration_ns = 0; sampling_range = 0 } }
entry_at (e ∷ l) zero = e
entry_at (e ∷ l) (suc i) = entry_at l i

-- `entry.mutex = mutex` at a new slot; its `csite` keeps what it held
unfoldable pub claim_slot : Tls → ℕ → Tls
claim_slot tls mutex = record tls {
  list = set tls.list tls.count (record (entry_at tls.list tls.count) { mutex = mutex });
  count = tls.count + 1;
}

-- `*csite = site` through the address of slot `i`
abbrev pub write_csite : Tls → ℕ → Site → Tls
write_csite tls i site = record tls {
  list = set tls.list i (record (entry_at tls.list i) { csite = site });
}

-- the site that a sampled wait leaves
abbrev pub waited : LockEnv → ℕ → Site
waited env range = record {
  duration_ns = sub64 env.end_time_ns env.start_time_ns;
  sampling_range = range;
}

-- The lock hook with a slot left, where `range` is what `is_collectable` answered.
unfoldable pub lock_in_slot : LockEnv → ℕ → ℕ → Tls → Globals → Locked
unfolding claim_slot make_contention_site_invalid
lock_in_slot env mutex range tls g =
    let claimed = claim_slot tls mutex in
    if range == 0
    then record {
      result = env.lock_result;
      tls =
          write_csite claimed tls.count
            (make_contention_site_invalid (entry_at claimed.list tls.count).csite);
      globals = g;
    }
    else if env.lock_result == 0
    then record {
      result = env.lock_result;
      tls = write_csite claimed tls.count (waited env range);
      globals = g;
    }
    else record { result = env.lock_result; tls = claimed; globals = g }

-- `if (csite == nullptr) return res;`, or else the site is written
unfoldable pub fill_site : Option ℕ → Site → Globals → Globals
fill_site none site g = g
fill_site (some i) site g = write_map_csite g i site

-- The lock hook with no slot left.
unfoldable pub lock_in_map : LockEnv → ℕ → ℕ → Tls → Globals → Locked
unfolding add_site fill_site
lock_in_map env mutex range tls g =
    if range == 0
    then record { result = env.lock_result; tls = tls; globals = g }
    else if env.lock_result == 0
    then (let (slot, g') = add_site env.seen mutex g in
        record {
          result = env.lock_result;
          tls = tls;
          globals = fill_site slot (waited env range) g';
        })
    else record { result = env.lock_result; tls = tls; globals = g }

-- The part of the lock hook behind the test for contention.
unfoldable pub lock_contended : LockEnv → ℕ → Tls → Globals → Locked
unfolding refresh lock_in_slot lock_in_map
lock_contended env mutex tls₀ g₀ =
    let answer = is_collectable env.expected env.monotonic_us env.random g₀.cp_sl in
    let g = record g₀ { cp_sl = answer.limit } in
    let tls = refresh tls₀ g.cp_version in
    if ltb tls.count tls_max_count
    then lock_in_slot env mutex answer.range tls g
    else lock_in_map env mutex answer.range tls g

-- `pthread_mutex_lock_impl`
unfoldable pub pthread_mutex_lock_impl : LockEnv → ℕ → Tls → Globals → Locked
pthread_mutex_lock_impl env mutex tls g =
    if not g.cp || tls.inside_lock
    then record { result = env.lock_result; tls = tls; globals = g }
    else if env.ebusy
    then lock_contended env mutex tls g
    else record { result = env.trylock_result; tls = tls; globals = g }

pub record UnlockEnv : Type 0 where
  pub others : Others
  pub unlock_result : ℕ
  pub start_time_ns : ℕ
  pub end_time_ns : ℕ
  pub last_active_cpuwide_us : ℕ

pub record Unlocked : Type 0 where
  pub result : ℕ
  pub tls : Tls
  pub globals : Globals
  pub submitted : Option Submission

-- The loop over `i = count - 1, …, 0`: the first slot found that holds the mutex.
unfoldable pub find_slot : List MutexAndSite → ℕ → ℕ → Option ℕ
find_slot l mutex zero = none
find_slot l mutex (suc i) = if (entry_at l i).mutex == mutex then some i else find_slot l mutex i

-- `fast_alt.list[i] = fast_alt.list[--fast_alt.count]`
unfoldable pub drop_slot : Tls → ℕ → Tls
drop_slot tls i = record tls {
  list = set tls.list i (entry_at tls.list (tls.count - 1));
  count = tls.count - 1;
}

-- From the real unlock on: the wait is submitted if a start time was taken. The clock's 0 counts as
-- none, as in the source.
unfoldable pub finish : UnlockEnv → Option Site → Tls → Globals → Unlocked
unfolding submit_contention
finish env none tls g = record {
  result = env.unlock_result;
  tls = tls;
  globals = g;
  submitted = none;
}
finish env (some site) tls g =
    let saved : Site = record site {
      duration_ns = u64 (site.duration_ns + sub64 env.end_time_ns env.start_time_ns);
    } in
    record {
      result = env.unlock_result;
      tls = tls;
      globals = g;
      submitted =
          if env.start_time_ns == 0
          then none
          else some (submit_contention saved env.end_time_ns env.last_active_cpuwide_us);
    }

-- `pthread_mutex_unlock_impl`
unfoldable pub pthread_mutex_unlock_impl : UnlockEnv → ℕ → Tls → Globals → Unlocked
unfolding find_slot drop_slot is_contention_site_valid remove_site finish
pthread_mutex_unlock_impl env mutex tls g =
    if not g.cp || tls.inside_lock
    then finish env none tls g
    else elim (find_slot tls.list mutex tls.count) [
      | none ↦ let (site, g') = remove_site env.others mutex g in finish env site tls g'
      | some i ↦
          let site = (entry_at tls.list i).csite in
          finish env (if is_contention_site_valid site then some site else none) (drop_slot tls i) g
    ]
