-- ===== src/Contention/Lock.antt =====
-- The lock hook.
use contention_prof.Base.{ℕ, ◌<◌, ◌≡◌, not, ◌||◌, arith, ltb, ltb→lt, ◌==◌, inl, inr, Bool-cases}
use contention_prof.SpeedLimit.{Answer, is_collectable}
use contention_prof.Contention.{
  Site, Tls, Globals, LockEnv, entry_at, tls_max_count, refresh, claim_slot, add_site,
  lock_contended, lock_in_slot, lock_in_map, fill_site, waited, pthread_mutex_lock_impl,
  make_contention_site_invalid, map_index,
}
use contention_prof.Contention.Map.{is_free}
use contention_prof.Contention.Sites.{
  IsValid, MapIsUsable, refresh-IsValid, claim_slot-IsValid, write_csite-IsValid,
}

-- The two paths, each with its invariant.
pub lock_in_slot-IsValid :
    (env : LockEnv) (mutex range : ℕ) (tls : Tls) (g : Globals)
    → IsValid tls
    → tls.count < tls_max_count
    → IsValid (lock_in_slot env mutex range tls g).tls
unfolding lock_in_slot
lock_in_slot-IsValid env mutex range tls g v room =
    let claimed = claim_slot tls mutex in
    let w = claim_slot-IsValid tls mutex v room in
    let off = make_contention_site_invalid (entry_at claimed.list tls.count).csite in
    elim (Bool-cases (range == 0)) [
      | inl unsampled ↦ rw unsampled (write_csite-IsValid claimed tls.count off w)
      | inr sampled ↦ elim (Bool-cases (env.lock_result == 0)) [
        | inl locked ↦
            rw (sampled, locked) (write_csite-IsValid claimed tls.count (waited env range) w)
        | inr failed ↦ rw (sampled, failed) w
      ]
    ]

lock_in_slot_globals :
    (env : LockEnv) (mutex range : ℕ) (tls : Tls) (g : Globals)
    → (lock_in_slot env mutex range tls g).globals ≡ g
unfolding lock_in_slot
lock_in_slot_globals env mutex range tls g = elim (Bool-cases (range == 0)) [
  | inl unsampled ↦ rw unsampled
  | inr sampled ↦ elim (Bool-cases (env.lock_result == 0)) [
    | inl locked ↦ rw (sampled, locked)
    | inr failed ↦ rw (sampled, failed)
  ]
]

lock_in_map_tls :
    (env : LockEnv) (mutex range : ℕ) (tls : Tls) (g : Globals)
    → (lock_in_map env mutex range tls g).tls ≡ tls
unfolding lock_in_map
lock_in_map_tls env mutex range tls g = elim (Bool-cases (range == 0)) [
  | inl unsampled ↦ rw unsampled
  | inr sampled ↦ elim (Bool-cases (env.lock_result == 0)) [
    | inl locked ↦ rw (sampled, locked)
    | inr failed ↦ rw (sampled, failed)
  ]
]

add_then_fill :
    (seen mutex : ℕ) (g : Globals) (site : Site)
    → MapIsUsable g
    → 0 < site.sampling_range
    → let (slot, g') = add_site seen mutex g in MapIsUsable (fill_site slot site g')
unfolding add_site fill_site
add_then_fill seen mutex g site u good j = elim (Bool-cases (is_free seen g.cp_version)) [
  | inr taken ↦ rw taken (u j)
  | inl free ↦ elim (Bool-cases ((g.mutex_map (map_index mutex)).versioned_mutex == seen)) [
    | inr lost ↦ rw (free, lost) (u j)
    | inl won ↦
        rw (free, won)
          (elim (Bool-cases (map_index mutex == j)) [
            | inl here ↦ rw here (inr good)
            | inr there ↦ rw there (u j)
          ])
  ]
]

lock_in_map-MapIsUsable :
    (env : LockEnv) (mutex range : ℕ) (tls : Tls) (g : Globals)
    → MapIsUsable g
    → MapIsUsable (lock_in_map env mutex range tls g).globals
unfolding lock_in_map
lock_in_map-MapIsUsable env mutex range tls g u = elim (Bool-cases (range == 0)) [
  | inl unsampled ↦ rw unsampled u
  | inr sampled ↦ elim (Bool-cases (env.lock_result == 0)) [
    | inl locked ↦
        rw (sampled, locked) (add_then_fill env.seen mutex g (waited env range) u (ground arith))
    | inr failed ↦ rw (sampled, failed) u
  ]
]

-- Whatever the surroundings answer, the lock hook keeps the count within the three slots and
-- keeps a range that is not 0 in every owned entry of the map.
pub lock_impl_safe :
    (env : LockEnv) (mutex : ℕ) (tls : Tls) (g : Globals)
    → IsValid tls
    → MapIsUsable g
    → let r = pthread_mutex_lock_impl env mutex tls g in IsValid r.tls × MapIsUsable r.globals
unfolding pthread_mutex_lock_impl lock_contended
lock_impl_safe env mutex tls g v u = elim (Bool-cases (not g.cp || tls.inside_lock)) [
  | inl off ↦ rw off (v, u)
  | inr on ↦ elim (Bool-cases env.ebusy) [
    | inr free ↦ rw (on, free) (v, u)
    | inl busy ↦ rw (on, busy) contended
  ]
]
  where
    answer : Answer
    answer = is_collectable env.expected env.monotonic_us env.random g.cp_sl

    tls' : Tls
    tls' = refresh tls g.cp_version

    v' : IsValid tls'
    v' = refresh-IsValid tls g.cp_version v

    g' : Globals
    g' = record g { cp_sl = answer.limit }

    contended :
        IsValid (lock_contended env mutex tls g).tls
        × MapIsUsable (lock_contended env mutex tls g).globals
    contended = elim (Bool-cases (ltb tls'.count tls_max_count)) [
      | inl room ↦ rw room (
        lock_in_slot-IsValid env mutex answer.range tls' g' v' (ltb→lt _ _ room),
        rw (lock_in_slot_globals env mutex answer.range tls' g') u,
      )
      | inr none_left ↦ rw none_left (
        rw (lock_in_map_tls env mutex answer.range tls' g') v',
        lock_in_map-MapIsUsable env mutex answer.range tls' g' u,
      )
    ]
