-- ===== src/Contention/Unlock.antt =====
-- The unlock hook.
use mathlib.Core.Path.{subst}
use contention_prof.Base.{
  ℕ, ◌<◌, ◌≡◌, ◌≢◌, refl, sym, ap, true, false, not, ◌||◌, Option, none, some, arith, ◌==◌,
  if◌then◌else◌, inl, inr, ◌⊎◌, Bool-cases, Option-cases,
}
use contention_prof.Contention.{
  Site, Tls, Globals, UnlockEnv, Submission, entry_at, find_slot, drop_slot, remove_site, finish,
  pthread_mutex_unlock_impl, is_contention_site_valid, map_index, Others, owns_entry, copy_csite,
  invalidate_csite, release_entry,
}
use contention_prof.Contention.Sites.{IsValid, IsUsable, MapIsUsable, drop_slot-IsValid}

-- Nothing is divided by 0: what is submitted has a positive divisor.
abbrev pub Divides : Option Submission → Type 0
Divides none = Unit {0}
Divides (some s) = 0 < s.count_denominator

finish-Divides :
    (env : UnlockEnv) (site : Site) (tls : Tls) (g : Globals)
    → 0 < site.sampling_range
    → Divides (finish env (some site) tls g).submitted
unfolding finish
finish-Divides env site tls g good = elim (Bool-cases (env.start_time_ns == 0)) [
  | inl no_time ↦ rw no_time tt
  | inr timed ↦ rw timed good
]

finish_state :
    (env : UnlockEnv) (site : Option Site) (tls : Tls) (g : Globals)
    → ((finish env site tls g).tls ≡ tls) × ((finish env site tls g).globals ≡ g)
unfolding finish
finish_state env none tls g = (refl, refl)
finish_state env (some site) tls g = (refl, refl)

-- Other threads do not write the site of the mutex's entry between the load and the copy, and keep
-- the other entries usable.
pub record LeavesSite (others : Others) (mutex : ℕ) : Type 0 where
  pub same_site : (g : Globals) → copy_csite mutex (others.after_load g) ≡ copy_csite mutex g
  pub loaded :
      (g : Globals) (j : ℕ)
      → map_index mutex ≢ j
      → IsUsable (g.mutex_map j)
      → IsUsable ((others.after_load g).mutex_map j)
  pub copied :
      (g : Globals) (j : ℕ)
      → map_index mutex ≢ j
      → IsUsable (g.mutex_map j)
      → IsUsable ((others.after_copy g).mutex_map j)
  pub invalidated :
      (g : Globals) (j : ℕ)
      → map_index mutex ≢ j
      → IsUsable (g.mutex_map j)
      → IsUsable ((others.after_invalidate g).mutex_map j)

-- The site of an owned entry is usable.
copy_csite-usable :
    (mutex : ℕ) (g : Globals)
    → 0 < mutex
    → owns_entry mutex g ≡ true
    → MapIsUsable g
    → 0 < (copy_csite mutex g).sampling_range
unfolding owns_entry copy_csite
copy_csite-usable mutex g pos hit u = elim (u (map_index mutex)) [
  | inl empty ↦ absurd (ground arith)
  | inr good ↦ good
]

release_entry-IsUsable :
    (mutex : ℕ) (g : Globals)
    → ((j : ℕ) → map_index mutex ≢ j → IsUsable (g.mutex_map j))
    → MapIsUsable (release_entry mutex g)
unfolding release_entry
release_entry-IsUsable mutex g rest j = elim (Bool-cases (map_index mutex == j)) [
  | inl here ↦ rw here (inl refl)
  | inr there ↦ rw there (rest j (λ e. ground arith))
]

invalidate_csite-other :
    (mutex : ℕ) (g : Globals) (j : ℕ)
    → map_index mutex ≢ j
    → (invalidate_csite mutex g).mutex_map j ≡ g.mutex_map j
unfolding invalidate_csite
invalidate_csite-other mutex g j other = ground arith

-- What the map gives back is usable, and the map stays so.
remove_site-IsUsable :
    (others : Others) (mutex : ℕ) (g : Globals)
    → 0 < mutex
    → LeavesSite others mutex
    → MapIsUsable g
    → let (site, g') = remove_site others mutex g in
      ((site ≡ none) ⊎ ((s : Site) × (site ≡ some s) × (0 < s.sampling_range))) × MapIsUsable g'
unfolding remove_site
remove_site-IsUsable others mutex g pos leaves u = elim (Bool-cases (owns_entry mutex g)) [
  | inr miss ↦ rw miss (inl refl, u)
  | inl hit ↦
      let at_copy = others.after_load g in
      let at_write = others.after_copy at_copy in
      let written = invalidate_csite mutex at_write in
      let same = ap (λ (s : Site). s.sampling_range) (leaves.same_site g) in
      rw hit (
        inr (
          copy_csite mutex at_copy,
          refl,
          omega (arith, same, copy_csite-usable mutex g pos hit u),
        ),
        release_entry-IsUsable mutex (others.after_invalidate written) (λ j other.
            leaves.invalidated written j other (
              subst IsUsable (sym (invalidate_csite-other mutex at_write j other))
                (leaves.copied at_copy j other (leaves.loaded g j other (u j))))),
      )
]

pub unlock_found :
    (env : UnlockEnv) (mutex : ℕ) (tls : Tls) (g : Globals)
    → (not g.cp || tls.inside_lock) ≡ false
    → (i : ℕ) → find_slot tls.list mutex tls.count ≡ some i
    → pthread_mutex_unlock_impl env mutex tls g
      ≡ finish env
          (if is_contention_site_valid (entry_at tls.list i).csite
            then some (entry_at tls.list i).csite
            else none)
          (drop_slot tls i)
          g
unfolding pthread_mutex_unlock_impl
unlock_found env mutex tls g on i found = rw (on, found)

pub unlock_missed :
    (env : UnlockEnv) (mutex : ℕ) (tls : Tls) (g : Globals)
    → (not g.cp || tls.inside_lock) ≡ false
    → find_slot tls.list mutex tls.count ≡ none
    → pthread_mutex_unlock_impl env mutex tls g
      ≡ finish env (remove_site env.others mutex g).0 tls (remove_site env.others mutex g).1
unfolding pthread_mutex_unlock_impl
unlock_missed env mutex tls g on missed = rw (on, missed)

unlock_off :
    (env : UnlockEnv) (mutex : ℕ) (tls : Tls) (g : Globals)
    → (not g.cp || tls.inside_lock) ≡ true
    → pthread_mutex_unlock_impl env mutex tls g ≡ finish env none tls g
unfolding pthread_mutex_unlock_impl
unlock_off env mutex tls g off = rw off

valid_choice :
    (s : Site)
    → let c = if is_contention_site_valid s then some s else none in
      (c ≡ none) ⊎ ((x : Site) × (c ≡ some x) × (0 < x.sampling_range))
unfolding is_contention_site_valid
valid_choice s = elim (Bool-cases (s.sampling_range == 0)) [
  | inl zero_range ↦ rw zero_range (inl refl)
  | inr good ↦ rw good (inr (s, refl, ground arith))
]

finish-Safe :
    (env : UnlockEnv) (site : Option Site) (tls : Tls) (g : Globals)
    → IsValid tls
    → MapIsUsable g
    → (site ≡ none) ⊎ ((s : Site) × (site ≡ some s) × (0 < s.sampling_range))
    → let r = finish env site tls g in IsValid r.tls × MapIsUsable r.globals × Divides r.submitted
unfolding finish
finish-Safe env none tls g v u c = (v, u, tt)
finish-Safe env (some site) tls g v u (inl e) = absurd (ground arith)
finish-Safe env (some site) tls g v u (inr (s, e, good)) =
    let same : site ≡ s = ground arith in (v, u, finish-Divides env site tls g (ground arith))

-- For a mutex that is not NULL, if other threads do not write the site of its entry in the map
-- between the load and the copy, and keep a range that is not 0 in the other owned entries: the
-- unlock hook keeps the count within the three slots, keeps a range that is not 0 in every owned
-- entry of the map, and does not divide by 0 in what it submits.
pub unlock_impl_safe :
    (env : UnlockEnv) (mutex : ℕ) (tls : Tls) (g : Globals)
    → 0 < mutex
    → LeavesSite env.others mutex
    → IsValid tls
    → MapIsUsable g
    → let r = pthread_mutex_unlock_impl env mutex tls g in
      IsValid r.tls × MapIsUsable r.globals × Divides r.submitted
unlock_impl_safe env mutex tls g pos leaves v u = elim (Bool-cases (not g.cp || tls.inside_lock)) [
  | inl off ↦ rw (unlock_off env mutex tls g off) (finish-Safe env none tls g v u (inl refl))
  | inr on ↦ elim (Option-cases (find_slot tls.list mutex tls.count)) [
    | inr (i, found) ↦ rw (unlock_found env mutex tls g on i found) (
        finish-Safe env _ (drop_slot tls i) g (drop_slot-IsValid tls i v) u
          (valid_choice (entry_at tls.list i).csite))
    | inl missed ↦
        let (site, u') = remove_site-IsUsable env.others mutex g pos leaves u in
        rw (unlock_missed env mutex tls g on missed) (
          finish-Safe env (remove_site env.others mutex g).0 tls (remove_site env.others mutex g).1
            v u' site)
  ]
]
