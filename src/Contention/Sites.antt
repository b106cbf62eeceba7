-- ===== src/Contention/Sites.antt =====
-- The three thread-local slots, and what the hooks keep true of them and of the map.
use contention_prof.Base.{
  ℕ, zero, suc, ◌-◌, ◌%◌, ◌^◌, ◌≤◌, ◌<◌, ◌≡◌, ◌≢◌, refl, ap, List, [], ◌∷◌, some, arith, ◌==◌, set,
  length, length-set, inl, inr, ◌⊎◌, Bool-cases,
}
use contention_prof.Contention.{
  Site, MutexAndSite, Tls, MapEntry, Globals, entry_at, tls_max_count, refresh, claim_slot,
  write_csite, find_slot, drop_slot,
}

-- The list has its three slots, and the count stays within them.
pub record IsValid (tls : Tls) : Type 0 where
  pub slots : length tls.list ≡ tls_max_count
  pub within : tls.count ≤ tls_max_count

-- Every entry of the map that a mutex owns has a sampling range that is not 0.
abbrev pub IsUsable : MapEntry → Type 0
IsUsable e = (e.versioned_mutex % 2 ^ 48 ≡ 0) ⊎ (0 < e.csite.sampling_range)

abbrev pub MapIsUsable : Globals → Type 0
MapIsUsable g = (i : ℕ) → IsUsable (g.mutex_map i)

pub entry_at-set_self :
    (l : List MutexAndSite) (i : ℕ) (e : MutexAndSite) → i < length l → entry_at (set l i e) i ≡ e
entry_at-set_self [] i e h = elim h [ ]
entry_at-set_self (x ∷ l) zero e h = refl
entry_at-set_self (x ∷ l) (suc i) e h = entry_at-set_self l i e (omega arith)

pub entry_at-set_ne :
    (l : List MutexAndSite) (i j : ℕ) (e : MutexAndSite)
    → i ≢ j
    → entry_at (set l i e) j ≡ entry_at l j
entry_at-set_ne [] i j e h = refl
entry_at-set_ne (x ∷ l) zero zero e h = absurd (h refl)
entry_at-set_ne (x ∷ l) zero (suc j) e h = refl
entry_at-set_ne (x ∷ l) (suc i) zero e h = refl
entry_at-set_ne (x ∷ l) (suc i) (suc j) e h = entry_at-set_ne l i j e (λ p. h (ap suc p))

pub refresh-IsValid : (tls : Tls) (version : ℕ) → IsValid tls → IsValid (refresh tls version)
unfolding refresh
refresh-IsValid tls version v = ground arith

pub claim_slot-IsValid :
    (tls : Tls) (mutex : ℕ)
    → IsValid tls
    → tls.count < tls_max_count
    → IsValid (claim_slot tls mutex)
unfolding claim_slot
claim_slot-IsValid tls mutex v room = record {
  slots = omega (
    arith,
    v.slots,
    length-set tls.list tls.count (record (entry_at tls.list tls.count) { mutex = mutex }),
  );
  within = omega arith;
}

pub write_csite-IsValid :
    (tls : Tls) (i : ℕ) (site : Site) → IsValid tls → IsValid (write_csite tls i site)
write_csite-IsValid tls i site v = record {
  slots =
      omega (arith, v.slots, length-set tls.list i (record (entry_at tls.list i) { csite = site }));
  within = v.within;
}

pub drop_slot-IsValid : (tls : Tls) (i : ℕ) → IsValid tls → IsValid (drop_slot tls i)
unfolding drop_slot
drop_slot-IsValid tls i v = record {
  slots = omega (arith, v.slots, length-set tls.list i (entry_at tls.list (tls.count - 1)));
  within = omega (arith, v.within);
}

-- The slot that the search finds is below the count and holds the mutex.
pub find_slot-some :
    (l : List MutexAndSite) (mutex n i : ℕ)
    → find_slot l mutex n ≡ some i
    → (i < n) × ((entry_at l i).mutex ≡ mutex)
unfolding find_slot
find_slot-some l mutex zero i e = absurd (ground arith)
find_slot-some l mutex (suc n) i e = elim (Bool-cases ((entry_at l n).mutex == mutex)) [
  | inl hit ↦ let found : n ≡ i = ground arith in (omega arith, ground arith)
  | inr miss ↦
      let later : find_slot l mutex n ≡ some i = ground arith in
      let (lt, at) = find_slot-some l mutex n i later in (omega arith, at)
]
