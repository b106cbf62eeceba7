-- ===== src/Contention/Map.antt =====
-- The global map from mutexes to contention sites.
use Prim.Native.Nat.{bit_or}
use contention_prof.Base.{
  ℕ, ◌+◌, ◌*◌, ◌/◌, ◌%◌, ◌^◌, ◌<◌, ◌≡◌, ◌≢◌, refl, ◌∙◌, ap, Bool, true, false, not, ◌||◌, none,
  some, arith, ◌==◌, u64, inl, inr, ◌⊎◌, Bool-cases,
}
use contention_prof.Hash.Bits.{bit_or_shifted}
use contention_prof.Contention.{
  Globals, map_index, mutex_map_size, add_site, remove_site, no_others, owns_entry, copy_csite,
  invalidate_csite, release_entry, is_contention_site_valid,
}

-- `(g_cp_version << PTR_BITS) | mutex`: the version's low 16 bits above the mutex's address
pub versioned_lem :
    (version mutex : ℕ)
    → mutex < 2 ^ 48
    → bit_or (u64 (version * 2 ^ 48)) mutex ≡ version % 2 ^ 16 * 2 ^ 48 + mutex
versioned_lem version mutex h =
    let cut : u64 (version * 2 ^ 48) ≡ version % 2 ^ 16 * 2 ^ 48 = omega arith in
    ap (λ n. bit_or n mutex) cut ∙ bit_or_shifted 48 (version % 2 ^ 16) mutex h

-- Every mutex has an index inside the map.
pub map_index-lt : (mutex : ℕ) → map_index mutex < mutex_map_size
unfolding map_index
map_index-lt mutex = omega arith

-- The entry that was loaded has a mutex of this version, or is no more what was loaded.
abbrev pub Refuses : (seen versioned version : ℕ) → Type 0
Refuses seen versioned version =
    ((seen ≢ 0) × (seen / 2 ^ 48 ≡ version % 2 ^ 16)) ⊎ (versioned ≢ seen)

-- Whether an entry can be taken in this version: it is empty, or from another version.
abbrev pub is_free : ℕ → ℕ → Bool
is_free versioned version = (versioned == 0) || not (versioned / 2 ^ 48 == version % 2 ^ 16)

-- A mutex below 2 ^ 48 either gets its entry, and then the value that was loaded is empty or of
-- another version and was still there, the entry is the one of the mutex in this version and no
-- other changes; or it gets none and nothing changes, since the entry refuses it.
pub add_site_lem :
    (seen mutex : ℕ) (g : Globals)
    → mutex < 2 ^ 48
    → let (slot, g') = add_site seen mutex g in
      let i = map_index mutex in
      ((slot ≡ some i)
        × (is_free seen g.cp_version ≡ true)
        × ((g.mutex_map i).versioned_mutex ≡ seen)
        × ((g'.mutex_map i).versioned_mutex % 2 ^ 48 ≡ mutex)
        × ((g'.mutex_map i).versioned_mutex / 2 ^ 48 ≡ g.cp_version % 2 ^ 16)
        × ((j : ℕ) → i ≢ j → g'.mutex_map j ≡ g.mutex_map j))
      ⊎ ((slot ≡ none) × (g' ≡ g) × Refuses seen (g.mutex_map i).versioned_mutex g.cp_version)
unfolding add_site
add_site_lem seen mutex g small = elim (Bool-cases (is_free seen g.cp_version)) [
  | inr taken ↦ rw taken (inr (refl, refl, inl (ground arith, ground arith)))
  | inl free ↦ elim (Bool-cases ((g.mutex_map (map_index mutex)).versioned_mutex == seen)) [
    | inr lost ↦ rw (free, lost) (inr (refl, refl, inr (ground arith)))
    | inl won ↦
        let word = versioned_lem g.cp_version mutex small in
        rw (free, won)
          (inl (
            refl,
            refl,
            ground arith,
            ground (arith, word),
            ground (arith, word),
            λ j ne. ground arith,
          ))
  ]
]

-- With no other thread at the entry, a mutex that owns it gets its site, and the entry is empty and invalid after it;
-- otherwise nothing changes.
pub remove_site_lem :
    (mutex : ℕ) (g : Globals)
    → let (site, g') = remove_site no_others mutex g in
      let i = map_index mutex in
      ((site ≡ some (g.mutex_map i).csite)
        × ((g.mutex_map i).versioned_mutex % 2 ^ 48 ≡ mutex)
        × ((g'.mutex_map i).versioned_mutex ≡ 0)
        × (is_contention_site_valid (g'.mutex_map i).csite ≡ false)
        × ((j : ℕ) → i ≢ j → g'.mutex_map j ≡ g.mutex_map j))
      ⊎ ((site ≡ none) × (g' ≡ g) × ((g.mutex_map i).versioned_mutex % 2 ^ 48 ≢ mutex))
unfolding remove_site owns_entry copy_csite invalidate_csite release_entry is_contention_site_valid
remove_site_lem mutex g = elim (Bool-cases (owns_entry mutex g)) [
  | inl hit ↦ rw hit (inl (refl, ground arith, ground arith, ground arith, λ j ne. ground arith))
  | inr miss ↦ rw miss (inr (refl, refl, ground arith))
]

-- A mutex below 2 ^ 48 that is added either gets its entry, and then the value that was loaded
-- is empty or of another version and was still there, the entry is the one of the mutex in this
-- version and no other changes; or it gets none and nothing changes, and then the value that was
-- loaded is not empty and of this version, or was no longer there. One that is removed, with no
-- other thread at the entry meanwhile, gets its site if it owns its entry, which is empty and
-- invalid after it; otherwise nothing changes.
pub add-remove_site :
    (seen mutex : ℕ) (g : Globals)
    → mutex < 2 ^ 48
    → let i = map_index mutex in
      (let (slot, g') = add_site seen mutex g in
        ((slot ≡ some i)
          × (is_free seen g.cp_version ≡ true)
          × ((g.mutex_map i).versioned_mutex ≡ seen)
          × ((g'.mutex_map i).versioned_mutex % 2 ^ 48 ≡ mutex)
          × ((g'.mutex_map i).versioned_mutex / 2 ^ 48 ≡ g.cp_version % 2 ^ 16)
          × ((j : ℕ) → i ≢ j → g'.mutex_map j ≡ g.mutex_map j))
        ⊎ ((slot ≡ none) × (g' ≡ g) × Refuses seen (g.mutex_map i).versioned_mutex g.cp_version))
      × (let (site, g') = remove_site no_others mutex g in
          ((site ≡ some (g.mutex_map i).csite)
            × ((g.mutex_map i).versioned_mutex % 2 ^ 48 ≡ mutex)
            × ((g'.mutex_map i).versioned_mutex ≡ 0)
            × (is_contention_site_valid (g'.mutex_map i).csite ≡ false)
            × ((j : ℕ) → i ≢ j → g'.mutex_map j ≡ g.mutex_map j))
          ⊎ ((site ≡ none) × (g' ≡ g) × ((g.mutex_map i).versioned_mutex % 2 ^ 48 ≢ mutex)))
add-remove_site seen mutex g small = (add_site_lem seen mutex g small, remove_site_lem mutex g)
