-- ===== src/Series.antt =====
-- src/common/series.h: the last 60 seconds, 60 minutes, 24 hours and 30 days of a value.
-- The operator is an argument. `inplace_divide` has no specialisation in the sources and does
-- nothing. The array is a function of the index, in the layout of `Data`.
use contention_prof.Base.{
  ℕ, zero, suc, ◌+◌, ◌%◌, ◌==◌, Bool, true, false, List, [], ◌∷◌, leb, if◌then◌else◌,
}
pub mod Cascade
mod Tests

-- `SeriesBase` without its operator and its lock
pub record SeriesBase {ℓ} (A : Type ℓ) : Type ℓ where
  pub nsecond : ℕ
  pub nminute : ℕ
  pub nhour : ℕ
  pub nday : ℕ
  pub data_array : ℕ → A

module _ {ℓ} {A : Type ℓ} (op : A → A → A) where
  -- `_array[index] = value`
  abbrev pub write : (ℕ → A) → ℕ → A → ℕ → A
  write array i v j = if i == j then v else array j

  -- the constructor; `blank` is what the array holds
  unfoldable pub new_series : (ℕ → A) → SeriesBase A
  new_series blank = record { nsecond = 0; nminute = 0; nhour = 0; nday = 0; data_array = blank }

  -- the loop over the items from `base + i` on, `n` of them
  unfoldable pub sum_from : (ℕ → A) → (base i n : ℕ) → A → A
  sum_from array base i zero tmp = tmp
  sum_from array base i (suc n) tmp = sum_from array base (i + 1) n (op tmp (array (base + i)))

  unfoldable pub append_day : A → SeriesBase A → SeriesBase A
  append_day value s = record s {
    data_array = write s.data_array (144 + s.nday) value;
    nday = if leb 30 (s.nday + 1) then 0 else s.nday + 1;
  }

  unfoldable pub append_hour : A → SeriesBase A → SeriesBase A
  unfolding append_day sum_from
  append_hour value s =
      let array = write s.data_array (120 + s.nhour) value in
      if leb 24 (s.nhour + 1)
      then append_day (sum_from array 120 1 23 (array 120))
          (record s { data_array = array; nhour = 0 })
      else record s { data_array = array; nhour = s.nhour + 1 }

  unfoldable pub append_minute : A → SeriesBase A → SeriesBase A
  unfolding append_hour sum_from
  append_minute value s =
      let array = write s.data_array (60 + s.nminute) value in
      if leb 60 (s.nminute + 1)
      then append_hour (sum_from array 60 1 59 (array 60))
          (record s { data_array = array; nminute = 0 })
      else record s { data_array = array; nminute = s.nminute + 1 }

  unfoldable pub append_second : A → SeriesBase A → SeriesBase A
  unfolding append_minute sum_from
  append_second value s =
      let array = write s.data_array s.nsecond value in
      if leb 60 (s.nsecond + 1)
      then append_minute (sum_from array 0 1 59 (array 0))
          (record s { data_array = array; nsecond = 0 })
      else record s { data_array = array; nsecond = s.nsecond + 1 }

  -- one call of `append` for each value, in order
  abbrev pub append_all : List A → SeriesBase A → SeriesBase A
  append_all [] s = s
  append_all (v ∷ vs) s = append_all vs (append_second v s)

  -- one of the four loops of `describe`: `n` items of a ring of `size` at `base` that begins at
  -- `begin`, from the `i`-th on, each with its column
  unfoldable pub describe_ring : (ℕ → A) → (base size begin i c n : ℕ) → List (ℕ × A)
  describe_ring array base size begin i c zero = []
  describe_ring array base size begin i c (suc n) =
      (c, array (base + (i + begin) % size)) ∷ describe_ring array base size begin (i + 1) (c + 1) n
