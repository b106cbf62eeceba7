-- ===== src/Series/Cascade.antt =====
-- When the rings of a series turn, and what they hold.
use contention_prof.Base.{
  arith, ℕ, suc, ◌+◌, ◌/◌, ◌%◌, ◌≡◌, refl, ap, ◌∙◌, true, false, List, [], ◌∷◌, leb, length, inl,
  inr, Bool-cases,
}
use contention_prof.Series.{
  SeriesBase, write, sum_from, append_day, append_hour, append_minute, append_second, append_all,
}

-- The four positions after `n` values.
abbrev pub IsAt {ℓ} : {A : Type ℓ} → ℕ → SeriesBase A → Type 0
IsAt n s =
    (s.nsecond ≡ n % 60)
    × (s.nminute ≡ n / 60 % 60)
    × (s.nhour ≡ n / 60 / 60 % 24)
    × (s.nday ≡ n / 60 / 60 / 24 % 30)

-- A counter of 60 that turns with its count, or does not.
turn_60 :
    (p m : ℕ)
    → p ≡ m % 60
    → leb 60 (p + 1) ≡ true
    → (0 ≡ (m + 1) % 60) × (m / 60 + 1 ≡ (m + 1) / 60)
turn_60 p m e h = (ground arith, ground arith)

stay_60 :
    (p m : ℕ)
    → p ≡ m % 60
    → leb 60 (p + 1) ≡ false
    → (p + 1 ≡ (m + 1) % 60) × (m / 60 ≡ (m + 1) / 60)
stay_60 p m e h = (ground arith, ground arith)

module _ {ℓ} {A : Type ℓ} (op : A → A → A) where
  append_day_nday :
      (v : A) (s : SeriesBase A) (d : ℕ)
      → s.nday ≡ d % 30
      → let t = append_day op v s in
        (t.nsecond ≡ s.nsecond)
        × (t.nminute ≡ s.nminute)
        × (t.nhour ≡ s.nhour)
        × (t.nday ≡ (d + 1) % 30)
  unfolding append_day
  append_day_nday v s d e = elim (Bool-cases (leb 30 (s.nday + 1))) [
    | inl turn ↦ rw turn (refl, refl, refl, ground arith)
    | inr stay ↦ rw stay (refl, refl, refl, ground arith)
  ]

  append_hour_nhour :
      (v : A) (s : SeriesBase A) (h : ℕ)
      → s.nhour ≡ h % 24
      → s.nday ≡ h / 24 % 30
      → let t = append_hour op v s in
        (t.nsecond ≡ s.nsecond)
        × (t.nminute ≡ s.nminute)
        × (t.nhour ≡ (h + 1) % 24)
        × (t.nday ≡ (h + 1) / 24 % 30)
  unfolding append_hour
  append_hour_nhour v s h eh ed =
      let array = write op s.data_array (120 + s.nhour) v in
      elim (Bool-cases (leb 24 (s.nhour + 1))) [
        | inl turn ↦
            let (a, b, c, d) =
              append_day_nday (sum_from op array 120 1 23 (array 120))
                (record s { data_array = array; nhour = 0 }) (h / 24) ed in
            rw turn (a, b, c ∙ ground arith, d ∙ ground arith)
        | inr stay ↦ rw stay (refl, refl, ground arith, ground arith)
      ]

  append_minute_nminute :
      (v : A) (s : SeriesBase A) (m : ℕ)
      → s.nminute ≡ m % 60
      → s.nhour ≡ m / 60 % 24
      → s.nday ≡ m / 60 / 24 % 30
      → let t = append_minute op v s in
        (t.nsecond ≡ s.nsecond)
        × (t.nminute ≡ (m + 1) % 60)
        × (t.nhour ≡ (m + 1) / 60 % 24)
        × (t.nday ≡ (m + 1) / 60 / 24 % 30)
  unfolding append_minute
  append_minute_nminute v s m em eh ed =
      let array = write op s.data_array (60 + s.nminute) v in
      elim (Bool-cases (leb 60 (s.nminute + 1))) [
        | inl turn ↦
            let (r, q) = turn_60 s.nminute m em turn in
            let (a, b, c, d) =
              append_hour_nhour (sum_from op array 60 1 59 (array 60))
                (record s { data_array = array; nminute = 0 }) (m / 60) eh ed in
            rw turn (a, b ∙ r, c ∙ ap (λ k. k % 24) q, d ∙ ap (λ k. k / 24 % 30) q)
        | inr stay ↦
            let (r, q) = stay_60 s.nminute m em stay in
            rw stay (refl, r, eh ∙ ap (λ k. k % 24) q, ed ∙ ap (λ k. k / 24 % 30) q)
      ]

  append_second-IsAt :
      (v : A) (s : SeriesBase A) (n : ℕ) → IsAt n s → IsAt (n + 1) (append_second op v s)
  unfolding append_second
  append_second-IsAt v s n (es, em, eh, ed) =
      let array = write op s.data_array s.nsecond v in
      elim (Bool-cases (leb 60 (s.nsecond + 1))) [
        | inl turn ↦
            let (r, q) = turn_60 s.nsecond n es turn in
            let (a, b, c, d) =
              append_minute_nminute (sum_from op array 0 1 59 (array 0))
                (record s { data_array = array; nsecond = 0 }) (n / 60) em eh ed in
            rw turn (
              a ∙ r,
              b ∙ ap (λ k. k % 60) q,
              c ∙ ap (λ k. k / 60 % 24) q,
              d ∙ ap (λ k. k / 60 / 24 % 30) q,
            )
        | inr stay ↦
            let (r, q) = stay_60 s.nsecond n es stay in
            rw stay (
              r,
              em ∙ ap (λ k. k % 60) q,
              eh ∙ ap (λ k. k / 60 % 24) q,
              ed ∙ ap (λ k. k / 60 / 24 % 30) q,
            )
      ]

  -- From positions that agree with a count of values, any values more leave the positions of
  -- seconds, minutes, hours and days that agree with the new count.
  pub append_all-IsAt :
      (vs : List A) (s : SeriesBase A) (n : ℕ)
      → IsAt n s
      → IsAt (n + length vs) (append_all op vs s)
  append_all-IsAt [] s n at = ground arith
  append_all-IsAt (v ∷ vs) s n at =
      let t = append_second op v s in
      let later : IsAt (n + 1 + length vs) (append_all op vs t) =
        append_all-IsAt vs t (n + 1) (append_second-IsAt v s n at) in
      let same : n + suc (length vs) ≡ n + 1 + length vs = omega arith in rw same later
