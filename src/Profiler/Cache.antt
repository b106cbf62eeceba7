-- ===== src/Profiler/Cache.antt =====
-- How many samples wait in the profiler, how many it destroyed and how many lines it wrote.
use contention_prof.Base.{
  arith, ℕ, suc, ◌+◌, ◌≤◌, ◌≡◌, refl, ap, ◌∙◌, ◌==◌, Bool, true, false, List, [], ◌∷◌, ◌++◌, ltb,
  length, map, inl, inr, Bool-cases, length-append, length-map, le→ltb_false, ltb_false→le,
}
use contention_prof.Profiler.{
  SampledContention, ContentionProfiler, new_profiler, init_if_needed, is_cached, merge_in, line_of,
  flush_to_disk, dump_and_destroy, dump_all, destroy_profiler, max_cached_contentions,
}

module _ {ℓ} {C : Type ℓ} (add : C → C → C) (ceil : C → ℕ) where
  length-merge_in :
      (c : SampledContention C) (l : List (SampledContention C))
      → length (merge_in add ceil c l) ≡ length l
  unfolding merge_in
  length-merge_in c [] = refl
  length-merge_in c (d ∷ l) = elim (Bool-cases (d.address == c.address)) [
    | inl same ↦ rw same
    | inr other ↦ rw other (ap suc (length-merge_in c l))
  ]

  -- At most 512 samples wait, and what was destroyed or waits is what came.
  pub record Inv (came : ℕ) (p : ContentionProfiler C) : Type 0 where
    pub few : length p.hash_set ≤ max_cached_contentions
    pub all : length p.destroyed + length p.hash_set ≡ came
    pub lines : length p.written ≤ length p.destroyed

  pub flush_lengths :
      (ending : Bool) (p : ContentionProfiler C)
      → let q = flush_to_disk add ceil ending p in
        (length q.written ≡ length p.written + length p.hash_set)
        × (length q.destroyed ≡ length p.destroyed + length p.hash_set)
        × (q.hash_set ≡ [])
  unfolding flush_to_disk
  flush_lengths ending p = (
    length-append p.written (map (line_of add ceil) p.hash_set)
        ∙ omega (arith, length-map (line_of add ceil) p.hash_set),
    length-append p.destroyed (map (λ (c : SampledContention C). c.address) p.hash_set)
        ∙ omega (arith, length-map (λ (c : SampledContention C). c.address) p.hash_set),
    refl,
  )

  flush-Inv :
      (ending : Bool) (n : ℕ) (p : ContentionProfiler C)
      → length p.destroyed + length p.hash_set ≡ n
      → length p.written ≤ length p.destroyed
      → Inv n (flush_to_disk add ceil ending p)
  flush-Inv ending n p all lines =
      let (w, d, e) = flush_lengths ending p in
      let none_left : length (flush_to_disk add ceil ending p).hash_set ≡ 0 = ap length e in
      record {
        few = omega (arith, none_left);
        all = omega (arith, none_left, d, all);
        lines = omega (arith, w, d, lines);
      }

  pub init_if_needed-Inv :
      (n : ℕ) (p : ContentionProfiler C) → Inv n p → Inv n (init_if_needed add ceil p)
  unfolding init_if_needed
  init_if_needed-Inv n p v = elim (Bool-cases p.init) [
    | inl on ↦ rw on (record { few = v.few; all = v.all; lines = v.lines })
    | inr off ↦ rw off (record { few = v.few; all = v.all; lines = v.lines })
  ]

  pub dump_and_destroy-Inv :
      (c : SampledContention C) (n : ℕ) (p : ContentionProfiler C)
      → Inv n p
      → Inv (n + 1) (dump_and_destroy add ceil c p)
  unfolding dump_and_destroy
  dump_and_destroy-Inv c n p₀ v₀ =
      let p = init_if_needed add ceil p₀ in
      let v = init_if_needed-Inv n p₀ v₀ in
      elim (Bool-cases (is_cached add ceil c.address p.hash_set)) [
        | inl there ↦
            let q : ContentionProfiler C = record p {
              hash_set = merge_in add ceil c p.hash_set;
              destroyed = p.destroyed ++ (c.address ∷ []);
            } in
            let size : length q.hash_set ≡ length p.hash_set = length-merge_in c p.hash_set in
            let gone : length q.destroyed ≡ length p.destroyed + 1 =
              length-append p.destroyed (c.address ∷ []) in
            let low : ltb max_cached_contentions (length q.hash_set) ≡ false =
              le→ltb_false _ _ (omega (arith, size, v.few)) in
            rw (there, low)
              (record {
                few = omega (arith, size, v.few);
                all = omega (arith, size, gone, v.all);
                lines = omega (arith, gone, v.lines);
              })
        | inr new ↦
            let q : ContentionProfiler C = record p { hash_set = c ∷ p.hash_set } in
            elim (Bool-cases (ltb max_cached_contentions (length q.hash_set))) [
              | inl many ↦ rw (new, many) (flush-Inv false (n + 1) q (omega (arith, v.all)) v.lines)
              | inr few ↦
                  rw (new, few)
                    (record {
                      few = ltb_false→le _ _ few;
                      all = omega (arith, v.all);
                      lines = v.lines;
                    })
            ]
      ]

  dump_all-Inv :
      (l : List (SampledContention C)) (n : ℕ) (p : ContentionProfiler C)
      → Inv n p
      → Inv (n + length l) (dump_all add ceil l p)
  dump_all-Inv [] n p v = let same : n + 0 ≡ n = omega arith in rw same v
  dump_all-Inv (c ∷ l) n p v =
      let w =
        dump_all-Inv l (n + 1) (dump_and_destroy add ceil c p) (dump_and_destroy-Inv c n p v) in
      let same : n + suc (length l) ≡ n + 1 + length l = omega arith in rw same w

  pub new_profiler-Inv : Inv 0 (new_profiler add ceil)
  new_profiler-Inv = record { few = omega arith; all = refl; lines = omega arith }

  -- After any samples at most 512 wait, and those that wait and those that were destroyed are as
  -- many as came; no more lines are written than samples destroyed.
  pub dump_all_lem :
      (l : List (SampledContention C))
      → let p = dump_all add ceil l (new_profiler add ceil) in
        (length p.hash_set ≤ max_cached_contentions)
        × (length p.destroyed + length p.hash_set ≡ length l)
        × (length p.written ≤ length p.destroyed)
  dump_all_lem l =
      let v = dump_all-Inv l 0 (new_profiler add ceil) new_profiler-Inv in
      (v.few, omega (arith, v.all), v.lines)

  pub init_if_needed_init : (p : ContentionProfiler C) → (init_if_needed add ceil p).init ≡ true
  unfolding init_if_needed
  init_if_needed_init p = elim (Bool-cases p.init) [ inl on ↦ rw on | inr off ↦ rw off ]

  dump_and_destroy_init :
      (c : SampledContention C) (p : ContentionProfiler C)
      → (dump_and_destroy add ceil c p).init ≡ true
  unfolding dump_and_destroy flush_to_disk
  dump_and_destroy_init c p₀ =
      let p = init_if_needed add ceil p₀ in
      let on = init_if_needed_init p₀ in
      elim (Bool-cases (is_cached add ceil c.address p.hash_set)) [
        | inl there ↦
            let q = merge_in add ceil c p.hash_set in
            elim (Bool-cases (ltb max_cached_contentions (length q))) [
              | inl many ↦ rw (there, many) on
              | inr few ↦ rw (there, few) on
            ]
        | inr new ↦ elim (Bool-cases (ltb max_cached_contentions (suc (length p.hash_set)))) [
          | inl many ↦ rw (new, many) on
          | inr few ↦ rw (new, few) on
        ]
      ]

  dump_all_init :
      (l : List (SampledContention C)) (p : ContentionProfiler C)
      → p.init ≡ true
      → (dump_all add ceil l p).init ≡ true
  dump_all_init [] p on = on
  dump_all_init (c ∷ l) p on = dump_all_init l _ (dump_and_destroy_init c p)

  -- When a profiler that got a sample is deleted, as many samples have been destroyed as came, and
  -- none waits.
  pub destroy_profiler-dump_all :
      (c : SampledContention C) (l : List (SampledContention C))
      → let p = destroy_profiler add ceil (dump_all add ceil (c ∷ l) (new_profiler add ceil)) in
        (length p.destroyed ≡ length (c ∷ l)) × (p.hash_set ≡ [])
  unfolding destroy_profiler
  destroy_profiler-dump_all c l =
      let q = dump_all add ceil (c ∷ l) (new_profiler add ceil) in
      let on : q.init ≡ true =
        dump_all_init l _ (dump_and_destroy_init c (new_profiler add ceil)) in
      let (few, all, lines) = dump_all_lem (c ∷ l) in
      let (w, d, none_left) = flush_lengths true q in
      rw (destroy_profiler, on) (omega (arith, all, d), none_left)

  -- After any samples, one at least, at most 512 wait, those that wait and those that were
  -- destroyed are as many as came, and no more lines are written than samples destroyed. When
  -- the profiler is then deleted, as many samples have been destroyed as came, and none waits.
  pub dump_all-destroy :
      (c : SampledContention C) (l : List (SampledContention C))
      → let p = dump_all add ceil (c ∷ l) (new_profiler add ceil) in
        let q = destroy_profiler add ceil p in
        (length p.hash_set ≤ max_cached_contentions)
        × (length p.destroyed + length p.hash_set ≡ length (c ∷ l))
        × (length p.written ≤ length p.destroyed)
        × (length q.destroyed ≡ length (c ∷ l))
        × (q.hash_set ≡ [])
  dump_all-destroy c l =
      let (few, all, lines) = dump_all_lem (c ∷ l) in
      let (destroyed, cleared) = destroy_profiler-dump_all c l in
      (few, all, lines, destroyed, cleared)
