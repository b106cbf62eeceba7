-- ===== src/Sampler/Rounds/Life.antt =====
-- What becomes of a sampler.
use contention_prof.Base.{
  arith, ℕ, suc, ◌+◌, ◌<◌, ◌≤◌, ◌≡◌, refl, ap, ◌∙◌, Bool, true, false, List, [], ◌∷◌, ◌++◌, ◌==◌,
  ltb, leb, if◌then◌else◌, inl, inr, Bool-cases, ==→eq,
}
use contention_prof.AgentGroup.Ids.{one_if, occurrences}
use contention_prof.Sampler.Rounds.{
  Samplers, schedule, destroy, take_sample_of, visit, count_nosleep, Clock, visit_all, Reach,
  warn_nosleep_threshold,
}

occurrences-append :
    (p : ℕ) (l k : List ℕ) → occurrences p (l ++ k) ≡ occurrences p l + occurrences p k
occurrences-append p [] k = omega arith
occurrences-append p (x ∷ l) k = omega (arith, occurrences-append p l k)

-- The visits keep the samplers that are in use and delete the others.
visit_lem :
    (used : ℕ → Bool) (l gone : List ℕ) (samples : ℕ → ℕ) (p : ℕ)
    → let (kept, gone', samples') = visit used l gone samples in
      (occurrences p kept ≡ (if used p then occurrences p l else 0))
      × (occurrences p gone' ≡ (if used p then 0 else occurrences p l) + occurrences p gone)
      × (samples' p ≡ (if used p then occurrences p l else 0) + samples p)
unfolding visit
visit_lem used [] gone samples p = (ground arith, ground arith, ground arith)
visit_lem used (x ∷ l) gone samples p = elim (Bool-cases (used x)) [
  | inl in_use ↦ rw in_use (
      let (left, gone, taken) = visit_lem used l gone (take_sample_of x samples) p in
      let link : (p == x) ≡ true → used p ≡ true = λ e. ap used (==→eq p x e) ∙ in_use in
      elim (Bool-cases (p == x)) [
        | inl same ↦ let e : used p ≡ true = link same in (ground arith, ground arith, ground arith)
        | inr other ↦ (ground arith, ground arith, ground arith)
      ])
  | inr destroyed ↦ rw destroyed (
      let (left, gone, taken) = visit_lem used l (x ∷ gone) samples p in
      let link : (p == x) ≡ true → used p ≡ false = λ e. ap used (==→eq p x e) ∙ destroyed in
      elim (Bool-cases (p == x)) [
        | inl same ↦
            let e : used p ≡ false = link same in (ground arith, ground arith, ground arith)
        | inr other ↦ (ground arith, ground arith, ground arith)
      ])
]

pub record Inv (rounds : ℕ) (born : ℕ → ℕ) (s : Samplers) : Type 0 where
  pub once :
      (p : ℕ)
      → occurrences p s.waiting + occurrences p s.root + occurrences p s.deleted
        ≡ one_if (ltb p s.made)
  pub alive : (p : ℕ) → s.used p ≡ true → occurrences p s.deleted ≡ 0
  pub made : (p : ℕ) → s.used p ≡ true → p < s.made
  pub sampled : (p : ℕ) → s.used p ≡ true → s.samples p + born p ≡ rounds
  pub unborn : (p : ℕ) → s.made ≤ p → s.samples p ≡ 0

schedule-Inv :
    {n : ℕ} {born : ℕ → ℕ} {s : Samplers}
    → Inv n born s
    → Inv n (λ p. if p == s.made then n else born p) (schedule s)
unfolding schedule
schedule-Inv {n} {born} {s} inv = record {
  once = λ p. ground (arith, inv.once p, occurrences-append p s.waiting (s.made ∷ []));
  alive = λ p e. ground (arith, inv.alive p, inv.once p);
  made = λ p e. ground (arith, inv.made p);
  sampled = λ p e. ground (arith, inv.sampled p, inv.unborn p);
  unborn = λ p above. inv.unborn p (omega arith);
}

destroy-Inv :
    {n : ℕ} {born : ℕ → ℕ} {s : Samplers} (q : ℕ) → Inv n born s → Inv n born (destroy q s)
unfolding destroy
destroy-Inv {n} {born} {s} q inv = record {
  once = inv.once;
  alive = λ p e. ground (arith, inv.alive p);
  made = λ p e. ground (arith, inv.made p);
  sampled = λ p e. ground (arith, inv.sampled p);
  unborn = inv.unborn;
}

visit_all-Inv :
    {n : ℕ} {born : ℕ → ℕ} {s : Samplers} (clock : Clock)
    → Inv n born s
    → Inv (suc n) born (visit_all clock s)
unfolding visit_all
visit_all-Inv {n} {born} {s} clock inv = record {
  once = λ p. ground (arith, inv.once p, split p, visited p);
  alive = λ p e. ground (arith, inv.alive p, visited p);
  made = inv.made;
  sampled =
      λ p e. ground (arith, inv.sampled p, inv.alive p, inv.made p, inv.once p, split p, visited p);
  unborn = λ p above. ground (arith, inv.unborn p, inv.once p, split p, visited p);
}
  where
    split :
        (p : ℕ)
        → occurrences p (s.root ++ s.waiting) ≡ occurrences p s.root + occurrences p s.waiting
    split p = occurrences-append p s.root s.waiting

    visited :
        (p : ℕ)
        → let (kept, gone, samples) = visit s.used (s.root ++ s.waiting) s.deleted s.samples in
          (occurrences p kept ≡ (if s.used p then occurrences p (s.root ++ s.waiting) else 0))
          × (occurrences p gone
              ≡ (if s.used p then 0 else occurrences p (s.root ++ s.waiting))
                + occurrences p s.deleted)
          × (samples p
              ≡ (if s.used p then occurrences p (s.root ++ s.waiting) else 0) + s.samples p)
    visited p = visit_lem s.used (s.root ++ s.waiting) s.deleted s.samples p

Inv-counts :
    {n : ℕ} {born : ℕ → ℕ} {s : Samplers} (busy warned : ℕ)
    → Inv n born s
    → Inv n born (record s { consecutive_nosleep = busy; warnings = warned })
Inv-counts busy warned inv = record {
  once = inv.once;
  alive = inv.alive;
  made = inv.made;
  sampled = inv.sampled;
  unborn = inv.unborn;
}

count_nosleep-Inv :
    {n : ℕ} {born : ℕ → ℕ} {s : Samplers} (slept : Bool)
    → Inv n born s
    → Inv n born (count_nosleep slept s)
unfolding count_nosleep
count_nosleep-Inv {n} {born} {s} slept inv = elim (Bool-cases slept) [
  | inl rested ↦ rw (count_nosleep, rested) (Inv-counts 0 s.warnings inv)
  | inr busy ↦ elim (Bool-cases (leb warn_nosleep_threshold (s.consecutive_nosleep + 1))) [
    | inl often ↦ rw (count_nosleep, busy, often) (Inv-counts 0 (s.warnings + 1) inv)
    | inr seldom ↦
        rw (count_nosleep, busy, seldom) (Inv-counts (s.consecutive_nosleep + 1) s.warnings inv)
  ]
]

Reach-Inv : {n : ℕ} {born : ℕ → ℕ} {s : Samplers} → Reach n born s → Inv n born s
Reach-Inv Reach.start = record {
  once = λ p. ground arith;
  alive = λ p e. refl;
  made = λ p e. cc;
  sampled = λ p e. cc;
  unborn = λ p above. refl;
}
Reach-Inv (Reach.schedules r) = schedule-Inv (Reach-Inv r)
Reach-Inv (Reach.destroys p lt r) = destroy-Inv p (Reach-Inv r)
Reach-Inv (Reach.visits clock r) = visit_all-Inv clock (Reach-Inv r)
Reach-Inv (Reach.pauses slept r) = count_nosleep-Inv slept (Reach-Inv r)

-- Whatever samplers are scheduled and destroyed and whatever rounds there are, in any order, a
-- sampler that was made is once in the reducer, in the list of the thread or among the deleted.
-- One that is in use was not deleted and took a sample in each round since it was made. One that
-- was destroyed has been deleted once after the visits of the next round, which take no sample
-- of it.
pub sampler_life :
    {n : ℕ} {born : ℕ → ℕ} {s : Samplers}
    → Reach n born s
    → (p : ℕ) → p < s.made
    → (clock : Clock)
    → (occurrences p s.waiting + occurrences p s.root + occurrences p s.deleted ≡ 1)
      × (s.used p ≡ true → (occurrences p s.deleted ≡ 0) × (s.samples p + born p ≡ n))
      × (s.used p ≡ false
          → (occurrences p (visit_all clock s).deleted ≡ 1)
            × ((visit_all clock s).samples p ≡ s.samples p))
unfolding visit_all
sampler_life {n} {born} {s} r p lt clock =
    let inv = Reach-Inv r in
    let one : one_if (ltb p s.made) ≡ 1 = ground arith in
    let split = occurrences-append p s.root s.waiting in
    let visited = visit_lem s.used (s.root ++ s.waiting) s.deleted s.samples p in
    (
      inv.once p ∙ one,
      λ e. (inv.alive p e, inv.sampled p e),
      λ e. (ground (arith, inv.once p), ground arith),
    )
