-- ===== src/Collector/Order.antt =====
-- Which samples are dumped, and in which order.
use mathlib.Core.Path.{subst, subst₂}
use mathlib.Core.List.{append-nil, append_assoc}
use contention_prof.Base.{ℕ, ◌+◌, ◌≡◌, refl, sym, inl, inr, leb, Bool-cases, List, [], ◌∷◌, ◌++◌}
use contention_prof.Collector.{
  Collected, State, grab_one, hand_over, take_chain, dump_one, dump_first, Reach,
}

-- The third list is a merge of the first two, each in its own order.
pub data Merge : List Collected → List Collected → List Collected → Type 0 where
  empty : Merge [] [] []
  left :
      {xs ys zs : List Collected} (p : Collected)
      → Merge xs ys zs
      → Merge (xs ++ (p ∷ [])) ys (zs ++ (p ∷ []))
  right :
      {xs ys zs : List Collected} (p : Collected)
      → Merge xs ys zs
      → Merge xs (ys ++ (p ∷ [])) (zs ++ (p ∷ []))

-- the samples that were admitted, in the order in which they are or will be dumped
abbrev pub admitted : State → List Collected
admitted s = s.dumped ++ (s.dumping ++ (s.dump_root ++ s.root))

module _ (null_speed_limit max_pending_samples : ℕ) where
  append_last :
      (a b c d : List Collected) (p : Collected)
      → a ++ (b ++ (c ++ (d ++ (p ∷ [])))) ≡ (a ++ (b ++ (c ++ d))) ++ (p ∷ [])
  append_last a b c d p = simp append_assoc

  grab_one-Merge :
      {ps : List Collected} (s : State) (p : Collected)
      → Merge s.destroyed (admitted s) ps
      → let t = grab_one null_speed_limit max_pending_samples p s in
        Merge t.destroyed (admitted t) (ps ++ (p ∷ []))
  unfolding grab_one
  grab_one-Merge {ps} s p m =
      elim (Bool-cases
        (leb (s.drop_count + s.dump_count + max_pending_samples) (s.grab_count + 1))) [
          | inl late ↦ rw late (Merge.left p m)
          | inr fits ↦ rw fits (
              subst (λ l. Merge s.destroyed l (ps ++ (p ∷ [])))
                (sym (append_last s.dumped s.dumping s.dump_root s.root p)) (Merge.right p m))
        ]

  dump_first-admitted :
      (s : State) (l : List Collected)
      → s.dumping ≡ l
      → (admitted (dump_first l s) ≡ admitted s) × ((dump_first l s).destroyed ≡ s.destroyed)
  unfolding dump_first
  dump_first-admitted s [] e = (refl, refl)
  dump_first-admitted s (p ∷ r) e = (simp (e, append_assoc), refl)

  -- In every reachable state the samples grabbed so far are a merge of those destroyed and those
  -- admitted, and the admitted ones are dumped in the order in which they were grabbed.
  pub Reach-Merge :
      {ps : List Collected} {s : State}
      → Reach null_speed_limit max_pending_samples ps s
      → Merge s.destroyed (admitted s) ps
  unfolding hand_over take_chain dump_one
  Reach-Merge Reach.start = Merge.empty
  Reach-Merge (Reach.grabs {s} p r) = grab_one-Merge s p (Reach-Merge r)
  Reach-Merge (Reach.hands_over {ps} {s} r) =
      subst (λ l. Merge s.destroyed l ps) (simp (append-nil)) (Reach-Merge r)
  Reach-Merge (Reach.takes {ps} {s} r) =
      subst (λ l. Merge s.destroyed l ps) (simp (append_assoc)) (Reach-Merge r)
  Reach-Merge (Reach.dumps {ps} {s} r) =
      let (same, kept) = dump_first-admitted s s.dumping refl in
      subst₂ (λ d l. Merge d l ps) (sym kept) (sym same) (Reach-Merge r)
