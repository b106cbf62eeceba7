-- ===== src/BoundedQueue/Wrap.antt =====
-- `_mod` of bounded_queue.h: when the subtraction loop ends, and with what.
use native.Mathlib.Nat.{mod-eq_of_lt, mod-eq-sub-mod}
use contention_prof.Base.{
  ℕ, zero, suc, ◌+◌, ◌-◌, ◌%◌, ◌^◌, ◌≤◌, ◌<◌, ◌≡◌, refl, sym, ◌∙◌, ap, inl, inr, arith, Bool-cases,
  leb, ltb, if◌then◌else◌, ok, spin, sub32, u32,
}
use contention_prof.BoundedQueue.{mod_cap, mod_cap_loop}

mod_cap_loop_lem :
    (fuel off cap : ℕ)
    → 0 < cap
    → off < fuel
    → off < 2 ^ 32
    → mod_cap_loop fuel off cap ≡ ok (off % cap)
unfolding mod_cap_loop
mod_cap_loop_lem zero off cap pos enough small = elim enough [ ]
mod_cap_loop_lem (suc fuel) off cap pos enough small = elim (Bool-cases (leb cap off)) [
  | inl more ↦
      let le : cap ≤ off = ground arith in
      let sub : sub32 off cap ≡ off - cap = omega arith in
      let here : mod_cap_loop (suc fuel) off cap ≡ mod_cap_loop fuel (sub32 off cap) cap =
        ground arith in
      here
      ∙ ap (λ n. mod_cap_loop fuel n cap) sub
      ∙ mod_cap_loop_lem fuel (off - cap) cap pos (omega arith) (omega arith)
      ∙ ap ok (sym (mod-eq-sub-mod le))
  | inr done ↦
      let lt : off < cap = ground arith in
      let here : mod_cap_loop (suc fuel) off cap ≡ ok off = ground arith in
      here ∙ ap ok (sym (mod-eq_of_lt lt))
]

-- The loop of _mod ends, with the remainder, for every uint32_t offset when the capacity is not
-- 0.
pub mod_cap_lem : (off cap : ℕ) → 0 < cap → off < 2 ^ 32 → mod_cap off cap ≡ ok (off % cap)
unfolding mod_cap
mod_cap_lem off cap pos small = mod_cap_loop_lem (off + 1) off cap pos (omega arith) small

-- At capacity 0 the loop never ends, however many rounds it is given.
mod_cap_loop_zero : (fuel off : ℕ) → off < 2 ^ 32 → mod_cap_loop fuel off 0 ≡ spin
unfolding mod_cap_loop
mod_cap_loop_zero zero off small = refl
mod_cap_loop_zero (suc fuel) off small =
    let same : sub32 off 0 ≡ off = omega arith in
    let here : mod_cap_loop (suc fuel) off 0 ≡ mod_cap_loop fuel (sub32 off 0) 0 = ground arith in
    here ∙ ap (λ n. mod_cap_loop fuel n 0) same ∙ mod_cap_loop_zero fuel off small

-- The slot that is `i` places behind `start`, for `start` and `i` within the capacity.
abbrev pub slot : ℕ → ℕ → ℕ → ℕ
slot cap start i = if ltb (start + i) cap then start + i else start + i - cap

pub mod_cap-slot :
    (cap start i : ℕ)
    → 0 < cap
    → start + i < cap + cap
    → cap ≤ 2 ^ 31
    → mod_cap (start + i) cap ≡ ok (slot cap start i)
mod_cap-slot cap start i pos in_range small =
    mod_cap_lem (start + i) cap pos (omega arith) ∙ ap ok rest
  where
    rest : (start + i) % cap ≡ slot cap start i
    rest = elim (Bool-cases (ltb (start + i) cap)) [
      | inl below ↦ let lt : start + i < cap = ground arith in rw (below, mod-eq_of_lt lt)
      | inr above ↦
          let le : cap ≤ start + i = ground arith in
          rw (above, mod-eq-sub-mod le)
            (mod-eq_of_lt (let lt : start + i - cap < cap = omega arith in lt))
    ]

-- The slot that the source computes from a sum in `uint32_t`.
pub mod_cap-u32 :
    (cap start i : ℕ)
    → 0 < cap
    → start ≤ cap - 1
    → i ≤ cap
    → cap ≤ 2 ^ 31
    → mod_cap (u32 (start + i)) cap ≡ ok (slot cap start i)
mod_cap-u32 cap start i pos hs hi small =
    let fits : u32 (start + i) ≡ start + i = omega arith in
    ap (λ n. mod_cap n cap) fits ∙ mod_cap-slot cap start i pos (omega arith) small
