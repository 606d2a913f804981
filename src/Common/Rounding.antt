-- ===== src/Common/Rounding.antt =====
-- Python's `round`, on exact fractions: to the nearest whole number, half to the even one.
use Prim.Native.Nat.{ℕ, zero, suc, ◌+◌, ◌-◌, ◌*◌, ◌/◌, ◌%◌, ◌≤◌, ◌<◌}
use mathlib.Core.Path.{◌≡◌, refl}
use native.Mathlib.Omega.{arith}
use native.Mathlib.Nat.{
  div-add-mod, le-div_iff_mul-le, div-le_of_le-mul, mul_comm, mod-lt, mul-add, mul-zero, mul-one,
  mul-suc,
}
use distributed_tickit_syste.Common.Tests.{ltb, leb, ltb→lt, Bool-cases, if◌then◌else◌}
use mathlib.Core.Logic.{◌⊎◌, inl, inr}

-- `n / d`, rounded.
unfoldable pub round : (n d : ℕ) → ℕ
round n d =
    let q = n / d in
    let r = n % d in if ltb (2 * r) d then q else if ltb d (2 * r) then q + 1 else q + q % 2

-- Rounding goes up only from below the upper bound.
room_or_whole : (n d hi : ℕ) → n / d ≤ hi → n ≤ d * hi → (n / d < hi) ⊎ (n % d ≡ 0)
room_or_whole n d hi q_high below = elim (Bool-cases (ltb (n / d) hi)) [
  | inl lt ↦ inl (ltb→lt (n / d) hi lt)
  | inr top ↦
      let same : n / d ≡ hi = ground arith in
      let whole : d * hi + n % d ≡ n = rw same at (div-add-mod n d) in
      inr (omega (arith, whole, below))
]

-- A fraction between two whole numbers is rounded to a number between them.
pub round-bounds :
    (n d lo hi : ℕ) → 0 < d → lo * d ≤ n → n ≤ hi * d → (lo ≤ round n d) × (round n d ≤ hi)
unfolding round
round-bounds n d lo hi h above below =
    let below' : n ≤ d * hi = rw (mul_comm d hi) below in
    let q_low : lo ≤ n / d = (le-div_iff_mul-le h).1 above in
    let q_high : n / d ≤ hi = div-le_of_le-mul d below' in
    let parity : n / d % 2 < 2 = mod-lt (n / d) (omega arith) in
    elim (room_or_whole n d hi q_high below') [
      | inl room ↦ (ground arith, ground arith)
      | inr exact ↦ (ground arith, ground arith)
    ]

-- Two remainders that make up a whole number of units make up none or one.
parts_from :
    (d s t j : ℕ)
    → 0 < d
    → t < 2 * d
    → d * s + t ≡ d * (s + j)
    → ((t ≡ 0) × (s ≡ s + j)) ⊎ ((t ≡ d) × (s + 1 ≡ s + j))
parts_from d s t zero h small e =
    let same = mul-add d s 0 in
    let none_more = mul-zero d in inl (omega (arith, e, same, none_more), omega arith)
parts_from d s t (suc zero) h small e =
    let same = mul-add d s 1 in
    let one_more = mul-one d in inr (omega (arith, e, same, one_more), refl)
parts_from d s t (suc (suc j)) h small e =
    let same = mul-add d s (suc (suc j)) in
    let two_more = mul-suc d (suc j) in
    let one_more = mul-suc d j in absurd (omega (arith, e, same, two_more, one_more))

parts :
    (d s w t : ℕ)
    → 0 < d
    → t < 2 * d
    → d * s + t ≡ d * w
    → ((t ≡ 0) × (s ≡ w)) ⊎ ((t ≡ d) × (s + 1 ≡ w))
parts d s w t h small e = elim (Bool-cases (leb s w)) [
  | inl le ↦
      let split : s + (w - s) ≡ w = ground arith in
      rw split at (parts_from d s t (w - s) h small (rw split e))
  | inr gt ↦
      let split : w + suc (s - w - 1) ≡ s = ground arith in
      let more = mul-add d w (suc (s - w - 1)) in
      let one_more = mul-suc d (s - w - 1) in
      let e' : d * (w + suc (s - w - 1)) + t ≡ d * w = rw split e in
      absurd (omega (arith, e', more, one_more, h))
]

-- The two parts of an even whole, each rounded, add up to it: half a unit goes up in one of them and
-- down in the other.
pub round-sum : (n k d half : ℕ) → 0 < d → n + k ≡ d * (2 * half) → round n d + round k d ≡ 2 * half
unfolding round
round-sum n k d half h whole =
    let n_whole = div-add-mod n d in
    let k_whole = div-add-mod k d in
    let n_small = mod-lt n h in
    let k_small = mod-lt k h in
    let both = mul-add d (n / d) (k / d) in
    elim (parts d (n / d + k / d) (2 * half) (n % d + k % d) h (omega arith)
      (omega (arith, whole, n_whole, k_whole, both))) [
        | inl (exact, sum) ↦ ground arith
        | inr (unit, sum) ↦ ground arith
      ]
