-- ===== src/Base/Float.antt =====
-- Non-negative f64 values as exact fractions, and rounding to the nearest double, ties to even.
-- The program's quotients of u64 values lie far from the subnormal and infinite ranges, so the
-- significand always has 53 bits.
use Prim.Native.Nat.{ℕ, zero, suc, ◌+◌, ◌-◌, ◌*◌, ◌/◌, ◌%◌, ◌^◌, min}
use mathlib.Core.Bool.{Bool, ◌&&◌, ◌||◌}
use y_delta_crankers.Base.Tests.{ltb, ◌==◌, if◌then◌else◌}
use y_delta_crankers.Base.Bytes.{u32_max}

pub record F64 : Type 0 where
  pub num : ℕ
  pub den : ℕ

log2_from : ℕ → ℕ → ℕ
log2_from zero n = 0
log2_from (suc fuel) n = let rest = log2_from fuel (n / 2) in if ltb n 2 then 0 else suc rest

-- The denominators of the results.
abbrev fine : ℕ
fine = 2 ^ 180

round_up : ℕ → ℕ → ℕ → Bool
round_up q r step = ltb step (2 * r) || 2 * r == step && q % 2 == 1

-- The double nearest to n / d, for n / d between 2 ^ -128 and 2 ^ 256.
unfoldable pub round_f64 : ℕ → ℕ → F64
unfolding log2_from round_up
round_f64 n d =
    let scaled : ℕ = n * fine in
    let unit : ℕ = 2 ^ (log2_from 512 (scaled / d) - 52) in
    let step : ℕ = d * unit in
    let q : ℕ = scaled / step in
    record { num = (if round_up q (scaled % step) step then q + 1 else q) * unit; den = fine }

unfoldable pub f64_of_u64 : ℕ → F64
unfolding round_f64
f64_of_u64 n = round_f64 n 1

unfoldable pub div_f64 : F64 → F64 → F64
unfolding round_f64
div_f64 a b = round_f64 (a.num * b.den) (a.den * b.num)

unfoldable pub mul_f64 : F64 → F64 → F64
unfolding round_f64
mul_f64 a b = round_f64 (a.num * b.num) (a.den * b.den)

-- `.clamp(0.0, u32::MAX as f64) as u32`
unfoldable pub clamp_as_u32 : F64 → ℕ
clamp_as_u32 a = min (a.num / a.den) u32_max
