-- ===== src/Base/Int.antt =====
-- i64 values: integers over the native numbers, the casts and the saturating and wrapping sums.
use Prim.Native.Nat.{◌^◌, ℕ, suc, ◌+◌, ◌-◌, ◌*◌, ◌≤◌}
use mathlib.Core.Bool.{Bool}
use y_delta_crankers.Base.Tests.{ltb, leb, if◌then◌else◌}

-- `negsuc n` is -(n + 1).
pub data ℤ : Type 0 where
  pos : ℕ → ℤ
  negsuc : ℕ → ℤ

abbrev pub pos_part : ℤ → ℕ
pos_part (pos n) = n
pos_part (negsuc n) = 0

abbrev pub neg_part : ℤ → ℕ
neg_part (pos n) = 0
neg_part (negsuc n) = suc n

abbrev pub sub_ℕ : ℕ → ℕ → ℤ
sub_ℕ a b = if leb b a then pos (a - b) else negsuc (b - a - 1)

infixl 65 ◌+ℤ◌
infix 50 ◌≤ℤ◌
unfoldable pub ◌+ℤ◌ : ℤ → ℤ → ℤ
a +ℤ b = sub_ℕ (pos_part a + pos_part b) (neg_part a + neg_part b)

abbrev pub ◌≤ℤ◌ : ℤ → ℤ → Type 0
a ≤ℤ b = pos_part a + neg_part b ≤ pos_part b + neg_part a

abbrev pub leb_ℤ : ℤ → ℤ → Bool
leb_ℤ a b = leb (pos_part a + neg_part b) (pos_part b + neg_part a)

-- 2 ^ 63
abbrev pub i64_half : ℕ
i64_half = 0x8000_0000_0000_0000

abbrev pub i64_max : ℤ
i64_max = pos 0x7fff_ffff_ffff_ffff

abbrev pub i64_min : ℤ
i64_min = negsuc 0x7fff_ffff_ffff_ffff

-- `n as i64` for a u64
unfoldable pub as_i64 : ℕ → ℤ
as_i64 n = if ltb n i64_half then pos n else sub_ℕ n (2 * i64_half)

-- `n as i128` for a u128
unfoldable pub as_i128 : ℕ → ℤ
as_i128 n = if ltb n (2 ^ 127) then pos n else sub_ℕ n (2 ^ 128)

-- `a.saturating_add(b)` on i64
unfoldable pub saturating_add_i64 : ℤ → ℤ → ℤ
unfolding ◌+ℤ◌
saturating_add_i64 a b =
    if leb_ℤ i64_max (a +ℤ b) then i64_max else if leb_ℤ (a +ℤ b) i64_min then i64_min else a +ℤ b

-- `a + b` on i64 as the release build computes it, wrapping.
unfoldable pub wrapping_add_i64 : ℤ → ℤ → ℤ
unfolding ◌+ℤ◌
wrapping_add_i64 a b =
    if ltb (pos_part (a +ℤ b)) i64_half
    then if leb (neg_part (a +ℤ b)) i64_half then a +ℤ b else a +ℤ b +ℤ pos (2 * i64_half)
    else a +ℤ b +ℤ negsuc (2 * i64_half - 1)
