-- ===== src/HealthServer/Utf8.antt =====
-- `std::str::from_utf8`: whether bytes are well-formed UTF-8.
use y_delta_crankers.Base.{
  ℕ, leb, ltb, ◌==◌, Bool, true, false, ◌&&◌, List, [], ◌∷◌, Option, none, some, if◌then◌else◌,
}

abbrev Ranges : Type 0
Ranges = List (ℕ × ℕ)

abbrev tail_byte : ℕ × ℕ
tail_byte = (0x80, 0xbf)

-- The ranges of the bytes that a lead byte asks for; none if it is no lead byte.
lead : ℕ → Option Ranges
lead b =
    if ltb b 0x80
    then some []
    else if ltb b 0xc2
    then none
    else if ltb b 0xe0
    then some (tail_byte ∷ [])
    else if b == 0xe0
    then some ((0xa0, 0xbf) ∷ tail_byte ∷ [])
    else if b == 0xed
    then some ((0x80, 0x9f) ∷ tail_byte ∷ [])
    else if ltb b 0xf0
    then some (tail_byte ∷ tail_byte ∷ [])
    else if b == 0xf0
    then some ((0x90, 0xbf) ∷ tail_byte ∷ tail_byte ∷ [])
    else if ltb b 0xf4
    then some (tail_byte ∷ tail_byte ∷ tail_byte ∷ [])
    else if b == 0xf4
    then some ((0x80, 0x8f) ∷ tail_byte ∷ tail_byte ∷ [])
    else none

well_formed : Ranges → List ℕ → Bool
well_formed [] [] = true
well_formed (r ∷ rs) [] = false
well_formed [] (b ∷ bs) = elim (lead b) [ none ↦ false | some rs ↦ well_formed rs bs ]
well_formed ((lo, hi) ∷ rs) (b ∷ bs) = let rest = well_formed rs bs in leb lo b && leb b hi && rest

unfoldable pub is_utf8 : List ℕ → Bool
unfolding lead well_formed
is_utf8 bytes = well_formed [] bytes
