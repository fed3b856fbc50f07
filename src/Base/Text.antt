-- ===== src/Base/Text.antt =====
-- Texts as lists of code points, and the `str` methods that the program calls on them.
use Prim.Native.Nat.{ℕ, ◌+◌, ◌-◌, ◌*◌, ◌≤◌}
use mathlib.Core.Bool.{Bool, true, false, ◌&&◌, ◌||◌}
use mathlib.Core.Logic.{inl, inr}
use mathlib.Core.Path.{◌≡◌, refl}
use mathlib.Core.List.{List, [], ◌∷◌, map}
use mathlib.Core.Option.{Option, none, some}
use native.Mathlib.Omega.{arith}
use y_delta_crankers.Base.Tests.{leb, ◌==◌, if◌then◌else◌, Bool-cases}
use y_delta_crankers.Base.Bytes.{strip_prefix}

abbrev between : ℕ → ℕ → ℕ → Bool
between first last c = leb first c && leb c last

-- `char::is_whitespace`
unfoldable pub is_whitespace : ℕ → Bool
is_whitespace c =
    between 0x9 0xd c
    || c == 0x20
    || c == 0x85
    || c == 0xa0
    || c == 0x1680
    || between 0x2000 0x200a c
    || between 0x2028 0x2029 c
    || c == 0x202f
    || c == 0x205f
    || c == 0x3000

unfoldable pub trim_start : List ℕ → List ℕ
trim_start [] = []
trim_start (c ∷ s) = let rest = trim_start s in if is_whitespace c then rest else c ∷ s

-- The white space behind the last other character is dropped.
abbrev pub cons_trimmed : ℕ → List ℕ → List ℕ
cons_trimmed c [] = if is_whitespace c then [] else c ∷ []
cons_trimmed c (d ∷ s) = c ∷ d ∷ s

unfoldable pub trim_end : List ℕ → List ℕ
trim_end [] = []
trim_end (c ∷ s) = cons_trimmed c (trim_end s)

-- `trim`
unfoldable pub trim : List ℕ → List ℕ
trim s = trim_end (trim_start s)

abbrev pub ascii_lower : ℕ → ℕ
ascii_lower c = if between 65 90 c then c + 32 else c

-- `to_ascii_lowercase`
abbrev pub to_ascii_lowercase : List ℕ → List ℕ
to_ascii_lowercase s = map ascii_lower s

-- `s.split(c).next()`
abbrev pub before : ℕ → List ℕ → List ℕ
before c [] = []
before c (d ∷ s) = if d == c then [] else d ∷ before c s

abbrev put_front : ℕ → Option (List ℕ × List ℕ) → Option (List ℕ × List ℕ)
put_front c none = none
put_front c (some (front, rest)) = some (c ∷ front, rest)

abbrev or_later : Option (List ℕ) → Option (List ℕ × List ℕ) → Option (List ℕ × List ℕ)
or_later none later = later
or_later (some rest) later = some ([], rest)

-- `find` of a text: what stands before its first occurrence, and what stands behind that.
abbrev pub split_once : List ℕ → List ℕ → Option (List ℕ × List ℕ)
split_once needle [] = or_later (strip_prefix needle []) none
split_once needle (c ∷ s) =
    or_later (strip_prefix needle (c ∷ s)) (put_front c (split_once needle s))

abbrev digits_from : ℕ → ℕ → List ℕ → Option ℕ
digits_from limit acc [] = some acc
digits_from limit acc (c ∷ s) =
    let rest = digits_from limit (acc * 10 + (c - 48)) s in
    if between 48 57 c && leb (acc * 10 + (c - 48)) limit then rest else none

abbrev some_digits : ℕ → List ℕ → Option ℕ
some_digits limit [] = none
some_digits limit (c ∷ s) = digits_from limit 0 (c ∷ s)

abbrev unsigned : ℕ → List ℕ → Option ℕ
unsigned limit [] = none
unsigned limit (c ∷ s) = if c == 43 then some_digits limit s else some_digits limit (c ∷ s)

-- `parse` to an unsigned number of at most `limit`: a plus sign or none, then decimal digits
unfoldable pub parse_unsigned : ℕ → List ℕ → Option ℕ
parse_unsigned limit s = unsigned limit s

-- A number, if there is one, is at most the limit.
abbrev pub Within : ℕ → Option ℕ → Type 0
Within limit none = Unit
Within limit (some n) = n ≤ limit

if-Within :
    (limit : ℕ) (b : Bool) (o : Option ℕ)
    → (b ≡ true → Within limit o)
    → Within limit (if b then o else none)
if-Within limit true o h = h refl
if-Within limit false o h = tt

second : (a b : Bool) → a && b ≡ true → b ≡ true
second true b h = h
second false b h = cc h

digits_from-Within :
    (limit acc : ℕ) (s : List ℕ) → acc ≤ limit → Within limit (digits_from limit acc s)
digits_from-Within limit acc [] h = h
digits_from-Within limit acc (c ∷ s) h =
    if-Within limit (between 48 57 c && leb (acc * 10 + (c - 48)) limit) _ λ e.
      digits_from-Within limit (acc * 10 + (c - 48)) s
        (ground (arith, second (between 48 57 c) (leb (acc * 10 + (c - 48)) limit) e))

some_digits-Within : (limit : ℕ) (s : List ℕ) → Within limit (some_digits limit s)
some_digits-Within limit [] = tt
some_digits-Within limit (c ∷ s) = digits_from-Within limit 0 (c ∷ s) (omega arith)

pub parse_unsigned-Within : (limit : ℕ) (s : List ℕ) → Within limit (parse_unsigned limit s)
unfolding parse_unsigned
parse_unsigned-Within limit [] = tt
parse_unsigned-Within limit (c ∷ s) = elim (Bool-cases (c == 43)) [
  | inl e ↦ rw e (some_digits-Within limit s)
  | inr e ↦ rw e (some_digits-Within limit (c ∷ s))
]
