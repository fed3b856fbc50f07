-- ===== src/Handlers/MatchCranker/Logs.antt =====
-- src/handlers/match_cranker.rs `parse_match_crank_fills`: the fill count in the logs of a
-- simulation. A log line is its bytes.
use y_delta_crankers.Base.{
  ℕ, ltb, ◌==◌, Bool, not, ◌||◌, List, [], ◌∷◌, Option, none, some, codes, strip_prefix, bytes_eq,
  take, drop, length, le_value, if◌then◌else◌,
}
use y_delta_crankers.System.Env.{Env}

-- The white space among the ASCII characters.
unfoldable pub is_space : ℕ → Bool
is_space c = c == 32 || c == 9 || c == 10 || c == 11 || c == 12 || c == 13

unfoldable pub until_space : List ℕ → List ℕ
until_space [] = []
until_space (c ∷ s) = if is_space c then [] else c ∷ until_space s

-- `split_whitespace().next()`
unfoldable pub first_word : List ℕ → Option (List ℕ)
first_word [] = none
first_word (c ∷ s) = if is_space c then first_word s else some (until_space (c ∷ s))

abbrev pub or_whole : List ℕ → Option (List ℕ) → List ℕ
or_whole rest none = rest
or_whole rest (some word) = word

module _ (env : Env) where
  -- The count of a decoded record, if it is a `MatchCrankLog`.
  abbrev pub record_fills : Option (List ℕ) → Option ℕ
  record_fills none = none
  record_fills (some bytes) =
      if ltb (length bytes) 80 || not (bytes_eq (take 8 bytes) env.match_crank_log_discriminant)
      then none
      else some (le_value (take 4 (drop 72 bytes)))

  abbrev pub payload_fills : Option (List ℕ) → Option ℕ
  payload_fills none = none
  payload_fills (some rest) = record_fills (env.base64_decode (or_whole rest (first_word rest)))

  unfoldable pub line_fills : List ℕ → Option ℕ
  line_fills line = payload_fills (strip_prefix (codes "Program data: ") line)

  abbrev pub or_later : Option ℕ → Option ℕ → Option ℕ
  or_later later none = later
  or_later later (some fills) = some fills

  unfoldable pub parse_match_crank_fills : List (List ℕ) → Option ℕ
  parse_match_crank_fills [] = none
  parse_match_crank_fills (line ∷ lines) =
      or_later (parse_match_crank_fills lines) (line_fills line)
