-- ===== src/Handlers/MatchCranker/Fills.antt =====
-- `parse_match_crank_fills` of src/handlers/match_cranker.rs against the layout that its comment
-- gives: `[discriminant(8) | market(32) | cranker(32) | fills:u32 | pad(4)]`, in base64 behind
-- `Program data: `.
use y_delta_crankers.Base.{
  ℕ, ◌<◌, ◌^◌, ◌≡◌, ◌≢◌, refl, sym, ap, ◌∙◌, false, List, [], ◌∷◌, ◌++◌, none, some, All, arith,
  codes, bytes_eq_refl, take, drop, length, length-append, take-append, drop-append, append_assoc,
  le_value,
}
use y_delta_crankers.System.Env.{Env}
use y_delta_crankers.ChainReader.Decode.{le_bytes}
use y_delta_crankers.Handlers.MatchCranker.Logs.{
  is_space, until_space, first_word, record_fills, line_fills, parse_match_crank_fills,
}

-- The bytes of an emitted log, of the discriminant, the two keys, the count and the padding.
abbrev pub emitted : List ℕ → List ℕ → ℕ → List ℕ → List ℕ
emitted disc keys fills pad = disc ++ (keys ++ (le_bytes 4 fills ++ pad))

-- The token of a log line: not empty, and without white space.
abbrev pub IsToken : List ℕ → Type 0
IsToken token = (token ≢ []) × All (λ c. is_space c ≡ false) token

le_value-le_bytes : (n : ℕ) → n < 2 ^ 32 → le_value (le_bytes 4 n) ≡ n
unfolding le_value
le_value-le_bytes n h = omega arith

until_space_id : (s : List ℕ) → All (λ c. is_space c ≡ false) s → until_space s ≡ s
unfolding until_space
until_space_id [] h = refl
until_space_id (c ∷ s) h = rw h.0 (ap (λ t. c ∷ t) (until_space_id s h.1))

first_word_id : (token : List ℕ) → IsToken token → first_word token ≡ some token
unfolding first_word
first_word_id [] h = absurd (h.0 refl)
first_word_id (c ∷ s) h = rw h.1.0 (ap some (until_space_id (c ∷ s) h.1))

module _ (env : Env) (keys pad : List ℕ) (fills : ℕ)
    (disc8 : length env.match_crank_log_discriminant ≡ 8) (keys64 : length keys ≡ 64)
    (pad4 : length pad ≡ 4) (small : fills < 2 ^ 32) where
  abbrev bytes : List ℕ
  bytes = emitted env.match_crank_log_discriminant keys fills pad

  length-bytes : length bytes ≡ 80
  length-bytes = omega (
    arith,
    disc8,
    keys64,
    pad4,
    length-append env.match_crank_log_discriminant (keys ++ (le_bytes 4 fills ++ pad)),
    length-append keys (le_bytes 4 fills ++ pad),
  )

  count-bytes : take 4 (drop 72 bytes) ≡ le_bytes 4 fills
  count-bytes =
      ap (take 4) (
        ap (drop 72) (sym (append_assoc env.match_crank_log_discriminant keys _))
        ∙ drop-append 72 (env.match_crank_log_discriminant ++ keys) _
            (omega (arith, disc8, keys64, length-append env.match_crank_log_discriminant keys)))
      ∙ take-append 4 (le_bytes 4 fills) pad refl

  record_fills-bytes : record_fills env (some bytes) ≡ some fills
  record_fills-bytes = rw length-bytes (
      rw (take-append 8 env.match_crank_log_discriminant (keys ++ (le_bytes 4 fills ++ pad)) disc8)
        (rw (bytes_eq_refl env.match_crank_log_discriminant)
          (rw count-bytes (ap some (le_value-le_bytes fills small)))))

  line_fills-token :
      (token : List ℕ)
      → IsToken token
      → env.base64_decode token ≡ some bytes
      → line_fills env (codes "Program data: " ++ token) ≡ some fills
  unfolding line_fills
  line_fills-token token t d = rw (first_word_id token t) (rw d record_fills-bytes)

  -- For every count below 2^32: if a line of the logs carries, behind `Program data: ` and in a
  -- token without white space that decodes to it, the emitted log of that count (its discriminant
  -- has 8 bytes, its keys 64, its padding 4), and no line before it carries a log, then the parser
  -- returns the count, whatever follows.
  pub parse_match_crank_fills-emitted :
      (before after : List (List ℕ)) (token : List ℕ)
      → All (λ line. line_fills env line ≡ none) before
      → IsToken token
      → env.base64_decode token ≡ some bytes
      → parse_match_crank_fills env (before ++ (codes "Program data: " ++ token) ∷ after)
        ≡ some fills
  unfolding parse_match_crank_fills
  parse_match_crank_fills-emitted [] after token noise t d = rw (line_fills-token token t d) refl
  parse_match_crank_fills-emitted (line ∷ before) after token noise t d =
      rw noise.0 (parse_match_crank_fills-emitted before after token noise.1 t d)
