-- ===== src/HealthServer/Framing.antt =====
-- The responses as a client reads them: the declared length against the body.
use y_delta_crankers.Base.{
  ℕ, ◌+◌, ◌-◌, ◌*◌, ◌≡◌, ◌≢◌, refl, leb, Bool, true, false, ◌&&◌, List, [], ◌∷◌, ◌++◌, Option, none,
  some, inl, inr, ◌⊎◌, codes, bytes_eq, strip_prefix, length, Bool-cases, if◌then◌else◌,
}
use y_delta_crankers.Handlers.MatchCranker.Logs.{first_word}
use y_delta_crankers.HealthServer.Utf8.{is_utf8}
use y_delta_crankers.HealthServer.{
  crlf, path_of, skip_word, skip_spaces, first_line, request_path, response_for, handle_conn,
  ready_response, not_ready_response,
}

-- What follows the blank line that ends the headers.
body_of : List ℕ → List ℕ
body_of [] = []
body_of (c ∷ s) = elim (strip_prefix (crlf ++ crlf) (c ∷ s)) [ none ↦ body_of s | some body ↦ body ]

digits_from : ℕ → List ℕ → ℕ
digits_from acc [] = acc
digits_from acc (c ∷ s) =
    let rest = digits_from (acc * 10 + (c - 48)) s in if leb 48 c && leb c 57 then rest else acc

-- The number behind the first `Content-Length: `.
declared_length : List ℕ → Option ℕ
declared_length [] = none
declared_length (c ∷ s) = elim (strip_prefix (codes "Content-Length: ") (c ∷ s)) [
  | none ↦ declared_length s
  | some rest ↦ some (digits_from 0 rest)
]

pub IsFramed : List ℕ → Type 0
IsFramed response = declared_length response ≡ some (length (body_of response))

pub IsTruncated : List ℕ → Type 0
IsTruncated response = (declared_length response ≡ some 12) × (length (body_of response) ≡ 10)

by_ready :
    (ready : Bool)
    → IsFramed (if ready then ready_response else not_ready_response)
      ⊎ (ready ≡ false)
        × ((if ready then ready_response else not_ready_response) ≡ not_ready_response)
unfolding IsFramed declared_length body_of digits_from
by_ready true = inl refl
by_ready false = inr (refl, refl)

response_for-IsFramed :
    (ready : Bool) (path : List ℕ)
    → IsFramed (response_for ready path)
      ⊎ (ready ≡ false) × (response_for ready path ≡ not_ready_response)
unfolding response_for IsFramed declared_length body_of digits_from
response_for-IsFramed ready path = elim (Bool-cases (bytes_eq path (codes "/healthz"))) [
  | inl health ↦ rw health (inl refl)
  | inr other ↦ rw other (elim (Bool-cases (bytes_eq path (codes "/readyz"))) [
    | inl asked ↦ rw asked (by_ready ready)
    | inr unknown ↦ rw unknown (inl refl)
  ])
]

-- Every non-empty request is answered, and the answer declares the length of its body, unless the
-- process is not ready and the answer is that of `/readyz`.
pub handle_conn-IsFramed :
    (ready : Bool) (request : List ℕ)
    → request ≢ []
    → (response : List ℕ) × (handle_conn ready request ≡ some response)
      × (IsFramed response ⊎ (ready ≡ false) × (response ≡ not_ready_response))
unfolding handle_conn
handle_conn-IsFramed ready [] some_bytes = absurd (some_bytes refl)
handle_conn-IsFramed ready (c ∷ s) some_bytes = (_, refl, response_for-IsFramed ready _)

request_path-nil : request_path [] ≡ []
unfolding request_path path_of first_word skip_word skip_spaces first_line is_utf8
request_path-nil = refl

-- Every request whose path is `/readyz`, while the process is not ready, is answered with a
-- response that declares 12 bytes and carries 10.
pub handle_conn-IsTruncated :
    (request : List ℕ)
    → request_path request ≡ codes "/readyz"
    → (response : List ℕ) × (handle_conn false request ≡ some response) × IsTruncated response
unfolding handle_conn response_for IsTruncated declared_length body_of digits_from
handle_conn-IsTruncated [] asked = cc (request_path-nil)
handle_conn-IsTruncated (c ∷ s) asked = (_, refl, rw asked (refl, refl))
