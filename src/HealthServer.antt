-- ===== src/HealthServer.antt =====
-- src/health_server.rs: the answer to one request. A request is the bytes that were read. White
-- space is that of ASCII.
pub mod Utf8
pub mod Framing
pub mod Serving
use y_delta_crankers.Base.{
  ℕ, ◌==◌, Bool, true, false, ◌&&◌, List, [], ◌∷◌, ◌++◌, Option, none, some, codes, bytes_eq, take,
  if◌then◌else◌,
}
use y_delta_crankers.Handlers.MatchCranker.Logs.{is_space, first_word}
use Utf8.{is_utf8}

abbrev starts_with_lf : List ℕ → Bool
starts_with_lf [] = false
starts_with_lf (c ∷ s) = c == 10

-- `lines().next().unwrap_or("")`
unfoldable pub first_line : List ℕ → List ℕ
first_line [] = []
first_line (c ∷ s) =
    if c == 10 then [] else if c == 13 && starts_with_lf s then [] else c ∷ first_line s

-- What follows the first word.
unfoldable pub skip_word : List ℕ → List ℕ
skip_word [] = []
skip_word (c ∷ s) = if is_space c then c ∷ s else skip_word s

unfoldable pub skip_spaces : List ℕ → List ℕ
skip_spaces [] = []
skip_spaces (c ∷ s) = if is_space c then skip_spaces s else c ∷ s

abbrev or_nothing : Option (List ℕ) → List ℕ
or_nothing none = []
or_nothing (some s) = s

-- The second word of the first line.
unfoldable pub path_of : List ℕ → List ℕ
path_of request = or_nothing (first_word (skip_word (skip_spaces (first_line request))))

abbrev pub crlf : List ℕ
crlf = 13 ∷ 10 ∷ []

abbrev message : List ℕ → List ℕ → List ℕ → List ℕ
message status content_length body =
    status
    ++ (crlf
        ++ (content_length
            ++ (crlf
                ++ (codes "Content-Type: text/plain"
                    ++ (crlf
                        ++ (codes "Connection: close" ++ (crlf ++ (crlf ++ (body ++ 10 ∷ [])))))))))

abbrev pub healthy : List ℕ
healthy = message (codes "HTTP/1.1 200 OK") (codes "Content-Length: 3") (codes "ok")

abbrev pub ready_response : List ℕ
ready_response = message (codes "HTTP/1.1 200 OK") (codes "Content-Length: 6") (codes "ready")

abbrev pub not_ready_response : List ℕ
not_ready_response =
    message (codes "HTTP/1.1 503 Service Unavailable") (codes "Content-Length: 12")
      (codes "not ready")

abbrev pub not_found : List ℕ
not_found =
    message (codes "HTTP/1.1 404 Not Found") (codes "Content-Length: 10") (codes "not found")

unfoldable pub response_for : Bool → List ℕ → List ℕ
response_for ready path =
    if bytes_eq path (codes "/healthz")
    then healthy
    else if bytes_eq path (codes "/readyz")
    then (if ready then ready_response else not_ready_response)
    else not_found

-- The path in what a read of at most 1024 bytes returned.
unfoldable pub request_path : List ℕ → List ℕ
request_path request = let buf = take 1024 request in path_of (if is_utf8 buf then buf else [])

-- An empty read has no answer.
unfoldable pub handle_conn : Bool → List ℕ → Option (List ℕ)
handle_conn ready [] = none
handle_conn ready (c ∷ s) = some (response_for ready (request_path (c ∷ s)))
