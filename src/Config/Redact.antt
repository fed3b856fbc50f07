-- ===== src/Config/Redact.antt =====
-- src/config.rs `redact_url`: what of the RPC endpoint reaches the logs.
use y_delta_crankers.Base.{
  ℕ, ◌≡◌, refl, ap, ◌==◌, false, [], ◌∷◌, ◌++◌, Option, none, some, codes, All, All-append, arith,
  strip_prefix,
}
use y_delta_crankers.Base.Text.{before, split_once}
use y_delta_crankers.System.Host.{Text}

abbrev pub without_userinfo : Text → Text → Option (Text × Text) → Text
without_userinfo no_query scheme none = no_query
without_userinfo no_query scheme (some (userinfo, rest)) = scheme ++ (codes "://" ++ rest)

abbrev pub without_credentials : Text → Option (Text × Text) → Text
without_credentials no_query none = no_query
without_credentials no_query (some (scheme, after_scheme)) =
    without_userinfo no_query scheme (split_once (codes "@") after_scheme)

unfoldable pub redact_url : Text → Text
redact_url url =
    let no_query = before 63 url in without_credentials no_query (split_once (codes "://") no_query)

-- The text has no such character.
abbrev pub Lacks : ℕ → Text → Type 0
Lacks c = All (λ d. (d == c) ≡ false)

before-append : (c : ℕ) (s t : Text) → Lacks c s → before c (s ++ c ∷ t) ≡ s
before-append c [] t h = ground arith
before-append c (d ∷ s) t h = rw h.0 (ap (λ r. d ∷ r) (before-append c s t h.1))

strip_prefix-append : (needle rest : Text) → strip_prefix needle (needle ++ rest) ≡ some rest
strip_prefix-append [] rest = refl
strip_prefix-append (c ∷ needle) rest = ground (arith, strip_prefix-append needle rest)

other_way : (c d : ℕ) → (d == c) ≡ false → (c == d) ≡ false
other_way c d h = ground (arith, h)

split_once-append :
    (c : ℕ) (needle front rest : Text)
    → Lacks c front
    → split_once (c ∷ needle) (front ++ ((c ∷ needle) ++ rest)) ≡ some (front, rest)
split_once-append c needle [] rest h = rw (strip_prefix-append (c ∷ needle) rest) refl
split_once-append c needle (d ∷ front) rest h =
    rw (other_way c d h.0) (rw (split_once-append c needle front rest h.1) refl)

Lacks-scheme : Lacks 63 (codes "://")
Lacks-scheme = ground arith

no_query-Lacks :
    (scheme userinfo host : Text)
    → Lacks 63 scheme
    → Lacks 63 userinfo
    → Lacks 63 host
    → Lacks 63 (scheme ++ (codes "://" ++ (userinfo ++ (codes "@" ++ host))))
no_query-Lacks scheme userinfo host qs qu qh = All-append _ scheme _ qs (
    All-append _ (codes "://") _ Lacks-scheme
      (All-append _ userinfo _ qu (All-append _ (codes "@") _ (refl, tt) qh)))

-- For every URL of the form `scheme://userinfo@host?query` whose scheme has no colon, whose
-- userinfo has no at sign, and in which no question mark stands before the query: what is logged is
-- `scheme://host`, so neither the userinfo nor the query.
pub redact_url-hides :
    (scheme userinfo host query : Text)
    → Lacks 58 scheme
    → Lacks 64 userinfo
    → Lacks 63 scheme
    → Lacks 63 userinfo
    → Lacks 63 host
    → redact_url
        ((scheme ++ (codes "://" ++ (userinfo ++ (codes "@" ++ host)))) ++ (codes "?" ++ query))
      ≡ scheme ++ (codes "://" ++ host)
unfolding redact_url
redact_url-hides scheme userinfo host query c a qs qu qh =
    rw
      (before-append 63 (scheme ++ (codes "://" ++ (userinfo ++ (codes "@" ++ host)))) query
        (no_query-Lacks scheme userinfo host qs qu qh))
      (rw (split_once-append 58 (47 ∷ 47 ∷ []) scheme (userinfo ++ (codes "@" ++ host)) c)
        (rw (split_once-append 64 [] userinfo host a) refl))
