-- ===== src/SwbCranker/Fetched.antt =====
-- Where the bundles of oracle updates that src/swb_cranker.rs returns come from.
use y_delta_crankers.Base.{ℕ, ◌≡◌, ◌⊎◌, inl, inr, refl, List, [], ◌∷◌, Option, none, some, Memᴰ}
use y_delta_crankers.System.Types.{Pubkey, gateway_failed}
use y_delta_crankers.System.Env.{Env, History}
use y_delta_crankers.System.Action.{
  State, Action, Result, ok, err, panicked, pure, fail, panic, or_fail,
}
use y_delta_crankers.System.Rules.{
  Triple, OfOk, bind-Triple, known-Triple, call-Triple, attempt-OfOk, weaken-Triple,
}
use y_delta_crankers.System.Quiet.{Undisturbed}
use y_delta_crankers.SwbCranker.{
  SwbCranker, Bundle, fetch_update_via, try_gateways, or_next, fetch_update_ixs,
}

-- The gateway gave this bundle for the feeds.
abbrev pub IsFetched : Env → List Pubkey → ℕ → Bundle → Type 0
IsFetched env oracles gateway bundle =
    (h : History) × (env.fetch_update_consensus h oracles gateway ≡ some bundle)

-- Nothing, or what one of the cranker's gateways gave for the feeds.
abbrev pub IsUpdateOf : Env → SwbCranker → List Pubkey → Bundle → Type 0
IsUpdateOf env cranker oracles bundle =
    (bundle ≡ ([], []))
    ⊎ (gateway : ℕ) × Memᴰ gateway cranker.gateways × IsFetched env oracles gateway bundle

module _ {I X : State → Type 0} (u : Undisturbed I X) (env : Env) (cranker : SwbCranker) where
  found-Triple :
      (oracles : List Pubkey) (gateway : ℕ) (o : Option Bundle)
      → (h : History) × (env.fetch_update_consensus h oracles gateway ≡ o)
      → Triple I X I
          (or_fail o gateway_failed)
          (λ bundle s. I s × IsFetched env oracles gateway bundle)
  unfolding or_fail pure fail
  found-Triple oracles gateway none e = record { run = λ s i. i }
  found-Triple oracles gateway (some bundle) e = record { run = λ s i. (i, e) }

  pub fetch_update_via-Triple :
      (oracles : List Pubkey) (gateway : ℕ)
      → Triple I X I
          (fetch_update_via env cranker oracles gateway)
          (λ bundle s. I s × IsFetched env oracles gateway bundle)
  unfolding fetch_update_via
  fetch_update_via-Triple oracles gateway =
      bind-Triple
        (λ o s. I s × ((h : History) × (env.fetch_update_consensus h oracles gateway ≡ o)))
        (call-Triple _ _ (λ s i. (u.quiet _ s tt i, (s.history, refl))))
        λ o. known-Triple (found-Triple oracles gateway o)

  -- What each gateway gives is what the loop over them gives.
  module _ {A : Type 0} (K : A → Type 0) (try_one : ℕ → Action A) where
    or_next-Triple :
        (next : Action A) (r : Result A)
        → Triple I X I next (λ a s. I s × K a)
        → Triple I X (λ s. I s × OfOk K r) (or_next env cranker next r) (λ a s. I s × K a)
    unfolding pure panic
    or_next-Triple next (ok a) h = record { run = λ s k. k }
    or_next-Triple next (err e) h = known-Triple λ _. h
    or_next-Triple next panicked h = record { run = λ s k. u.crash s k.0 }

    try_gateways-Triple :
        (gateways : List ℕ)
        → ((gateway : ℕ)
            → Memᴰ gateway gateways
            → Triple I X I (try_one gateway) (λ a s. I s × K a))
        → Triple I X I (try_gateways env cranker try_one gateways) (λ a s. I s × K a)
    unfolding try_gateways fail
    try_gateways-Triple [] h = record { run = λ s i. i }
    try_gateways-Triple (g ∷ gs) h =
        bind-Triple _ (attempt-OfOk (h g (Memᴰ.head refl)))
          λ r. or_next-Triple _ r (try_gateways-Triple gs (λ j m. h j (Memᴰ.tail m)))

  pub fetch_update_ixs-Triple :
      (oracles : List Pubkey)
      → Triple I X I
          (fetch_update_ixs env cranker oracles)
          (λ bundle s. I s × IsUpdateOf env cranker oracles bundle)
  unfolding fetch_update_ixs pure
  fetch_update_ixs-Triple [] = record { run = λ s i. (i, inl refl) }
  fetch_update_ixs-Triple (o ∷ os) =
      try_gateways-Triple (IsUpdateOf env cranker (o ∷ os)) _ cranker.gateways λ g m.
        weaken-Triple (λ bundle s q. (q.0, inr (g, m, q.1))) (fetch_update_via-Triple (o ∷ os) g)
