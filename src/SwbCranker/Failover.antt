-- ===== src/SwbCranker/Failover.antt =====
-- The failover over the gateways (src/swb_cranker.rs): one gateway that answers is enough.
use y_delta_crankers.Base.{ℕ, ◌≡◌, refl, sym, subst, List, [], ◌∷◌, Option, none, some, Memᴰ}
use y_delta_crankers.System.Types.{Pubkey}
use y_delta_crankers.System.Env.{Env, History, asked_gateway}
use y_delta_crankers.System.Action.{
  State, Result, ok, pure, fail, or_fail, call, attempt, record_event, ◌>>=◌,
}
use y_delta_crankers.SwbCranker.{
  SwbCranker, Bundle, fetch_update_via, try_gateways, fetch_update_ixs,
}
use y_delta_crankers.SwbCranker.Fetched.{IsFetched}

-- The gateway answers every request for these feeds.
abbrev pub Answers : Env → List Pubkey → ℕ → Type 0
Answers env oracles gateway =
    (h : History) → (bundle : Bundle) × (env.fetch_update_consensus h oracles gateway ≡ some bundle)

-- The result is a bundle that one of these gateways gave.
abbrev pub IsFound : Env → List Pubkey → List ℕ → Result Bundle × State → Type 0
IsFound env oracles gateways r =
    (bundle : Bundle) × (t : State) × (gateway : ℕ) × (r ≡ (ok bundle, t))
    × Memᴰ gateway gateways
    × IsFetched env oracles gateway bundle

module _ (env : Env) (cranker : SwbCranker) (oracles : List Pubkey) (g : ℕ)
    (answers : Answers env oracles g) where
  -- A gateway that fails is not the one that answers.
  elsewhere :
      (j : ℕ) (gs : List ℕ) (h : History)
      → Memᴰ g (j ∷ gs)
      → env.fetch_update_consensus h oracles j ≡ none
      → Memᴰ g gs
  elsewhere j gs h (Memᴰ.head e) refused = absurd (
      clash _ (answers h).1
        (subst (λ i. env.fetch_update_consensus h oracles i ≡ none) (sym e) refused))
    where
      clash : (o : Option Bundle) {b : Bundle} → o ≡ some b → o ≡ none → ⊥
      clash o p q = cc (p, q)
  elsewhere j gs h (Memᴰ.tail m) refused = m

  -- The rest of the loop, by what the gateway replies.
  reply-IsFound :
      (j : ℕ) (gs : List ℕ) (s : State)
      → Memᴰ g (j ∷ gs)
      → (o : Option Bundle) → env.fetch_update_consensus s.history oracles j ≡ o
      → ((t : State)
          → Memᴰ g gs
          → IsFound env oracles gs
              (try_gateways env cranker (fetch_update_via env cranker oracles) gs t))
      → IsFound env oracles
          (j ∷ gs)
          (try_gateways env cranker (fetch_update_via env cranker oracles) (j ∷ gs) s)
  unfolding fetch_update_via try_gateways or_fail pure fail attempt call ◌>>=◌
  reply-IsFound j gs s m (some bundle) e rest = (
    bundle,
    record_event (asked_gateway oracles j) s,
    j,
    rw e refl,
    Memᴰ.head refl,
    (s.history, e),
  )
  reply-IsFound j gs s m none e rest =
      let r = rest (record_event (asked_gateway oracles j) s) (elsewhere j gs s.history m e) in
      (r.0, r.1, r.2, rw e r.3, Memᴰ.tail r.4, r.5)

  loop-IsFound :
      (gs : List ℕ) (s : State)
      → Memᴰ g gs
      → IsFound env oracles gs
          (try_gateways env cranker (fetch_update_via env cranker oracles) gs s)
  loop-IsFound [] s m = elim m [ ]
  loop-IsFound (j ∷ gs) s m = reply-IsFound j gs s m _ refl (loop-IsFound gs)

-- If one of the cranker's gateways answers every request for some feeds, then whatever the others
-- do, fetching the update for these feeds succeeds, with a bundle that one of the gateways gave.
pub fetch_update_ixs-IsFound :
    (env : Env) (cranker : SwbCranker) (oracle : Pubkey) (oracles : List Pubkey) (gateway : ℕ)
    (s : State)
    → Memᴰ gateway cranker.gateways
    → Answers env (oracle ∷ oracles) gateway
    → IsFound env
        (oracle ∷ oracles)
        cranker.gateways
        (fetch_update_ixs env cranker (oracle ∷ oracles) s)
unfolding fetch_update_ixs
fetch_update_ixs-IsFound env cranker oracle oracles gateway s m answers =
    loop-IsFound env cranker (oracle ∷ oracles) gateway answers cranker.gateways s m
