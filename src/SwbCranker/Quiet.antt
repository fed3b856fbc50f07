-- ===== src/SwbCranker/Quiet.antt =====
-- Building an update bundle sends nothing: it keeps any invariant that only sends disturb.
use y_delta_crankers.Base.{ℕ, List, [], ◌∷◌}
use y_delta_crankers.System.Types.{Pubkey}
use y_delta_crankers.System.Env.{Env}
use y_delta_crankers.System.Action.{State, Action, Result, ok, err, panicked}
use y_delta_crankers.System.Rules.{
  Keeps, bind-Keeps, pure-Keeps, fail-Keeps, or_fail-Keeps, call-Keeps, attempt-Keeps, panic-Keeps,
}
use y_delta_crankers.System.Quiet.{Undisturbed}
use y_delta_crankers.SwbCranker.{
  SwbCranker, fetch_update_via, try_gateways, or_next, fetch_update_ixs,
}

module _ {I X : State → Type 0} (u : Undisturbed I X) (env : Env) (cranker : SwbCranker) where
  or_next-Keeps :
      {A : Type 0} (next : Action A) (r : Result A)
      → Keeps I X next
      → Keeps I X (or_next env cranker next r)
  or_next-Keeps next (ok a) h = pure-Keeps a
  or_next-Keeps next (err e) h = h
  or_next-Keeps next panicked h = (panic-Keeps u.crash)

  pub try_gateways-Keeps :
      {A : Type 0} (try_one : ℕ → Action A) (gateways : List ℕ)
      → ((gateway : ℕ) → Keeps I X (try_one gateway))
      → Keeps I X (try_gateways env cranker try_one gateways)
  unfolding try_gateways
  try_gateways-Keeps try_one [] h = fail-Keeps _
  try_gateways-Keeps try_one (g ∷ gs) h =
      bind-Keeps (attempt-Keeps (h g)) λ r. or_next-Keeps _ r (try_gateways-Keeps try_one gs h)

  pub fetch_update_ixs-Keeps :
      (oracles : List Pubkey) → Keeps I X (fetch_update_ixs env cranker oracles)
  unfolding fetch_update_ixs fetch_update_via
  fetch_update_ixs-Keeps [] = pure-Keeps _
  fetch_update_ixs-Keeps (o ∷ os) =
      try_gateways-Keeps _ cranker.gateways
        λ g. bind-Keeps (call-Keeps _ _ (λ s i. u.quiet _ s tt i)) λ b. or_fail-Keeps b _
