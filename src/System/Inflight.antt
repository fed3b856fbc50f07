-- ===== src/System/Inflight.antt =====
-- The in-flight sets of the handlers (src/handlers): a body that leaves them as they are, run under
-- its key, leaves them as they are, whether it succeeds or fails.
use y_delta_crankers.Base.{
  bytes_eq_refl, ◌≡◌, refl, ap, ◌∙◌, Bool, true, false, inl, inr, List, ◌∷◌, Bool-cases,
}
use y_delta_crankers.System.Action.{
  State, Action, Result, ok, err, panicked, Key, attempt, caught, guarded, claim_inflight,
  release_inflight, run_claimed, contains_key, remove_key, pure, tally,
}
use y_delta_crankers.System.Rules.{After, Triple, Keeps, bind-Triple, then-Triple, pure-Keeps}

caught-any :
    {A : Type 0} (E I X : State → Type 0) (r : Result A × State)
    → After I X (λ _ s. I s) r
    → After E X (λ (_ : Result A) s. I s) (caught r)
caught-any E I X (ok a, t) h = h
caught-any E I X (err e, t) h = h
caught-any E I X (panicked, t) h = h

-- A caught action has no error.
pub attempt-Triple :
    {E I X : State → Type 0} {A : Type 0} {m : Action A}
    → Keeps I X m
    → Triple E X I (attempt m) (λ _ s. I s)
unfolding attempt
attempt-Triple {E} {I} {X} {m} h = record { run = λ s i. caught-any E I X (m s) (h.run s i) }

-- The in-flight set is this list.
abbrev pub Holding : List Key → State → Type 0
Holding ks s = s.inflight ≡ ks

remove_key-cons : (k : Key) (ks : List Key) → remove_key k (k ∷ ks) ≡ ks
remove_key-cons k ks = rw (bytes_eq_refl k) refl

abbrev pub with_fresh : Key → List Key → Bool → List Key
with_fresh k ks true = k ∷ ks
with_fresh k ks false = ks

-- An invariant `J` of the rest of the state, beside the in-flight set.
module _ {J X : State → Type 0}
    (w : (s : State) (ks : List Key) → J s → J (record s { inflight = ks })) where
  pub claim_inflight-Triple :
      (k : Key) (ks : List Key)
      → Triple
          (λ s. J s × Holding ks s)
          X
          (λ s. J s × Holding ks s)
          (claim_inflight k)
          (λ fresh s. J s × Holding (with_fresh k ks fresh) s)
  unfolding claim_inflight
  claim_inflight-Triple k ks = record {
    run = λ s i. elim (Bool-cases (contains_key k s.inflight)) [
      | inl e ↦ rw e i
      | inr e ↦ rw e (w s _ i.0, ap (λ js. k ∷ js) i.1)
    ];
  }

  pub release_inflight-Triple :
      (k : Key) (ks : List Key)
      → Triple
          (λ s. J s × Holding ks s)
          X
          (λ s. J s × Holding (k ∷ ks) s)
          (release_inflight k)
          (λ _ s. J s × Holding ks s)
  unfolding release_inflight
  release_inflight-Triple k ks = record {
    run = λ s i. (w s _ i.0, ap (remove_key k) i.1 ∙ remove_key-cons k ks);
  }

  run_claimed-Keeps :
      (k : Key) (ks : List Key) {m : Action Bool} (fresh : Bool)
      → ((js : List Key) → Keeps (λ s. J s × Holding js s) X m)
      → Triple
          (λ s. J s × Holding ks s)
          X
          (λ s. J s × Holding (with_fresh k ks fresh) s)
          (run_claimed k m fresh)
          (λ _ s. J s × Holding ks s)
  unfolding run_claimed
  run_claimed-Keeps k ks true h =
      bind-Triple (λ _ s. J s × Holding (k ∷ ks) s) (attempt-Triple (h (k ∷ ks)))
        λ r.
          then-Triple {k = pure (tally r)} (λ _ s. J s × Holding ks s)
            (release_inflight-Triple k ks) λ u. pure-Keeps _
  run_claimed-Keeps k ks false h = pure-Keeps _

  -- A body that leaves any in-flight set as it is, run under its key.
  pub guarded-Keeps :
      (k : Key) (ks : List Key) {m : Action Bool}
      → ((js : List Key) → Keeps (λ s. J s × Holding js s) X m)
      → Keeps (λ s. J s × Holding ks s) X (guarded k m)
  unfolding guarded
  guarded-Keeps k ks h =
      bind-Triple (λ fresh s. J s × Holding (with_fresh k ks fresh) s) (claim_inflight-Triple k ks)
        λ fresh. run_claimed-Keeps k ks fresh h
