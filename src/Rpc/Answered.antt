-- ===== src/Rpc/Answered.antt =====
-- Where the results of the simulations of src/rpc.rs come from.
use y_delta_crankers.Base.{ℕ, ◌≡◌, refl, not, List}
use y_delta_crankers.System.Types.{Pubkey, Lut, Instruction}
use y_delta_crankers.System.Env.{Env, History, Reply, reply, refused, SimValue}
use y_delta_crankers.System.Action.{State, pure, fail, of_reply, ◌>>=◌, ◌>>◌}
use y_delta_crankers.System.Rules.{
  Triple, Keeps, bind-Triple, bind-Keeps, if-Keeps, pure-Keeps, fail-Keeps, call-Keeps,
  call_noting-Triple, of_reply-Keeps,
}
use y_delta_crankers.System.Quiet.{Undisturbed}
use y_delta_crankers.Rpc

-- The node answered so when it was asked to simulate these instructions.
abbrev pub IsAnswered : Env → List Instruction → List Lut → Pubkey → Rpc.SimulationResult → Type 0
IsAnswered env ixs luts payer sim =
    (h : History) × (n : ℕ) × (value : SimValue) × (env.simulate_transaction h
        (record { payer = payer; ixs = ixs; luts = luts; blockhash = n })
      ≡ reply value)
    × (sim.is_ok ≡ not value.failed)
    × (sim.logs ≡ value.logs)

module _ {I X : State → Type 0} (u : Undisturbed I X) (env : Env) (rpc : Rpc.Rpc) where
  latest_blockhash-Keeps : Keeps I X (Rpc.latest_blockhash env rpc)
  unfolding Rpc.latest_blockhash
  latest_blockhash-Keeps = bind-Keeps (call-Keeps _ _ (λ s i. u.quiet _ s tt i)) of_reply-Keeps

  module _ (ixs : List Instruction) (luts : List Lut) (payer : Pubkey) where
    -- The reply that the node gave.
    abbrev Replied : ℕ → Reply SimValue → Type 0
    Replied n r =
        (h : History) × (env.simulate_transaction h
            (record { payer = payer; ixs = ixs; luts = luts; blockhash = n })
          ≡ r)

    value-Triple :
        (n : ℕ) (r : Reply SimValue)
        → Triple I X
            (λ s. I s × Replied n r)
            (of_reply r >>= λ value. pure (record { is_ok = not value.failed; logs = value.logs }))
            (λ sim s. I s × IsAnswered env ixs luts payer sim)
    unfolding of_reply ◌>>=◌ pure fail
    value-Triple n (reply v) = record { run = λ s i. (i.0, (i.1.0, n, v, i.1.1, refl, refl)) }
    value-Triple n (refused e) = record { run = λ s i. i.0 }

    pub simulate_v0-Triple :
        Triple I X I
          (Rpc.simulate_v0 env rpc ixs luts payer)
          (λ sim s. I s × IsAnswered env ixs luts payer sim)
    unfolding Rpc.simulate_v0 ◌>>◌
    simulate_v0-Triple =
        bind-Triple (λ _. I) latest_blockhash-Keeps
          λ n.
            bind-Triple (λ _. I) (if-Keeps _ (pure-Keeps _) (fail-Keeps _))
              λ _.
                bind-Triple (λ r s. I s × Replied n r)
                  (call_noting-Triple _ _ (λ s i. (u.quiet _ s tt i, (s.history, refl))))
                  λ r. value-Triple n r
