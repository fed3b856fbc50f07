-- ===== src/Handlers/Claimer/Sweeps.antt =====
-- Which claims the claimer (src/handlers/claimer.rs) sweeps.
use y_delta_crankers.Base.{
  ℕ, ltb, ◌<◌, ◌==◌, ◌≡◌, ◌⊎◌, inl, inr, refl, ◌∙◌, Bool, true, ◌&&◌, ◌||◌, List, [], ◌∷◌, arith,
  All, All-select, Bool-cases,
}
use y_delta_crankers.System.Types.{
  Pubkey, BankInfo, MarketView, SubVaultView, PendingVaultClaim, Message,
}
use y_delta_crankers.System.Env.{Env, History}
use y_delta_crankers.System.Action.{Key, State, ◌>>◌}
use y_delta_crankers.System.Rules.{
  After, Triple, Keeps, known-Triple, weaken-Triple, bind-Triple, bind-Keeps, then-Keeps, if-Keeps,
  pure-Keeps, gets-Keeps, or_fail-Keeps, for_sum-All, mono-Triple, lax-Triple,
}
use y_delta_crankers.System.Inflight.{guarded-Keeps}
use y_delta_crankers.Rpc.Gate.{strip_budget, strip_budget-preamble, simulate-Simulated}
use y_delta_crankers.Rpc.Allowed.{
  Policy, AreSent, Sent, Allowed, message_reads, send_signed_labeled-Allowed,
}
use y_delta_crankers.ChainReader.Sources.{
  IsListed, IsListedMarket, IsListedSubVault, list_markets-Triple, list_sub_vaults-Triple,
}
use y_delta_crankers.ChainReader.Seats.{IsSeated, list_pending_vault_claims-Triple}
use y_delta_crankers.Handlers.Context.{HandlerContext, banks_snapshot}
use y_delta_crankers.Handlers.Claimer

-- The node listed a sub-vault with atoms to claim under this vault and id.
abbrev pub IsClaimable : Env → Pubkey → ℕ → Type 0
IsClaimable env vault id =
    (sub_vault : SubVaultView) × IsListedSubVault env sub_vault
    × (0 < sub_vault.pending_claim_atoms)
    × (sub_vault.vault ≡ vault)
    × (sub_vault.sub_vault_id ≡ id)

-- Behind the instructions for the compute budget, the message has one, which sweeps a claim that a
-- seat stands for, to a sub-vault with atoms to claim; the fee payer pays.
pub record IsSweep (env : Env) (ctx : HandlerContext) (m : Message) : Type 0 where
  pub entry : PendingVaultClaim
  pub bank : BankInfo
  pub seated : IsSeated env entry
  pub claimable : IsClaimable env entry.lender_global_vault entry.sub_vault_id
  pub carried : strip_budget m.ixs ≡ Claimer.claim_ix env ctx entry bank ∷ []
  pub paid : m.payer ≡ env.pubkey_of ctx.signers.fee_payer

-- The policy of the claimer.
abbrev pub Sweeps : Env → HandlerContext → Policy
Sweeps env ctx h m = IsSweep env ctx m

AreClaimable : Env → List (Pubkey × ℕ) → Type 0
AreClaimable env pairs = All (λ pair. IsClaimable env pair.0 pair.1) pairs

is_due : (n : ℕ) → ltb 0 n ≡ true → 0 < n
is_due n e = ground (arith, e)

claimable-AreClaimable :
    (env : Env) (sub_vaults : List SubVaultView)
    → All (IsListedSubVault env) sub_vaults
    → AreClaimable env (Claimer.claimable sub_vaults)
unfolding Claimer.claimable AreClaimable
claimable-AreClaimable env [] l = tt
claimable-AreClaimable env (v ∷ vs) l = elim (Bool-cases (ltb 0 v.pending_claim_atoms)) [
  | inl e ↦ rw e ((v, l.0, is_due _ e, refl, refl), claimable-AreClaimable env vs l.1)
  | inr e ↦ rw e (claimable-AreClaimable env vs l.1)
]

either_of :
    (v vault i id : ℕ) (others : Bool)
    → (v == vault && i == id || others) ≡ true
    → ((v ≡ vault) × (i ≡ id)) ⊎ (others ≡ true)
either_of v vault i id others e = ground (arith, e)

contains_pair-IsClaimable :
    (env : Env) (pairs : List (Pubkey × ℕ)) (vault : Pubkey) (id : ℕ)
    → AreClaimable env pairs
    → Claimer.contains_pair pairs vault id ≡ true
    → IsClaimable env vault id
unfolding Claimer.contains_pair AreClaimable
contains_pair-IsClaimable env [] vault id l e = cc e
contains_pair-IsClaimable env ((v, i) ∷ rest) vault id l e =
    elim (either_of v vault i id (Claimer.contains_pair rest vault id) e) [
      | inl q ↦ (l.0.0, l.0.1, l.0.2, l.0.3 ∙ q.0, l.0.4 ∙ q.1)
      | inr r ↦ contains_pair-IsClaimable env rest vault id l.1 r
    ]

-- For any policy that lets such sweeps be sent.
module _ (P : Policy) (env : Env) (ctx : HandlerContext)
    (lets : (h : History) (m : Message) → IsSweep env ctx m → P h m) where
  sweep_one-Allowed :
      (ks : List Key) (entry : PendingVaultClaim)
      → IsSeated env entry
      → IsClaimable env entry.lender_global_vault entry.sub_vault_id
      → Keeps (Allowed P ks) (Sent P) (Claimer.sweep_one env ctx entry)
  unfolding Claimer.sweep_one Claimer.claim_ix banks_snapshot ◌>>◌
  sweep_one-Allowed ks entry seated claimable = bind-Keeps (gets-Keeps _) λ banks.
      bind-Keeps (or_fail-Keeps _ _) λ bank.
        bind-Keeps (weaken-Triple (λ r s h. h.0) (simulate-Simulated P ks env ctx.rpc _ _)) λ sim.
          if-Keeps _ (pure-Keeps _) (
            bind-Keeps
              (send_signed_labeled-Allowed P ks env ctx.rpc _ _ ctx.signers.fee_payer [] λ n h.
                lets h _ (record {
                  entry = entry;
                  bank = bank;
                  seated = seated;
                  claimable = claimable;
                  carried =
                      strip_budget-preamble ctx.rpc ctx.rpc.compute_unit_limit
                        (Claimer.claim_ix env ctx entry bank ∷ []);
                  paid = refl;
                }))
              λ sig. pure-Keeps _)

  module _ (ks : List Key) where
    sweep_markets-Allowed :
        (pairs : List (Pubkey × ℕ)) (markets : List MarketView)
        → AreClaimable env pairs
        → All (IsListedMarket env) markets
        → Keeps (Allowed P ks) (Sent P) (Claimer.sweep_markets env ctx pairs markets)
    unfolding Claimer.sweep_markets Claimer.sweep_all Claimer.claimable_entries
    sweep_markets-Allowed pairs [] c l = pure-Keeps _
    sweep_markets-Allowed pairs (m ∷ ms) c l =
        bind-Triple _ (list_pending_vault_claims-Triple (message_reads P ks) env ctx.rpc (m ∷ ms) l)
          λ pending. known-Triple λ seated.
            then-Keeps
              (for_sum-All _ (All-select (IsSeated env) _ pending seated) λ entry q.
                guarded-Keeps (λ s js a. a) _ ks
                  λ js.
                    sweep_one-Allowed js entry q.0 (contains_pair-IsClaimable env pairs _ _ c q.1))
              (pure-Keeps _)

    sweep_claimable-Allowed :
        (pairs : List (Pubkey × ℕ))
        → AreClaimable env pairs
        → Triple
            (Allowed P ks)
            (Sent P)
            (λ s. Allowed P ks s × IsListed env s.markets_cache)
            (Claimer.sweep_claimable env ctx pairs)
            (λ _. Allowed P ks)
    unfolding Claimer.sweep_claimable
    sweep_claimable-Allowed [] c = mono-Triple (λ s a. a.0) (pure-Keeps _)
    sweep_claimable-Allowed (p ∷ ps) c =
        bind-Triple _ (list_markets-Triple (message_reads P ks) env ctx.rpc)
          λ markets. known-Triple λ listed. sweep_markets-Allowed (p ∷ ps) markets c listed

    pub tick-Allowed :
        Triple
          (Allowed P ks)
          (Sent P)
          (λ s. Allowed P ks s × IsListed env s.markets_cache)
          (Claimer.tick env ctx)
          (λ _. Allowed P ks)
    unfolding Claimer.tick
    tick-Allowed =
        bind-Triple _
          (lax-Triple (λ s l. l.0) (λ v s q. q)
            (list_sub_vaults-Triple (λ e s q l. ((message_reads P ks).quiet e s q l.0, l.1)) env
              ctx.rpc))
          λ sub_vaults.
            known-Triple
              λ listed. sweep_claimable-Allowed _ (claimable-AreClaimable env sub_vaults listed)

-- If every market in the cache was decoded from an answer of the node to the query for markets, and
-- every transaction sent so far is a sweep (behind the instructions for the compute budget it has
-- one instruction, paid for by the fee payer, for a claim that a seat with shares stands for, which
-- a sub-vault owns in some answer of the node, in a market decoded from such an answer that is not
-- paused; and the node has listed a sub-vault of the same vault and id with atoms to claim), then
-- every transaction sent is still one after a tick of the claimer, however it ends and whatever the
-- environment answers; and if the tick ends with a value or an error, the same keys are in flight.
pub claimer-IsSweep :
    (env : Env) (ctx : HandlerContext) (s : State)
    → IsListed env s.markets_cache
    → AreSent (Sweeps env ctx) s.history
    → After
        (Allowed (Sweeps env ctx) s.inflight)
        (Sent (Sweeps env ctx))
        (λ _. Allowed (Sweeps env ctx) s.inflight)
        (Claimer.tick env ctx s)
claimer-IsSweep env ctx s listed a =
    (tick-Allowed (Sweeps env ctx) env ctx (λ h m p. p) s.inflight).run s ((a, refl), listed)
