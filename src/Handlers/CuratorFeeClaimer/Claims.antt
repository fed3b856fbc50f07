-- ===== src/Handlers/CuratorFeeClaimer/Claims.antt =====
-- What the curator-fee claimer (src/handlers/curator_fee_claimer.rs) sends, and who signs it.
use y_delta_crankers.Base.{
  ltb, ◌==◌, ◌≡◌, ◌≤◌, not, refl, false, List, [], ◌∷◌, Option, none, some, Map, lookup, ap, ◌∙◌,
  arith,
}
use y_delta_crankers.System.Types.{Pubkey, Keypair, BankInfo, SubVaultView, Message}
use y_delta_crankers.System.Env.{Env, History}
use y_delta_crankers.System.Action.{Key, State, ◌>>◌}
use y_delta_crankers.System.Rules.{
  After, Keeps, known-Triple, bind-Triple, bind-Keeps, then-Keeps, if-Keeps, if-Triple, pure-Keeps,
  gets-Keeps, fail-Keeps, or_fail-Keeps, for_sum-All,
}
use y_delta_crankers.System.Inflight.{guarded-Keeps}
use y_delta_crankers.Signer.Loaded.{AreOwn}
use y_delta_crankers.Rpc.Gate.{strip_budget, strip_budget-preamble}
use y_delta_crankers.Rpc.Allowed.{
  Policy, AreSent, Sent, Allowed, message_reads, send_signed_labeled-Allowed,
}
use y_delta_crankers.ChainReader.Sources.{IsListedSubVault, list_sub_vaults-Triple}
use y_delta_crankers.Handlers.Context.{HandlerContext, banks_snapshot}
use y_delta_crankers.Handlers.CuratorFeeClaimer

-- The node listed the sub-vault, its fees are due, its curator's key is held, and the registry's
-- bank is the vault's.
abbrev pub IsDue : Env → HandlerContext → SubVaultView → BankInfo → Type 0
IsDue env ctx sub_vault bank =
    IsListedSubVault env sub_vault
    × (sub_vault.vault_is_paused ≡ false)
    × (ctx.cfg.thresholds.min_curator_fee_claim_atoms ≤ sub_vault.accumulated_curator_fee_atoms)
    × ((signer : Keypair) × (lookup sub_vault.curator ctx.signers.curators ≡ some signer))
    × (bank.bank ≡ sub_vault.vault_bank)

-- Behind the instructions for the compute budget, the message has one: it claims fees that are due,
-- for the curator, who pays for the transaction.
abbrev pub IsFeeClaim : Env → HandlerContext → Message → Type 0
IsFeeClaim env ctx m =
    (sub_vault : SubVaultView) × (bank : BankInfo) × (strip_budget m.ixs
      ≡ CuratorFeeClaimer.fee_ix env ctx sub_vault bank sub_vault.curator ∷ [])
    × (m.payer ≡ sub_vault.curator)
    × IsDue env ctx sub_vault bank

-- The policy of the curator-fee claimer.
abbrev pub FeeClaims : Env → HandlerContext → Policy
FeeClaims env ctx h m = IsFeeClaim env ctx m

own_key :
    (env : Env) (k : Pubkey) (v : Keypair) (m : Map Keypair)
    → AreOwn env m
    → lookup k m ≡ some v
    → env.pubkey_of v ≡ k
own_key env k v [] own e = cc e
own_key env k v ((j, w) ∷ m) own e = grind (arith, own_key env k v m own.1, own.0)

-- For any policy that lets such claims be sent.
module _ (P : Policy) (ks : List Key) (env : Env) (ctx : HandlerContext)
    (own : AreOwn env ctx.signers.curators)
    (lets : (h : History) (m : Message) → IsFeeClaim env ctx m → P h m) where
  claim_one-Allowed :
      (sub_vault : SubVaultView) (banks : Map BankInfo) (signer : Keypair) (js : List Key)
      → IsListedSubVault env sub_vault
      → (sub_vault.vault_is_paused ≡ false)
      → (ctx.cfg.thresholds.min_curator_fee_claim_atoms ≤ sub_vault.accumulated_curator_fee_atoms)
      → (lookup sub_vault.curator ctx.signers.curators ≡ some signer)
      → Keeps (Allowed P js) (Sent P) (CuratorFeeClaimer.claim_one env ctx sub_vault banks signer)
  unfolding CuratorFeeClaimer.claim_one CuratorFeeClaimer.fee_ix
  claim_one-Allowed sub_vault banks signer js l p f k = bind-Keeps (or_fail-Keeps _ _) λ bank.
      if-Triple (not (bank.bank == sub_vault.vault_bank)) (λ e. fail-Keeps _)
        λ e.
          then-Keeps
            (send_signed_labeled-Allowed P js env ctx.rpc _ _ signer [] λ n h. lets h _ (
              sub_vault,
              bank,
              strip_budget-preamble ctx.rpc _ _
                  ∙ ap (λ pk. CuratorFeeClaimer.fee_ix env ctx sub_vault bank pk ∷ [])
                      (own_key env _ signer _ own k),
              own_key env _ signer _ own k,
              (l, p, f, (signer, k), ground (arith, e)),
            ))
            (pure-Keeps _)

  claim_signed-Allowed :
      (sub_vault : SubVaultView) (banks : Map BankInfo) (signer : Option Keypair)
      → IsListedSubVault env sub_vault
      → (sub_vault.vault_is_paused ≡ false)
      → (ctx.cfg.thresholds.min_curator_fee_claim_atoms ≤ sub_vault.accumulated_curator_fee_atoms)
      → (lookup sub_vault.curator ctx.signers.curators ≡ signer)
      → Keeps
          (Allowed P ks)
          (Sent P)
          (CuratorFeeClaimer.claim_signed env ctx sub_vault banks signer)
  claim_signed-Allowed sub_vault banks none l p f k = pure-Keeps _
  claim_signed-Allowed sub_vault banks (some signer) l p f k =
      guarded-Keeps (λ s js a. a) _ ks (λ js. claim_one-Allowed sub_vault banks signer js l p f k)

  visit_sub_vault-Allowed :
      (banks : Map BankInfo) (sub_vault : SubVaultView)
      → IsListedSubVault env sub_vault
      → Keeps (Allowed P ks) (Sent P) (CuratorFeeClaimer.visit_sub_vault env ctx banks sub_vault)
  unfolding CuratorFeeClaimer.visit_sub_vault
  visit_sub_vault-Allowed banks sub_vault l =
      if-Triple sub_vault.vault_is_paused (λ e. pure-Keeps _)
        λ p.
          if-Triple
            (ltb sub_vault.accumulated_curator_fee_atoms
              ctx.cfg.thresholds.min_curator_fee_claim_atoms)
            (λ e. pure-Keeps _)
            λ f. claim_signed-Allowed sub_vault banks _ l p (ground (arith, f)) refl

  pub tick-Allowed : Keeps (Allowed P ks) (Sent P) (CuratorFeeClaimer.tick env ctx)
  unfolding CuratorFeeClaimer.tick CuratorFeeClaimer.visit_all banks_snapshot ◌>>◌
  tick-Allowed = if-Keeps _ (pure-Keeps _) (
      bind-Triple _ (list_sub_vaults-Triple (message_reads P ks).quiet env ctx.rpc) λ vs.
        known-Triple λ listed. bind-Keeps (gets-Keeps _) λ banks.
          then-Keeps (for_sum-All vs listed λ v l. visit_sub_vault-Allowed banks v l)
            (pure-Keeps _))

-- If the held curator keys are filed under their own public keys, and every transaction sent so far
-- is a curator-fee claim (one instruction behind those for the compute budget; the sub-vault
-- decoded from an answer of the node to the query for vaults, its vault not paused, its fees at
-- least the configured minimum, its curator's key held, the bank in the instruction the vault's;
-- the curator both the payer of the transaction and the one who is paid), then this still holds
-- after a tick of the curator-fee claimer, however it ends and whatever the environment answers;
-- and if it ends with a value or an error, the same keys are in flight.
pub curator_fee_claimer-IsFeeClaim :
    (env : Env) (ctx : HandlerContext) (s : State)
    → AreOwn env ctx.signers.curators
    → AreSent (FeeClaims env ctx) s.history
    → After
        (Allowed (FeeClaims env ctx) s.inflight)
        (Sent (FeeClaims env ctx))
        (λ _. Allowed (FeeClaims env ctx) s.inflight)
        (CuratorFeeClaimer.tick env ctx s)
curator_fee_claimer-IsFeeClaim env ctx s own h =
    (tick-Allowed (FeeClaims env ctx) s.inflight env ctx own (λ h m p. p)).run s (h, refl)
