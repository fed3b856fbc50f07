-- ===== src/Handlers/Promoter/Promotions.antt =====
-- Which matched loans the promoter (src/handlers/promoter.rs) promotes, and with which settlement.
pub mod Queue
use y_delta_crankers.Base.{
  ℕ, ◌==◌, ◌≡◌, ◌≢◌, ◌⊎◌, inl, inr, refl, not, true, false, List, [], ◌∷◌, Option, none, some,
  arith, All,
}
use y_delta_crankers.System.Types.{
  Pubkey, VaultSettleAddrs, BankInfo, MarketView, PendingMatchedLoan, SeatView, Message,
}
use y_delta_crankers.System.Env.{Env, History}
use y_delta_crankers.System.Action.{Key, State, Result, ok, err, panicked, pure, fail, ◌>>◌}
use y_delta_crankers.System.Rules.{
  After, OfOk, attempt-OfOk, Triple, Keeps, known-Triple, weaken-Triple, bind-Triple, bind-Keeps,
  if-Keeps, if-Triple, pure-Keeps, gets-Keeps, or_fail-Keeps, panic-Keeps, for_sum-All,
}
use y_delta_crankers.System.Inflight.{guarded-Keeps}
use y_delta_crankers.Rpc.Gate.{strip_budget, strip_budget-preamble, simulate-Simulated}
use y_delta_crankers.Rpc.Allowed.{
  Policy, AreSent, Sent, Allowed, message_reads, send_signed_labeled-Allowed,
}
use y_delta_crankers.ChainReader.Sources.{IsListed, IsListedMarket, list_markets-Triple}
use y_delta_crankers.ChainReader.Held.{
  IsQueued, IsSeat, get_account_data-Triple, or_fail-Triple, read_seat_at-Triple,
  read_pending_matched_loans-Triple,
}
use y_delta_crankers.Handlers.Context.{HandlerContext, banks_snapshot}
use y_delta_crankers.Handlers.Promoter

-- What a seat makes of the settlement: nothing, unless a sub-vault owns it, whose vault is then the
-- one that is derived from the bank.
abbrev pub IsSettledBy :
    Env → HandlerContext → MarketView → BankInfo → Option VaultSettleAddrs → SeatView → Type 0
IsSettledBy env ctx market bank vault_settle seat =
    (seat.owner_kind ≢ env.owner_kind_sub_vault) × (vault_settle ≡ none)
    ⊎ (seat.owner_kind ≡ env.owner_kind_sub_vault)
      × (env.global_vault_pda bank.bank ≡ seat.owner)
      × (vault_settle
          ≡ some
              (Promoter.vault_settle_addrs env ctx market.address seat.owner market.debt_mint bank))

-- The settlement of an entry: none, unless it needs one; then what the lender's seat makes of it.
abbrev pub IsSettled :
    Env
    → HandlerContext
    → MarketView
    → PendingMatchedLoan
    → BankInfo
    → Option VaultSettleAddrs
    → Type 0
IsSettled env ctx market entry bank vault_settle =
    (Promoter.needs_vault_settle env ctx entry ≡ false) × (vault_settle ≡ none)
    ⊎ (Promoter.needs_vault_settle env ctx entry ≡ true)
      × (seat : SeatView) × IsSeat env market.address entry.lender_seat_index seat
      × IsSettledBy env ctx market bank vault_settle seat

-- Behind the instructions for the compute budget, the message has one, which promotes an entry of
-- the queue of a market that is not paused; the fee payer pays.
pub record IsPromotion (env : Env) (ctx : HandlerContext) (m : Message) : Type 0 where
  pub market : MarketView
  pub entry : PendingMatchedLoan
  pub bank : BankInfo
  pub vault_settle : Option VaultSettleAddrs
  pub listed : IsListedMarket env market
  pub unpaused : market.is_paused ≡ false
  pub queued : IsQueued env ctx.rpc market.address entry
  pub settled : IsSettled env ctx market entry bank vault_settle
  pub carried : strip_budget m.ixs ≡ Promoter.promote_ix env ctx market entry bank vault_settle ∷ []
  pub paid : m.payer ≡ env.pubkey_of ctx.signers.fee_payer

-- The policy of the promoter.
abbrev pub Promotions : Env → HandlerContext → Policy
Promotions env ctx h m = IsPromotion env ctx m

of_owner : (kind wanted : ℕ) → not (kind == wanted) ≡ false → kind ≡ wanted
of_owner kind wanted e = ground (arith, e)

of_other : (kind wanted : ℕ) → not (kind == wanted) ≡ true → kind ≢ wanted
of_other kind wanted e = ground (arith, e)

-- The settlement, for any policy.
module _ (P : Policy) (ks : List Key) (env : Env) (ctx : HandlerContext) where
  settle_for_seat-Triple :
      (market : MarketView) (bank : BankInfo) (seat : SeatView)
      → Triple
          (Allowed P ks)
          (Sent P)
          (Allowed P ks)
          (Promoter.settle_for_seat env ctx market.address market.debt_mint bank seat)
          (λ vault_settle s. Allowed P ks s × IsSettledBy env ctx market bank vault_settle seat)
  unfolding Promoter.build_vault_settle_addrs pure fail
  settle_for_seat-Triple market bank seat =
      if-Triple (not (seat.owner_kind == env.owner_kind_sub_vault))
        (λ e. record { run = λ s a. (a, inl (of_other _ _ e, refl)) })
        λ o.
          if-Triple (not (env.global_vault_pda bank.bank == seat.owner))
            (λ e. record { run = λ s a. a })
            λ e. record { run = λ s a. (a, inr (of_owner _ _ o, of_owner _ _ e, refl)) }

  lender_seat-Triple :
      (market : Pubkey) (entry : PendingMatchedLoan)
      → Triple
          (Allowed P ks)
          (Sent P)
          (Allowed P ks)
          (Promoter.lender_seat env ctx market entry)
          (λ seat s. Allowed P ks s × IsSeat env market entry.lender_seat_index seat)
  unfolding Promoter.lender_seat
  lender_seat-Triple market entry =
      bind-Triple _ (get_account_data-Triple (message_reads P ks) env ctx.rpc market) λ o.
        bind-Triple _ (or_fail-Triple (message_reads P ks) env ctx.rpc market o _) λ bytes.
          known-Triple
            λ held. read_seat_at-Triple (message_reads P ks) env ctx.rpc market bytes _ held

  pub assemble_vault_settle-Triple :
      (market : MarketView) (entry : PendingMatchedLoan) (bank : BankInfo)
      → Triple
          (Allowed P ks)
          (Sent P)
          (Allowed P ks)
          (Promoter.assemble_vault_settle env ctx market.address entry market.debt_mint bank)
          (λ vault_settle s. Allowed P ks s × IsSettled env ctx market entry bank vault_settle)
  unfolding Promoter.assemble_vault_settle pure
  assemble_vault_settle-Triple market entry bank =
      if-Triple (Promoter.needs_vault_settle env ctx entry)
        (λ e. bind-Triple _ (lender_seat-Triple market.address entry) λ seat. known-Triple λ at.
          weaken-Triple (λ vault_settle s q. (q.0, inr (e, seat, at, q.1)))
            (settle_for_seat-Triple market bank seat))
        λ e. record { run = λ s a. (a, inl (e, refl)) }
