-- ===== src/BankRegistry/Atas/Created.antt =====
-- What `ensure_atas_for` of src/bank_registry.rs sends, and who pays for it.
use y_delta_crankers.Base.{◌≡◌, refl, false, is_empty, List, [], ◌∷◌, Option, none, some, Map, map}
use y_delta_crankers.System.Types.{Pubkey, Keypair, Account, BankInfo, Message}
use y_delta_crankers.System.Env.{Env, History, Reply, reply, refused, asked_accounts}
use y_delta_crankers.System.Action.{
  State, Key, Result, ok, err, panicked, record_event, ◌>>=◌, gets, of_reply, of_result, pure, fail,
}
use y_delta_crankers.System.Rules.{
  After, Triple, Keeps, known-Triple, bind-Keeps, bind-Triple, call-Triple, of_result-Triple,
  pure-Keeps,
}
use y_delta_crankers.System.Outcome.{Yields, ok-Yields, err-Yields}
use y_delta_crankers.Rpc
use y_delta_crankers.Rpc.Gate.{strip_budget, strip_budget-preamble}
use y_delta_crankers.Rpc.Allowed.{
  Policy, AreSent, Sent, Allowed, message_reads, send_signed_labeled-Allowed,
}
use y_delta_crankers.BankRegistry.{ata_for}
use y_delta_crankers.BankRegistry.Discover.{get_multiple_accounts}
use y_delta_crankers.BankRegistry.Atas

-- The banks, in their order, at whose place the answer has no account.
pub data Lacks : List BankInfo → List (Option Account) → List BankInfo → Type 0 where
  no_more : (existing : List (Option Account)) → Lacks [] existing []
  lacking :
      (info : BankInfo) (infos missing : List BankInfo) (existing : List (Option Account))
      → Lacks infos existing missing
      → Lacks (info ∷ infos) (none ∷ existing) (info ∷ missing)
  present :
      (info : BankInfo) (infos missing : List BankInfo) (a : Account)
      (existing : List (Option Account))
      → Lacks infos existing missing
      → Lacks (info ∷ infos) (some a ∷ existing) missing

-- The node gave this answer for these addresses.
abbrev pub IsAnswered : Env → List Pubkey → List (Option Account) → Type 0
IsAnswered env pks existing = (h : History) × (env.get_multiple_accounts h pks ≡ reply existing)

abbrev pub infos_of : Map BankInfo → List BankInfo
infos_of by_mint = map (λ e. e.1) by_mint

-- Behind the instructions for the compute budget, the message creates token accounts of the fee
-- payer, who pays for it: one for each bank whose account is missing in an answer of the node.
abbrev pub IsCreation : Env → Rpc.Rpc → Keypair → Map BankInfo → Message → Type 0
IsCreation env rpc fee_payer by_mint m =
    (existing : List (Option Account)) × (missing : List BankInfo) × IsAnswered env
      (map (λ info. ata_for env info (env.pubkey_of fee_payer)) (infos_of by_mint)) existing
    × Lacks (infos_of by_mint) existing missing
    × (is_empty missing ≡ false)
    × (strip_budget m.ixs ≡ map (Atas.create_ix env rpc (env.pubkey_of fee_payer)) missing)
    × (m.payer ≡ env.pubkey_of fee_payer)

missing_of-Lacks :
    (infos : List BankInfo) (existing : List (Option Account))
    → Yields (Unit {0}) (Lacks infos existing) (Atas.missing_of infos existing)
unfolding Atas.missing_of
missing_of-Lacks [] existing = ok-Yields (no_more existing)
missing_of-Lacks (info ∷ infos) [] = record { run = tt }
missing_of-Lacks (info ∷ infos) (none ∷ existing) =
    with_lacking (Atas.missing_of infos existing) (missing_of-Lacks infos existing)
  where
    with_lacking :
        (r : Result (List BankInfo))
        → Yields (Unit {0}) (Lacks infos existing) r
        → Yields (Unit {0}) (Lacks (info ∷ infos) (none ∷ existing)) (Atas.cons_found info r)
    with_lacking (ok missing) y = ok-Yields (lacking info infos missing existing y.run)
    with_lacking (err e) y = err-Yields e
    with_lacking panicked y = record { run = tt }
missing_of-Lacks (info ∷ infos) (some a ∷ existing) =
    with_present (Atas.missing_of infos existing) (missing_of-Lacks infos existing)
  where
    with_present :
        (r : Result (List BankInfo))
        → Yields (Unit {0}) (Lacks infos existing) r
        → Yields (Unit {0}) (Lacks (info ∷ infos) (some a ∷ existing)) r
    with_present (ok missing) y = ok-Yields (present info infos missing a existing y.run)
    with_present (err e) y = err-Yields e
    with_present panicked y = record { run = tt }

-- The policy of the creation.
abbrev pub Creations : Env → Rpc.Rpc → Keypair → Map BankInfo → Policy
Creations env rpc fee_payer by_mint h m = IsCreation env rpc fee_payer by_mint m

module _ (P : Policy) (ks : List Key) (env : Env) (rpc : Rpc.Rpc) (fee_payer : Keypair)
    (by_mint : Map BankInfo)
    (lets : (h : History) (m : Message) → IsCreation env rpc fee_payer by_mint m → P h m) where
  abbrev atas : List Pubkey
  atas = map (λ info. ata_for env info (env.pubkey_of fee_payer)) (infos_of by_mint)

  Replied : Reply (List (Option Account)) → State → Type 0
  Replied (reply existing) s = Allowed P ks s × IsAnswered env atas existing
  Replied (refused e) s = Allowed P ks s

  replied :
      (r : Reply (List (Option Account))) (h : History) (s : State)
      → env.get_multiple_accounts h atas ≡ r
      → Allowed P ks s
      → Replied r s
  unfolding Replied
  replied (reply existing) h s e i = (i, (h, e))
  replied (refused c) h s e i = i

  of_reply-Triple :
      (r : Reply (List (Option Account)))
      → Triple
          (Allowed P ks)
          (Sent P)
          (Replied r)
          (of_reply r)
          (λ existing s. Allowed P ks s × IsAnswered env atas existing)
  unfolding Replied of_reply pure fail
  of_reply-Triple (reply existing) = record { run = λ s h. h }
  of_reply-Triple (refused e) = record { run = λ s h. h }

  reads_atas-Triple :
      Triple
        (Allowed P ks)
        (Sent P)
        (Allowed P ks)
        (get_multiple_accounts env rpc atas)
        (λ existing s. Allowed P ks s × IsAnswered env atas existing)
  unfolding get_multiple_accounts
  reads_atas-Triple =
      bind-Triple Replied
        (call-Triple _ _ (λ s i.
          replied _ s.history (record_event (asked_accounts atas) s) refl
            ((message_reads P ks).quiet (asked_accounts atas) s tt i)))
        of_reply-Triple

  create_missing-Allowed :
      (existing : List (Option Account)) (missing : List BankInfo)
      → IsAnswered env atas existing
      → Lacks (infos_of by_mint) existing missing
      → Keeps (Allowed P ks) (Sent P) (Atas.create_missing env rpc fee_payer missing)
  unfolding Atas.create_missing Atas.create_associated_token_account_idempotent_ix
  create_missing-Allowed existing [] a l = pure-Keeps _
  create_missing-Allowed existing (info ∷ missing) a l =
      bind-Keeps
        (send_signed_labeled-Allowed P ks env rpc _ _ fee_payer [] λ n h.
          lets h _ (existing, info ∷ missing, a, l, refl, strip_budget-preamble rpc _ _, refl))
        λ sig. pure-Keeps _

  create_atas-Allowed : Keeps (Allowed P ks) (Sent P) (do
    existing ← get_multiple_accounts env rpc atas
    missing ← of_result (Atas.missing_of (infos_of by_mint) existing)
    Atas.create_missing env rpc fee_payer missing)
  create_atas-Allowed = bind-Triple _ reads_atas-Triple λ existing. known-Triple λ a.
      bind-Triple _ (of_result-Triple (λ s i. i.0) (missing_of-Lacks (infos_of by_mint) existing))
        λ missing. known-Triple λ l. create_missing-Allowed existing missing a l

pub ensure_atas_of-Allowed :
    (P : Policy) (ks : List Key) (env : Env) (rpc : Rpc.Rpc) (fee_payer : Keypair)
    (by_mint : Map BankInfo)
    → ((h : History) (m : Message) → IsCreation env rpc fee_payer by_mint m → P h m)
    → Keeps (Allowed P ks) (Sent P) (Atas.ensure_atas_of env rpc fee_payer by_mint)
unfolding Atas.ensure_atas_of
ensure_atas_of-Allowed P ks env rpc fee_payer [] lets = pure-Keeps _
ensure_atas_of-Allowed P ks env rpc fee_payer (entry ∷ by_mint) lets =
    create_atas-Allowed P ks env rpc fee_payer (entry ∷ by_mint) lets

-- If every transaction sent so far creates missing token accounts (its payer is the fee payer;
-- behind the instructions for the compute budget it has one to create an account of the fee payer
-- for each bank of the registry, in order, whose account is missing in an answer that the node gave
-- for them, and at least one), then this still holds after the token accounts are ensured, however
-- that ends and whatever the environment answers; and if it ends with a value or an error, the same
-- keys are in flight.
pub ensure_atas_for-IsCreation :
    (env : Env) (rpc : Rpc.Rpc) (fee_payer : Keypair) (s : State)
    → AreSent (Creations env rpc fee_payer s.banks) s.history
    → After
        (Allowed (Creations env rpc fee_payer s.banks) s.inflight)
        (Sent (Creations env rpc fee_payer s.banks))
        (λ _. Allowed (Creations env rpc fee_payer s.banks) s.inflight)
        (Atas.ensure_atas_for env rpc fee_payer s)
unfolding Atas.ensure_atas_for ◌>>=◌ gets
ensure_atas_for-IsCreation env rpc fee_payer s h =
    (ensure_atas_of-Allowed (Creations env rpc fee_payer s.banks) s.inflight env rpc fee_payer
        s.banks (λ h m p. p)).run
      s (h, refl)
