-- ===== src/Metrics.antt =====
-- src/metrics.rs: the reason labels of failures, and the loops beside the handlers: those that
-- watch the fee payer's balance and its token accounts, and the one that refreshes the banks.
pub mod Balance
use y_delta_crankers.Base.{
  ℕ, ltb, ◌==◌, ◌||◌, ◌*◌, Bool, true, false, not, List, [], ◌∷◌, Option, none, some, Map, insert,
  map, ◌++◌, codes, contains_text, if◌then◌else◌,
}
use y_delta_crankers.Base.Text.{ascii_lower}
use y_delta_crankers.System.Types.{Pubkey, Account, BankInfo}
use y_delta_crankers.System.Env.{Env, Reply, reply, refused, asked_balance}
use y_delta_crankers.System.Action.{
  State, Action, Result, ok, err, panicked, pure, panic, gets, modify, call, attempt, ◌>>=◌, ◌>>◌,
}
use y_delta_crankers.System.Host.{Text}
use y_delta_crankers.Rpc
use y_delta_crankers.Rpc.Batch.{batch_get_multiple_accounts}
use y_delta_crankers.BankRegistry.{ata_for}
use y_delta_crankers.BankRegistry.Discover.{refresh_banks}
use y_delta_crankers.Handlers.Util.{spl_token_amount}
use y_delta_crankers.Handlers.Context.{HandlerContext}
use y_delta_crankers.Supervisor.{Wake, load_stop, unless_stopping, sleep_for}

-- `FAIL_REASON_*`
pub data FailReason : Type 0 where
  rpc_error insufficient_funds sim_failed tx_rejected decode_error internal : FailReason

-- `to_lowercase`, as far as ASCII letters come out of it: the Kelvin sign becomes a k, and the
-- dotted capital I an i with a combining dot.
abbrev pub to_lowercase : Text → Text
to_lowercase [] = []
to_lowercase (c ∷ s) =
    let rest = to_lowercase s in
    if c == 0x212a
    then 107 ∷ rest
    else if c == 0x130
    then 105 ∷ 0x307 ∷ rest
    else ascii_lower c ∷ rest

abbrev pub contains_any : List Text → Text → Bool
contains_any [] msg = false
contains_any (word ∷ words) msg = contains_text word msg || contains_any words msg

-- By the text that the error displays.
unfoldable pub classify_handler_error : Text → FailReason
classify_handler_error displayed =
    let msg : Text = to_lowercase displayed in
    if contains_any (codes "insufficient" ∷ codes "lamports" ∷ codes "not enough" ∷ []) msg
    then insufficient_funds
    else if contains_any (codes "simulation" ∷ codes "simulate" ∷ []) msg
    then sim_failed
    else if contains_any (codes "blockhash" ∷ codes "send_and_confirm" ∷ codes "tx_rejected" ∷ [])
        msg
    then tx_rejected
    else if contains_any
        (codes "rpc" ∷ codes "connection" ∷ codes "timed out" ∷ codes "reqwest" ∷ codes "http" ∷ [])
        msg
    then rpc_error
    else if contains_any (codes "decode" ∷ codes "deserialize" ∷ codes "bytemuck" ∷ []) msg
    then decode_error
    else internal

module _ (env : Env) (ctx : HandlerContext) where
  abbrev differ : Bool → Bool → Bool
  differ true b = not b
  differ false b = b

  -- The flag is stored where it changes; a failed read changes nothing.
  unfoldable pub note_balance : Reply ℕ → Action (Unit {0})
  note_balance (reply lamports) = do
    was_low ← gets (λ s. s.fee_payer_low)
    let is_low : Bool = ltb lamports ctx.cfg.min_signer_balance_lamports
    if differ is_low was_low then modify (λ s. record s { fee_payer_low = is_low }) else pure tt
  note_balance (refused e) = pure tt

  -- One turn of `spawn_sol_balance_loop`.
  unfoldable pub sol_balance_round : ℕ → Action Wake
  sol_balance_round fuel = do
    stop ← load_stop env
    unless_stopping env
        (do
          let fee_payer : Pubkey = env.pubkey_of ctx.signers.fee_payer
          r ← call (asked_balance fee_payer) (λ h. env.get_balance h fee_payer)
          note_balance r
          sleep_for env fuel 60_000)
        stop

  abbrev pub logged : Result (Unit {0}) → Action (Unit {0})
  logged (ok u) = pure tt
  logged (err e) = pure tt
  logged panicked = panic

  -- One turn of `spawn_bank_refresh_loop`.
  unfoldable pub bank_refresh_round : ℕ → Action Wake
  bank_refresh_round fuel = do
    stop ← load_stop env
    unless_stopping env
        (do
          r ← attempt (refresh_banks env ctx.rpc ctx.cfg.marginfi_program_id)
          logged r
          sleep_for env fuel (1_000 * ctx.cfg.banks_refresh_interval))
        stop

  -- Each mint with the fee payer's token account.
  abbrev pub ata_entries : Map BankInfo → List (Pubkey × Pubkey)
  ata_entries banks = map (λ e. (e.0, ata_for env e.1 (env.pubkey_of ctx.signers.fee_payer))) banks

  abbrev or_zero : Option ℕ → ℕ
  or_zero none = 0
  or_zero (some amount) = amount

  -- What is missing or no token account counts as empty.
  abbrev pub balance_of : Option Account → ℕ
  balance_of none = 0
  balance_of (some account) = or_zero (spl_token_amount account.bytes)

  abbrev pub balances_from : List (Pubkey × Pubkey) → List (Option Account) → Map ℕ → Map ℕ
  balances_from [] accts new_balances = new_balances
  balances_from (e ∷ entries) [] new_balances = balances_from entries [] (insert e.0 0 new_balances)
  balances_from (e ∷ entries) (a ∷ accts) new_balances =
      balances_from entries accts (insert e.0 (balance_of a) new_balances)

  abbrev pub note_atas : List (Pubkey × Pubkey) → Result (List (Option Account)) → Action (Unit {0})
  note_atas entries (ok accts) =
      modify (λ s. record s { ata_balances = balances_from entries accts [] })
  note_atas entries (err e) = pure tt
  note_atas entries panicked = panic

  -- Without banks there is nothing to read; a failed read changes nothing.
  abbrev pub observe_atas : List ℕ → List (Pubkey × Pubkey) → Action (Unit {0})
  observe_atas order [] = pure tt
  observe_atas order (e ∷ entries) = do
    r ← attempt (batch_get_multiple_accounts env (map (λ x. x.1) (e ∷ entries)) order)
    note_atas (e ∷ entries) r

  -- One turn of `spawn_ata_balance_loop`, whose tasks are answered in this order.
  unfoldable pub ata_balance_round : List ℕ → ℕ → Action Wake
  ata_balance_round order fuel = do
    stop ← load_stop env
    unless_stopping env
        (do
          banks ← gets (λ s. s.banks)
          observe_atas order (ata_entries banks)
          sleep_for env fuel 60_000)
        stop
