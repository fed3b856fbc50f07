-- ===== src/BankRegistry/Decode.antt =====
-- src/bank_registry.rs `resolve_from_chain`: what is made of the accounts of the banks and of their
-- mints. An account that the node left out of its answer is an index out of range.
use y_delta_crankers.Base.{
  ℕ, ltb, leb, ◌==◌, ◌||◌, Bool, not, List, [], ◌∷◌, Option, Map, insert, codes, is_empty, length,
  if◌then◌else◌,
}
use y_delta_crankers.System.Types.{
  Pubkey, Account, BankInfo, bank_not_found, bank_wrong_owner, bank_wrong_mint, lva_derivation,
  mint_not_found, mint_wrong_owner, bad_oracle_count, Error,
}
use y_delta_crankers.System.Env.{Env}
use y_delta_crankers.System.Action.{Result, ok, err, panicked}
use y_delta_crankers.System.Outcome.{◌>>=◌, ok_or}
use y_delta_crankers.MarginfiBank.{BankView, try_from_account_data}
use y_delta_crankers.BankRegistry.{spl_token_legacy_id, spl_token_2022_id}

-- A mint with its bank, and what is decoded of them: the view and the vault authority.
abbrev pub Entry : Type 0
Entry = Pubkey × Pubkey

pub record Decoded : Type 0 where
  pub mint : Pubkey
  pub bank : Pubkey
  pub view : BankView
  pub lva : Pubkey

-- `sort_by_key` on the bytes of the mint: a stable insertion.
unfoldable pub insert_entry : Entry → List Entry → List Entry
insert_entry e [] = e ∷ []
insert_entry e (f ∷ fs) =
    let rest = insert_entry e fs in if leb e.0 f.0 then e ∷ f ∷ fs else f ∷ rest

unfoldable pub sort_entries : List Entry → List Entry
sort_entries [] = []
sort_entries (e ∷ es) = insert_entry e (sort_entries es)

-- `LIQUIDITY_VAULT_AUTHORITY_SEED`
abbrev pub liquidity_vault_authority_seed : List ℕ
liquidity_vault_authority_seed = codes "liquidity_vault_auth"

-- A guard: `if bad { bail!(..) }`
abbrev pub refuse_if : Bool → Error → Result (Unit {0})
refuse_if bad e = if bad then err e else ok tt

module _ (env : Env) (marginfi_program : Pubkey) where
  -- The address of the vault authority of a bank.
  abbrev pub lva_of : Pubkey → BankView → Option Pubkey
  lva_of bank view =
      env.create_program_address
        (liquidity_vault_authority_seed ∷ env.key_bytes bank ∷ (view.lva_bump ∷ []) ∷ [])
        marginfi_program

  -- One turn of the first loop.
  unfoldable pub decode_entry : Pubkey → Pubkey → Option Account → Result Decoded
  decode_entry expected_mint bank account = do
    acct ← ok_or account (bank_not_found bank)
    owned ← refuse_if (not (acct.owner == marginfi_program)) (bank_wrong_owner expected_mint)
    view ← try_from_account_data acct.bytes
    paired ← refuse_if (not (view.mint == expected_mint)) (bank_wrong_mint expected_mint)
    lva ← ok_or (lva_of bank view) (lva_derivation expected_mint)
    ok (record { mint = expected_mint; bank = bank; view = view; lva = lva })

  unfoldable pub decode_entries : List Entry → List (Option Account) → Result (List Decoded)
  decode_entries [] accounts = ok []
  decode_entries (e ∷ es) [] = panicked
  decode_entries (e ∷ es) (a ∷ accounts) = do
    d ← decode_entry e.0 e.1 a
    rest ← decode_entries es accounts
    ok (d ∷ rest)

unfoldable pub token_program_of : Pubkey → Pubkey → Result Pubkey
token_program_of mint owner =
    if owner == spl_token_legacy_id
    then ok spl_token_legacy_id
    else if owner == spl_token_2022_id
    then ok spl_token_2022_id
    else err (mint_wrong_owner mint)

-- One turn of the second loop.
unfoldable pub bank_info : Decoded → Option Account → Result BankInfo
bank_info d account = do
  m ← ok_or account (mint_not_found d.mint)
  token_program ← token_program_of d.mint m.owner
  counted ←
      refuse_if (is_empty d.view.oracles || ltb 5 (length d.view.oracles)) (bad_oracle_count d.mint)
  ok (record {
    mint = d.mint;
    bank = d.bank;
    liquidity_vault = d.view.liquidity_vault;
    liquidity_vault_authority = d.lva;
    oracles = d.view.oracles;
    token_program = token_program;
    oracle_setup = d.view.oracle_setup;
  })

unfoldable pub build_registry :
    Map BankInfo → List Decoded → List (Option Account) → Result (Map BankInfo)
build_registry by_mint [] accounts = ok by_mint
build_registry by_mint (d ∷ ds) [] = panicked
build_registry by_mint (d ∷ ds) (a ∷ accounts) = do
  info ← bank_info d a
  build_registry (insert d.mint info by_mint) ds accounts
