-- ===== src/BankRegistry/Atas.antt =====
-- src/bank_registry.rs `ensure_atas_for`: the missing token accounts of the fee payer are created.
pub mod Created
use y_delta_crankers.Base.{Bool, true, false, List, [], ◌∷◌, Option, none, some, Map, map}
use y_delta_crankers.System.Types.{
  Pubkey, Keypair, Account, BankInfo, AccountMeta, Instruction, raw, label_create_atas,
}
use y_delta_crankers.System.Env.{Env}
use y_delta_crankers.System.Action.{Action, Result, ok, err, panicked, pure, gets, of_result, ◌>>=◌}
use y_delta_crankers.Rpc
use y_delta_crankers.BankRegistry.{ata_program_id, ata_for}
use y_delta_crankers.BankRegistry.Discover.{get_multiple_accounts}

-- `system_program::ID`
abbrev pub system_program_id : Pubkey
system_program_id = 0

abbrev meta : Bool → Bool → Pubkey → AccountMeta
meta is_writable is_signer key = record {
  key = key;
  is_signer = is_signer;
  is_writable = is_writable;
}

abbrev cons_found : {A : Type 0} → A → Result (List A) → Result (List A)
cons_found d (ok ds) = ok (d ∷ ds)
cons_found d (err e) = err e
cons_found d panicked = panicked

-- The accounts without one: `existing[i]` is out of range where the answer is too short.
unfoldable pub missing_of : {A : Type 0} → List A → List (Option Account) → Result (List A)
missing_of [] existing = ok []
missing_of (d ∷ ds) [] = panicked
missing_of (d ∷ ds) (none ∷ existing) = cons_found d (missing_of ds existing)
missing_of (d ∷ ds) (some a ∷ existing) = missing_of ds existing

module _ (env : Env) (rpc : Rpc.Rpc) where
  unfoldable pub create_associated_token_account_idempotent_ix :
      Pubkey → Pubkey → Pubkey → Pubkey → Instruction
  create_associated_token_account_idempotent_ix funding owner mint token_program =
      raw ata_program_id
        (meta true true funding
          ∷ meta true false (
              env.find_program_address
                (env.key_bytes owner ∷ env.key_bytes token_program ∷ env.key_bytes mint ∷ [])
                ata_program_id)
          ∷ meta false false owner
          ∷ meta false false mint
          ∷ meta false false system_program_id
          ∷ meta false false token_program
          ∷ [])
        (1 ∷ [])

  abbrev pub create_ix : Pubkey → BankInfo → Instruction
  create_ix owner info =
      create_associated_token_account_idempotent_ix owner owner info.mint info.token_program

  unfoldable pub create_missing : Keypair → List BankInfo → Action (Unit {0})
  create_missing fee_payer [] = pure tt
  create_missing fee_payer (info ∷ missing) = do
    sig ←
        Rpc.send_signed_labeled env rpc label_create_atas
          (map (create_ix (env.pubkey_of fee_payer)) (info ∷ missing)) (fee_payer ∷ [])
    pure tt

  -- For a registry, by its entries.
  unfoldable pub ensure_atas_of : Keypair → Map BankInfo → Action (Unit {0})
  ensure_atas_of fee_payer [] = pure tt
  ensure_atas_of fee_payer (entry ∷ by_mint) = do
    let infos : List BankInfo = map (λ e. e.1) (entry ∷ by_mint)
    existing ←
        get_multiple_accounts env rpc
          (map (λ info. ata_for env info (env.pubkey_of fee_payer)) infos)
    missing ← of_result (missing_of infos existing)
    create_missing fee_payer missing

  unfoldable pub ensure_atas_for : Keypair → Action (Unit {0})
  ensure_atas_for fee_payer = do banks ← gets (λ s. s.banks); ensure_atas_of fee_payer banks
