-- ===== src/MarginfiBank.antt =====
-- src/marginfi_bank.rs: the fields of a marginfi bank account. Slices outside of the body panic.
pub mod Bounds
use y_delta_crankers.Base.{
  ℕ, zero, suc, ◌+◌, ◌*◌, ◌-◌, ◌^◌, ltb, ◌==◌, not, List, [], ◌∷◌, Option, none, some, take, drop,
  length, get_range, be_value, le_value, bytes_eq, if◌then◌else◌,
}
use y_delta_crankers.Base.Int.{ℤ, as_i128}
use y_delta_crankers.System.Types.{Pubkey, bank_too_small, bank_discriminator}
use y_delta_crankers.System.Action.{Result, ok, err, panicked}

abbrev pub bank_account_size : ℕ
bank_account_size = 1864

abbrev pub bank_body_size : ℕ
bank_body_size = 1856

abbrev pub bank_discriminator_bytes : List ℕ
bank_discriminator_bytes = 142 ∷ 49 ∷ 166 ∷ 242 ∷ 50 ∷ 66 ∷ 97 ∷ 188 ∷ []

pub record BankView : Type 0 where
  pub mint : Pubkey
  pub liquidity_vault : Pubkey
  pub lva_bump : ℕ
  pub asset_share_value_fp48 : ℤ
  pub liability_share_value_fp48 : ℤ
  pub total_asset_shares_fp48 : ℤ
  pub total_liability_shares_fp48 : ℤ
  pub optimal_utilization_fp48 : ℤ
  pub plateau_interest_rate_fp48 : ℤ
  pub max_interest_rate_fp48 : ℤ
  pub protocol_ir_fee_fp48 : ℤ
  pub curve_type : ℕ
  pub zero_util_rate_u32 : ℕ
  pub hundred_util_rate_u32 : ℕ
  pub points : List (ℕ × ℕ)
  pub oracle_setup : ℕ
  pub oracles : List Pubkey

-- `body[off..off + n]`, and what follows it.
abbrev pub unwrap : {B : Type 0} → Option (List ℕ) → (List ℕ → Result B) → Result B
unwrap none next = panicked
unwrap (some bytes) next = next bytes

unfoldable pub read_pubkey : {B : Type 0} → List ℕ → ℕ → (Pubkey → Result B) → Result B
read_pubkey body off next = unwrap (get_range body off (off + 32)) (λ bytes. next (be_value bytes))

unfoldable pub read_i128 : {B : Type 0} → List ℕ → ℕ → (ℤ → Result B) → Result B
read_i128 body off next =
    unwrap (get_range body off (off + 16)) (λ bytes. next (as_i128 (le_value bytes)))

unfoldable pub read_u32 : {B : Type 0} → List ℕ → ℕ → (ℕ → Result B) → Result B
read_u32 body off next = unwrap (get_range body off (off + 4)) (λ bytes. next (le_value bytes))

-- `body[off]`
unfoldable pub read_u8 : {B : Type 0} → List ℕ → ℕ → (ℕ → Result B) → Result B
read_u8 body off next = unwrap (get_range body off (off + 1)) (λ bytes. next (le_value bytes))

-- The curve points from an offset on.
unfoldable pub read_points : {B : Type 0} → List ℕ → ℕ → ℕ → (List (ℕ × ℕ) → Result B) → Result B
read_points body off zero next = next []
read_points body off (suc left) next = read_u32 body off λ util.
    read_u32 body (off + 4)
      λ rate. read_points body (off + 8) left λ points. next ((util, rate) ∷ points)

-- A slot that holds the default key is left out.
abbrev pub push_key : Pubkey → List Pubkey → List Pubkey
push_key pk oracles = if not (pk == 0) then pk ∷ oracles else oracles

unfoldable pub read_oracles : {B : Type 0} → List ℕ → ℕ → ℕ → (List Pubkey → Result B) → Result B
read_oracles body off zero next = next []
read_oracles body off (suc left) next =
    read_pubkey body off
      λ pk. read_oracles body (off + 32) left λ oracles. next (push_key pk oracles)

unfoldable pub decode_body : List ℕ → Result BankView
decode_body body = read_pubkey body 0 λ mint. read_pubkey body 104 λ liquidity_vault.
    read_u8 body 137 λ lva_bump. read_i128 body 72 λ asset_share_value.
      read_i128 body 88 λ liability_share_value. read_i128 body 264 λ total_asset_shares.
        read_i128 body 248 λ total_liability_shares. read_i128 body 360 λ optimal_utilization.
          read_i128 body 376 λ plateau_interest_rate. read_i128 body 392 λ max_interest_rate.
            read_i128 body 456 λ protocol_ir_fee. read_u8 body 536 λ curve_type.
              read_u32 body 488 λ zero_util_rate. read_u32 body 492 λ hundred_util_rate.
                read_points body 496 5 λ points. read_u8 body 601 λ oracle_setup.
                  read_oracles body 602 5 λ oracles. ok (record {
                    mint = mint;
                    liquidity_vault = liquidity_vault;
                    lva_bump = lva_bump;
                    asset_share_value_fp48 = asset_share_value;
                    liability_share_value_fp48 = liability_share_value;
                    total_asset_shares_fp48 = total_asset_shares;
                    total_liability_shares_fp48 = total_liability_shares;
                    optimal_utilization_fp48 = optimal_utilization;
                    plateau_interest_rate_fp48 = plateau_interest_rate;
                    max_interest_rate_fp48 = max_interest_rate;
                    protocol_ir_fee_fp48 = protocol_ir_fee;
                    curve_type = curve_type;
                    zero_util_rate_u32 = zero_util_rate;
                    hundred_util_rate_u32 = hundred_util_rate;
                    points = points;
                    oracle_setup = oracle_setup;
                    oracles = oracles;
                  })

unfoldable pub try_from_account_data : List ℕ → Result BankView
try_from_account_data bytes =
    if ltb (length bytes) bank_account_size
    then err bank_too_small
    else if not (bytes_eq (take 8 bytes) bank_discriminator_bytes)
    then err bank_discriminator
    else decode_body (take bank_body_size (drop 8 bytes))
