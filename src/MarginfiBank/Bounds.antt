-- ===== src/MarginfiBank/Bounds.antt =====
-- The decoder of src/marginfi_bank.rs reads only inside the account: it never panics.
use y_delta_crankers.Base.{
  ℕ, zero, suc, ◌+◌, ◌-◌, ◌*◌, ◌≤◌, ◌<◌, ◌⊎◌, ◌≡◌, ◌≢◌, refl, ◌∙◌, true, false, inl, inr, List, [],
  some, take, drop, length, length-take, length-drop, get_range, bytes_eq, ltb, ◌==◌, arith, All,
  Bool-cases,
}
use y_delta_crankers.Base.Int.{ℤ}
use y_delta_crankers.System.Types.{Pubkey, bank_too_small, bank_discriminator}
use y_delta_crankers.System.Action.{Result, ok, err, panicked}
use y_delta_crankers.MarginfiBank.{
  BankView, unwrap, read_pubkey, read_i128, read_u32, read_u8, read_points, read_oracles, push_key,
  decode_body, try_from_account_data, bank_discriminator_bytes, bank_account_size, bank_body_size,
}

-- Keys of oracles: at most so many, and none the default.
abbrev pub AreOracles : ℕ → List Pubkey → Type 0
AreOracles n oracles = (length oracles ≤ n) × All (λ pk. pk ≢ 0) oracles

-- The result is a value with this property.
abbrev Returns : {A : Type 0} → (A → Type 0) → Result A → Type 0
Returns P (ok a) = P a
Returns P _ = ⊥

get_range-some :
    (body : List ℕ) (first last : ℕ)
    → first ≤ last
    → last ≤ length body
    → (bytes : List ℕ) × (get_range body first last ≡ some bytes)
get_range-some body first last order h = (take (last - first) (drop first body), ground arith)

module _ {B : Type 0} (P : B → Type 0) (body : List ℕ) where
  unwrap-Returns :
      (first last : ℕ) (next : List ℕ → Result B)
      → first ≤ last
      → last ≤ length body
      → ((bytes : List ℕ) → Returns P (next bytes))
      → Returns P (unwrap (get_range body first last) next)
  unwrap-Returns first last next order h k =
      let got = get_range-some body first last order h in rw got.1 (k got.0)

  read_pubkey-Returns :
      (off : ℕ) (next : Pubkey → Result B)
      → off + 32 ≤ length body
      → ((pk : Pubkey) → Returns P (next pk))
      → Returns P (read_pubkey body off next)
  unfolding read_pubkey
  read_pubkey-Returns off next h k = unwrap-Returns off _ _ (omega arith) h (λ bytes. k _)

  read_i128-Returns :
      (off : ℕ) (next : ℤ → Result B)
      → off + 16 ≤ length body
      → ((v : ℤ) → Returns P (next v))
      → Returns P (read_i128 body off next)
  unfolding read_i128
  read_i128-Returns off next h k = unwrap-Returns off _ _ (omega arith) h (λ bytes. k _)

  read_u32-Returns :
      (off : ℕ) (next : ℕ → Result B)
      → off + 4 ≤ length body
      → ((v : ℕ) → Returns P (next v))
      → Returns P (read_u32 body off next)
  unfolding read_u32
  read_u32-Returns off next h k = unwrap-Returns off _ _ (omega arith) h (λ bytes. k _)

  read_u8-Returns :
      (off : ℕ) (next : ℕ → Result B)
      → off + 1 ≤ length body
      → ((v : ℕ) → Returns P (next v))
      → Returns P (read_u8 body off next)
  unfolding read_u8
  read_u8-Returns off next h k = unwrap-Returns off _ _ (omega arith) h (λ bytes. k _)

  read_points-Returns :
      (off left : ℕ) (next : List (ℕ × ℕ) → Result B)
      → off + 8 * left ≤ length body
      → ((points : List (ℕ × ℕ)) → Returns P (next points))
      → Returns P (read_points body off left next)
  unfolding read_points
  read_points-Returns off zero next h k = k []
  read_points-Returns off (suc left) next h k = read_u32-Returns off _ (omega (arith, h)) λ util.
      read_u32-Returns (off + 4) _ (omega (arith, h))
        λ rate. read_points-Returns (off + 8) left _ (omega (arith, h)) λ points. k _

  push_key-AreOracles :
      (n : ℕ) (pk : Pubkey) (oracles : List Pubkey)
      → AreOracles n oracles
      → AreOracles (suc n) (push_key pk oracles)
  push_key-AreOracles n pk oracles a = elim (Bool-cases (pk == 0)) [
    | inl default ↦ rw default (omega (arith, a.0), a.1)
    | inr used ↦ rw used (omega (arith, a.0), (λ e. ground (arith, used, e), a.1))
  ]

  read_oracles-Returns :
      (off left : ℕ) (next : List Pubkey → Result B)
      → off + 32 * left ≤ length body
      → ((oracles : List Pubkey) → AreOracles left oracles → Returns P (next oracles))
      → Returns P (read_oracles body off left next)
  unfolding read_oracles
  read_oracles-Returns off zero next h k = k [] (omega arith, tt)
  read_oracles-Returns off (suc left) next h k = read_pubkey-Returns off _ (omega (arith, h)) λ pk.
      read_oracles-Returns (off + 32) left _ (omega (arith, h))
        λ oracles a. k _ (push_key-AreOracles left pk oracles a)

-- What a decoded bank's oracles are.
abbrev HasOracles : BankView → Type 0
HasOracles view = AreOracles 5 view.oracles

decode_body-Returns :
    (body : List ℕ) → length body ≡ bank_body_size → Returns HasOracles (decode_body body)
unfolding decode_body
decode_body-Returns body h = read_pubkey-Returns HasOracles body 0 _ (omega (arith, h)) λ mint.
    read_pubkey-Returns HasOracles body 104 _ (omega (arith, h)) λ liquidity_vault.
      read_u8-Returns HasOracles body 137 _ (omega (arith, h)) λ lva_bump.
        read_i128-Returns HasOracles body 72 _ (omega (arith, h)) λ asset_share_value.
          read_i128-Returns HasOracles body 88 _ (omega (arith, h)) λ liability_share_value.
            read_i128-Returns HasOracles body 264 _ (omega (arith, h)) λ total_asset_shares.
              read_i128-Returns HasOracles body 248 _ (omega (arith, h)) λ total_liability_shares.
                read_i128-Returns HasOracles body 360 _ (omega (arith, h)) λ optimal_utilization.
                  read_i128-Returns HasOracles body 376 _ (omega (arith, h))
                    λ plateau_interest_rate.
                      read_i128-Returns HasOracles body 392 _ (omega (arith, h))
                        λ max_interest_rate.
                          read_i128-Returns HasOracles body 456 _ (omega (arith, h))
                            λ protocol_ir_fee.
                              read_u8-Returns HasOracles body 536 _ (omega (arith, h)) λ curve_type.
                                read_u32-Returns HasOracles body 488 _ (omega (arith, h))
                                  λ zero_util_rate.
                                    read_u32-Returns HasOracles body 492 _ (omega (arith, h))
                                      λ hundred_util_rate.
                                        read_points-Returns HasOracles body 496 5 _
                                          (omega (arith, h))
                                          λ points.
                                            read_u8-Returns HasOracles body 601 _ (omega (arith, h))
                                              λ oracle_setup.
                                                read_oracles-Returns HasOracles body 602 5 _
                                                  (omega (arith, h)) λ oracles a. a

-- The account is large enough and carries the discriminator, or which of the two fails first.
abbrev pub IsDecoded : List ℕ → Result BankView → Type 0
IsDecoded bytes (ok view) =
    (bank_account_size ≤ length bytes)
    × (bytes_eq (take 8 bytes) bank_discriminator_bytes ≡ true)
    × HasOracles view
IsDecoded bytes (err e) =
    (length bytes < bank_account_size) × (e ≡ bank_too_small)
    ⊎ (bank_account_size ≤ length bytes)
      × (bytes_eq (take 8 bytes) bank_discriminator_bytes ≡ false)
      × (e ≡ bank_discriminator)
IsDecoded bytes panicked = ⊥

body-IsDecoded :
    (bytes : List ℕ) (r : Result BankView)
    → bank_account_size ≤ length bytes
    → bytes_eq (take 8 bytes) bank_discriminator_bytes ≡ true
    → Returns HasOracles r
    → IsDecoded bytes r
body-IsDecoded bytes (ok view) size disc h = (size, disc, h)
body-IsDecoded bytes (err e) size disc h = absurd h
body-IsDecoded bytes panicked size disc h = absurd h

-- For every account: the decoder does not panic, so it reads nothing outside of the account; it
-- returns a bank exactly if the account has at least 1864 bytes and starts with the discriminator,
-- and the bank's oracle keys are then at most five, none of them the default key; otherwise the
-- error names the first of the two checks that fails.
pub try_from_account_data-IsDecoded :
    (bytes : List ℕ) → IsDecoded bytes (try_from_account_data bytes)
unfolding try_from_account_data
try_from_account_data-IsDecoded bytes = elim (Bool-cases (ltb (length bytes) bank_account_size)) [
  | inl short ↦ rw short (inl (ground (arith, short), refl))
  | inr sized ↦ rw sized (elim (Bool-cases (bytes_eq (take 8 bytes) bank_discriminator_bytes)) [
    | inl disc ↦ rw disc (
        body-IsDecoded bytes _ (ground (arith, sized)) disc (
          decode_body-Returns _ (
            length-take bank_body_size (drop 8 bytes)
            ∙ ground (arith, sized, length-drop 8 bytes))))
    | inr other ↦ rw other (inr (ground (arith, sized), other, refl))
  ])
]
