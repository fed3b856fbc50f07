-- ===== src/BankRegistry.antt =====
-- src/bank_registry.rs: the metadata of the marginfi banks by mint, and how it is discovered from
-- the markets.
pub mod Oracles
pub mod Bindings
pub mod Decode
pub mod Discover
pub mod Atas
use y_delta_crankers.Base.{
  ℕ, Option, none, some, Map, lookup, insert, or_insert, if◌then◌else◌, ◌==◌, ◌||◌, leb, Bool, true,
  false, List, [], ◌∷◌,
}
use y_delta_crankers.System.Types.{Pubkey, BankInfo, MarketView, bank_conflict}
use y_delta_crankers.System.Env.{Env}
use y_delta_crankers.System.Action.{Result, ok, err, panicked}

-- The keys of the three programs, decoded from their base58 spelling.
abbrev pub ata_program_id : Pubkey
ata_program_id = 0x8c97258f4e2489f1bb3d1029148e0d830b5a1399daff1084048e7bd8dbe9f859

abbrev pub spl_token_legacy_id : Pubkey
spl_token_legacy_id = 0x6ddf6e1d765a193d9cbe146ceeb79ac1cb485ed5f5b37913a8cf5857eff00a9

abbrev pub spl_token_2022_id : Pubkey
spl_token_2022_id = 0x6ddf6e1ee758fde18425dbce46ccddab61afc4d83b90d27febdf928d8a18bfc

-- marginfi `OracleSetup::SwitchboardPull`
abbrev pub oracle_setup_switchboard_pull : ℕ
oracle_setup_switchboard_pull = 4

abbrev first_or_default : List Pubkey → Pubkey
first_or_default [] = 0
first_or_default (oracle ∷ rest) = oracle

unfoldable pub primary_oracle : BankInfo → Pubkey
primary_oracle info = first_or_default info.oracles

unfoldable pub is_switchboard_pull : BankInfo → Bool
is_switchboard_pull info = info.oracle_setup == oracle_setup_switchboard_pull

-- `has_switchboard_pull`
unfoldable pub has_switchboard_pull : Map BankInfo → Bool
has_switchboard_pull [] = false
has_switchboard_pull ((mint, info) ∷ by_mint) =
    is_switchboard_pull info || has_switchboard_pull by_mint

-- `sort` on keys
unfoldable pub insert_key : Pubkey → List Pubkey → List Pubkey
insert_key k [] = k ∷ []
insert_key k (j ∷ js) = let rest = insert_key k js in if leb k j then k ∷ j ∷ js else j ∷ rest

unfoldable pub sort_keys : List Pubkey → List Pubkey
sort_keys [] = []
sort_keys (k ∷ ks) = insert_key k (sort_keys ks)

-- `dedup`: an element equal to the one kept before it is dropped.
unfoldable pub dedup_after : Pubkey → List Pubkey → List Pubkey
dedup_after k [] = []
dedup_after k (j ∷ js) =
    let rest = dedup_after k js in let next = dedup_after j js in if k == j then rest else j ∷ next

abbrev pub dedup : List Pubkey → List Pubkey
dedup [] = []
dedup (k ∷ ks) = k ∷ dedup_after k ks

abbrev pub pull_oracles : Map BankInfo → List Pubkey
pull_oracles [] = []
pull_oracles ((mint, info) ∷ by_mint) =
    let rest = pull_oracles by_mint in
    if is_switchboard_pull info then primary_oracle info ∷ rest else rest

-- The primary oracles of the banks that are cranked, each once.
unfoldable pub switchboard_pull_oracles : Map BankInfo → List Pubkey
switchboard_pull_oracles by_mint = dedup (sort_keys (pull_oracles by_mint))

module _ (env : Env) where
  unfoldable pub ata_for : BankInfo → Pubkey → Pubkey
  ata_for info owner =
      env.find_program_address
        (env.key_bytes owner ∷ env.key_bytes info.token_program ∷ env.key_bytes info.mint ∷ [])
        ata_program_id

-- `insert` into the map of bindings, which reports a binding it replaces; a replaced bank that
-- differs ends the discovery.
abbrev pub checked_bind :
    Pubkey → Pubkey → Pubkey → Map Pubkey → Option Pubkey → Result (Map Pubkey)
checked_bind market mint bank mint_to_bank none = ok (insert mint bank mint_to_bank)
checked_bind market mint bank mint_to_bank (some prev) =
    if prev == bank
    then ok (insert mint bank mint_to_bank)
    else err (bank_conflict market bank prev mint)

unfoldable pub bind_mint : Pubkey → Pubkey → Pubkey → Map Pubkey → Result (Map Pubkey)
bind_mint market mint bank mint_to_bank =
    checked_bind market mint bank mint_to_bank (lookup mint mint_to_bank)

abbrev pub and_bind : Result (Map Pubkey) → (Map Pubkey → Result (Map Pubkey)) → Result (Map Pubkey)
and_bind (ok mint_to_bank) next = next mint_to_bank
and_bind (err e) next = err e
and_bind panicked next = panicked

-- The loop of `discover_from_markets`.
unfoldable pub bind_markets : List MarketView → Map Pubkey → Result (Map Pubkey)
bind_markets [] mint_to_bank = ok mint_to_bank
bind_markets (m ∷ ms) mint_to_bank =
    and_bind (bind_mint m.address m.debt_mint m.debt_bank mint_to_bank) λ with_debt.
      and_bind (bind_mint m.address m.collateral_mint m.collateral_bank with_debt)
        λ with_both. bind_markets ms with_both

-- `merge_from`: the entries of the other registry in the order of its iteration.
unfoldable pub merge_from : Map BankInfo → Map BankInfo → Map BankInfo
merge_from by_mint [] = by_mint
merge_from by_mint ((mint, info) ∷ other) = merge_from (or_insert mint info by_mint) other
