-- ===== src/BankRegistry/Discover.antt =====
-- src/bank_registry.rs `discover_from_markets` and `resolve_from_chain`, and the methods of
-- src/config.rs that fill the shared registry with what is discovered.
pub mod Entries
pub mod Resolved
pub mod Refresh
use y_delta_crankers.Base.{ℕ, List, [], ◌∷◌, Option, Map, map, is_empty, if◌then◌else◌}
use y_delta_crankers.System.Types.{Pubkey, Account, BankInfo, MarketView}
use y_delta_crankers.System.Env.{Env, asked_accounts}
use y_delta_crankers.System.Action.{Action, pure, of_reply, of_result, call, modify, ◌>>=◌}
use y_delta_crankers.Rpc
use y_delta_crankers.ChainReader
use y_delta_crankers.BankRegistry.{bind_markets, merge_from}
use y_delta_crankers.BankRegistry.Decode.{
  Entry, Decoded, sort_entries, decode_entries, build_registry,
}

module _ (env : Env) (rpc : Rpc.Rpc) where
  unfoldable pub get_multiple_accounts : List Pubkey → Action (List (Option Account))
  get_multiple_accounts pks = do
    r ← call (asked_accounts pks) (λ h. env.get_multiple_accounts h pks)
    of_reply r

  -- The banks in the order of their mints.
  unfoldable pub resolve_entries : Pubkey → List Entry → Action (Map BankInfo)
  resolve_entries marginfi_program entries = do
    bank_accounts ← get_multiple_accounts (map (λ e. e.1) entries)
    decoded ← of_result (decode_entries env marginfi_program entries bank_accounts)
    mint_accounts ← get_multiple_accounts (map (λ d. d.view.mint) decoded)
    of_result (build_registry [] decoded mint_accounts)

  unfoldable pub resolve_from_chain : Pubkey → Map Pubkey → Action (Map BankInfo)
  resolve_from_chain marginfi_program mint_to_bank =
      if is_empty mint_to_bank
      then pure []
      else resolve_entries marginfi_program (sort_entries mint_to_bank)

  -- No markets, no banks; otherwise those that the markets are bound to.
  unfoldable pub discover_from : Pubkey → List MarketView → Action (Map BankInfo)
  discover_from marginfi_program [] = pure []
  discover_from marginfi_program (m ∷ ms) = do
    mint_to_bank ← of_result (bind_markets (m ∷ ms) [])
    resolve_from_chain marginfi_program mint_to_bank

  unfoldable pub discover_from_markets : Pubkey → Action (Map BankInfo)
  discover_from_markets marginfi_program = do
    markets ← ChainReader.refresh_markets env rpc
    discover_from marginfi_program markets

  -- At the start: the discovered banks replace the registry.
  unfoldable pub discover_banks_from_markets : Pubkey → Action (Unit {0})
  discover_banks_from_markets marginfi_program = do
    fresh ← discover_from_markets marginfi_program
    modify (λ s. record s { banks = fresh })

  -- Later: new mints are added.
  unfoldable pub refresh_banks : Pubkey → Action (Unit {0})
  refresh_banks marginfi_program = do
    fresh ← discover_from_markets marginfi_program
    if is_empty fresh then pure tt else modify (λ s. record s { banks = merge_from s.banks fresh })
