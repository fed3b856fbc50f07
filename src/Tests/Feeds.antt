-- ===== src/Tests/Feeds.antt =====
-- The feeds to crank of a registry with three banks, two of which share an oracle.
use y_delta_crankers.Base.{◌≡◌, refl, [], ◌∷◌, Map}
use y_delta_crankers.System.Types.{Pubkey, BankInfo}
use y_delta_crankers.BankRegistry.{
  insert_key, sort_keys, dedup_after, primary_oracle, is_switchboard_pull, switchboard_pull_oracles,
}
use y_delta_crankers.BankRegistry.Oracles.{
  IsAscending, contains, is_fed, switchboard_pull_oracles-IsAscending,
}
use y_delta_crankers.Tests.World.{bank}

abbrev pull_bank : Pubkey → BankInfo
pull_bank oracle = record (bank 1) { oracle_setup = 4; oracles = oracle ∷ [] }

abbrev registry : Map BankInfo
registry = (1, pull_bank 30) ∷ (2, pull_bank 20) ∷ (3, pull_bank 30) ∷ []

switchboard_pull_oracles_test : switchboard_pull_oracles registry ≡ 20 ∷ 30 ∷ []
unfolding switchboard_pull_oracles sort_keys insert_key dedup_after is_switchboard_pull
    primary_oracle
switchboard_pull_oracles_test = refl

switchboard_pull_oracles-IsAscending_example :
    IsAscending (switchboard_pull_oracles registry)
    × ((k : Pubkey) → contains k (switchboard_pull_oracles registry) ≡ is_fed k registry)
switchboard_pull_oracles-IsAscending_example = switchboard_pull_oracles-IsAscending registry
