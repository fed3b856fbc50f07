-- ===== src/Tests/Banks.antt =====
-- The registry of banks in the small world of Tests/World.
use y_delta_crankers.Base.{refl, []}
use y_delta_crankers.System.Rules.{After}
use y_delta_crankers.BankRegistry.Discover
use y_delta_crankers.BankRegistry.Discover.Refresh.{
  AreBanks, HasBank, discovery-AreBanks, refresh_banks-HasBank,
}
use y_delta_crankers.System.Action.{State}
use y_delta_crankers.Tests.World.{world, rpc, start, bank}

-- The process before the discovery.
abbrev bare : State
bare = record start { banks = [] }

discovery-AreBanks_example :
    After
      (AreBanks world 2)
      (AreBanks world 2)
      (λ _. AreBanks world 2)
      (Discover.discover_banks_from_markets world rpc 2 bare)
    × After
        (AreBanks world 2)
        (AreBanks world 2)
        (λ _. AreBanks world 2)
        (Discover.refresh_banks world rpc 2 bare)
discovery-AreBanks_example = discovery-AreBanks world rpc 2 bare tt

refresh_banks-HasBank_example :
    After
      (HasBank 20 (bank 20))
      (HasBank 20 (bank 20))
      (λ _. HasBank 20 (bank 20))
      (Discover.refresh_banks world rpc 2 start)
refresh_banks-HasBank_example = refresh_banks-HasBank world rpc 2 20 (bank 20) start refl
