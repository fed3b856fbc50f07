-- ===== src/Tests/Gateways.antt =====
-- The failover of the Switchboard cranker over two gateways, of which the second answers.
use y_delta_crankers.Base.{◌==◌, refl, [], ◌∷◌, none, some, if◌then◌else◌, Memᴰ}
use y_delta_crankers.System.Types.{set_compute_unit_price}
use y_delta_crankers.System.Env.{Env}
use y_delta_crankers.SwbCranker.{SwbCranker, fetch_update_ixs}
use y_delta_crankers.SwbCranker.Failover.{IsFound, fetch_update_ixs-IsFound}
use y_delta_crankers.Tests.World.{world, start}

abbrev two_gateways : SwbCranker
two_gateways = record { gateways = 0 ∷ 1 ∷ []; payer = 1 }

abbrev half_world : Env
half_world = record world {
  fetch_update_consensus =
      λ h oracles gateway. if gateway == 1 then some (set_compute_unit_price 7 ∷ [], []) else none;
}

fetch_update_ixs-IsFound_example :
    IsFound half_world
      (14 ∷ [])
      (0 ∷ 1 ∷ [])
      (fetch_update_ixs half_world two_gateways (14 ∷ []) start)
fetch_update_ixs-IsFound_example =
    fetch_update_ixs-IsFound half_world two_gateways 14 [] 1 start (Memᴰ.tail (Memᴰ.head refl))
      (λ h. ((set_compute_unit_price 7 ∷ [], []), refl))
