-- ===== src/Tests/Atas.antt =====
-- The token accounts of the fee payer in a world where the node has no accounts.
use y_delta_crankers.Base.{[], none, map}
use y_delta_crankers.System.Env.{Env, reply}
use y_delta_crankers.System.Rules.{After}
use y_delta_crankers.Rpc.Allowed.{Sent, Allowed}
use y_delta_crankers.BankRegistry.Atas
use y_delta_crankers.BankRegistry.Atas.Created.{Creations, ensure_atas_for-IsCreation}
use y_delta_crankers.Tests.World.{world, rpc, start}

abbrev vacant_world : Env
vacant_world = record world { get_multiple_accounts = λ h pks. reply (map (λ pk. none) pks) }

ensure_atas_for-IsCreation_example :
    After
      (Allowed (Creations vacant_world rpc 1 start.banks) [])
      (Sent (Creations vacant_world rpc 1 start.banks))
      (λ _. Allowed (Creations vacant_world rpc 1 start.banks) [])
      (Atas.ensure_atas_for vacant_world rpc 1 start)
ensure_atas_for-IsCreation_example = ensure_atas_for-IsCreation vacant_world rpc 1 start tt
