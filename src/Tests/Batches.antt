-- ===== src/Tests/Batches.antt =====
-- A batched read of 150 accounts in two chunks, the second answered first.
use y_delta_crankers.Base.{
  ℕ, zero, suc, ◌*◌, ◌<◌, ◌≡◌, refl, inl, inr, List, [], ◌∷◌, Option, some, map, replicate, length,
  arith,
}
use y_delta_crankers.System.Types.{Pubkey, Account}
use y_delta_crankers.System.Env.{Env, reply}
use y_delta_crankers.System.Action.{ok}
use y_delta_crankers.Rpc.Batch
use y_delta_crankers.Rpc.Batch.Order.{IsChunk, batch_get_multiple_accounts-map}
use y_delta_crankers.Tests.World.{world, start}

abbrev account_of : Pubkey → Option Account
account_of pk = some (record { owner = pk; bytes = [] })

abbrev steady_world : Env
steady_world = record world { get_multiple_accounts = λ h pks. reply (map account_of pks) }

abbrev addresses : List Pubkey
addresses = replicate 150 7

covers : (k : ℕ) → k * 100 < length addresses → IsChunk k (1 ∷ 0 ∷ [])
covers zero l = inr (inl refl)
covers (suc zero) l = inl refl
covers (suc (suc k)) l = absurd (omega (arith, l))

batch_get_multiple_accounts-map_example :
    (Batch.batch_get_multiple_accounts steady_world addresses (1 ∷ 0 ∷ []) start).0
    ≡ ok (map account_of addresses)
batch_get_multiple_accounts-map_example =
    batch_get_multiple_accounts-map steady_world account_of addresses (1 ∷ 0 ∷ []) start
      (λ h pks. refl) (omega arith, (omega arith, tt)) covers
