-- ===== src/Rpc/Batch.antt =====
-- src/rpc.rs `batch_get_multiple_accounts`: the addresses are asked for in chunks of 100, whose
-- tasks run side by side. The order in which the tasks are answered and joined is the runtime's, so
-- it is a parameter: the indices of the chunks.
pub mod Writes
pub mod Order
use y_delta_crankers.Base.{
  ℕ, zero, suc, ◌+◌, ◌*◌, ltb, List, [], ◌∷◌, Option, none, some, take, drop, length, replicate,
  is_empty, if◌then◌else◌,
}
use y_delta_crankers.System.Types.{Pubkey, Account}
use y_delta_crankers.System.Env.{Env, asked_accounts}
use y_delta_crankers.System.Action.{
  Action, Result, ok, err, panicked, pure, of_reply, of_result, call, ◌>>=◌,
}

abbrev pub chunk_size : ℕ
chunk_size = 100

-- The chunk of an index: `addresses.chunks(CHUNK_SIZE)`
unfoldable pub chunk : List Pubkey → ℕ → List Pubkey
chunk addresses idx = take chunk_size (drop (idx * chunk_size) addresses)

abbrev put_front : {A : Type 0} → A → Option (List A) → Option (List A)
put_front x none = none
put_front x (some xs) = some (x ∷ xs)

-- `output[i] = a`, or none where the index is out of range
unfoldable pub set_at : {A : Type 0} → ℕ → A → List A → Option (List A)
set_at i a [] = none
set_at zero a (x ∷ xs) = some (a ∷ xs)
set_at (suc i) a (x ∷ xs) = put_front x (set_at i a xs)

abbrev and_then : {A B : Type 0} → Option A → (A → Option B) → Option B
and_then none f = none
and_then (some a) f = f a

-- The answers of a chunk, written from `base` on.
unfoldable pub write_from : {A : Type 0} → ℕ → List A → List A → Option (List A)
write_from base [] output = some output
write_from base (a ∷ accounts) output =
    and_then (set_at base a output) (write_from (suc base) accounts)

abbrev or_panicked : {A : Type 0} → Option A → Result A
or_panicked none = panicked
or_panicked (some a) = ok a

module _ (env : Env) (addresses : List Pubkey) where
  -- The tasks in the order of their answers; the first error ends the loop.
  unfoldable pub join_all : List ℕ → List (Option Account) → Action (List (Option Account))
  join_all [] output = pure output
  join_all (idx ∷ order) output = do
    r ←
        call (asked_accounts (chunk addresses idx))
          (λ h. env.get_multiple_accounts h (chunk addresses idx))
    accounts ← of_reply r
    written ← of_result (or_panicked (write_from (idx * chunk_size) accounts output))
    join_all order written

  unfoldable pub batch_get_multiple_accounts : List ℕ → Action (List (Option Account))
  batch_get_multiple_accounts order =
      if is_empty addresses then pure [] else join_all order (replicate (length addresses) none)
