-- ===== src/System/Action.antt =====
-- Actions of the process: state passing with errors and panics. The state is what the process
-- keeps between calls, beside the history of its calls to the outside.
use y_delta_crankers.Base.{
  ℕ, ◌+◌, Bool, true, false, ◌||◌, List, [], ◌∷◌, Option, none, some, Map, bytes_eq, if◌then◌else◌,
}
use y_delta_crankers.System.Types.{MarketView, BankInfo, Error, client}
use y_delta_crankers.System.Env.{Event, History, Reply, reply, refused}

pub data Result {ℓ} (A : Type ℓ) : Type ℓ where
  ok : A → Result A
  err : Error → Result A
  panicked : Result A

-- chain_reader.rs `MarketCache`: the time of the fetch, and the snapshot.
pub record MarketCache : Type 0 where
  pub fetched_at : ℕ
  pub markets : List MarketView

-- A key of an in-flight set: a number for the handler, then the components of the tuple. The sets
-- of the five handlers are so one list of keys.
abbrev pub Key : Type 0
Key = List ℕ

pub record State : Type 0 where
  pub history : History
  pub markets_cache : Option MarketCache
  pub banks : Map BankInfo
  pub inflight : List Key
  pub fee_payer_low : Bool
  pub ata_balances : Map ℕ

abbrev pub Action : Type 0 → Type 0
Action A = State → Result A × State

abbrev pub record_event : Event → State → State
record_event e s = record s { history = e ∷ s.history }

module _ {A : Type 0} where
  unfoldable pub pure : A → Action A
  pure a s = (ok a, s)

  unfoldable pub fail : Error → Action A
  fail e s = (err e, s)

  unfoldable pub panic : Action A
  panic s = (panicked, s)

  unfoldable pub gets : (State → A) → Action A
  gets f s = (ok (f s), s)

  -- `ok_or_else(..)?`
  unfoldable pub or_fail : Option A → Error → Action A
  or_fail none e = fail e
  or_fail (some a) e = pure a

  -- `unwrap`, `expect` and indexing
  unfoldable pub or_panic : Option A → Action A
  or_panic none = panic
  or_panic (some a) = pure a

  -- `?` on a reply of the client
  unfoldable pub of_reply : Reply A → Action A
  of_reply (reply a) = pure a
  of_reply (refused e) = fail (client e)

abbrev pub then_with : {A B : Type 0} → (A → Action B) → Result A × State → Result B × State
then_with f (ok a, s) = f a s
then_with f (err e, s) = (err e, s)
then_with f (panicked, s) = (panicked, s)

infixl 5 ◌>>=◌ ◌>>◌
unfoldable pub ◌>>=◌ : {A B : Type 0} → Action A → (A → Action B) → Action B
◌>>=◌ m f s = then_with f (m s)

unfoldable pub ◌>>◌ : {A B : Type 0} → Action A → Action B → Action B
unfolding ◌>>=◌
m >> k = m >>= λ _. k

unfoldable pub modify : (State → State) → Action (Unit {0})
modify f s = (ok tt, f s)

-- An external call: the answer is read off the history, then the call is recorded.
unfoldable pub call : {A : Type 0} → Event → (History → A) → Action A
call e f s = (ok (f s.history), record_event e s)

-- The same, where the record tells something of the answer.
unfoldable pub call_noting : {A : Type 0} → (History → A) → (A → Event) → Action A
call_noting f e s = (ok (f s.history), record_event (e (f s.history)) s)

-- Raise what `attempt` caught.
unfoldable pub of_result : {A : Type 0} → Result A → Action A
unfolding fail pure panic
of_result (ok a) = pure a
of_result (err e) = fail e
of_result panicked = panic

abbrev pub caught : {A : Type 0} → Result A × State → Result (Result A) × State
caught (ok a, s) = (ok (ok a), s)
caught (err e, s) = (ok (err e), s)
caught (panicked, s) = (panicked, s)

-- `match m { Ok(..) => .., Err(e) => .. }`: an error becomes a value; a panic passes on.
unfoldable pub attempt : {A : Type 0} → Action A → Action (Result A)
attempt m s = caught (m s)

-- How the loops count a result: `Ok(true)` counts, `Ok(false)` and a logged error do not.
abbrev pub tally : Result Bool → ℕ
tally (ok true) = 1
tally (ok false) = 0
tally (err e) = 0
tally panicked = 0

-- A loop whose body returns what it adds to the counter.
unfoldable pub for_sum : {A : Type 0} → (A → Action ℕ) → List A → Action ℕ
unfolding ◌>>=◌ pure
for_sum body [] = pure 0
for_sum body (x ∷ xs) = do n ← body x; rest ← for_sum body xs; pure (n + rest)

abbrev pub contains_key : Key → List Key → Bool
contains_key k [] = false
contains_key k (j ∷ js) = bytes_eq j k || contains_key k js

abbrev pub remove_key : Key → List Key → List Key
remove_key k [] = []
remove_key k (j ∷ js) = if bytes_eq j k then js else j ∷ remove_key k js

-- `HashSet::insert`: whether the key is new.
unfoldable pub claim_inflight : Key → Action Bool
claim_inflight k s =
    if contains_key k s.inflight
    then (ok false, s)
    else (ok true, record s { inflight = k ∷ s.inflight })

unfoldable pub release_inflight : Key → Action (Unit {0})
release_inflight k s = (ok tt, record s { inflight = remove_key k s.inflight })

-- What a loop body does once it holds the key: run, release, count.
unfoldable pub run_claimed : Key → Action Bool → Bool → Action ℕ
unfolding release_inflight attempt ◌>>=◌ ◌>>◌ pure
run_claimed k m true = do res ← attempt m; release_inflight k; pure (tally res)
run_claimed k m false = pure 0

-- The shape of every handler's loop body: a key in flight is skipped.
unfoldable pub guarded : Key → Action Bool → Action ℕ
unfolding claim_inflight run_claimed ◌>>=◌
guarded k m = do fresh ← claim_inflight k; run_claimed k m fresh
