-- ===== src/ChainReader/Held.antt =====
-- Where the entries of a market's queue and its seats that src/chain_reader.rs returns come from.
use y_delta_crankers.Base.{
  ℕ, ◌≤◌, leb→le, ◌||◌, ◌≡◌, refl, Bool, true, false, ◌==◌, List, [], Option, none, some, map, drop,
  is_empty, if◌then◌else◌, All, Memᴰ, All-of_mem,
}
use y_delta_crankers.System.Types.{Pubkey, Account, Error, PendingMatchedLoan, SeatView, client}
use y_delta_crankers.System.Env.{
  Env, History, Reply, reply, refused, MarketFixed, ClaimedSeat, RestingOrder,
}
use y_delta_crankers.System.Action.{
  State, Result, ok, err, panicked, pure, fail, panic, or_fail, or_panic, of_result,
}
use y_delta_crankers.System.Rules.{
  Triple, bind-Triple, then-Triple, known-Triple, call-Triple, if-Triple, if-Keeps, pure-Keeps,
  fail-Keeps, panic-Keeps,
}
use y_delta_crankers.System.Quiet.{Undisturbed}
use y_delta_crankers.Rpc
use y_delta_crankers.ChainReader
use y_delta_crankers.ChainReader.Decode.{split_market}

-- The node answered with these bytes when it was asked for the account.
abbrev pub IsHeld : Env → Pubkey → List ℕ → Type 0
IsHeld env pk bytes =
    (h : History) × (account : Account) × (env.get_account h pk ≡ reply account)
    × (account.bytes ≡ bytes)

abbrev pub AreHeld : Env → Pubkey → Option (List ℕ) → Type 0
AreHeld env pk none = Unit
AreHeld env pk (some bytes) = IsHeld env pk bytes

-- The queue of a market that was read.
abbrev pub pending_in : Env → Rpc.Rpc → Pubkey → MarketFixed × List ℕ → List PendingMatchedLoan
pending_in env rpc market parts =
    if parts.0.matched_loans_root_index == env.nil_index
    then []
    else map (ChainReader.pending_of env rpc market)
        (env.matched_loans parts.1 parts.0.matched_loans_root_index)

-- The entry stands in the queue of the market, as the node has answered.
abbrev pub IsQueued : Env → Rpc.Rpc → Pubkey → PendingMatchedLoan → Type 0
IsQueued env rpc market entry =
    (bytes : List ℕ) × IsHeld env market bytes
    × (parts : MarketFixed × List ℕ) × (split_market env bytes ≡ ok parts)
    × Memᴰ entry (pending_in env rpc market parts)

-- The seat stands at this place in the market, as the node has answered.
abbrev pub IsSeat : Env → Pubkey → ℕ → SeatView → Type 0
IsSeat env market index seat =
    (bytes : List ℕ) × IsHeld env market bytes
    × (claimed : ClaimedSeat) × (env.helper_seat (drop env.market_fixed_size bytes) index
        ≡ some claimed)
    × (seat.owner ≡ claimed.owner)
    × (seat.owner_kind ≡ claimed.owner_kind)

-- The best resting bid pays at least the rate of the best resting ask, as the node has answered.
abbrev pub IsCrossed : Env → Pubkey → Type 0
IsCrossed env market =
    (bytes : List ℕ) × IsHeld env market bytes
    × (parts : MarketFixed × List ℕ) × (split_market env bytes ≡ ok parts)
    × (bid : RestingOrder) × (env.helper_order parts.1 parts.0.bids_best_index ≡ some bid)
    × (ask : RestingOrder) × (env.helper_order parts.1 parts.0.asks_best_index ≡ some ask)
    × (ask.rate_bps ≤ bid.rate_bps)

module _ {I X : State → Type 0} (u : Undisturbed I X) (env : Env) (rpc : Rpc.Rpc) where
  account_data-Triple :
      (pk : Pubkey) (r : Reply Account)
      → Triple I X
          (λ s. I s × ((h : History) × (env.get_account h pk ≡ r)))
          (Rpc.account_data env rpc r)
          (λ o s. I s × AreHeld env pk o)
  unfolding pure fail
  account_data-Triple pk (reply account) =
      known-Triple λ read. record { run = λ s i. (i, if_any (is_empty account.bytes) read) }
    where
      if_any :
          (b : Bool)
          → (h : History) × (env.get_account h pk ≡ reply account)
          → AreHeld env pk (if b then none else some account.bytes)
      if_any true read = tt
      if_any false read = (read.0, account, read.1, refl)
  account_data-Triple pk (refused e) = known-Triple λ read. if_absent _ (client e)
    where
      if_absent :
          (b : Bool) (e : Error)
          → Triple I X I (if b then pure none else fail e) (λ o s. I s × AreHeld env pk o)
      if_absent true e = record { run = λ s i. (i, tt) }
      if_absent false e = record { run = λ s i. i }

  pub get_account_data-Triple :
      (pk : Pubkey) → Triple I X I (Rpc.get_account_data env rpc pk) (λ o s. I s × AreHeld env pk o)
  unfolding Rpc.get_account_data
  get_account_data-Triple pk =
      bind-Triple (λ r s. I s × ((h : History) × (env.get_account h pk ≡ r)))
        (call-Triple _ _ (λ s i. (u.quiet _ s tt i, (s.history, refl)))) (account_data-Triple pk)

  pub or_fail-Triple :
      (pk : Pubkey) (o : Option (List ℕ)) (e : Error)
      → Triple I X
          (λ s. I s × AreHeld env pk o)
          (or_fail o e)
          (λ bytes s. I s × IsHeld env pk bytes)
  unfolding or_fail pure fail
  or_fail-Triple pk none e = record { run = λ s i. i.0 }
  or_fail-Triple pk (some bytes) e = record { run = λ s i. i }

  of_result_known :
      {A : Type 0} (r : Result A) → Triple I X I (of_result r) (λ a s. I s × (r ≡ ok a))
  unfolding of_result pure fail panic
  of_result_known (ok a) = record { run = λ s i. (i, refl) }
  of_result_known (err e) = record { run = λ s i. i }
  of_result_known panicked = record { run = λ s i. u.crash s i }

  or_panic_known :
      {A : Type 0} (o : Option A) → Triple I X I (or_panic o) (λ a s. I s × (o ≡ some a))
  unfolding or_panic pure panic
  or_panic_known none = record { run = λ s i. u.crash s i }
  or_panic_known (some a) = record { run = λ s i. (i, refl) }

  pub read_pending_matched_loans-Triple :
      (market : Pubkey)
      → Triple I X I
          (ChainReader.read_pending_matched_loans env rpc market)
          (λ pending s. I s × All (IsQueued env rpc market) pending)
  unfolding ChainReader.read_pending_matched_loans ChainReader.market_data pure
  read_pending_matched_loans-Triple market =
      bind-Triple (λ bytes s. I s × IsHeld env market bytes)
        (bind-Triple _ (get_account_data-Triple market) λ o. or_fail-Triple market o _)
        λ bytes. known-Triple λ held.
          bind-Triple _ (of_result_known (split_market env bytes)) λ parts. known-Triple λ e.
            record {
              run = λ s i. (
                i,
                All-of_mem _ (pending_in env rpc market parts)
                    (λ entry m. (bytes, held, parts, e, m)),
              );
            }

  pub read_seat_at-Triple :
      (market : Pubkey) (bytes : List ℕ) (index : ℕ)
      → IsHeld env market bytes
      → Triple I X I
          (ChainReader.read_seat_at env rpc bytes index)
          (λ seat s. I s × IsSeat env market index seat)
  unfolding ChainReader.read_seat_at pure
  read_seat_at-Triple market bytes index held =
      then-Triple (λ _. I) (if-Keeps _ (fail-Keeps _) (pure-Keeps _))
        λ _.
          then-Triple (λ _. I) (if-Keeps _ (panic-Keeps u.crash) (pure-Keeps _))
            λ _. bind-Triple _ (or_panic_known _) λ claimed.
              known-Triple λ e. record { run = λ s i. (i, (bytes, held, claimed, e, refl, refl)) }

  best_rates_cross-Triple :
      (market : Pubkey) (bytes : List ℕ) (parts : MarketFixed × List ℕ)
      → IsHeld env market bytes
      → split_market env bytes ≡ ok parts
      → Triple I X I
          (ChainReader.best_rates_cross env rpc parts.0 parts.1)
          (λ crossed s. I s × (crossed ≡ true → IsCrossed env market))
  unfolding ChainReader.best_rates_cross pure
  best_rates_cross-Triple market bytes parts held e = bind-Triple _ (or_panic_known _) λ bid.
      known-Triple λ b. bind-Triple _ (or_panic_known _) λ ask.
        known-Triple λ a. record {
          run = λ s i. (i, λ t. (bytes, held, parts, e, bid, b, ask, a, leb→le _ _ t));
        }

  pub market_is_rate_crossed-Triple :
      (market : Pubkey)
      → Triple I X I
          (ChainReader.market_is_rate_crossed env rpc market)
          (λ crossed s. I s × (crossed ≡ true → IsCrossed env market))
  unfolding ChainReader.market_is_rate_crossed ChainReader.market_data pure
  market_is_rate_crossed-Triple market =
      bind-Triple (λ bytes s. I s × IsHeld env market bytes)
        (bind-Triple _ (get_account_data-Triple market) λ o. or_fail-Triple market o _)
        λ bytes. known-Triple λ held.
          bind-Triple _ (of_result_known (split_market env bytes)) λ parts. known-Triple λ e.
            if-Triple {m = pure false}
              (parts.0.bids_best_index == env.nil_index || parts.0.asks_best_index == env.nil_index)
              (λ n. record { run = λ s i. (i, λ t. cc t) })
              (λ n. best_rates_cross-Triple market bytes parts held e)
