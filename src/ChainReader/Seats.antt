-- ===== src/ChainReader/Seats.antt =====
-- Where the claims of sub-vaults that src/chain_reader.rs returns come from.
use y_delta_crankers.Base.{
  ℕ, ◌<◌, ◌≡◌, refl, ◌==◌, true, false, List, [], ◌∷◌, Option, none, some, All, All-append, Memᴰ,
  arith, Bool-cases, inl, inr,
}
use y_delta_crankers.System.Types.{MarketView, PendingVaultClaim}
use y_delta_crankers.System.Env.{Env, MarketFixed, ClaimedSeat}
use y_delta_crankers.System.Action.{State, Result, ok, err, panicked, pure}
use y_delta_crankers.System.Rules.{Triple, bind-Triple, known-Triple, if-Triple}
use y_delta_crankers.System.Quiet.{Undisturbed}
use y_delta_crankers.Rpc
use y_delta_crankers.ChainReader
use y_delta_crankers.ChainReader.Decode.{split_market, seat_row, seat_rows, vault_claim_rows}
use y_delta_crankers.ChainReader.Sources.{IsListedMarket}
use y_delta_crankers.ChainReader.Held.{IsHeld, AreHeld, get_account_data-Triple}

-- The claim stands for a seat with shares that a sub-vault owns, in a market that the node listed
-- and that is not paused, as the node has answered.
pub record IsSeated (env : Env) (entry : PendingVaultClaim) : Type 0 where
  pub market : MarketView
  pub listed : IsListedMarket env market
  pub unpaused : market.is_paused ≡ false
  pub bytes : List ℕ
  pub held : IsHeld env market.address bytes
  pub fixed : MarketFixed
  pub dynamic : List ℕ
  pub parts : split_market env bytes ≡ ok (fixed, dynamic)
  pub seat : ClaimedSeat
  pub seated : Memᴰ seat (env.claimed_seats dynamic fixed.claimed_seats_root_index)
  pub owned : seat.owner_kind ≡ env.owner_kind_sub_vault
  pub shared : 0 < seat.debt_withdrawable_shares
  pub of_seat :
      (entry.market ≡ market.address)
      × (entry.debt_mint ≡ market.debt_mint)
      × (entry.lender_global_vault ≡ seat.owner)
      × (entry.sub_vault_id ≡ seat.sub_vault_id)

is_owned : (kind wanted : ℕ) → (kind == wanted) ≡ true → kind ≡ wanted
is_owned kind wanted e = ground (arith, e)

is_shared : (n : ℕ) → (n == 0) ≡ false → 0 < n
is_shared n e = ground (arith, e)

module _ (env : Env) (market : MarketView) (listed : IsListedMarket env market)
    (unpaused : market.is_paused ≡ false) (bytes : List ℕ)
    (held : IsHeld env market.address bytes) where
  module _ (fixed : MarketFixed) (dynamic : List ℕ)
      (parts : split_market env bytes ≡ ok (fixed, dynamic)) where
    seat_row-IsSeated :
        (seat : ClaimedSeat)
        → Memᴰ seat (env.claimed_seats dynamic fixed.claimed_seats_root_index)
        → All (IsSeated env) (seat_row env market seat)
    seat_row-IsSeated seat m = elim (Bool-cases (seat.owner_kind == env.owner_kind_sub_vault)) [
      | inr e ↦ rw e tt
      | inl o ↦ elim (Bool-cases (seat.debt_withdrawable_shares == 0)) [
        | inl e ↦ rw o (rw e tt)
        | inr e ↦ rw o (
            rw e (
              record {
                market = market;
                listed = listed;
                unpaused = unpaused;
                bytes = bytes;
                held = held;
                fixed = fixed;
                dynamic = dynamic;
                parts = parts;
                seat = seat;
                seated = m;
                owned = is_owned _ _ o;
                shared = is_shared _ e;
                of_seat = (refl, refl, refl, refl);
              },
              tt,
            ))
      ]
    ]

    seat_rows-IsSeated :
        (seats : List ClaimedSeat)
        → ((seat : ClaimedSeat)
            → Memᴰ seat seats
            → Memᴰ seat (env.claimed_seats dynamic fixed.claimed_seats_root_index))
        → All (IsSeated env) (seat_rows env market seats)
    unfolding seat_rows
    seat_rows-IsSeated [] among = tt
    seat_rows-IsSeated (seat ∷ seats) among =
        All-append _ (seat_row env market seat) _
          (seat_row-IsSeated seat (among seat (Memᴰ.head refl)))
          (seat_rows-IsSeated seats (λ s m. among s (Memᴰ.tail m)))

  vault_claim_rows-IsSeated :
      (r : Result (MarketFixed × List ℕ))
      → split_market env bytes ≡ r
      → All (IsSeated env) (vault_claim_rows env market r)
  vault_claim_rows-IsSeated (ok (fixed, dynamic)) e =
      elim (Bool-cases (fixed.claimed_seats_root_index == env.nil_index)) [
        | inl n ↦ rw n tt
        | inr n ↦ rw n (seat_rows-IsSeated fixed dynamic e _ (λ s m. m))
      ]
  vault_claim_rows-IsSeated (err e) _ = tt
  vault_claim_rows-IsSeated panicked _ = tt

claim_rows-IsSeated :
    (env : Env) (rpc : Rpc.Rpc) (market : MarketView)
    → IsListedMarket env market
    → market.is_paused ≡ false
    → (o : Option (List ℕ)) → AreHeld env market.address o
    → All (IsSeated env) (ChainReader.claim_rows_of env rpc market o)
claim_rows-IsSeated env rpc market listed unpaused none held = tt
claim_rows-IsSeated env rpc market listed unpaused (some bytes) held =
    vault_claim_rows-IsSeated env market listed unpaused bytes held _ refl

module _ {I X : State → Type 0} (u : Undisturbed I X) (env : Env) (rpc : Rpc.Rpc) where
  pub list_pending_vault_claims-Triple :
      (markets : List MarketView)
      → All (IsListedMarket env) markets
      → Triple I X I
          (ChainReader.list_pending_vault_claims env rpc markets)
          (λ pending s. I s × All (IsSeated env) pending)
  unfolding ChainReader.list_pending_vault_claims pure
  list_pending_vault_claims-Triple [] p = record { run = λ s i. (i, tt) }
  list_pending_vault_claims-Triple (m ∷ ms) p =
      if-Triple m.is_paused (λ e. list_pending_vault_claims-Triple ms p.1)
        λ unpaused. bind-Triple _ (get_account_data-Triple u env rpc m.address) λ bytes.
          known-Triple λ held. bind-Triple _ (list_pending_vault_claims-Triple ms p.1) λ rows.
            known-Triple λ q. record {
              run = λ s i. (
                i,
                All-append _ (ChainReader.claim_rows_of env rpc m bytes) rows
                    (claim_rows-IsSeated env rpc m p.0 unpaused bytes held) q,
              );
            }
