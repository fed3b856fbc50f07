-- ===== src/BankRegistry/Bindings.antt =====
-- The bindings of mints to banks that the discovery of src/bank_registry.rs collects, and the
-- merging of a refreshed registry into the old one.
use y_delta_crankers.Base.{
  ℕ, ◌≡◌, refl, sym, ap, subst, ◌∙◌, inl, inr, List, [], ◌∷◌, Option, none, some, Map, lookup,
  insert, or_insert, lookup-insert, lookup-or_insert, All, ◌==◌, arith, Bool-cases,
}
use y_delta_crankers.System.Types.{Pubkey, MarketView, BankInfo}
use y_delta_crankers.System.Action.{Result, ok, err, panicked}
use y_delta_crankers.BankRegistry.{checked_bind, bind_mint, and_bind, bind_markets, merge_from}

-- Every binding of the first map is one of the second.
abbrev Grows : Map Pubkey → Map Pubkey → Type 0
Grows m n = (k b : ℕ) → lookup k m ≡ some b → lookup k n ≡ some b

-- Both mints of a market are bound to its banks.
abbrev pub IsBound : Map Pubkey → MarketView → Type 0
IsBound n m =
    (lookup m.debt_mint n ≡ some m.debt_bank)
    × (lookup m.collateral_mint n ≡ some m.collateral_bank)

-- What one binding makes of a map.
Bound : Pubkey → Pubkey → Map Pubkey → Map Pubkey → Type 0
Bound mint bank m n = Grows m n × (lookup mint n ≡ some bank)

insert-Bound :
    (mint bank : Pubkey) (m : Map Pubkey)
    → ((prev : ℕ) → lookup mint m ≡ some prev → prev ≡ bank)
    → Bound mint bank m (insert mint bank m)
unfolding Bound
insert-Bound mint bank m agrees = (
  λ k b held. ground (arith, lookup-insert mint k bank m, agrees b, held),
  ground (arith, lookup-insert mint mint bank m),
)

-- The content of a result that is known to be one.
abbrev content : Map Pubkey → Result (Map Pubkey) → Map Pubkey
content other (ok m) = m
content other _ = other

ok-Bound :
    (mint bank : Pubkey) (m a n : Map Pubkey)
    → ok a ≡ ok n
    → Bound mint bank m a
    → Bound mint bank m n
ok-Bound mint bank m a n e h = subst (Bound mint bank m) (ap (content a) e) h

checked_bind-Bound :
    (market mint bank : Pubkey) (m n : Map Pubkey) (found : Option Pubkey)
    → lookup mint m ≡ found
    → checked_bind market mint bank m found ≡ ok n
    → Bound mint bank m n
checked_bind-Bound market mint bank m n none f e =
    ok-Bound mint bank m _ n e (insert-Bound mint bank m (λ prev held. absurd (cc (f, held))))
checked_bind-Bound market mint bank m n (some prev) f e = elim (Bool-cases (prev == bank)) [
  | inl same ↦
      ok-Bound mint bank m _ n (sym (rw same refl) ∙ e)
        (insert-Bound mint bank m (λ other held. ground (arith, f, held, same)))
  | inr differ ↦ absurd (cc (e, differ))
]

bind_mint-Bound :
    (market mint bank : Pubkey) (m n : Map Pubkey)
    → bind_mint market mint bank m ≡ ok n
    → Bound mint bank m n
unfolding bind_mint
bind_mint-Bound market mint bank m n e = checked_bind-Bound market mint bank m n _ refl e

and_bind-ok :
    (r : Result (Map Pubkey)) (next : Map Pubkey → Result (Map Pubkey)) (n : Map Pubkey)
    → and_bind r next ≡ ok n
    → (m : Map Pubkey) × (r ≡ ok m) × (next m ≡ ok n)
and_bind-ok (ok m) next n e = (m, refl, e)
and_bind-ok (err x) next n e = absurd (cc e)
and_bind-ok panicked next n e = absurd (cc e)

bind_markets-Bound :
    (ms : List MarketView) (m n : Map Pubkey)
    → bind_markets ms m ≡ ok n
    → Grows m n × All (IsBound n) ms
unfolding bind_markets Bound
bind_markets-Bound [] m n e = (subst (Grows m) (ap (content m) e) (λ k b h. h), tt)
bind_markets-Bound (mk ∷ ms) m n e =
    let first = and_bind-ok _ _ n e in
    let second = and_bind-ok _ _ n first.2 in
    let debt = bind_mint-Bound mk.address mk.debt_mint mk.debt_bank m first.0 first.1 in
    let coll =
      bind_mint-Bound mk.address mk.collateral_mint mk.collateral_bank first.0 second.0 second.1 in
    let rest = bind_markets-Bound ms second.0 n second.2 in grown first.0 second.0 debt coll rest
  where
    grown :
        (a b : Map Pubkey)
        → Bound mk.debt_mint mk.debt_bank m a
        → Bound mk.collateral_mint mk.collateral_bank a b
        → Grows b n × All (IsBound n) ms
        → Grows m n × All (IsBound n) (mk ∷ ms)
    grown a b debt coll rest = (
      λ k b h. rest.0 k b (coll.0 k b (debt.0 k b h)),
      ((rest.0 _ _ (coll.0 _ _ debt.1), rest.0 _ _ coll.1), rest.1),
    )

-- If the discovery accepts a list of markets, then both mints of every market in it are bound to
-- the market's own banks in the map of bindings that it goes on with.
pub bind_markets-IsBound :
    (ms : List MarketView) (n : Map Pubkey) → bind_markets ms [] ≡ ok n → All (IsBound n) ms
bind_markets-IsBound ms n e = (bind_markets-Bound ms [] n e).1

-- The banks are a function of the mints.
abbrev pub Agrees : (Pubkey → Pubkey) → MarketView → Type 0
Agrees bank_of m =
    (m.debt_bank ≡ bank_of m.debt_mint) × (m.collateral_bank ≡ bank_of m.collateral_mint)

abbrev Follows : (Pubkey → Pubkey) → Map Pubkey → Type 0
Follows bank_of m = (k b : ℕ) → lookup k m ≡ some b → b ≡ bank_of k

bind_mint-Follows :
    (bank_of : Pubkey → Pubkey) (market mint bank : Pubkey) (m : Map Pubkey)
    → bank ≡ bank_of mint
    → Follows bank_of m
    → (bind_mint market mint bank m ≡ ok (insert mint bank m))
      × Follows bank_of (insert mint bank m)
unfolding bind_mint
bind_mint-Follows bank_of market mint bank m e follows =
    (accepted _ refl, λ k b h. ground (arith, lookup-insert mint k bank m, h, follows k b, e))
  where
    accepted :
        (found : Option Pubkey)
        → lookup mint m ≡ found
        → checked_bind market mint bank m found ≡ ok (insert mint bank m)
    accepted none h = refl
    accepted (some prev) h = ground (arith, follows mint prev h, e)

bind_markets-Follows :
    (bank_of : Pubkey → Pubkey) (ms : List MarketView) (m : Map Pubkey)
    → All (Agrees bank_of) ms
    → Follows bank_of m
    → (n : Map Pubkey) × (bind_markets ms m ≡ ok n)
unfolding bind_markets
bind_markets-Follows bank_of [] m agree follows = (m, refl)
bind_markets-Follows bank_of (mk ∷ ms) m agree follows =
    let debt = bind_mint-Follows bank_of mk.address mk.debt_mint mk.debt_bank m agree.0.0 follows in
    let coll =
      bind_mint-Follows bank_of mk.address mk.collateral_mint mk.collateral_bank _ agree.0.1
        debt.1 in
    let rest = bind_markets-Follows bank_of ms _ agree.1 coll.1 in
    (rest.0, rw debt.0 (rw coll.0 rest.1))

-- If some function of the mints gives the banks of every market in a list, then the discovery
-- accepts the list: it refuses only markets that disagree.
pub bind_markets-accepts :
    (bank_of : Pubkey → Pubkey) (ms : List MarketView)
    → All (Agrees bank_of) ms
    → (n : Map Pubkey) × (bind_markets ms [] ≡ ok n)
bind_markets-accepts bank_of ms agree =
    bind_markets-Follows bank_of ms [] agree (λ k b h. absurd (cc h))

-- For every mint: after a merge, the registry has the entry it had before, and where it had none,
-- that of the other registry.
pub lookup-merge_from :
    (mint : Pubkey) (by_mint other : Map BankInfo)
    → lookup mint (merge_from by_mint other)
      ≡ (elim (lookup mint by_mint) [ some info ↦ some info | none ↦ lookup mint other ])
unfolding merge_from
lookup-merge_from mint by_mint [] = ground arith
lookup-merge_from mint by_mint ((k, info) ∷ other) = ground (
  arith,
  lookup-merge_from mint (or_insert k info by_mint) other,
  lookup-or_insert k mint info by_mint,
)
