-- ===== src/BankRegistry/Oracles.antt =====
-- The feeds that the periodic cranker keeps fresh (src/bank_registry.rs).
use y_delta_crankers.Base.{
  leb, leb→le, ◌==◌, ◌||◌, ◌&&◌, ◌≡◌, ◌≤◌, ◌<◌, inl, inr, refl, sym, ap, subst, ◌∙◌, Bool, true,
  false, List, [], ◌∷◌, Map, arith, Bool-cases,
}
use y_delta_crankers.System.Types.{Pubkey, BankInfo}
use y_delta_crankers.BankRegistry.{
  primary_oracle, is_switchboard_pull, insert_key, sort_keys, dedup_after, dedup, pull_oracles,
  switchboard_pull_oracles,
}

-- All after this key rise strictly from it.
abbrev pub Above : Pubkey → List Pubkey → Type 0
Above k [] = Unit {0}
Above k (j ∷ js) = (k < j) × Above j js

abbrev pub IsAscending : List Pubkey → Type 0
IsAscending [] = Unit {0}
IsAscending (k ∷ ks) = Above k ks

abbrev pub contains : Pubkey → List Pubkey → Bool
contains k [] = false
contains k (j ∷ js) = (j == k) || contains k js

-- Some bank is cranked, and has this key as its primary oracle.
abbrev pub is_fed : Pubkey → Map BankInfo → Bool
is_fed k [] = false
is_fed k ((mint, info) ∷ by_mint) =
    (is_switchboard_pull info && (primary_oracle info == k)) || is_fed k by_mint

-- Sorted, with repetitions.
AtLeast : Pubkey → List Pubkey → Type 0
AtLeast k [] = Unit {0}
AtLeast k (j ∷ js) = (k ≤ j) × AtLeast j js

insert_key-AtLeast :
    (m k : Pubkey) (js : List Pubkey) → AtLeast m js → m ≤ k → AtLeast m (insert_key k js)
unfolding AtLeast insert_key
insert_key-AtLeast m k [] a l = (l, tt)
insert_key-AtLeast m k (j ∷ js) a l = elim (Bool-cases (leb k j)) [
  | inl e ↦ rw e (l, (leb→le k j e, a.1))
  | inr e ↦ rw e (a.0, insert_key-AtLeast j k js a.1 (ground (arith, e)))
]

or_swap : (a b c : Bool) → a || (b || c) ≡ b || (a || c)
or_swap true true c = refl
or_swap true false c = refl
or_swap false true c = refl
or_swap false false c = refl

or_same : (a c : Bool) → a || (a || c) ≡ a || c
or_same true c = refl
or_same false c = refl

contains-insert_key :
    (k i : Pubkey) (js : List Pubkey) → contains k (insert_key i js) ≡ (i == k) || contains k js
unfolding insert_key
contains-insert_key k i [] = refl
contains-insert_key k i (j ∷ js) = elim (Bool-cases (leb i j)) [
  | inl e ↦ rw e refl
  | inr e ↦ rw e (rw (contains-insert_key k i js) (or_swap (j == k) (i == k) (contains k js)))
]

sort_keys-AtLeast : (ks : List Pubkey) → AtLeast 0 (sort_keys ks)
unfolding AtLeast sort_keys
sort_keys-AtLeast [] = tt
sort_keys-AtLeast (k ∷ ks) =
    insert_key-AtLeast 0 k (sort_keys ks) (sort_keys-AtLeast ks) (omega arith)

contains-sort_keys : (k : Pubkey) (ks : List Pubkey) → contains k (sort_keys ks) ≡ contains k ks
unfolding sort_keys
contains-sort_keys k [] = refl
contains-sort_keys k (i ∷ ks) =
    contains-insert_key k i (sort_keys ks) ∙ ap (λ b. (i == k) || b) (contains-sort_keys k ks)

same_key : (k j : Pubkey) → k == j ≡ true → k ≡ j
same_key k j e = ground (arith, e)

dedup_after-Above : (k : Pubkey) (js : List Pubkey) → AtLeast k js → Above k (dedup_after k js)
unfolding AtLeast dedup_after
dedup_after-Above k [] a = tt
dedup_after-Above k (j ∷ js) a = elim (Bool-cases (k == j)) [
  | inl e ↦ rw e (dedup_after-Above k js (subst (λ n. AtLeast n js) (sym (same_key k j e)) a.1))
  | inr e ↦ rw e (ground (arith, e, a.0), dedup_after-Above j js a.1)
]

contains-dedup_after :
    (i k : Pubkey) (js : List Pubkey)
    → (k == i) || contains i (dedup_after k js) ≡ (k == i) || contains i js
unfolding dedup_after
contains-dedup_after i k [] = refl
contains-dedup_after i k (j ∷ js) = elim (Bool-cases (k == j)) [
  | inl e ↦ rw e (
      contains-dedup_after i k js
      ∙ sym (or_same (k == i) (contains i js))
      ∙ ap (λ n. (k == i) || ((n == i) || contains i js)) (same_key k j e))
  | inr e ↦ rw e (ap (λ b. (k == i) || b) (contains-dedup_after i j js))
]

dedup-IsAscending : (ks : List Pubkey) → AtLeast 0 ks → IsAscending (dedup ks)
unfolding AtLeast
dedup-IsAscending [] a = tt
dedup-IsAscending (k ∷ ks) a = dedup_after-Above k ks a.1

contains-dedup : (i : Pubkey) (ks : List Pubkey) → contains i (dedup ks) ≡ contains i ks
contains-dedup i [] = refl
contains-dedup i (k ∷ ks) = contains-dedup_after i k ks

contains-pull_oracles :
    (k : Pubkey) (by_mint : Map BankInfo) → contains k (pull_oracles by_mint) ≡ is_fed k by_mint
contains-pull_oracles k [] = refl
contains-pull_oracles k ((mint, info) ∷ by_mint) = elim (Bool-cases (is_switchboard_pull info)) [
  | inl e ↦ rw e (ap (λ b. (primary_oracle info == k) || b) (contains-pull_oracles k by_mint))
  | inr e ↦ rw e (contains-pull_oracles k by_mint)
]

-- For every registry: the feeds that the cranker is given are in strictly ascending order, so that
-- none occurs twice, and a key is among them exactly if it is the primary oracle of a bank with a
-- Switchboard pull feed.
pub switchboard_pull_oracles-IsAscending :
    (by_mint : Map BankInfo)
    → IsAscending (switchboard_pull_oracles by_mint)
      × ((k : Pubkey) → contains k (switchboard_pull_oracles by_mint) ≡ is_fed k by_mint)
unfolding switchboard_pull_oracles
switchboard_pull_oracles-IsAscending by_mint = (
  dedup-IsAscending (sort_keys (pull_oracles by_mint)) (sort_keys-AtLeast (pull_oracles by_mint)),
  λ k.
      contains-dedup k (sort_keys (pull_oracles by_mint))
      ∙ (contains-sort_keys k (pull_oracles by_mint) ∙ contains-pull_oracles k by_mint),
)
