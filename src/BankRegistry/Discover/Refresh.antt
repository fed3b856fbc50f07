-- ===== src/BankRegistry/Discover/Refresh.antt =====
-- How the shared registry changes (src/config.rs): what is discovered at the start, and what a
-- refresh adds to it.
use y_delta_crankers.Base.{
  ℕ, ◌≡◌, refl, ◌∙◌, inl, inr, [], ◌∷◌, some, Map, lookup, or_insert, All, ◌==◌, Bool-cases,
  is_empty,
}
use y_delta_crankers.System.Types.{Pubkey, BankInfo}
use y_delta_crankers.System.Env.{Env}
use y_delta_crankers.System.Action.{State, modify, pure}
use y_delta_crankers.System.Rules.{After, bind-Triple, if-Triple}
use y_delta_crankers.System.Quiet.{Undisturbed}
use y_delta_crankers.Rpc
use y_delta_crankers.BankRegistry.{merge_from}
use y_delta_crankers.BankRegistry.Bindings.{lookup-merge_from}
use y_delta_crankers.BankRegistry.Discover
use y_delta_crankers.BankRegistry.Discover.Entries.{IsResolved}
use y_delta_crankers.BankRegistry.Discover.Resolved.{discover_from_markets-Triple}

or_insert-All :
    (P : ℕ × BankInfo → Type 0) (k : Pubkey) (info : BankInfo) (m : Map BankInfo)
    → P (k, info)
    → All P m
    → All P (or_insert k info m)
or_insert-All P k info [] p h = (p, tt)
or_insert-All P k info ((j, w) ∷ m) p h = elim (Bool-cases (j == k)) [
  | inl e ↦ rw e h
  | inr e ↦ rw e (h.0, or_insert-All P k info m p h.1)
]

merge_from-All :
    (P : ℕ × BankInfo → Type 0) (m other : Map BankInfo)
    → All P m
    → All P other
    → All P (merge_from m other)
unfolding merge_from
merge_from-All P m [] h g = h
merge_from-All P m ((k, info) ∷ other) h g =
    merge_from-All P (or_insert k info m) other (or_insert-All P k info m g.0 h) g.1

-- Every entry of the registry was read from the chain.
abbrev pub AreBanks : Env → Pubkey → State → Type 0
AreBanks env marginfi_program s = All (IsResolved env marginfi_program) s.banks

-- This mint has this bank.
abbrev pub HasBank : Pubkey → BankInfo → State → Type 0
HasBank mint info s = lookup mint s.banks ≡ some info

banks_reads :
    (env : Env) (marginfi_program : Pubkey)
    → Undisturbed (AreBanks env marginfi_program) (AreBanks env marginfi_program)
banks_reads env marginfi_program = record {
  quiet = λ e s q h. h;
  recached = λ c s h. h;
  crash = λ s h. h;
}

bank_reads : (mint : Pubkey) (info : BankInfo) → Undisturbed (HasBank mint info) (HasBank mint info)
bank_reads mint info = record { quiet = λ e s q h. h; recached = λ c s h. h; crash = λ s h. h }

kept :
    (k : Pubkey) (info : BankInfo) (m other : Map BankInfo)
    → lookup k m ≡ some info
    → lookup k (merge_from m other) ≡ some info
kept k info m other h = lookup-merge_from k m other ∙ rw h refl

-- If every entry of the shared registry was read from the chain (the account of its bank, which
-- the node gave in the place of the bank's key in an answer to a request for accounts, is owned by
-- the marginfi program, decodes, and has the entry's mint; the vault authority is derived from it;
-- there are one to five oracles; and the token program owns the account that the node gave in the
-- place of the mint's key, and is one of the two), then this still holds after a discovery at the
-- start, and after a refresh, however they end and whatever the node answers.
pub discovery-AreBanks :
    (env : Env) (rpc : Rpc.Rpc) (marginfi_program : Pubkey) (s : State)
    → AreBanks env marginfi_program s
    → After
        (AreBanks env marginfi_program)
        (AreBanks env marginfi_program)
        (λ _. AreBanks env marginfi_program)
        (Discover.discover_banks_from_markets env rpc marginfi_program s)
      × After
          (AreBanks env marginfi_program)
          (AreBanks env marginfi_program)
          (λ _. AreBanks env marginfi_program)
          (Discover.refresh_banks env rpc marginfi_program s)
unfolding Discover.discover_banks_from_markets Discover.refresh_banks modify pure
discovery-AreBanks env rpc marginfi_program s h = (
  (bind-Triple _
        (discover_from_markets-Triple (banks_reads env marginfi_program) env rpc marginfi_program)
        λ fresh. record { run = λ t r. r.1 }).run
      s h,
  (bind-Triple _
        (discover_from_markets-Triple (banks_reads env marginfi_program) env rpc marginfi_program)
        λ fresh.
          if-Triple (is_empty fresh) (λ e. record { run = λ t r. r.0 })
            (λ e. record { run = λ t r. merge_from-All _ t.banks fresh r.0 r.1 })).run
      s h,
)

-- If the shared registry has a bank for a mint, then after a refresh, however it ends and whatever
-- the node answers, it has the same bank for the mint.
pub refresh_banks-HasBank :
    (env : Env) (rpc : Rpc.Rpc) (marginfi_program mint : Pubkey) (info : BankInfo) (s : State)
    → HasBank mint info s
    → After
        (HasBank mint info)
        (HasBank mint info)
        (λ _. HasBank mint info)
        (Discover.refresh_banks env rpc marginfi_program s)
unfolding Discover.refresh_banks modify pure
refresh_banks-HasBank env rpc marginfi_program mint info s h =
    (bind-Triple _ (discover_from_markets-Triple (bank_reads mint info) env rpc marginfi_program)
        λ fresh.
          if-Triple (is_empty fresh) (λ e. record { run = λ t r. r.0 })
            (λ e. record { run = λ t r. kept mint info t.banks fresh r.0 })).run
      s h
