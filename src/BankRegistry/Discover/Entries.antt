-- ===== src/BankRegistry/Discover/Entries.antt =====
-- What the entries are that the discovery (src/bank_registry.rs) reads from the chain.
use y_delta_crankers.Base.{
  ℕ, suc, ap, subst, true, map, get_elem?, ltb, ◌==◌, ◌||◌, ◌≡◌, ◌≤◌, ◌⊎◌, inl, inr, refl, false,
  not, List, [], ◌∷◌, Option, some, Map, insert, All, length, is_empty, arith, Bool-cases,
}
use y_delta_crankers.System.Types.{Pubkey, Account, BankInfo}
use y_delta_crankers.System.Env.{Env, History, reply}
use y_delta_crankers.System.Action.{ok}
use y_delta_crankers.System.Outcome.{
  Yields, self-Yields, ok-Yields, err-Yields, bind-Yields, ok_or-Yields, if-Yields,
}
use y_delta_crankers.MarginfiBank.{BankView, try_from_account_data}
use y_delta_crankers.BankRegistry.{spl_token_legacy_id, spl_token_2022_id}
use y_delta_crankers.BankRegistry.Decode.{
  Entry, Decoded, lva_of, decode_entry, decode_entries, token_program_of, bank_info, build_registry,
}

-- The node has answered a request for accounts with this one, in the place of this key.
abbrev pub IsAnswer : Env → Pubkey → Account → Type 0
IsAnswer env pk a =
    (h : History) × (pks : List Pubkey) × (accounts : List (Option Account)) × (i : ℕ)
    × (env.get_multiple_accounts h pks ≡ reply accounts)
    × (get_elem? pks i ≡ some pk)
    × (get_elem? accounts i ≡ some (some a))

-- What is read of the account of a bank.
pub record IsRead (env : Env) (marginfi_program mint bank : Pubkey) (view : BankView) : Type 0 where
  pub account : Account
  pub answered : IsAnswer env bank account
  pub owned : account.owner ≡ marginfi_program
  pub decoded : try_from_account_data account.bytes ≡ ok view
  pub paired : view.mint ≡ mint

-- The address of the vault authority is the one derived from the bank.
abbrev pub IsDerived : Env → Pubkey → Decoded → Type 0
IsDerived env marginfi_program d = lva_of env marginfi_program d.bank d.view ≡ some d.lva

-- An entry of the registry: the key, and what the info has from the bank and from the mint.
pub record IsResolved (env : Env) (marginfi_program : Pubkey) (entry : Pubkey × BankInfo)
    : Type 0 where
  pub view : BankView
  pub read : IsRead env marginfi_program entry.0 entry.1.bank view
  pub keyed : entry.1.mint ≡ entry.0
  pub vault : entry.1.liquidity_vault ≡ view.liquidity_vault
  pub authority :
      lva_of env marginfi_program entry.1.bank view ≡ some entry.1.liquidity_vault_authority
  pub feeds : entry.1.oracles ≡ view.oracles
  pub counted : (1 ≤ length entry.1.oracles) × (length entry.1.oracles ≤ 5)
  pub token :
      (a : Account) × IsAnswer env entry.0 a
      × (a.owner ≡ entry.1.token_program)
      × ((a.owner ≡ spl_token_legacy_id) ⊎ (a.owner ≡ spl_token_2022_id))

-- What stands in the place of a key is the answer for it.
abbrev pub Returned : Env → List Pubkey → List (Option Account) → Type 0
Returned env pks accounts =
    (i : ℕ) (pk : Pubkey) (a : Account)
    → get_elem? pks i ≡ some pk
    → get_elem? accounts i ≡ some (some a)
    → IsAnswer env pk a

module _ (env : Env) (marginfi_program : Pubkey) where
  abbrev pub Good : Decoded → Type 0
  Good d = IsRead env marginfi_program d.mint d.bank d.view × IsDerived env marginfi_program d

  decode_entry-Yields :
      (mint bank : Pubkey) (account : Option Account)
      → ((a : Account) → account ≡ some a → IsAnswer env bank a)
      → Yields (Unit {0}) Good (decode_entry env marginfi_program mint bank account)
  unfolding decode_entry
  decode_entry-Yields mint bank account returned =
      bind-Yields (λ a. account ≡ some a) (ok_or-Yields _)
        λ a e.
          bind-Yields (λ _. a.owner ≡ marginfi_program)
            (if-Yields (not (a.owner == marginfi_program)) (λ b. err-Yields _)
              (λ b. ok-Yields (ground (arith, b))))
            λ u o.
              bind-Yields (λ view. try_from_account_data a.bytes ≡ ok view) (self-Yields _)
                λ view v.
                  bind-Yields (λ _. view.mint ≡ mint)
                    (if-Yields (not (view.mint == mint)) (λ b. err-Yields _)
                      (λ b. ok-Yields (ground (arith, b))))
                    λ w p.
                      bind-Yields (λ lva. lva_of env marginfi_program bank view ≡ some lva)
                        (ok_or-Yields _)
                        λ lva l. ok-Yields (
                          record {
                            account = a;
                            answered = returned a e;
                            owned = o;
                            decoded = v;
                            paired = p;
                          },
                          l,
                        )

  pub decode_entries-Yields :
      (es : List Entry) (accounts : List (Option Account))
      → Returned env (map (λ e. e.1) es) accounts
      → Yields (Unit {0}) (All Good) (decode_entries env marginfi_program es accounts)
  unfolding decode_entries
  decode_entries-Yields [] accounts h = ok-Yields tt
  decode_entries-Yields (e ∷ es) [] h = record { run = tt }
  decode_entries-Yields (e ∷ es) (a ∷ accounts) h =
      bind-Yields Good (decode_entry-Yields e.0 e.1 a (λ b f. h 0 e.1 b refl (ap some f))) λ d g.
        bind-Yields (All Good) (decode_entries-Yields es accounts (λ i. h (suc i)))
          λ ds gs. ok-Yields (g, gs)

  is_key : (a b : Pubkey) → (a == b) ≡ true → a ≡ b
  is_key a b e = ground (arith, e)

  abbrev IsToken : Pubkey → Type 0
  IsToken p = (p ≡ spl_token_legacy_id) ⊎ (p ≡ spl_token_2022_id)

  token_program_of-Yields :
      (mint owner : Pubkey)
      → Yields (Unit {0}) (λ p. (owner ≡ p) × IsToken owner) (token_program_of mint owner)
  unfolding token_program_of
  token_program_of-Yields mint owner =
      if-Yields (owner == spl_token_legacy_id) (λ e. ok-Yields (is_key _ _ e, inl (is_key _ _ e)))
        (λ e.
          if-Yields (owner == spl_token_2022_id) (λ d. ok-Yields (is_key _ _ d, inr (is_key _ _ d)))
            (λ d. err-Yields _))

  oracle_count :
      (oracles : List Pubkey)
      → is_empty oracles || ltb 5 (length oracles) ≡ false
      → (1 ≤ length oracles) × (length oracles ≤ 5)
  oracle_count [] e = cc e
  oracle_count (o ∷ os) e = (omega arith, ground (arith, e))

  bank_info-Yields :
      (d : Decoded) (account : Option Account)
      → Good d
      → ((a : Account) → account ≡ some a → IsAnswer env d.mint a)
      → Yields
          (Unit {0})
          (λ info. IsResolved env marginfi_program (d.mint, info))
          (bank_info d account)
  unfolding bank_info
  bank_info-Yields d account g returned =
      bind-Yields (λ m. account ≡ some m) (ok_or-Yields _)
        λ m u.
          bind-Yields (λ p. (m.owner ≡ p) × IsToken m.owner)
            (token_program_of-Yields d.mint m.owner)
            λ token t.
              bind-Yields (λ _. (1 ≤ length d.view.oracles) × (length d.view.oracles ≤ 5))
                (if-Yields (is_empty d.view.oracles || ltb 5 (length d.view.oracles))
                  (λ b. err-Yields _) (λ b. ok-Yields (oracle_count d.view.oracles b)))
                λ v n. ok-Yields (record {
                  view = d.view;
                  read = g.0;
                  keyed = refl;
                  vault = refl;
                  authority = g.1;
                  feeds = refl;
                  counted = n;
                  token = (m, returned m u, t.0, t.1);
                })

  insert-All :
      (k : Pubkey) (info : BankInfo) (m : Map BankInfo)
      → IsResolved env marginfi_program (k, info)
      → All (IsResolved env marginfi_program) m
      → All (IsResolved env marginfi_program) (insert k info m)
  insert-All k info [] r h = (r, tt)
  insert-All k info ((j, w) ∷ m) r h = elim (Bool-cases (j == k)) [
    | inl e ↦ rw e (r, h.1)
    | inr e ↦ rw e (h.0, insert-All k info m r h.1)
  ]

  pub build_registry-Yields :
      (by_mint : Map BankInfo) (ds : List Decoded) (accounts : List (Option Account))
      → All Good ds
      → All (IsResolved env marginfi_program) by_mint
      → Returned env (map (λ d. d.view.mint) ds) accounts
      → Yields
          (Unit {0})
          (All (IsResolved env marginfi_program))
          (build_registry by_mint ds accounts)
  unfolding build_registry
  build_registry-Yields by_mint [] accounts g h r = ok-Yields h
  build_registry-Yields by_mint (d ∷ ds) [] g h r = record { run = tt }
  build_registry-Yields by_mint (d ∷ ds) (a ∷ accounts) g h returned =
      bind-Yields (λ info. IsResolved env marginfi_program (d.mint, info))
        (bank_info-Yields d a g.0 (λ b e.
          subst (λ pk. IsAnswer env pk b) g.0.0.paired (returned 0 d.view.mint b refl (ap some e))))
        λ info r.
          build_registry-Yields (insert d.mint info by_mint) ds accounts g.1
            (insert-All d.mint info by_mint r h) (λ i. returned (suc i))
