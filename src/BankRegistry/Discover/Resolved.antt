-- ===== src/BankRegistry/Discover/Resolved.antt =====
-- The registry that the discovery (src/bank_registry.rs) ends with, whatever the node answers.
use y_delta_crankers.Base.{refl, List, [], ◌∷◌, Option, Map, map, All, ◌≡◌, is_empty}
use y_delta_crankers.System.Types.{Pubkey, Account, MarketView}
use y_delta_crankers.System.Env.{Env, History, Reply, reply, refused, asked_accounts}
use y_delta_crankers.System.Action.{State, record_event, pure, fail, of_reply, of_result}
use y_delta_crankers.System.Rules.{
  Triple, known-Triple, bind-Triple, call-Triple, of_result-Triple, of_result-Keeps, if-Triple,
}
use y_delta_crankers.System.Quiet.{Undisturbed}
use y_delta_crankers.Rpc
use y_delta_crankers.ChainReader.Quiet.{refresh_markets-Keeps}
use y_delta_crankers.BankRegistry.{bind_markets}
use y_delta_crankers.BankRegistry.Decode.{Entry, Decoded, sort_entries, build_registry}
use y_delta_crankers.BankRegistry.Discover
use y_delta_crankers.BankRegistry.Discover.Entries.{
  IsResolved, Returned, Good, decode_entries-Yields, build_registry-Yields,
}

-- Beside an invariant that the reads keep.
module _ {I X : State → Type 0} (u : Undisturbed I X) (env : Env) (rpc : Rpc.Rpc) where
  -- What holds of a reply: the accounts in it are the answers for the keys.
  abbrev Replied : List Pubkey → Reply (List (Option Account)) → State → Type 0
  Replied pks (reply accounts) s = I s × Returned env pks accounts
  Replied pks (refused e) s = I s

  accounts_of_reply :
      (pks : List Pubkey) (r : Reply (List (Option Account)))
      → Triple I X (Replied pks r) (of_reply r) (λ accounts s. I s × Returned env pks accounts)
  unfolding of_reply pure fail
  accounts_of_reply pks (reply accounts) = record { run = λ s h. h }
  accounts_of_reply pks (refused e) = record { run = λ s h. h }

  of_answer :
      (pks : List Pubkey) (h : History) (r : Reply (List (Option Account))) (s : State)
      → env.get_multiple_accounts h pks ≡ r
      → I s
      → Replied pks r s
  of_answer pks h (reply accounts) s e q = (q, λ i pk a k f. (h, pks, accounts, i, e, k, f))
  of_answer pks h (refused c) s e q = q

  pub get_multiple_accounts-Triple :
      (pks : List Pubkey)
      → Triple I X I
          (Discover.get_multiple_accounts env rpc pks)
          (λ accounts s. I s × Returned env pks accounts)
  unfolding Discover.get_multiple_accounts
  get_multiple_accounts-Triple pks =
      bind-Triple (Replied pks)
        (call-Triple _ _ (λ s q.
          of_answer pks s.history _ (record_event (asked_accounts pks) s) refl (u.quiet _ s tt q)))
        (accounts_of_reply pks)

  -- What is built of accounts and decoded banks that are known.
  registry-Triple :
      (marginfi_program : Pubkey) (ds : List Decoded) (accounts : List (Option Account))
      → All (Good env marginfi_program) ds
      → Returned env (map (λ d. d.view.mint) ds) accounts
      → Triple I X I
          (of_result (build_registry [] ds accounts))
          (λ by_mint s. I s × All (IsResolved env marginfi_program) by_mint)
  registry-Triple marginfi_program ds accounts g returned =
      of_result-Triple u.crash
        (build_registry-Yields env marginfi_program [] ds accounts g tt returned)

  resolve_entries-Triple :
      (marginfi_program : Pubkey) (entries : List Entry)
      → Triple I X I
          (Discover.resolve_entries env rpc marginfi_program entries)
          (λ by_mint s. I s × All (IsResolved env marginfi_program) by_mint)
  unfolding Discover.resolve_entries
  resolve_entries-Triple marginfi_program entries =
      bind-Triple _ (get_multiple_accounts-Triple (map (λ e. e.1) entries)) λ bank_accounts.
        known-Triple λ returned.
          bind-Triple _
            (of_result-Triple u.crash
              (decode_entries-Yields env marginfi_program entries bank_accounts returned))
            λ decoded. known-Triple λ good.
              bind-Triple _ (get_multiple_accounts-Triple (map (λ d. d.view.mint) decoded))
                λ mint_accounts.
                  known-Triple
                    λ minted. registry-Triple marginfi_program decoded mint_accounts good minted

  none-Triple :
      (marginfi_program : Pubkey)
      → Triple I X I (pure []) (λ by_mint s. I s × All (IsResolved env marginfi_program) by_mint)
  unfolding pure
  none-Triple marginfi_program = record { run = λ s i. (i, tt) }

  resolve_from_chain-Triple :
      (marginfi_program : Pubkey) (mint_to_bank : Map Pubkey)
      → Triple I X I
          (Discover.resolve_from_chain env rpc marginfi_program mint_to_bank)
          (λ by_mint s. I s × All (IsResolved env marginfi_program) by_mint)
  unfolding Discover.resolve_from_chain
  resolve_from_chain-Triple marginfi_program mint_to_bank =
      if-Triple (is_empty mint_to_bank) (λ e. none-Triple marginfi_program)
        (λ e. resolve_entries-Triple marginfi_program (sort_entries mint_to_bank))

  discover_from-Triple :
      (marginfi_program : Pubkey) (markets : List MarketView)
      → Triple I X I
          (Discover.discover_from env rpc marginfi_program markets)
          (λ by_mint s. I s × All (IsResolved env marginfi_program) by_mint)
  unfolding Discover.discover_from
  discover_from-Triple marginfi_program [] = none-Triple marginfi_program
  discover_from-Triple marginfi_program (m ∷ ms) =
      bind-Triple _ (of_result-Keeps u.crash (bind_markets (m ∷ ms) []))
        λ mint_to_bank. resolve_from_chain-Triple marginfi_program mint_to_bank

  pub discover_from_markets-Triple :
      (marginfi_program : Pubkey)
      → Triple I X I
          (Discover.discover_from_markets env rpc marginfi_program)
          (λ by_mint s. I s × All (IsResolved env marginfi_program) by_mint)
  unfolding Discover.discover_from_markets
  discover_from_markets-Triple marginfi_program =
      bind-Triple (λ _ s. I s) (refresh_markets-Keeps u env rpc)
        (discover_from-Triple marginfi_program)
