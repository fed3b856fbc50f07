-- ===== src/Tests.antt =====
-- Runs of the handlers in the small world of Tests/World, and the theorems applied there.
pub mod World
pub mod Runs
pub mod Startup
pub mod Banks
pub mod Loops
pub mod Batches
pub mod Gateways
pub mod Feeds
pub mod Atas
pub mod Boot
pub mod Repayments
pub mod Services
use y_delta_crankers.Base.{
  none, replicate, ◌++◌, ℕ, suc, ◌≡◌, ◌⊎◌, ◌<◌, refl, true, false, List, [], ◌∷◌, some, codes,
  arith, All, Map, lookup,
}
use y_delta_crankers.System.Rules.{After}
use y_delta_crankers.Rpc
use y_delta_crankers.Rpc.Gate.{Gated, Crashed}
use y_delta_crankers.Rpc.Retry.{AtMost, send_with_retry-AtMost, send_v0_with_retry-AtMost}
use y_delta_crankers.Handlers.Liquidator
use y_delta_crankers.Handlers.Liquidator.Gate.{liquidator-Gated}
use y_delta_crankers.Handlers.Promoter
use y_delta_crankers.Handlers.Promoter.Gate.{promoter-Gated}
use y_delta_crankers.Handlers.Claimer
use y_delta_crankers.Handlers.Claimer.Gate.{claimer-Gated}
use y_delta_crankers.Handlers.MatchCranker
use y_delta_crankers.Handlers.MatchCranker.Gate.{match_cranker-Gated}
use y_delta_crankers.Handlers.Util.{min_partial_repay_atoms, p2pool_full_repay_staged_atoms}
use y_delta_crankers.Handlers.Liquidator.Amounts.{repay_amount}
use y_delta_crankers.Handlers.Liquidator.Repay.{
  IsSound, repay_amount-IsSound, repay_amount-lt-floor,
}
use y_delta_crankers.Handlers.MatchCranker.Logs.{
  line_fills, parse_match_crank_fills, first_word, is_space, until_space,
}
use y_delta_crankers.HealthServer.Utf8.{is_utf8}
use y_delta_crankers.HealthServer.{
  handle_conn, not_ready_response, request_path, path_of, first_line, skip_word, skip_spaces,
}
use y_delta_crankers.HealthServer.Framing.{
  IsFramed, IsTruncated, handle_conn-IsFramed, handle_conn-IsTruncated,
}
use y_delta_crankers.System.Env.{Env, reply, asked_blockhash, simulated, asked_statuses}
use y_delta_crankers.System.Action.{State, ok, record_event}
use y_delta_crankers.Rpc.Landed.{KnowsAll, send_with_retry-once}
use y_delta_crankers.ChainReader
use y_delta_crankers.ChainReader.Cache.{
  HasSnapshot, Serves, list_markets-Serves, refresh_markets-HasSnapshot,
}
use y_delta_crankers.BankRegistry.{bind_markets, bind_mint, merge_from}
use y_delta_crankers.BankRegistry.Bindings.{
  IsBound, bind_markets-IsBound, bind_markets-accepts, lookup-merge_from,
}
use y_delta_crankers.Handlers.MatchCranker.Fills.{IsToken, parse_match_crank_fills-emitted}
use y_delta_crankers.MarginfiBank.{try_from_account_data, bank_discriminator_bytes}
use y_delta_crankers.MarginfiBank.Bounds.{IsDecoded, try_from_account_data-IsDecoded}
use World.{
  idle_world, fill_log, empty_world, stocked, market, bank, world, broken_world, rpc, ctx, start,
}

abbrev ready_request : List ℕ
ready_request = codes "GET /readyz HTTP/1.1"

ready_request-path : request_path ready_request ≡ codes "/readyz"
unfolding request_path path_of first_word is_space until_space skip_word skip_spaces first_line
    is_utf8
ready_request-path = refl

short_of_staged : 1_020 < p2pool_full_repay_staged_atoms 1_000
unfolding p2pool_full_repay_staged_atoms
short_of_staged = omega arith

abbrev bindings : Map ℕ
bindings = (10, 11) ∷ (20, 21) ∷ []

bindings-bind_markets : bind_markets (market ∷ market ∷ []) [] ≡ ok bindings
unfolding bind_markets bind_mint
bindings-bind_markets = refl

liquidator-Gated_example :
    After (Gated []) Crashed (λ _ t. Gated [] t) (Liquidator.tick world ctx start)
liquidator-Gated_example = liquidator-Gated world ctx start tt

promoter-Gated_example :
    After (Gated []) Crashed (λ _ t. Gated [] t) (Promoter.tick world ctx start)
promoter-Gated_example = promoter-Gated world ctx start tt

claimer-Gated_example : After (Gated []) Crashed (λ _ t. Gated [] t) (Claimer.tick world ctx start)
claimer-Gated_example = claimer-Gated world ctx start tt

match_cranker-Gated_example :
    After (Gated []) Crashed (λ _ t. Gated [] t) (MatchCranker.tick world ctx start)
match_cranker-Gated_example = match_cranker-Gated world ctx start tt

send_with_retry-AtMost_example :
    After
      (AtMost 3)
      (AtMost 3)
      (λ _. AtMost 3)
      (Rpc.send_with_retry broken_world rpc [] (1 ∷ []) 1 start)
send_with_retry-AtMost_example = send_with_retry-AtMost broken_world rpc [] (1 ∷ []) 1 start

send_v0_with_retry-AtMost_example :
    After
      (AtMost 3)
      (AtMost 3)
      (λ _. AtMost 3)
      (Rpc.send_v0_with_retry broken_world rpc [] [] (1 ∷ []) 1 start)
send_v0_with_retry-AtMost_example =
    send_v0_with_retry-AtMost broken_world rpc [] [] (1 ∷ []) 1 start

repay_amount-IsSound_example : IsSound true 50_000 20_000 (repay_amount true 50_000 20_000)
repay_amount-IsSound_example = repay_amount-IsSound true 50_000 20_000 (omega arith)

repay_amount-lt-floor_example :
    (repay_amount true 1_000 1_020 ≡ some 999) × (999 < min_partial_repay_atoms 1_000)
repay_amount-lt-floor_example =
    repay_amount-lt-floor 1_000 1_020 (omega arith) (omega arith) short_of_staged

handle_conn-IsFramed_example :
    (response : List ℕ) × (handle_conn true ready_request ≡ some response)
    × (IsFramed response ⊎ (true ≡ false) × (response ≡ not_ready_response))
handle_conn-IsFramed_example = handle_conn-IsFramed true ready_request (λ e. cc)

handle_conn-IsTruncated_example :
    (response : List ℕ) × (handle_conn false ready_request ≡ some response) × IsTruncated response
handle_conn-IsTruncated_example = handle_conn-IsTruncated ready_request ready_request-path

-- A cluster that refuses what it is sent, and yet knows of it.
abbrev knowing_world : Env
knowing_world = record broken_world {
  get_signature_statuses = λ h sigs. reply (some (record { failed = true }) ∷ []);
}

send_with_retry-once_example :
    After
      (AtMost 1)
      (AtMost 1)
      (λ _. AtMost 1)
      (Rpc.send_with_retry knowing_world rpc [] (1 ∷ []) 1 start)
    × After
        (AtMost 1)
        (AtMost 1)
        (λ _. AtMost 1)
        (Rpc.send_v0_with_retry knowing_world rpc [] [] (1 ∷ []) 1 start)
send_with_retry-once_example =
    send_with_retry-once knowing_world rpc [] [] (1 ∷ []) 1 start (λ h sig. refl)

list_markets-Serves_example :
    After HasSnapshot HasSnapshot Serves (ChainReader.list_markets empty_world rpc stocked)
list_markets-Serves_example = list_markets-Serves empty_world rpc stocked tt

refresh_markets-HasSnapshot_example :
    After HasSnapshot HasSnapshot
      (λ _ t. HasSnapshot t)
      (ChainReader.refresh_markets empty_world rpc stocked)
refresh_markets-HasSnapshot_example = refresh_markets-HasSnapshot empty_world rpc stocked tt

bind_markets-IsBound_example : All (IsBound bindings) (market ∷ market ∷ [])
bind_markets-IsBound_example =
    bind_markets-IsBound (market ∷ market ∷ []) bindings bindings-bind_markets

bind_markets-accepts_example : (n : Map ℕ) × (bind_markets (market ∷ market ∷ []) [] ≡ ok n)
bind_markets-accepts_example =
    bind_markets-accepts suc (market ∷ market ∷ []) ((refl, refl), ((refl, refl), tt))

lookup-merge_from_example : lookup 20 (merge_from ((10, bank 10) ∷ []) start.banks) ≡ some (bank 20)
lookup-merge_from_example = lookup-merge_from 20 ((10, bank 10) ∷ []) start.banks

x-IsToken : IsToken (codes "x")
unfolding is_space
x-IsToken = (λ e. cc e, (refl, tt))

noise-line_fills : All (λ line. line_fills world line ≡ none) (codes "Program log: a" ∷ [])
unfolding line_fills
noise-line_fills = (refl, tt)

parse_match_crank_fills-emitted_example :
    parse_match_crank_fills world (codes "Program log: a" ∷ fill_log ∷ codes "b" ∷ []) ≡ some 1
parse_match_crank_fills-emitted_example =
    parse_match_crank_fills-emitted world (replicate 64 0) (replicate 4 0) 1 refl refl refl
      (omega arith) (codes "Program log: a" ∷ []) (codes "b" ∷ []) (codes "x") noise-line_fills
      x-IsToken refl

idle-parse_match_crank_fills : parse_match_crank_fills idle_world (fill_log ∷ []) ≡ some 0
idle-parse_match_crank_fills =
    parse_match_crank_fills-emitted idle_world (replicate 64 0) (replicate 4 0) 0 refl refl refl
      (omega arith) [] [] (codes "x") tt x-IsToken refl

abbrev bank_account : List ℕ
bank_account = bank_discriminator_bytes ++ replicate 1_856 7

try_from_account_data-IsDecoded_example :
    IsDecoded bank_account (try_from_account_data bank_account)
try_from_account_data-IsDecoded_example = try_from_account_data-IsDecoded bank_account
