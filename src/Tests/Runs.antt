-- ===== src/Tests/Runs.antt =====
-- Runs of a whole tick in the small world: what is sent.
use y_delta_crankers.Base.{◌≡◌, refl}
use y_delta_crankers.System.Action.{
  pure, fail, panic, gets, or_fail, or_panic, of_reply, ◌>>=◌, ◌>>◌, modify, call, call_noting,
  of_result, attempt, for_sum, claim_inflight, release_inflight, run_claimed, guarded,
}
use y_delta_crankers.Rpc
use y_delta_crankers.Rpc.Retry.{sends}
use y_delta_crankers.ChainReader
use y_delta_crankers.ChainReader.Decode.{
  decode_market_fixed, split_market, market_view_from_fixed, insert_market, sort_by_address,
  decode_markets, sub_vault_rows, seat_rows,
}
use y_delta_crankers.Handlers.Context.{banks_snapshot}
use y_delta_crankers.Handlers.Claimer
use y_delta_crankers.Tests.World.{world, ctx, start}

-- The claimer sweeps the one claimable entry with one transaction.
claimer-sends : sends (Claimer.tick world ctx start).1.history ≡ 1
unfolding pure fail panic gets or_fail or_panic of_reply ◌>>=◌ ◌>>◌ modify call call_noting
    of_result attempt for_sum claim_inflight release_inflight run_claimed guarded
    Rpc.priority_fee_preamble Rpc.stopped Rpc.get_account_data Rpc.latest_blockhash
    Rpc.previous_landed Rpc.send_once Rpc.send_attempts Rpc.legacy_transaction Rpc.send_with_retry
    Rpc.counted_send Rpc.send_signed_labeled Rpc.simulate_v0 Rpc.simulate
    ChainReader.get_program_accounts ChainReader.fetch_markets ChainReader.markets_cache_get
    ChainReader.markets_cache_put ChainReader.settle_fetch ChainReader.list_markets
    ChainReader.list_sub_vaults ChainReader.list_pending_vault_claims decode_market_fixed
    split_market market_view_from_fixed insert_market sort_by_address decode_markets sub_vault_rows
    seat_rows banks_snapshot Claimer.claimable Claimer.contains_pair Claimer.claimable_entries
    Claimer.claim_ix Claimer.sweep_one Claimer.sweep_all Claimer.sweep_markets
    Claimer.sweep_claimable Claimer.tick
claimer-sends = refl
