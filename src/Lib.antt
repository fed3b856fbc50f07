-- ===== src/Lib.antt =====
-- Verification library of the yDelta crankers, the off-chain keepers of a lending protocol on Solana.
--
-- One process runs five handlers (src/handlers), each in a loop of its own: the promoter turns matched
-- loans into loan accounts, the claimer sweeps repaid atoms to the sub-vaults, the liquidator settles
-- matured loans and liquidates under-collateralized ones, the curator-fee claimer collects fees, and
-- the match-cranker cranks the markets whose best rates cross. A handler reads the chain through
-- src/chain_reader.rs, looks banks up in the registry of src/bank_registry.rs, may take an oracle
-- update from src/swb_cranker.rs, and simulates and sends transactions through src/rpc.rs.
-- src/health_server.rs answers the probes of the host.
--
-- How it is modelled. Every call that leaves the process is recorded in a history (System/Env), and
-- its answer is an arbitrary function of that history, so a theorem about an action holds whatever the
-- node, the clocks, the stop flag and the gateways answer, and however the answers change over time.
-- An action (System/Action) passes the process's own state and ends with a value, an error or a panic.
-- The crates that the sources only call (ydelta, hypertree, solana, base64, bytemuck) are fields of
-- `Env`: layouts, constants, tree walks, address derivations, signing. An instruction is the call of
-- its builder with all its arguments.
--
--   System/Types, Env, Action   keys, views, instructions, errors; the outside; state and actions
--   System/Rules                proof rules for actions: what holds after a value, an error, a panic
--   System/Host, Outcome        the host at the start (variables, files, decoders); fallible pure code
--   System/Inflight, Quiet      proof rules for the in-flight sets; invariants that only sends disturb
--   Base                        lists, bytes, maps, 64-bit signed and floating numbers
--   Rpc, Rpc/Errors             src/rpc.rs: get_account_data, simulate, simulate_v0,
--                               send_signed_labeled, send_signed_v0_labeled, the retry loops,
--                               is_transient
--   Rpc/Sending, Reads, Answered
--                               proof rules for the retry loops, the reads and the simulations
--   Rpc/Gate, Retry, Landed     proofs: simulation before sending; how often a send sends
--   Rpc/Allowed                 proofs: each message sent satisfies a policy
--   Rpc/Batch, .../Writes, Order
--                               batch_get_multiple_accounts; proofs: any order of the tasks
--   ChainReader, .../Decode     src/chain_reader.rs: the market cache and all reads
--   ChainReader/Cache, Quiet, Sources, Held, Seats
--                               proofs: what the cache serves; reads send nothing; where the markets,
--                               loans, sub-vaults, queue entries, seats and claims come from
--   BankRegistry                src/bank_registry.rs: the fields of a bank, its token accounts
--   BankRegistry/Bindings       proofs: a mint has one bank; merging of registries
--   BankRegistry/Oracles        proof: the feeds to crank
--   BankRegistry/Decode, Discover, Atas
--                               resolve_from_chain, discover_from_markets, refresh_banks of
--                               src/config.rs, ensure_atas_for; below Discover and Atas the proofs
--   MarginfiBank, .../Bounds    src/marginfi_bank.rs: the decoder of bank accounts; Bounds: no panic
--   SwbCranker                  src/swb_cranker.rs: bundles and updates, gateway by gateway
--   SwbCranker/WarmKeeper       the optional loop spawn_swb_crank_loop
--   SwbCranker/Posted           proof: what that loop posts
--   SwbCranker/Failover, Fetched
--                               proofs: one gateway that answers is enough; where bundles come from
--   Config, .../Vars, Load, Redact, Debug, Ranges
--                               src/config.rs: the configuration, its variables, from_env,
--                               redact_url, the Debug output; Ranges has the proof on from_env
--   Signer, Signer/Loaded       src/signer.rs: the keys; what they satisfy
--   Handlers/Context            src/handlers/mod.rs: what the handlers share
--   Supervisor                  src/handlers/mod.rs: spawn; Sleep and Rounds have the proofs
--   Metrics                     src/metrics.rs: the classifier, the loops of the balances and of the refresh
--   Process, Process/Boot       src/main.rs: the tasks and their rounds as steps; the start
--   Process/Rounds, Reached, Permitted, Boot/Sends
--                               proofs: what the rounds, the tasks and the start send
--   Handlers/Util               src/handlers/util.rs
--   Handlers/Liquidator         src/handlers/liquidator.rs; Amounts has the numbers, Gate and Repay
--                               the proofs
--   Handlers/Liquidator/Quiet, Bundled, Repayments, Repayments/Loan, Scan
--                               proofs: its reads send nothing; where its bundles come from; which
--                               loans it repays, and why
--   Handlers/Promoter, Claimer, MatchCranker, CuratorFeeClaimer
--                               src/handlers/*.rs of the same names
--   Handlers/MatchCranker/Fills proof: the parser of the logs
--   Handlers/Promoter/Promotions, Promotions/Queue
--                               proof: which entries it promotes, and with which settlement
--   Handlers/Claimer/Sweeps     proof: which claims it sweeps
--   Handlers/MatchCranker/Cranks, Cranks/Scan
--                               proof: which markets it cranks, and after which answers
--   HealthServer, .../Serving   src/health_server.rs: handle_conn, and the loop of spawn; Utf8 decodes,
--                               Framing has the proofs on the answers
--   Tests                       a small world, runs in it, and the theorems applied there
--
-- Numbers are naturals with the wrap-around, saturation and truncation of the sources written out. The
-- ratio of the liquidator's pre-filter is computed in Base/Float with the rounding of IEEE doubles.
-- The loops that are not over a list: the retries are structural recursion on the attempts that are
-- left, three at the start, and running out of them is the panic of `unreachable!`; a sleep is
-- recursion on the steps that are left, and for an interval of n seconds n + 1 steps are enough if the
-- clock does not fall behind the sleeps; the loop around a handler runs for so many turns. Texts of
-- the environment are lists of code points, bytes of the network lists of bytes.
--
-- Not modelled: logging, the counters and histograms of the rounds, and the metrics exporter; the
-- signal handler and the panic hook of `main` (the stop flag is an answer of the environment, and a
-- panic ends the run). The tasks interleave in the model at whole rounds: what another task does
-- inside of a round shows only in the answers of the environment. The in-flight sets of the handlers
-- are one list of keys, tagged by the handler.
pub mod Base
pub mod System
pub mod Rpc
pub mod ChainReader
pub mod Config
pub mod Signer
pub mod BankRegistry
pub mod MarginfiBank
pub mod SwbCranker
pub mod Handlers
pub mod Supervisor
pub mod Metrics
pub mod Process
pub mod HealthServer
pub mod Tests
