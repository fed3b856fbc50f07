-- ===== src/Process/Boot/Sends.antt =====
-- What the start of the process (src/main.rs) sends, and with what the tasks are spawned.
use y_delta_crankers.Base.{ℕ, ◌≡◌, refl, ◌⊎◌, inl, inr, List, [], ◌∷◌, Option, none, some, Map}
use y_delta_crankers.System.Types.{Pubkey, Keypair, BankInfo, Message}
use y_delta_crankers.System.Env.{Env, History}
use y_delta_crankers.System.Action.{Result, ok, err, panicked, pure, ◌>>◌}
use y_delta_crankers.System.Rules.{
  Triple, Keeps, bind-Triple, bind-Keeps, known-Triple, mono-Triple, if-Keeps, pure-Keeps,
  fail-Keeps, gets-Keeps, or_fail-Keeps, of_reply-Keeps, of_result-Keeps, of_result-Triple,
  call-Keeps, modify-Keeps, attempt-Keeps, panic-Keeps,
}
use y_delta_crankers.System.Outcome.{self-Yields}
use y_delta_crankers.System.Host.{Host}
use y_delta_crankers.Config.{Config}
use y_delta_crankers.Config.Load.{from_env}
use y_delta_crankers.Signer
use y_delta_crankers.Signer.{Signers}
use y_delta_crankers.Rpc
use y_delta_crankers.Rpc.Allowed.{Policy, Sent, Allowed, message_reads}
use y_delta_crankers.BankRegistry.Discover
use y_delta_crankers.BankRegistry.Discover.Resolved.{discover_from_markets-Triple}
use y_delta_crankers.BankRegistry.Atas
use y_delta_crankers.BankRegistry.Atas.Created.{IsCreation, ensure_atas_of-Allowed}
use y_delta_crankers.SwbCranker
use y_delta_crankers.SwbCranker.{SwbCranker}
use y_delta_crankers.Process.Boot
use y_delta_crankers.Process.Boot.{Booted, rpc_of}

abbrev pub IsCurator : Keypair → Map Keypair → Type 0
IsCurator kp [] = ⊥
IsCurator kp ((pk, k) ∷ curators) = (k ≡ kp) ⊎ IsCurator kp curators

-- The fee payer's key or a curator's.
abbrev pub IsHeld : Keypair → Signers → Type 0
IsHeld kp signers = (kp ≡ signers.fee_payer) ⊎ IsCurator kp signers.curators

-- The message creates the missing token accounts of one of the keys that the process loads.
abbrev pub IsBootCreation : Env → Host → Message → Type 0
IsBootCreation env host m =
    (cfg : Config) × (signers : Signers) × (keypair : Keypair) × (by_mint : Map BankInfo)
    × (from_env host ≡ ok cfg)
    × (Signer.load env host cfg ≡ ok signers)
    × IsHeld keypair signers
    × IsCreation env (rpc_of cfg) keypair by_mint m

-- The policy of the start.
abbrev pub BootCreations : Env → Host → Policy
BootCreations env host h m = IsBootCreation env host m

-- The context has the configuration and the keys of the host.
abbrev pub IsBooted : Env → Host → Booted → Type 0
IsBooted env host booted =
    (from_env host ≡ ok booted.ctx.cfg)
    × (Signer.load env host booted.ctx.cfg ≡ ok booted.ctx.signers)

module _ (P : Policy) (env : Env) (host : Host) (rpc : Rpc.Rpc) where
  discovery-Allowed :
      (marginfi_program : Pubkey)
      → Keeps
          (Allowed P [])
          (Sent P)
          (Discover.discover_banks_from_markets env rpc marginfi_program)
  unfolding Discover.discover_banks_from_markets
  discovery-Allowed marginfi_program =
      bind-Triple _ (discover_from_markets-Triple (message_reads P []) env rpc marginfi_program)
        λ fresh. mono-Triple (λ s a. a.0) (modify-Keeps _ (λ s a. a))

  ensure_atas_for-Allowed :
      (keypair : Keypair)
      → ((h : History) (by_mint : Map BankInfo) (m : Message)
          → IsCreation env rpc keypair by_mint m
          → P h m)
      → Keeps (Allowed P []) (Sent P) (Atas.ensure_atas_for env rpc keypair)
  unfolding Atas.ensure_atas_for
  ensure_atas_for-Allowed keypair lets =
      bind-Keeps (gets-Keeps _)
        λ banks. ensure_atas_of-Allowed P [] env rpc keypair banks (λ h m c. lets h banks m c)

  warned-Allowed : (r : Result (Unit {0})) → Keeps (Allowed P []) (Sent P) (Boot.warned env host r)
  warned-Allowed (ok u) = pure-Keeps _
  warned-Allowed (err e) = pure-Keeps _
  warned-Allowed panicked = panic-Keeps (λ s a. a.0)

  ensure_curators-Allowed :
      (curators : Map Keypair)
      → ((keypair : Keypair)
          → IsCurator keypair curators
          → Keeps (Allowed P []) (Sent P) (Atas.ensure_atas_for env rpc keypair))
      → Keeps (Allowed P []) (Sent P) (Boot.ensure_curators env host rpc curators)
  unfolding Boot.ensure_curators ◌>>◌
  ensure_curators-Allowed [] h = pure-Keeps _
  ensure_curators-Allowed ((pk, keypair) ∷ curators) h =
      bind-Keeps (attempt-Keeps (h keypair (inl refl))) λ r.
        bind-Keeps (warned-Allowed r) λ u. ensure_curators-Allowed curators (λ k c. h k (inr c))

module _ (P : Policy) (env : Env) (host : Host) where
  queue-Allowed :
      (default given : Option Pubkey) → Keeps (Allowed P []) (Sent P) (Boot.or_parsed default given)
  queue-Allowed default (some key) = pure-Keeps _
  queue-Allowed (some default) none = pure-Keeps _
  queue-Allowed none none = panic-Keeps (λ s a. a.0)

  or_without-Allowed :
      (r : Result SwbCranker) → Keeps (Allowed P []) (Sent P) (Boot.or_without env host r)
  or_without-Allowed (ok cranker) = pure-Keeps _
  or_without-Allowed (err e) = pure-Keeps _
  or_without-Allowed panicked = panic-Keeps (λ s a. a.0)

  checked-Allowed :
      (gateways : List ℕ) (payer : Keypair)
      → Keeps (Allowed P []) (Sent P) (SwbCranker.checked gateways payer)
  checked-Allowed [] payer = fail-Keeps _
  checked-Allowed (gateway ∷ gateways) payer = pure-Keeps _

  new-Allowed :
      (queue : Pubkey) (payer : Keypair)
      → Keeps (Allowed P []) (Sent P) (SwbCranker.new env queue payer)
  unfolding SwbCranker.new
  new-Allowed queue payer = bind-Keeps (call-Keeps _ _ (λ s a. a)) λ q.
      bind-Keeps (or_fail-Keeps q _) λ found.
        bind-Keeps (call-Keeps _ _ (λ s a. a))
          λ g. bind-Keeps (or_fail-Keeps g _) λ gateways. checked-Allowed gateways payer

  boot_cranker-Allowed :
      (fee_payer : Keypair) → Keeps (Allowed P []) (Sent P) (Boot.boot_cranker env host fee_payer)
  unfolding Boot.boot_cranker
  boot_cranker-Allowed fee_payer = bind-Keeps (gets-Keeps _) λ banks.
      if-Keeps _
        (bind-Keeps (queue-Allowed _ _)
          λ queue. bind-Keeps (attempt-Keeps (new-Allowed queue fee_payer)) or_without-Allowed)
        (pure-Keeps _)

module _ (env : Env) (host : Host) where
  abbrev B : Policy
  B = BootCreations env host

  boot_with-Triple :
      (cfg : Config) (signers : Signers)
      → from_env host ≡ ok cfg
      → Signer.load env host cfg ≡ ok signers
      → Triple
          (Allowed B [])
          (Sent B)
          (Allowed B [])
          (Boot.boot_with env host cfg signers)
          (λ booted s. Allowed B [] s × IsBooted env host booted)
  unfolding Boot.boot_with pure
  boot_with-Triple cfg signers e l =
      bind-Triple (λ _. Allowed B [])
        (discovery-Allowed B env host (rpc_of cfg) cfg.marginfi_program_id)
        λ discovered.
          bind-Triple (λ _. Allowed B []) (ensures signers.fee_payer (inl refl))
            λ created.
              bind-Triple (λ _. Allowed B [])
                (ensure_curators-Allowed B env host (rpc_of cfg) signers.curators
                  (λ keypair c. ensures keypair (inr c)))
                λ tried.
                  bind-Triple (λ _. Allowed B []) (of_result-Keeps (λ s a. a.0) _)
                    λ metrics_bind.
                      bind-Triple (λ _. Allowed B []) (if-Keeps _ (pure-Keeps _) (fail-Keeps _))
                        λ installed.
                          bind-Triple (λ _. Allowed B []) (of_result-Keeps (λ s a. a.0) _)
                            λ health_bind.
                              bind-Triple (λ _. Allowed B []) (call-Keeps _ _ (λ s a. a))
                                λ r.
                                  bind-Triple (λ _. Allowed B []) (of_reply-Keeps r)
                                    λ slot.
                                      bind-Triple (λ _. Allowed B [])
                                        (boot_cranker-Allowed B env host signers.fee_payer)
                                        λ cranker. record { run = λ s a. (a, (e, l)) }
    where
      ensures :
          (keypair : Keypair)
          → IsHeld keypair signers
          → Keeps (Allowed B []) (Sent B) (Atas.ensure_atas_for env (rpc_of cfg) keypair)
      ensures keypair held =
          ensure_atas_for-Allowed B env host (rpc_of cfg) keypair
            (λ h by_mint m c. (cfg, signers, keypair, by_mint, e, l, held, c))

  pub boot-Triple :
      Triple
        (Allowed B [])
        (Sent B)
        (Allowed B [])
        (Boot.boot env host)
        (λ booted s. Allowed B [] s × IsBooted env host booted)
  unfolding Boot.boot
  boot-Triple = bind-Triple _ (of_result-Triple (λ s a. a.0) (self-Yields (from_env host))) λ cfg.
      known-Triple λ e.
        bind-Triple _ (of_result-Triple (λ s a. a.0) (self-Yields (Signer.load env host cfg)))
          λ signers. known-Triple λ l. boot_with-Triple cfg signers e l
