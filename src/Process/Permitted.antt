-- ===== src/Process/Permitted.antt =====
-- The whole run of src/main.rs, from its start: which transactions it sends.
use y_delta_crankers.Base.{◌≡◌, refl, true, [], some, subst}
use y_delta_crankers.System.Types.{Message}
use y_delta_crankers.System.Env.{Env, History}
use y_delta_crankers.System.Action.{State, ok}
use y_delta_crankers.System.Outcome.{Holds}
use y_delta_crankers.System.Host.{Host}
use y_delta_crankers.System.Rules.{After}
use y_delta_crankers.Signer.Loaded.{AreOwn, IsLoaded, load-IsLoaded}
use y_delta_crankers.Rpc.Allowed.{AreSent-mono, Sent, Allowed}
use y_delta_crankers.Rpc.Gate.{Passed}
use y_delta_crankers.SwbCranker.{SwbCranker}
use y_delta_crankers.SwbCranker.Posted.{IsUpdate}
use y_delta_crankers.Handlers.CuratorFeeClaimer.Claims.{IsFeeClaim}
use y_delta_crankers.Process.{Reaches}
use y_delta_crankers.Process.Boot
use y_delta_crankers.Process.Boot.{Booted, initial}
use y_delta_crankers.Process.Boot.Sends.{IsBootCreation, BootCreations, IsBooted, boot-Triple}
use y_delta_crankers.Process.Reached.{Reaches-Allowed}

-- Why a transaction may be sent.
pub data Permitted (env : Env) (host : Host) (booted : Booted) (h : History) (m : Message)
    : Type 0 where
  after_simulation : Passed h m → Permitted env host booted h m
  fee_claim :
      booted.ctx.cfg.handlers.curator_fee_claimer_enabled ≡ true
      → IsFeeClaim env booted.ctx m
      → Permitted env host booted h m
  oracle_update :
      (cranker : SwbCranker)
      → booted.warmkeeper_enabled ≡ true
      → booted.ctx.swb_cranker ≡ some cranker
      → IsUpdate env cranker m
      → Permitted env host booted h m
  account_creation : IsBootCreation env host m → Permitted env host booted h m

-- The state that a start that succeeds leaves.
booted-Allowed :
    (env : Env) (host : Host) (booted : Booted) {s : State}
    → Boot.boot env host initial ≡ (ok booted, s)
    → Allowed (BootCreations env host) [] s × IsBooted env host booted
booted-Allowed env host booted e =
    subst
      (After (Allowed (BootCreations env host) []) (Sent (BootCreations env host))
        (λ b t. Allowed (BootCreations env host) [] t × IsBooted env host b))
      e ((boot-Triple env host).run initial (tt, refl))

-- The keys of the context are filed under their own public keys.
booted-AreOwn :
    (env : Env) (host : Host) (booted : Booted)
    → IsBooted env host booted
    → AreOwn env booted.ctx.signers.curators
booted-AreOwn env host booted b =
    (subst (Holds ⊥ (IsLoaded env host booted.ctx.cfg)) b.1
      (load-IsLoaded env host booted.ctx.cfg).run).2

-- If the start of the process succeeds, then in every state that the process reaches from there by
-- rounds of the tasks it spawns, in any order and with any answers of the environment: no key is
-- left in flight, and every transaction that was sent, in the start or since, was sent after a
-- passing simulation of its instructions (those for the compute budget in front aside); or it is a
-- claim of fees that are due, for a curator whose key is held and who pays for it, and the
-- curator-fee claimer is enabled; or it has the oracle update that a gateway gave, paid for by the
-- cranker, and the warm-keeper is enabled; or it creates missing token accounts of one of the
-- loaded keys.
pub Reaches-Permitted :
    (env : Env) (host : Host) (booted : Booted) {s t : State}
    → Boot.boot env host initial ≡ (ok booted, s)
    → Reaches env booted.ctx booted.warmkeeper_enabled s t
    → Allowed (Permitted env host booted) [] t
Reaches-Permitted env host booted {s} e r =
    let start = booted-Allowed env host booted e in
    Reaches-Allowed (Permitted env host booted) (λ h m p. after_simulation p) env booted.ctx
      booted.warmkeeper_enabled
      (λ on. (booted-AreOwn env host booted start.1, λ h m c. fee_claim on c))
      (λ on cranker has h m u. oracle_update cranker on has u)
      (
        AreSent-mono (BootCreations env host) (Permitted env host booted)
            (λ h m c. account_creation c) s.history start.0.0,
        start.0.1,
      )
      r
