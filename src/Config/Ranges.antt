-- ===== src/Config/Ranges.antt =====
-- What a configuration that was read from the environment (src/config.rs) satisfies.
use y_delta_crankers.Base.{
  ℕ, ◌≤◌, ◌≡◌, refl, Bool, List, [], ◌∷◌, Option, none, some, codes, arith, u64_max, u32_max,
  is_prefix,
}
use y_delta_crankers.Base.Text.{parse_unsigned-Within, Within, trim, to_ascii_lowercase}
use y_delta_crankers.System.Types.{bad_number}
use y_delta_crankers.System.Action.{Result, ok}
use y_delta_crankers.System.Outcome.{
  ◌>>=◌, Any, Yields, ok-Yields, err-Yields, bind-Yields, found-Yields, if-Yields, mono-Yields,
  ok_or,
}
use y_delta_crankers.System.Host.{Host, Text}
use y_delta_crankers.Config.{Config, HandlersConfig, ThresholdsConfig, KeypairSource, path, base58}
use y_delta_crankers.Config.Vars
use y_delta_crankers.Config.Load

-- The fee payer's key comes from the one of the two variables that is set.
abbrev pub IsOnlySource : Host → KeypairSource → Type 0
IsOnlySource host (path file) =
    (host.var (codes "FEE_PAYER_KEYPAIR") ≡ some file)
    × (host.var (codes "FEE_PAYER_KEYPAIR_BASE58") ≡ none)
IsOnlySource host (base58 text) =
    (host.var (codes "FEE_PAYER_KEYPAIR") ≡ none)
    × (host.var (codes "FEE_PAYER_KEYPAIR_BASE58") ≡ some text)

abbrev pub AreThresholds : ThresholdsConfig → Type 0
AreThresholds t =
    (t.min_liquidation_profit_atoms ≤ u64_max)
    × (t.min_curator_fee_claim_atoms ≤ u64_max)
    × (t.maturity_extra_buffer ≤ u64_max)

abbrev pub IsConfigured : Host → Config → Type 0
IsConfigured host cfg =
    IsOnlySource host cfg.fee_payer_keypair
    × (cfg.handlers.match_cranker_max_fills ≤ u32_max)
    × AreThresholds cfg.thresholds
    × (cfg.priority_fee_micro_lamports ≤ u64_max)
    × (cfg.compute_unit_limit ≤ u32_max)
    × (cfg.min_signer_balance_lamports ≤ u64_max)
    × (host.var (codes "CURATOR_KEYPAIRS_JSON") ≡ none → cfg.curator_keypairs_base58 ≡ [])

module _ (host : Host) where
  parsed-Yields :
      (limit : ℕ) (name : Text) (o : Option ℕ)
      → Within limit o
      → Yields ⊥ (λ n. n ≤ limit) (ok_or o (bad_number name))
  parsed-Yields limit name none h = err-Yields _
  parsed-Yields limit name (some n) h = ok-Yields h

  unsigned_of-Yields :
      (limit : ℕ) (name : Text) (default : ℕ) (v : Option Text)
      → default ≤ limit
      → Yields ⊥ (λ n. n ≤ limit) (Vars.unsigned_of host limit name default v)
  unsigned_of-Yields limit name default none h = ok-Yields h
  unsigned_of-Yields limit name default (some v) h =
      parsed-Yields limit name _ (parse_unsigned-Within limit v)

  u64_var-Yields :
      (name : Text) (default : ℕ)
      → default ≤ u64_max
      → Yields ⊥ (λ n. n ≤ u64_max) (Vars.u64_var host name default)
  unfolding Vars.u64_var
  u64_var-Yields name default h = unsigned_of-Yields u64_max name default _ h

  secs_var-Yields :
      (name : Text) (default : ℕ)
      → default ≤ u64_max
      → Yields ⊥ (λ n. n ≤ u64_max) (Vars.secs_var host name default)
  unfolding Vars.secs_var
  secs_var-Yields name default h = u64_var-Yields name default h

  u32_var-Yields :
      (name : Text) (default : ℕ)
      → default ≤ u32_max
      → Yields ⊥ (λ n. n ≤ u32_max) (Vars.u32_var host name default)
  unfolding Vars.u32_var
  u32_var-Yields name default h = unsigned_of-Yields u32_max name default _ h

  bool_of-Yields :
      (name : Text) (default : Bool) (v : Option Text)
      → Yields ⊥ Any (Vars.bool_of host name default v)
  bool_of-Yields name default none = ok-Yields tt
  bool_of-Yields name default (some v) =
      if-Yields
        (Vars.is_one_of (to_ascii_lowercase v) (codes "true" ∷ codes "1" ∷ codes "yes" ∷ []))
        (λ e. ok-Yields tt)
        (λ e.
          if-Yields
            (Vars.is_one_of (to_ascii_lowercase v) (codes "false" ∷ codes "0" ∷ codes "no" ∷ []))
            (λ d. ok-Yields tt) (λ d. err-Yields _))

  bool_var-Yields : (name : Text) (default : Bool) → Yields ⊥ Any (Vars.bool_var host name default)
  unfolding Vars.bool_var
  bool_var-Yields name default = bool_of-Yields name default (host.var name)

  network-Yields : (s : Text) → Yields ⊥ Any (Vars.network_from_str s)
  unfolding Vars.network_from_str
  network-Yields s =
      if-Yields (Vars.is_one_of (to_ascii_lowercase s) (codes "localhost" ∷ codes "local" ∷ []))
        (λ e. ok-Yields tt)
        (λ e.
          if-Yields
            (Vars.is_one_of (to_ascii_lowercase s) (codes "mainnet" ∷ codes "mainnet-beta" ∷ []))
            (λ d. ok-Yields tt) (λ d. err-Yields _))

  keypair_source-Yields :
      (file text : Option Text)
      → host.var (codes "FEE_PAYER_KEYPAIR") ≡ file
      → host.var (codes "FEE_PAYER_KEYPAIR_BASE58") ≡ text
      → Yields ⊥ (IsOnlySource host) (Load.keypair_source host file text)
  keypair_source-Yields (some file) (some text) e d = err-Yields _
  keypair_source-Yields (some file) none e d = ok-Yields (e, d)
  keypair_source-Yields none (some text) e d = ok-Yields (e, d)
  keypair_source-Yields none none e d = err-Yields _

  pubkey-Yields : (s : Text) → Yields ⊥ Any (Vars.parse_pubkey host s)
  unfolding Vars.parse_pubkey
  pubkey-Yields s = found-Yields _ _

  expected_pubkey-Yields : (o : Option Text) → Yields ⊥ Any (Load.expected_pubkey host o)
  expected_pubkey-Yields none = ok-Yields tt
  expected_pubkey-Yields (some text) = bind-Yields Any (pubkey-Yields text) (λ a u. ok-Yields tt)

  curators-Yields :
      (o : Option Text) → Yields ⊥ (λ texts. o ≡ none → texts ≡ []) (Load.curator_keypairs host o)
  unfolding Vars.parse_curator_keypairs_json
  curators-Yields none = ok-Yields (λ e. refl)
  curators-Yields (some raw) = mono-Yields (λ texts u e. cc e) (trimmed-Yields (trim raw))
    where
      texts-Yields : (o : Option (List Text)) → Yields ⊥ Any (Vars.trimmed_texts host o)
      texts-Yields none = err-Yields _
      texts-Yields (some texts) = ok-Yields tt

      trimmed-Yields : (s : Text) → Yields ⊥ Any (Vars.curator_keypairs_of host s)
      trimmed-Yields [] = ok-Yields tt
      trimmed-Yields (c ∷ s) =
          if-Yields (is_prefix (codes "[") (c ∷ s)) (λ e. texts-Yields (host.json_texts (c ∷ s)))
            (λ e. ok-Yields tt)

  read_handlers-Yields :
      Yields ⊥ (λ h. h.match_cranker_max_fills ≤ u32_max) (Load.read_handlers host)
  unfolding Load.read_handlers
  read_handlers-Yields = flag _ _ λ p. flag _ _ λ c. flag _ _ λ l. flag _ _ λ f. flag _ _ λ m.
      secs _ _ (omega arith) λ ps. secs _ _ (omega arith) λ cs. secs _ _ (omega arith) λ ls.
        secs _ _ (omega arith) λ fs.
          secs _ _ (omega arith) λ ms.
            bind-Yields (λ n. n ≤ u32_max) (u32_var-Yields _ _ (omega arith)) λ n h. ok-Yields h
    where
      flag :
          {B : Type 0} {P : B → Type 0} {f : Bool → Result B} (name : Text) (default : Bool)
          → ((b : Bool) → Yields ⊥ P (f b))
          → Yields ⊥ P (Vars.bool_var host name default >>= f)
      flag name default h = bind-Yields Any (bool_var-Yields name default) (λ b u. h b)

      secs :
          {B : Type 0} {P : B → Type 0} {f : ℕ → Result B} (name : Text) (default : ℕ)
          → default ≤ u64_max
          → ((n : ℕ) → Yields ⊥ P (f n))
          → Yields ⊥ P (Vars.secs_var host name default >>= f)
      secs name default d h =
          bind-Yields (λ n. n ≤ u64_max) (secs_var-Yields name default d) (λ n u. h n)

  read_thresholds-Yields : Yields ⊥ AreThresholds (Load.read_thresholds host)
  unfolding Load.read_thresholds
  read_thresholds-Yields =
      bind-Yields (λ n. n ≤ u64_max) (u64_var-Yields _ _ (omega arith))
        λ profit p.
          bind-Yields (λ n. n ≤ u64_max) (secs_var-Yields _ _ (omega arith))
            λ buffer b.
              bind-Yields (λ n. n ≤ u64_max) (u64_var-Yields _ _ (omega arith))
                λ fee f. ok-Yields (p, f, b)

  required-Yields : (name : Text) → Yields ⊥ Any (Vars.require_var host name)
  unfolding Vars.require_var
  required-Yields name = found-Yields _ _

module _ (host : Host) where
  -- What is read behind the keys.
  rest-Yields :
      (make : HandlersConfig → ThresholdsConfig → ℕ → ℕ → ℕ → ℕ → List Text → Config)
      → ((h : HandlersConfig) (t : ThresholdsConfig) (p l m b : ℕ) (c : List Text)
          → h.match_cranker_max_fills ≤ u32_max
          → AreThresholds t
          → p ≤ u64_max
          → l ≤ u32_max
          → m ≤ u64_max
          → (host.var (codes "CURATOR_KEYPAIRS_JSON") ≡ none → c ≡ [])
          → IsConfigured host (make h t p l m b c))
      → Yields ⊥ (IsConfigured host) (
          Load.read_handlers host >>= λ h. Load.read_thresholds host >>= λ t.
          Vars.u64_var host (codes "PRIORITY_FEE_MICRO_LAMPORTS") 1_000 >>= λ p.
          Vars.u32_var host (codes "COMPUTE_UNIT_LIMIT") 400_000 >>= λ l.
          Vars.u64_var host (codes "MIN_SIGNER_BALANCE_LAMPORTS") 50_000_000 >>= λ m.
          Vars.secs_var host (codes "BANKS_REFRESH_SEC") 300 >>= λ b.
          Load.curator_keypairs host (host.var (codes "CURATOR_KEYPAIRS_JSON")) >>= λ c.
          ok (make h t p l m b c))
  rest-Yields make w =
      bind-Yields (λ h. h.match_cranker_max_fills ≤ u32_max) (read_handlers-Yields host)
        λ h r1. bind-Yields AreThresholds (read_thresholds-Yields host) λ t r2.
          bind-Yields (λ n. n ≤ u64_max) (u64_var-Yields host _ _ (omega arith))
            λ p r3.
              bind-Yields (λ n. n ≤ u32_max) (u32_var-Yields host _ _ (omega arith))
                λ l r4.
                  bind-Yields (λ n. n ≤ u64_max) (u64_var-Yields host _ _ (omega arith))
                    λ m r5.
                      bind-Yields Any
                        (mono-Yields (λ n r. tt) (secs_var-Yields host _ _ (omega arith)))
                        λ b r6.
                          bind-Yields
                            (λ c. host.var (codes "CURATOR_KEYPAIRS_JSON") ≡ none → c ≡ [])
                            (curators-Yields host _)
                            λ c r7. ok-Yields (w h t p l m b c r1 r2 r3 r4 r5 r7)

-- For every environment: reading the configuration does not panic, and if it succeeds, then exactly
-- one of the two variables for the fee payer's key is set and its text is taken, every limit,
-- threshold, fee and balance is within its width (32 bits for the fills and the compute units, 64
-- bits for the others), and there are no curator keys if their variable is not set.
pub from_env-IsConfigured : (host : Host) → Yields ⊥ (IsConfigured host) (Load.from_env host)
unfolding Load.from_env Vars.optional_var
from_env-IsConfigured host = bind-Yields Any (required-Yields host _) λ network_text u1.
    bind-Yields Any (network-Yields host network_text) λ network u2.
      bind-Yields Any (required-Yields host _) λ rpc_url u3.
        bind-Yields Any (pubkey-Yields host _) λ program_id u4.
          bind-Yields Any (required-Yields host _) λ program_text u5.
            bind-Yields Any (pubkey-Yields host _) λ marginfi_program u6.
              bind-Yields Any (required-Yields host _) λ group_text u7.
                bind-Yields Any (pubkey-Yields host _) λ group u8.
                  bind-Yields (IsOnlySource host) (keypair_source-Yields host _ _ refl refl)
                    λ source o. bind-Yields Any (expected_pubkey-Yields host _) λ expected u9.
                      rest-Yields host _
                        (λ h t p l m b c r1 r2 r3 r4 r5 r6. (o, r1, r2, r3, r4, r5, r6))
