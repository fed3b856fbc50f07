-- ===== src/Signer/Loaded.antt =====
-- What the loaded keys (src/signer.rs) satisfy.
use y_delta_crankers.Base.{
  ℕ, suc, ◌≡◌, refl, Bool, true, false, List, [], ◌∷◌, Option, none, some, Bool-cases, inl, inr,
  ◌==◌, ◌%◌, length, is_empty, Map, insert, All, arith,
}
use y_delta_crankers.System.Types.{Pubkey, Keypair}
use y_delta_crankers.System.Env.{Env}
use y_delta_crankers.System.Outcome.{
  Any, Yields, ok-Yields, err-Yields, bind-Yields, ok_or-Yields, found-Yields, if-Yields,
  mono-Yields, with_context-Yields,
}
use y_delta_crankers.System.Host.{Host, Text}
use y_delta_crankers.Config.{Config, KeypairSource, path, base58}
use y_delta_crankers.Signer

-- Each key of the map is the public key of its key pair.
abbrev pub AreOwn : Env → Map Keypair → Type 0
AreOwn env = All (λ entry. env.pubkey_of entry.1 ≡ entry.0)

insert-AreOwn :
    (env : Env) (kp : Keypair) (m : Map Keypair)
    → AreOwn env m
    → AreOwn env (insert (env.pubkey_of kp) kp m)
insert-AreOwn env kp [] own = (refl, tt)
insert-AreOwn env kp ((j, w) ∷ m) own = elim (Bool-cases (j == env.pubkey_of kp)) [
  | inl e ↦ rw e (refl, own.1)
  | inr e ↦ rw e (own.0, insert-AreOwn env kp m own.1)
]

-- The source of the fee payer, if it is a file, is not open to the group or to others.
abbrev pub IsPrivate : Host → KeypairSource → Type 0
IsPrivate host (path file) = (mode : ℕ) × (host.file_mode file ≡ some mode) × (mode % 64 ≡ 0)
IsPrivate host (base58 s) = Unit

abbrev pub IsExpected : Env → Keypair → Option Pubkey → Type 0
IsExpected env fee_payer none = Unit
IsExpected env fee_payer (some expected) = env.pubkey_of fee_payer ≡ expected

abbrev pub IsLoaded : Env → Host → Config → Signer.Signers → Type 0
IsLoaded env host cfg signers =
    IsPrivate host cfg.fee_payer_keypair
    × IsExpected env signers.fee_payer cfg.fee_payer_expected_pubkey
    × AreOwn env signers.curators
    × (cfg.handlers.curator_fee_claimer_enabled ≡ true → is_empty signers.curators ≡ false)

module _ (env : Env) (host : Host) where
  check_mode-Yields :
      (file : Text) (mode : ℕ)
      → Yields ⊥ (λ _. mode % 64 ≡ 0) (Signer.check_mode env host file mode)
  check_mode-Yields file mode =
      if-Yields (mode % 512 % 64 == 0) (λ e. ok-Yields (ground (arith, e))) (λ e. err-Yields _)

  load_keypair_from_file-Yields :
      (file : Text)
      → Yields ⊥ (λ _. IsPrivate host (path file)) (Signer.load_keypair_from_file env host file)
  unfolding Signer.load_keypair_from_file
  load_keypair_from_file-Yields file =
      bind-Yields (λ mode. host.file_mode file ≡ some mode) (ok_or-Yields _)
        λ mode e.
          bind-Yields (λ _. mode % 64 ≡ 0) (check_mode-Yields file mode)
            λ checked m. bind-Yields Any (found-Yields _ _) λ bytes u.
              bind-Yields Any (found-Yields _ _)
                λ arr v. mono-Yields (λ kp w. (mode, e, m)) (found-Yields _ _)

  load_keypair_from_base58-Yields :
      (s : Text) → Yields ⊥ Any (Signer.load_keypair_from_base58 env host s)
  unfolding Signer.load_keypair_from_base58
  load_keypair_from_base58-Yields s = bind-Yields Any (found-Yields _ _) λ bytes u.
      bind-Yields Any (if-Yields (length bytes == 64) (λ e. ok-Yields tt) (λ e. err-Yields _))
        λ checked v. found-Yields _ _

  load_keypair-Yields :
      (source : KeypairSource)
      → Yields ⊥ (λ _. IsPrivate host source) (Signer.load_keypair env host source)
  unfolding Signer.load_keypair
  load_keypair-Yields (path file) = load_keypair_from_file-Yields file
  load_keypair-Yields (base58 s) = mono-Yields (λ kp u. tt) (load_keypair_from_base58-Yields s)

  check_expected-Yields :
      (fee_payer : Keypair) (expected : Option Pubkey)
      → Yields ⊥
          (λ _. IsExpected env fee_payer expected)
          (Signer.check_expected env host fee_payer expected)
  check_expected-Yields fee_payer none = ok-Yields tt
  check_expected-Yields fee_payer (some expected) =
      if-Yields (env.pubkey_of fee_payer == expected) (λ e. ok-Yields (ground (arith, e)))
        (λ e. err-Yields _)

  load_curators-Yields :
      (i : ℕ) (texts : List Text) (curators : Map Keypair)
      → AreOwn env curators
      → Yields ⊥ (AreOwn env) (Signer.load_curators env host i texts curators)
  unfolding Signer.load_curators
  load_curators-Yields i [] curators own = ok-Yields own
  load_curators-Yields i (b58 ∷ rest) curators own =
      bind-Yields Any (with_context-Yields _ (load_keypair_from_base58-Yields b58))
        λ kp u. load_curators-Yields (suc i) rest _ (insert-AreOwn env kp curators own)

  check_curators-Yields :
      (enabled : Bool) (curators : Map Keypair)
      → Yields ⊥
          (λ _. enabled ≡ true → is_empty curators ≡ false)
          (Signer.check_curators env host enabled curators)
  check_curators-Yields true [] = err-Yields _
  check_curators-Yields true (c ∷ cs) = ok-Yields (λ e. refl)
  check_curators-Yields false curators = ok-Yields (λ e. cc e)

-- For every configuration: loading the keys does not panic, and if it succeeds, the fee payer's key
-- came from no file that the group or others may access, its public key is the expected one if one
-- is configured, each curator's key is filed under its own public key, and there is one if the
-- curator-fee claimer is enabled.
pub load-IsLoaded :
    (env : Env) (host : Host) (cfg : Config)
    → Yields ⊥ (IsLoaded env host cfg) (Signer.load env host cfg)
unfolding Signer.load
load-IsLoaded env host cfg =
    bind-Yields (λ _. IsPrivate host cfg.fee_payer_keypair) (load_keypair-Yields env host _)
      λ fee_payer p.
        bind-Yields (λ _. IsExpected env fee_payer cfg.fee_payer_expected_pubkey)
          (check_expected-Yields env host fee_payer _)
          λ u e. bind-Yields (AreOwn env) (load_curators-Yields env host 0 _ [] tt) λ curators own.
            bind-Yields
              (λ _. cfg.handlers.curator_fee_claimer_enabled ≡ true → is_empty curators ≡ false)
              (check_curators-Yields env host _ curators) λ v held. ok-Yields (p, e, own, held)
