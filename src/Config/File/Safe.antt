-- ===== src/Config/File/Safe.antt =====
-- What every configuration that the daemon starts with satisfies.
use mathlib.Core.Option.{get_or}
use mathlib.Core.Path.{subst}
use colony_firewall_control.Prelude.{
  ◌≡◌, ◌≢◌, if◌then◌else◌, refl, Bool, false, Option, none, some, Text, Result, Result-cases,
  Option-cases, inl, inr, ◌∙◌, ok, err, arith,
}
use colony_firewall_control.Rule.{Action, allow, deny}
use colony_firewall_control.Config.{resolve, policy}
use colony_firewall_control.Config.Inbound.{resolve-inbound_action}
use colony_firewall_control.Config.File.{
  Config, ConfigToml, ConfigError, Source, fails_open, default_toml, found, not_found, unreadable,
  base_policy, fold_profile, from_toml_str, load_or_default,
}

-- The queue does not fail open, inbound flows are not allowed by default, and neither an absent
-- client nor an unanswered prompt allows a flow unless the file says so.
pub record IsClosed (asked : ConfigToml) (cfg : Config) : Type 0 where
  pub queue : cfg.nfqueue.fail_open ≡ false
  pub inbound : cfg.default_policy.inbound_action ≢ allow
  pub no_ui :
      cfg.default_policy.no_ui_action ≡ allow → asked.default_policy.no_ui_action ≡ some allow
  pub timeout :
      cfg.default_policy.timeout_action ≡ allow → asked.default_policy.timeout_action ≡ some allow

base_policy-denies :
    (profile : Option Text)
    → ((base_policy profile).no_ui_action ≡ deny) × ((base_policy profile).timeout_action ≡ deny)
unfolding base_policy policy
base_policy-denies none = (refl, refl)
base_policy-denies (some s) = ground arith

overlay : (o : Option Action) (base : Action) → base ≡ deny → get_or o base ≡ allow → o ≡ some allow
overlay none base d h = ground arith
overlay (some a) base d h = ground arith

fold_profile-IsClosed :
    (raw : ConfigToml) → raw.nfqueue.fail_open ≡ false → IsClosed raw (fold_profile raw)
unfolding fold_profile resolve
fold_profile-IsClosed raw q =
    let (no_ui, timeout) = base_policy-denies raw.profile in
    record {
      queue = q;
      inbound = (resolve-inbound_action raw.default_policy (base_policy raw.profile)).0;
      no_ui = overlay raw.default_policy.no_ui_action _ no_ui;
      timeout = overlay raw.default_policy.timeout_action _ timeout;
    }

-- What the file says, where there is one that parses, and the defaults where there is none.
abbrev pub written {ℓ} : {E : Type ℓ} → (Text → Result E ConfigToml) → Source E → Option ConfigToml
written parser (found txt) = elim (parser txt) [ err e ↦ none | ok raw ↦ some raw ]
written parser not_found = some default_toml
written parser (unreadable e) = none

loaded {ℓ} :
    {E : Type ℓ} (parser : Text → Result E ConfigToml) (source : Source E) (raw : ConfigToml)
    → written parser source ≡ some raw
    → load_or_default parser source ≡ (
        if raw.nfqueue.fail_open
        then err fails_open
        else ok (fold_profile raw, raw.provenance.enabled))
unfolding load_or_default from_toml_str fold_profile
loaded parser (found txt) raw h = ground (arith, Result-cases (parser txt), h)
loaded parser not_found raw h = ground (arith, h)
loaded parser (unreadable e) raw h = ground (arith, h)

not_loaded {ℓ} :
    {E : Type ℓ} (parser : Text → Result E ConfigToml) (source : Source E) (out : Config × Bool)
    → written parser source ≡ none
    → load_or_default parser source ≢ ok out
unfolding load_or_default from_toml_str
not_loaded parser (found txt) out h k = ground (arith, Result-cases (parser txt), h, k)
not_loaded parser not_found out h k = ground (arith, h)
not_loaded parser (unreadable e) out h k = ground (arith, k)

of_loaded {ℓ} :
    {E : Type ℓ} (out : Result (ConfigError E) (Config × Bool)) (raw : ConfigToml) (cfg : Config)
    (published : Bool)
    → out ≡ (
        if raw.nfqueue.fail_open
        then err fails_open
        else ok (fold_profile raw, raw.provenance.enabled))
    → out ≡ ok (cfg, published)
    → (raw.nfqueue.fail_open ≡ false)
      × (fold_profile raw ≡ cfg)
      × (published ≡ raw.provenance.enabled)
of_loaded out raw cfg published h k = ground (arith, h, k)

-- A configuration that the daemon loads comes from a file that parses or from the defaults; its
-- queue does not fail open, its inbound default is not Allow, neither an absent client nor an
-- unanswered prompt allows a flow unless the file itself says Allow there, and the switch that is
-- published is the one that the file or the defaults hold.
pub load_or_default-IsClosed {ℓ} :
    {E : Type ℓ} (parser : Text → Result E ConfigToml) (source : Source E) (cfg : Config)
    (published : Bool)
    → load_or_default parser source ≡ ok (cfg, published)
    → (raw : ConfigToml) × (written parser source ≡ some raw)
      × IsClosed raw cfg
      × (published ≡ raw.provenance.enabled)
load_or_default-IsClosed parser source cfg published h =
    elim (Option-cases (written parser source)) [
      | inl e ↦ elim (not_loaded parser source (cfg, published) e h) [ ]
      | inr (raw, e) ↦
          let (closed, same, switch) =
            of_loaded (load_or_default parser source) raw cfg published (loaded parser source raw e)
              h in
          (raw, e, subst (IsClosed raw) same (fold_profile-IsClosed raw closed), switch)
    ]

-- Where the file parses, or there is none, and the queue does not fail open, loading succeeds with
-- the folded configuration.
pub load_or_default-written {ℓ} :
    {E : Type ℓ} (parser : Text → Result E ConfigToml) (source : Source E) (raw : ConfigToml)
    → written parser source ≡ some raw
    → raw.nfqueue.fail_open ≡ false
    → load_or_default parser source ≡ ok (fold_profile raw, raw.provenance.enabled)
load_or_default-written parser source raw e q = loaded parser source raw e ∙ (rw q refl)
