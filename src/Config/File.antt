-- ===== src/Config/File.antt =====
-- crates/cfc-daemon/src/config.rs: the tables of the configuration file with their defaults, and
-- how a parsed file becomes the configuration. The TOML parser is an argument.
pub mod Safe
use colony_firewall_control.Prelude.{
  ℕ, Bool, true, false, not, ◌||◌, Option, none, some, List, [], ◌∷◌, if◌then◌else◌, Text, codes,
  text_eq, Result, ok, err, ◌>>=◌, ◌>>◌, refuse_if,
}
use colony_firewall_control.Rule.Digest.{trim, to_ascii_lowercase}
use colony_firewall_control.Config.{
  DefaultPolicy, DefaultPolicyToml, Profile, balanced, parse, policy, resolve,
}

pub record NfqConfig : Type 0 where
  pub queue_num : ℕ
  pub queue_max_len : ℕ
  pub fail_open : Bool

abbrev pub default_nfqueue : NfqConfig
default_nfqueue = record { queue_num = 0; queue_max_len = 4096; fail_open = false }

pub record StorageConfig : Type 0 where
  pub path : Text

abbrev pub default_storage : StorageConfig
default_storage = record { path = codes "/var/lib/colony-firewall/rules.db" }

pub record PauseConfig : Type 0 where
  pub default_secs : ℕ

abbrev pub default_pause : PauseConfig
default_pause = record { default_secs = 600 }

pub record EventsConfig : Type 0 where
  pub max_rows : ℕ

abbrev pub default_events : EventsConfig
default_events = record { max_rows = 100000 }

pub record IpcConfig : Type 0 where
  pub group : Text
  pub require_group : Bool
  pub official_clients : List Text

-- `official::DEFAULT_CLIENTS`.
abbrev pub default_clients : List Text
default_clients = codes "/usr/bin/colony-firewall" ∷ codes "/usr/bin/colony-firewall-tray" ∷ []

abbrev pub default_ipc : IpcConfig
default_ipc = record {
  group = codes "colony-firewall";
  require_group = true;
  official_clients = default_clients;
}

pub record ProvenanceConfig : Type 0 where
  pub enabled : Bool

abbrev pub default_provenance : ProvenanceConfig
default_provenance = record { enabled = true }

pub data EbpfMode : Type 0 where
  auto on off : EbpfMode

unfoldable pub wants_load : EbpfMode → Bool
wants_load auto = true
wants_load on = true
wants_load off = false

unfoldable pub is_forced : EbpfMode → Bool
is_forced auto = false
is_forced on = true
is_forced off = false

unfoldable pub visit_bool : Bool → EbpfMode
visit_bool v = if v then on else off

abbrev is_word : Text → List Text → Bool
is_word word [] = false
is_word word (w ∷ ws) = text_eq word w || is_word word ws

unfoldable pub visit_str : Text → EbpfMode
visit_str v =
    let word = to_ascii_lowercase (trim v) in
    if text_eq word (codes "auto")
    then auto
    else if is_word word (codes "on" ∷ codes "true" ∷ codes "yes" ∷ codes "enabled" ∷ [])
    then on
    else if is_word word (codes "off" ∷ codes "false" ∷ codes "no" ∷ codes "disabled" ∷ [])
    then off
    else auto

pub record EbpfConfig : Type 0 where
  pub enabled : EbpfMode
  pub object_path : Option Text
  pub fast_allow : Bool
  pub fast_allow_mark : Option ℕ

abbrev pub default_ebpf : EbpfConfig
default_ebpf = record {
  enabled = auto;
  object_path = none;
  fast_allow = false;
  fast_allow_mark = none;
}

pub record Config : Type 0 where
  pub profile : Option Text
  pub default_policy : DefaultPolicy
  pub nfqueue : NfqConfig
  pub storage : StorageConfig
  pub pause : PauseConfig
  pub events : EventsConfig
  pub ipc : IpcConfig
  pub provenance : ProvenanceConfig
  pub ebpf : EbpfConfig

-- The file as it is written; an absent table has its defaults.
pub record ConfigToml : Type 0 where
  pub profile : Option Text
  pub default_policy : DefaultPolicyToml
  pub nfqueue : NfqConfig
  pub storage : StorageConfig
  pub pause : PauseConfig
  pub events : EventsConfig
  pub ipc : IpcConfig
  pub provenance : ProvenanceConfig
  pub ebpf : EbpfConfig

-- `ConfigToml::default`.
abbrev pub default_toml : ConfigToml
default_toml = record {
  profile = none;
  default_policy = record {
    no_ui_action = none;
    timeout_action = none;
    inbound_action = none;
    prompt_timeout_secs = none;
  };
  nfqueue = default_nfqueue;
  storage = default_storage;
  pause = default_pause;
  events = default_events;
  ipc = default_ipc;
  provenance = default_provenance;
  ebpf = default_ebpf;
}

-- The policy that the file's own table is laid over; an unknown profile counts as balanced.
unfoldable pub base_policy : Option Text → DefaultPolicy
base_policy none = policy balanced
base_policy (some s) = elim (parse s) [ none ↦ policy balanced | some p ↦ policy p ]

-- `ConfigToml::resolve`.
unfoldable pub fold_profile : ConfigToml → Config
unfolding base_policy
fold_profile raw = record {
  profile = raw.profile;
  default_policy = resolve raw.default_policy (base_policy raw.profile);
  nfqueue = raw.nfqueue;
  storage = raw.storage;
  pause = raw.pause;
  events = raw.events;
  ipc = raw.ipc;
  provenance = raw.provenance;
  ebpf = raw.ebpf;
}

pub data ConfigError {ℓ} (E : Type ℓ) : Type ℓ where
  malformed : E → ConfigError E
  fails_open : ConfigError E
  unread : E → ConfigError E

-- `toml::from_str(txt)?`.
abbrev pub read {ℓ} : {E : Type ℓ} → Result E ConfigToml → Result (ConfigError E) ConfigToml
read (err e) = err (malformed e)
read (ok raw) = ok raw

unfoldable pub from_toml_str {ℓ} :
    {E : Type ℓ} → (Text → Result E ConfigToml) → Text → Result (ConfigError E) Config
unfolding fold_profile
from_toml_str parser txt = do
  raw ← read (parser txt)
  refuse_if raw.nfqueue.fail_open fails_open
  ok (fold_profile raw)

-- The outcomes of reading the file.
pub data Source {ℓ} (E : Type ℓ) : Type ℓ where
  found : Text → Source E
  not_found : Source E
  unreadable : E → Source E

-- `Config::load_or_default`, with the value that it publishes for provenance.rs.
unfoldable pub load_or_default {ℓ} :
    {E : Type ℓ} → (Text → Result E ConfigToml) → Source E → Result (ConfigError E) (Config × Bool)
unfolding from_toml_str
load_or_default parser (found txt) = do
  cfg ← from_toml_str parser txt
  ok (cfg, cfg.provenance.enabled)
load_or_default parser not_found =
    let cfg = fold_profile default_toml in ok (cfg, cfg.provenance.enabled)
load_or_default parser (unreadable e) = err (unread e)
