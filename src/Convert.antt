-- ===== src/Convert.antt =====
-- crates/cfc-daemon/src/convert.rs: rules between the wire and the daemon. An error message is a
-- constructor, with what it prints.
pub mod Fields
pub mod Stable
use Prim.Native.Nat.{min}
use colony_firewall_control.Prelude.{
  ℕ, ◌+◌, ◌*◌, Bool, true, false, not, ◌&&◌, Option, none, some, [], ◌==◌, if◌then◌else◌, is_some,
  is_none, ltb, Text, codes, Result, ok, err, ◌>>=◌, ◌>>◌, refuse_if, ◌∷◌,
}
use colony_firewall_control.Connection.{
  Direction, outbound, inbound, Protocol, tcp, udp, icmp, other,
}
use colony_firewall_control.Rule.{
  Rule, RuleScope, IpNet, Action, allow, deny, reject, Duration, once, until_restart, always,
  seconds, timestamp_millis,
}
use colony_firewall_control.Rule.Scope.{any, specificity}
use colony_firewall_control.Rule.Guards.{
  ScopeError, reject_hostname_policy, reject_unmatchable_exe, reject_unmatchable_parent,
  reject_inbound_destination_scope, reject_unattributable_inbound_scope,
}
use colony_firewall_control.Rule.Digest.{DigestError, canonical_exe_sha256}
use colony_firewall_control.Verdict.{Verdict, VerdictSource, user_prompt, default_policy, timeout}
use colony_firewall_control.Wire
use colony_firewall_control.Wire.{
  action_allow, action_deny, action_reject, duration_once, duration_until_restart, duration_always,
  duration_seconds_value, protocol_tcp, protocol_udp, protocol_icmp, protocol_other,
  direction_outbound, direction_inbound,
}

-- What the conversions take from elsewhere: the texts of the ipnet and uuid crates, the bytes of a
-- text and the text that std makes of bytes, and the milliseconds of the Unix epoch.
pub record Codec : Type 0 where
  pub net_to_string : IpNet → Text
  pub net_from_str : Text → Option IpNet
  pub uuid_to_string : ℕ → Text
  pub uuid_parse_str : Text → Option ℕ
  pub as_path : Text → Text
  pub to_string_lossy : Text → Text
  pub epoch_ms : ℕ

pub data ConvertError : Type 0 where
  action_unknown : ℕ → ConvertError
  protocol_has_no_number : ConvertError
  protocol_unknown : ℕ → ConvertError
  direction_unknown : ℕ → ConvertError
  duration_unknown : ℕ → ConvertError
  duration_needs_seconds : ConvertError
  duration_not_positive : ConvertError
  duration_not_timed : ConvertError
  not_persistable : ConvertError
  bad_net : Text → ConvertError
  port_out_of_range : ℕ → ConvertError
  bad_digest : DigestError → ConvertError
  bad_scope : ScopeError → ConvertError
  unscoped : ConvertError
  bad_id : Text → ConvertError

abbrev pub Converted {ℓ} : Type ℓ → Type ℓ
Converted A = Result ConvertError A

-- `map_err`.
abbrev pub scope_check : Result ScopeError (Unit {0}) → Converted (Unit {0})
scope_check (ok _) = ok tt
scope_check (err e) = err (bad_scope e)

unfoldable pub action_to_pb : Action → ℕ
action_to_pb allow = action_allow
action_to_pb deny = action_deny
action_to_pb reject = action_reject

unfoldable pub action_from_pb : ℕ → Converted Action
action_from_pb a =
    if a == action_allow
    then ok allow
    else if a == action_deny
    then ok deny
    else if a == action_reject
    then ok reject
    else err (action_unknown a)

unfoldable pub protocol_to_pb : Protocol → ℕ
protocol_to_pb tcp = protocol_tcp
protocol_to_pb udp = protocol_udp
protocol_to_pb icmp = protocol_icmp
protocol_to_pb (other _) = protocol_other

unfoldable pub protocol_from_pb : ℕ → Converted Protocol
protocol_from_pb p =
    if p == protocol_tcp
    then ok tcp
    else if p == protocol_udp
    then ok udp
    else if p == protocol_icmp
    then ok icmp
    else if p == protocol_other
    then err protocol_has_no_number
    else err (protocol_unknown p)

unfoldable pub direction_to_pb : Direction → ℕ
direction_to_pb outbound = direction_outbound
direction_to_pb inbound = direction_inbound

unfoldable pub direction_from_pb : ℕ → Converted Direction
direction_from_pb d =
    if d == direction_outbound
    then ok outbound
    else if d == direction_inbound
    then ok inbound
    else err (direction_unknown d)

unfoldable pub duration_to_pb : Duration → ℕ
duration_to_pb once = duration_once
duration_to_pb until_restart = duration_until_restart
duration_to_pb always = duration_always
duration_to_pb (seconds _) = duration_seconds_value

unfoldable pub duration_from_pb : ℕ → Converted Duration
duration_from_pb d =
    if d == duration_once
    then ok once
    else if d == duration_until_restart
    then ok until_restart
    else if d == duration_always
    then ok always
    else if d == duration_seconds_value
    then err duration_needs_seconds
    else err (duration_unknown d)

unfoldable pub reject_unpersistable_duration : Duration → Converted (Unit {0})
reject_unpersistable_duration once = err not_persistable
reject_unpersistable_duration until_restart = ok tt
reject_unpersistable_duration always = ok tt
reject_unpersistable_duration (seconds _) = ok tt

-- `unwrap_or_default` on a text, and `empty_to_none`.
unfoldable pub or_empty : Option Text → Text
or_empty none = []
or_empty (some s) = s

unfoldable pub empty_to_none : Text → Option Text
empty_to_none [] = none
empty_to_none (letter ∷ rest) = some (letter ∷ rest)

-- A number with its flag, `unwrap_or(0)` and `is_some`.
abbrev pub or_zero : Option ℕ → ℕ
or_zero none = 0
or_zero (some n) = n

-- A field that is read only where its flag is set.
unfoldable pub flagged {ℓ} : {A : Type ℓ} → Bool → Converted A → Converted (Option A)
flagged false read = ok none
flagged true read = do value ← read; ok (some value)

-- `u16::try_from`.
unfoldable pub port_from_pb : ℕ → Converted ℕ
port_from_pb n = if ltb n 65536 then ok n else err (port_out_of_range n)

unfoldable pub digest_from_pb : Text → Converted (Option Text)
unfolding empty_to_none
digest_from_pb text = elim (empty_to_none text) [
  | none ↦ ok none
  | some hex ↦ elim (canonical_exe_sha256 hex) [ ok h ↦ ok (some h) | err e ↦ err (bad_digest e) ]
]

unfoldable pub reject_unscoped : RuleScope → Converted (Unit {0})
reject_unscoped s =
    refuse_if (specificity s == 0 && is_none s.src_net && is_none s.dst_net) unscoped

-- The `duration` of `rule_from_pb`.
unfoldable pub timed_from_pb : ℕ → ℕ → Converted Duration
unfolding duration_from_pb
timed_from_pb d n =
    if d == duration_seconds_value
    then (if n == 0 then err duration_not_positive else ok (seconds n))
    else if n == 0
    then duration_from_pb d
    else err duration_not_timed

unfoldable pub checks : RuleScope → Converted (Unit {0})
unfolding reject_unscoped
checks scope = do
  reject_unscoped scope
  scope_check (reject_unmatchable_exe scope)
  scope_check (reject_unmatchable_parent scope)
  scope_check (reject_inbound_destination_scope scope)
  scope_check (reject_unattributable_inbound_scope scope)

unfoldable pub scope_checked : RuleScope → Converted RuleScope
scope_checked scope = do scope_check (reject_hostname_policy scope); ok scope

module _ (c : Codec) where
  unfoldable pub net_to_pb : Option IpNet → Text
  net_to_pb none = []
  net_to_pb (some n) = c.net_to_string n

  unfoldable pub net_from_pb : Text → Converted (Option IpNet)
  unfolding empty_to_none
  net_from_pb text = elim (empty_to_none text) [
    | none ↦ ok none
    | some n ↦ elim (c.net_from_str n) [ none ↦ err (bad_net n) | some net ↦ ok (some net) ]
  ]

  unfoldable pub path_to_pb : Option Text → Text
  path_to_pb none = []
  path_to_pb (some p) = c.to_string_lossy p

  unfoldable pub path_from_pb : Text → Option Text
  unfolding empty_to_none
  path_from_pb text = elim (empty_to_none text) [ none ↦ none | some p ↦ some (c.as_path p) ]

  unfoldable pub scope_to_pb : RuleScope → Wire.RuleScope
  unfolding net_to_pb path_to_pb or_empty protocol_to_pb direction_to_pb
  scope_to_pb s = record {
    exe_path = path_to_pb s.exe_path;
    exe_sha256 = or_empty s.exe_sha256;
    parent_exe = path_to_pb s.parent_exe;
    uid = or_zero s.uid;
    has_uid = is_some s.uid;
    dst_host = or_empty s.dst_host;
    dst_net = net_to_pb s.dst_net;
    dst_port = or_zero s.dst_port;
    has_dst_port = is_some s.dst_port;
    protocol = elim s.protocol [ none ↦ 0 | some p ↦ protocol_to_pb p ];
    has_protocol = is_some s.protocol;
    direction = elim s.direction [ none ↦ 0 | some d ↦ direction_to_pb d ];
    has_direction = is_some s.direction;
    src_net = net_to_pb s.src_net;
    src_port = or_zero s.src_port;
    has_src_port = is_some s.src_port;
  }

  -- The scope, from the fields that can fail and the others.
  unfoldable pub scope_read :
      Wire.RuleScope
      → Option IpNet
      → Option Protocol
      → Option ℕ
      → Option Direction
      → Option IpNet
      → Option ℕ
      → Option Text
      → RuleScope
  unfolding path_from_pb empty_to_none
  scope_read s dst_net protocol dst_port direction src_net src_port exe_sha256 = record {
    direction = direction;
    exe_path = path_from_pb s.exe_path;
    exe_sha256 = exe_sha256;
    parent_exe = path_from_pb s.parent_exe;
    uid = if s.has_uid then some s.uid else none;
    dst_host = empty_to_none s.dst_host;
    dst_net = dst_net;
    dst_port = dst_port;
    src_net = src_net;
    src_port = src_port;
    protocol = protocol;
  }

  unfoldable pub scope_from_pb : Wire.RuleScope → Converted RuleScope
  unfolding scope_read scope_checked net_from_pb flagged protocol_from_pb port_from_pb
      direction_from_pb digest_from_pb path_from_pb empty_to_none
  scope_from_pb s = do
    dst_net ← net_from_pb s.dst_net
    protocol ← flagged s.has_protocol (protocol_from_pb s.protocol)
    dst_port ← flagged s.has_dst_port (port_from_pb s.dst_port)
    direction ← flagged s.has_direction (direction_from_pb s.direction)
    src_net ← net_from_pb s.src_net
    src_port ← flagged s.has_src_port (port_from_pb s.src_port)
    exe_sha256 ← digest_from_pb s.exe_sha256
    scope_checked (scope_read s dst_net protocol dst_port direction src_net src_port exe_sha256)

  unfoldable pub rule_to_pb : Rule → Wire.RuleInfo
  unfolding action_to_pb duration_to_pb scope_to_pb
  rule_to_pb r = record {
    id = c.uuid_to_string r.id;
    name = r.name;
    enabled = r.enabled;
    action = action_to_pb r.action;
    duration = duration_to_pb r.duration;
    duration_seconds = elim r.duration [ seconds n ↦ n | _ ↦ 0 ];
    scope = some (scope_to_pb r.scope);
    created_at_unix_ms = some (timestamp_millis r.created_at);
    hit_count = r.hit_count;
  }

  -- `fresh` is a new identifier.
  unfoldable pub id_from_pb : ℕ → Text → Converted ℕ
  id_from_pb fresh [] = ok fresh
  id_from_pb fresh (a ∷ text) = elim (c.uuid_parse_str (a ∷ text)) [
    | none ↦ err (bad_id (a ∷ text))
    | some id ↦ ok id
  ]

  unfoldable pub created_from_pb : ℕ → Wire.UnixMillis → ℕ
  created_from_pb now none = now
  created_from_pb now (some ms) = if ms == c.epoch_ms then now else min (ms * 1000000) now

  unfoldable pub scope_of : Option Wire.RuleScope → Converted RuleScope
  unfolding scope_from_pb
  scope_of none = ok any
  scope_of (some s) = scope_from_pb s

  unfoldable pub rule_from_pb : ℕ → ℕ → Wire.RuleInfo → Converted Rule
  unfolding id_from_pb scope_of checks created_from_pb timed_from_pb action_from_pb
  rule_from_pb fresh now r = do
    id ← id_from_pb fresh r.id
    scope ← scope_of r.scope
    checks scope
    action ← action_from_pb r.action
    duration ← timed_from_pb r.duration r.duration_seconds
    ok (record {
      id = id;
      name = r.name;
      enabled = r.enabled;
      action = action;
      duration = duration;
      scope = scope;
      created_at = created_from_pb now r.created_at_unix_ms;
      hit_count = r.hit_count;
    })
