-- ===== src/Scenarios/Converting.antt =====
-- A rule that a client sends, and that is sent back to it.
use colony_firewall_control.Prelude.{
  ℕ, ◌+◌, ◌*◌, ◌/◌, ◌<◌, ◌^◌, ◌≡◌, refl, true, false, Option, none, some, [], ◌∷◌, ltb,
  if◌then◌else◌, Text, codes, text_eq, text_eq_refl, ok, Bool-cases, inl, inr, arith,
}
use colony_firewall_control.Connection.{v4, v6, tcp}
use colony_firewall_control.Rule.{Rule, IpNet, deny, seconds, is_expired, timestamp_millis}
use colony_firewall_control.Rule.Scope.{specificity}
use colony_firewall_control.Rule.Guards.{
  reject_hostname_policy, reject_unmatchable_exe, reject_unmatchable_parent,
  reject_inbound_destination_scope, reject_unattributable_inbound_scope, reject_exe,
}
use colony_firewall_control.Wire
use colony_firewall_control.Convert.{
  Codec, rule_to_pb, rule_from_pb, reject_unscoped, digest_from_pb,
}
use colony_firewall_control.Convert.Fields.{IsLawful}
use colony_firewall_control.Convert.Stable.{rule_from_pb-rule_to_pb, rule_from_pb-is_expired}
use colony_firewall_control.Scenarios.Lookups.{curl}

abbrev pub office : Text
office = codes "10.0.0.0/8"

abbrev pub office_net : IpNet
office_net = record {
  prefix_len = 8;
  contains = λ ip. elim ip [ v4 a b c d ↦ true | v6 octets ↦ false ];
}

abbrev pub parse_office : Text → Option IpNet
parse_office text = if text_eq text office then some office_net else none

abbrev pub parse_one : Text → Option ℕ
parse_one [] = none
parse_one (n ∷ rest) = if ltb n (2 ^ 128) then some n else none

-- Crates that know one network, and write an identifier as one sign.
abbrev pub small_codec : Codec
small_codec = record {
  net_to_string = λ _. office;
  net_from_str = parse_office;
  uuid_to_string = λ id. id ∷ [];
  uuid_parse_str = parse_one;
  as_path = λ text. text;
  to_string_lossy = λ path. path;
  epoch_ms = 8334601228800000;
}

office_again : (text : Text) (n : IpNet) → parse_office text ≡ some n → parse_office office ≡ some n
office_again text n h = rw (text_eq_refl office) (elim (Bool-cases (text_eq text office)) [
  | inl same ↦ ground arith
  | inr other ↦ absurd (ground arith)
])

bounded : (text : Text) (id : ℕ) → parse_one text ≡ some id → id < 2 ^ 128
bounded [] id h = cc
bounded (n ∷ rest) id h = ground arith

small_codec-IsLawful : IsLawful small_codec
small_codec-IsLawful = record {
  net_again = λ text n h. (office_again text n h, λ e. cc);
  uuid_again = λ id h. (ground arith, λ e. cc);
  uuid_bound = bounded;
  path_again = λ text. refl;
}

-- Block curl on port 443 of the office for ninety seconds.
abbrev pub sent_scope : Wire.RuleScope
sent_scope = record {
  exe_path = curl;
  exe_sha256 = [];
  parent_exe = [];
  uid = 0;
  has_uid = true;
  dst_host = [];
  dst_net = office;
  dst_port = 443;
  has_dst_port = true;
  protocol = 1;
  has_protocol = true;
  direction = 0;
  has_direction = false;
  src_net = [];
  src_port = 0;
  has_src_port = false;
}

abbrev pub sent : Wire.RuleInfo
sent = record {
  id = [];
  name = codes "curl";
  enabled = true;
  action = 2;
  duration = 4;
  scope = some sent_scope;
  created_at_unix_ms = some 999999999999999999;
  hit_count = 3;
  duration_seconds = 90;
}

abbrev pub received : Rule
received = record {
  id = 5;
  name = codes "curl";
  enabled = true;
  action = deny;
  duration = seconds 90;
  scope = record {
    direction = none;
    exe_path = some curl;
    exe_sha256 = none;
    parent_exe = none;
    uid = some 0;
    dst_host = none;
    dst_net = some office_net;
    dst_port = some 443;
    src_net = none;
    src_port = none;
    protocol = some tcp;
  };
  created_at = 7000001;
  hit_count = 3;
}

accepts : rule_from_pb small_codec 5 7000001 sent ≡ ok received
unfolding rule_from_pb reject_unscoped reject_hostname_policy reject_unmatchable_exe reject_exe
    reject_unmatchable_parent reject_inbound_destination_scope reject_unattributable_inbound_scope
    specificity text_eq digest_from_pb
accepts = refl

rule_from_pb-rule_to_pb_example :
    rule_from_pb small_codec 6 8000000 (rule_to_pb small_codec received)
    ≡ ok (record received { created_at = 7000001 / 1000000 * 1000000 })
rule_from_pb-rule_to_pb_example =
    rule_from_pb-rule_to_pb small_codec 5 6 7000001 8000000 sent received small_codec-IsLawful
      (omega arith) (omega arith) (omega arith) accepts

rule_from_pb-is_expired_example : is_expired received (timestamp_millis 7000001 + 90 * 1000) ≡ true
rule_from_pb-is_expired_example =
    rule_from_pb-is_expired small_codec 5 7000001 90 sent received accepts refl
