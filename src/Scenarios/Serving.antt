-- ===== src/Scenarios/Serving.antt =====
-- A daemon starts, a client writes a rule, a flow is judged, and the maintenance task runs.
use mathlib.Core.Path.{subst}
use colony_firewall_control.Prelude.{
  ◌||◌, ℕ, ◌≡◌, ◌⊎◌, refl, true, false, some, [], ◌∷◌, find, any, text_eq, is_some, Text, Result,
  codes, ok, err, none,
}
use colony_firewall_control.Prelude.Maps.{put}
use colony_firewall_control.Rule.Scope.{specificity}
use colony_firewall_control.Rule.Guards.{
  reject_hostname_policy, reject_unmatchable_exe, reject_unmatchable_parent,
  reject_inbound_destination_scope, reject_unattributable_inbound_scope, reject_exe,
}
use colony_firewall_control.Engine.{new, upsert_rule, evaluate, preserve_server_owned, snapshot}
use colony_firewall_control.Convert.{
  rule_from_pb, reject_unscoped, digest_from_pb, checks, reject_unpersistable_duration,
}
use colony_firewall_control.Storage
use colony_firewall_control.Wire
use colony_firewall_control.Connection.{other}
use colony_firewall_control.Storage.{
  RuleStore, readable, load_rule, load, merge_hit_counts, heal_legacy_protocol, quarantine_reason,
}
use colony_firewall_control.Storage.Loaded.{Healed, load_rule-Healed}
use colony_firewall_control.Rule.{Rule, allow}
use colony_firewall_control.Rule.Scope.{names_program}
use colony_firewall_control.Service.Permitted.{is_root, is_official}
use colony_firewall_control.Service.{
  call_upsert_rule, authorize, standing, standing_at, gate, opens_for_every_program,
  confirm_generic_allow, Outside, Peer, State, upsert_rule_checked,
}
use colony_firewall_control.Service.Accepted.{ResolvesWell}
use colony_firewall_control.Service.Agreement.{bare}
use colony_firewall_control.Service.Runs.{FileSystem, here, next, wrote, judged, ticked}
use colony_firewall_control.Service.Restart.{start-Reach}
use colony_firewall_control.Service.{start, tick}
use colony_firewall_control.Storage.Reloaded.{unless, is_dropped}
use colony_firewall_control.Storage.{open_store, load_all}
use colony_firewall_control.Engine.{sorted}
use colony_firewall_control.Engine.Ids.{rule_at}
use colony_firewall_control.Engine.Invariant.{IsWellFormed}
use colony_firewall_control.Rule.Order.{sort_deterministic, sort}
use colony_firewall_control.Service.Answers.Permitted.{Written, upserted, Writes-permitted}
use colony_firewall_control.Scenarios.Lookups.{curl, partly, flow}
use colony_firewall_control.Scenarios.Engines.{defaults}
use colony_firewall_control.Scenarios.Converting.{small_codec, sent, sent_scope, received}

abbrev files : FileSystem
files now path = ok curl

abbrev outside : Outside
outside = record {
  codec = small_codec;
  fresh = 5;
  now = 7000001;
  resolve_policy = files 7000001;
  works = true;
  generic_allow = codes "generic";
}

abbrev root : Peer
root = record {
  uid = 0;
  own_uid = 0;
  require_group = true;
  in_group = false;
  official = err [];
  polkit = λ action. err [];
}

same_target : (target : Text) → ◌≡◌ {A = Result Text Text} (ok curl) (ok target) → curl ≡ target
same_target target h = cc

curl_named : reject_exe (some curl) ≡ ok tt
unfolding reject_exe text_eq
curl_named = refl

files-ResolvesWell : (now : ℕ) → ResolvesWell (files now)
files-ResolvesWell now path target h =
    subst (λ t. reject_exe (some t) ≡ ok tt) (same_target target h) curl_named

-- A daemon that starts on an empty table.
abbrev no_rules : RuleStore
no_rules = record { rows = []; skipped = 0 }

abbrev empty : State
empty = start 7000000 defaults no_rules

abbrev written : State
written = record {
  engine = upsert_rule received empty.engine;
  store = record { rows = (5, readable received) ∷ []; skipped = 0 };
}

abbrev evaluated : State
evaluated = record written { engine = (evaluate written.engine flow partly 0).0 }

abbrev settled : State
settled = tick true 7000002 evaluated

writes : upsert_rule_checked outside root (some sent) empty ≡ ok written
unfolding upsert_rule_checked rule_from_pb reject_unscoped reject_hostname_policy
    reject_unmatchable_exe reject_exe reject_unmatchable_parent reject_inbound_destination_scope
    reject_unattributable_inbound_scope specificity text_eq digest_from_pb
    reject_unpersistable_duration any snapshot new start open_store Storage.purge_transient
    Storage.purge_expired Storage.purge_where Storage.snapshot load_all sorted sort_deterministic
    sort Storage.upsert preserve_server_owned find put
writes = refl

-- A Deny with a protocol that an older build left.
abbrev left_over : Rule
left_over = record received { scope = record received.scope { protocol = some (other 0) } }

abbrev mended : Rule
mended = record received { scope = record received.scope { protocol = none } }

mends : load_rule left_over ≡ some mended
unfolding load_rule heal_legacy_protocol quarantine_reason checks reject_unscoped
    reject_hostname_policy reject_unmatchable_exe reject_exe reject_unmatchable_parent
    reject_inbound_destination_scope reject_unattributable_inbound_scope specificity text_eq
mends = refl

load_rule-Healed_example :
    Healed left_over mended
    × ((is_some mended.scope.dst_host ≡ true) ⊎ (checks mended.scope ≡ ok tt))
load_rule-Healed_example = load_rule-Healed left_over mended mends

start-Reach_example :
    IsWellFormed settled.engine
    × (bare (rule_at 5 (start 7000003 defaults settled.store).engine.rules)
        ≡ unless (is_dropped 7000003) (bare (rule_at 5 settled.engine.rules)))
start-Reach_example =
    start-Reach files 7000000 7000003 defaults defaults no_rules 5 files-ResolvesWell tt (
      next (next (next here (wrote outside root sent writes)) (judged flow partly 0))
        (ticked true 7000002))

-- A member of the group at the installed app, whom polkit lets write an Allow for every program.
abbrev member : Peer
member = record root {
  uid = 1000;
  in_group = true;
  official = ok (codes "/usr/bin/app");
  polkit = λ action. ok tt;
}

abbrev generic_sent : Wire.RuleInfo
generic_sent = record sent {
  action = Wire.action_allow;
  scope = some (record sent_scope { exe_path = [] });
}

abbrev generic_received : Rule
generic_received = record received {
  action = allow;
  scope = record received.scope { exe_path = none };
}

abbrev opened : State
opened = record {
  engine = upsert_rule generic_received empty.engine;
  store = record { rows = (5, readable generic_received) ∷ []; skipped = 0 };
}

member_writes : call_upsert_rule outside member (some generic_sent) empty ≡ ok opened
unfolding call_upsert_rule authorize standing standing_at gate opens_for_every_program
    confirm_generic_allow upsert_rule_checked rule_from_pb reject_unscoped reject_hostname_policy
    reject_unmatchable_exe reject_exe reject_unmatchable_parent reject_inbound_destination_scope
    reject_unattributable_inbound_scope specificity text_eq digest_from_pb names_program
    reject_unpersistable_duration any snapshot new start open_store Storage.purge_transient
    Storage.purge_expired Storage.purge_where Storage.snapshot load_all sorted sort_deterministic
    sort Storage.upsert preserve_server_owned find put
member_writes = refl

Writes-permitted_example :
    ((is_root member || is_official member) ≡ true) × Written outside member empty opened
Writes-permitted_example = Writes-permitted (upserted generic_sent member_writes)
