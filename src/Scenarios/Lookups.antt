-- ===== src/Scenarios/Lookups.antt =====
-- The rules of a small machine, and the flows of one program on it.
use colony_firewall_control.Prelude.{
  ℕ, ◌≡◌, refl, true, false, none, some, [], ◌∷◌, inl, inr, retain, Text, codes, text_eq,
}
use colony_firewall_control.Connection.{Connection, outbound, tcp, v4}
use colony_firewall_control.Process.{Process, exe_is_known}
use colony_firewall_control.Rule.{
  Rule, RuleSet, RuleScope, Action, allow, deny, reject, always, is_expired, lapsed,
}
use colony_firewall_control.Rule.Scope.{
  undecidable_for, matches_process, matches_known_connection, exe_differs, sha256_differs,
  uid_differs, lacks_exe, lacks, exe_fails, sha256_fails, uid_fails, names_program,
}
use colony_firewall_control.Rule.Scope.Identity.{Learns}
use colony_firewall_control.Rule.Lookup.{
  rule, is_allow, is_live, lookup, walk, visit, conclude, settle, remember,
}
use colony_firewall_control.Rule.Lookup.Standing.{standing, lookup_at}
use colony_firewall_control.Rule.Lookup.Contract.{lookup-contract, contract, applying}
use colony_firewall_control.Rule.Lookup.Identity.{lookup-settled, lookup-Learns, standing-Settles}

abbrev pub curl : Text
curl = codes "/usr/bin/curl"

abbrev pub any_scope : RuleScope
any_scope = record {
  direction = none;
  exe_path = none;
  exe_sha256 = none;
  parent_exe = none;
  uid = none;
  dst_host = none;
  dst_net = none;
  dst_port = none;
  src_net = none;
  src_port = none;
  protocol = none;
}

abbrev pub rule_of : ℕ → Action → RuleScope → Rule
rule_of id action scope = record {
  id = id;
  name = codes "test";
  enabled = true;
  action = action;
  duration = always;
  scope = scope;
  created_at = 0;
  hit_count = 0;
}

abbrev pub deny_curl : Rule
deny_curl = rule_of 1 deny (record any_scope { exe_path = some curl })

abbrev pub refuse_user : Rule
refuse_user = rule_of 2 reject (record any_scope { uid = some 1000 })

abbrev pub allow_web : Rule
allow_web = rule_of 3 allow (record any_scope { dst_port = some 443 })

abbrev pub machine : RuleSet
machine = record { rules = refuse_user ∷ allow_web ∷ deny_curl ∷ [] }

-- curl, before and after its owner is known.
abbrev pub partly : Process
partly = record {
  pid = 7;
  ppid = none;
  uid = none;
  gid = none;
  exe = curl;
  cmdline = [];
  cwd = none;
  sha256 = none;
  started_at = none;
  package_name = none;
  provenance = colony_firewall_control.Process.unpackaged;
}

abbrev pub owned : Process
owned = record partly { uid = some 1000 }

abbrev pub flow : Connection
flow = record {
  id = 1;
  timestamp = 0;
  protocol = tcp;
  direction = outbound;
  src_ip = v4 10 0 0 2;
  src_port = 40000;
  dst_ip = v4 93 184 216 34;
  dst_port = 443;
  dst_host = none;
  dst_host_verified = false;
  pid = none;
  uid = none;
}

partly-owned : Learns partly owned
partly-owned = record { exe = inr refl; sha256 = inl refl; uid = inl refl }

-- The undecided refusal of the user does not matter: curl is refused either way.
pub answers_deny : lookup machine flow partly 0 ≡ rule deny_curl
unfolding lookup retain walk visit conclude settle is_live remember names_program is_expired lapsed
    matches_known_connection undecidable_for matches_process exe_differs sha256_differs uid_differs
    lacks_exe lacks exe_fails sha256_fails uid_fails exe_is_known text_eq
answers_deny = refl

lookup-Learns_example :
    (v : Rule) × (lookup machine flow owned 0 ≡ rule v) × (is_allow v ≡ is_allow deny_curl)
lookup-Learns_example = lookup-Learns machine flow partly 0 answers_deny owned partly-owned

lookup-settled_example :
    (v : Rule) × (lookup_at (standing flow owned) (retain (is_live 0) machine.rules) ≡ rule v)
    × (is_allow v ≡ is_allow deny_curl)
lookup-settled_example =
    lookup-settled machine flow partly 0 answers_deny (standing flow owned)
      (standing-Settles flow partly owned partly-owned)

lookup-contract_example :
    lookup machine flow owned 0
    ≡ contract (applying (standing flow owned) (retain (is_live 0) machine.rules))
unfolding lookup retain walk visit conclude settle is_live remember names_program is_expired lapsed
    matches_known_connection undecidable_for matches_process exe_differs sha256_differs uid_differs
    lacks_exe lacks exe_fails sha256_fails uid_fails exe_is_known text_eq standing
lookup-contract_example = lookup-contract machine flow owned 0 (refl, (refl, (refl, tt)))

user_scope_undecidable : undecidable_for refuse_user.scope partly ≡ true
unfolding lookup retain walk visit conclude settle is_live remember names_program is_expired lapsed
    matches_known_connection undecidable_for matches_process exe_differs sha256_differs uid_differs
    lacks_exe lacks exe_fails sha256_fails uid_fails exe_is_known text_eq
user_scope_undecidable = refl
