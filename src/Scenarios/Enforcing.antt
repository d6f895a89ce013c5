-- ===== src/Scenarios/Enforcing.antt =====
-- The kernel's half of the firewall on a machine that refuses curl.
use mathlib.Core.Option.{get_or}
use colony_firewall_control.Prelude.{
  ℕ, ◌≡◌, ◌≢◌, ◌↔◌, ◌⊎◌, refl, true, false, none, some, [], ◌∷◌, ◌&&◌, ◌==◌, ltb, if◌then◌else◌,
  any, length, retain, Text, codes, text_eq, arith, Bool, is_some_and,
}
use colony_firewall_control.Prelude.Maps.{get, put}
use colony_firewall_control.Process.{exe_is_known, unknown}
use colony_firewall_control.Rule.{deny, is_expired, lapsed}
use colony_firewall_control.Rule.Scope.{
  undecidable_for, matches_process, exe_differs, sha256_differs, uid_differs, lacks_exe, lacks,
  exe_fails, sha256_fails, uid_fails, names_program, constrains_destination, specificity,
}
use colony_firewall_control.Rule.Order.{sort_deterministic, sort, insert, precedes}
use colony_firewall_control.Rule.Lookup.{is_live}
use colony_firewall_control.Verdict.{Verdict}
use colony_firewall_control.Engine.{
  Engine, new, denies_process_wide, process_wide_action, wide, is_generic_allow, is_program_refusal,
  sorted, compilable_exe_paths, paths,
}
use colony_firewall_control.Kernel.{Kernel, ExecEvent, deny_value, hash_exe_path, hash_from}
use colony_firewall_control.Kernel.Connect.{Call, connect_verdict}
use colony_firewall_control.Kernel.Connect.Marked.{MayMark, connect_verdict-so_mark}
use colony_firewall_control.Enforce.{
  VerdictSink, World, synthetic, compile_rules, wanted, resync, write_verdicts, entries, write_all,
  drop_stale, map_eq,
}
use colony_firewall_control.Enforce.Entries.{Denied}
use colony_firewall_control.Enforce.Compiled.{
  compile_rules-Denied, compile_rules_refused, IsFaithful,
}
use colony_firewall_control.Enforce.Resynced.{resync-verdict, resync-recycled}
use colony_firewall_control.Scenarios.Lookups.{curl, deny_curl, partly, rule_of, any_scope}
use colony_firewall_control.Scenarios.Engines.{defaults, guarded}

-- Armed with the mark 77 until the instant 100, and a grant for the process 7.
abbrev armed : Kernel
armed = record {
  verdicts = [];
  exe_rules = [];
  exe_rules_on = 0;
  fast_allow = (7, 1) ∷ [];
  fast_allow_until = 100;
  fast_allow_mark = 77;
  procs = [];
  sock_pids = [];
  stats = [];
  deny_events = [];
  allow_events = [];
  exec_events = [];
  exit_events = [];
}

abbrev call : Call
call = record {
  tgid = 7;
  cookie = 5;
  protocol = 6;
  user_port = 47873;
  user_ip4 = 16777343;
  user_ip6 = [];
  so_mark = 0;
  readable = true;
  settable = true;
  boot_ns = 50;
  room = true;
}

proceeds : (connect_verdict call 4 true armed).proceeds ≡ true
unfolding connect_verdict get
proceeds = refl

connect_verdict-so_mark_example :
    let after = (connect_verdict call 4 true armed).so_mark in
    ((after ≡ 77) ↔ MayMark call armed)
    × ((after ≡ 77) ⊎ (after ≡ 0) ⊎ ((after ≡ 0) × (◌≢◌ {A = ℕ} 0 0) × (◌≢◌ {A = ℕ} 0 77)))
connect_verdict-so_mark_example =
    connect_verdict-so_mark call 4 armed (omega arith) refl refl proceeds

-- A sink that has compiled nothing yet.
abbrev fresh : VerdictSink
fresh = record {
  kernel = armed;
  engine = guarded;
  exe_rules = true;
  exe_rules_on = true;
  last_compiled = none;
}

compile_rules-Denied_example :
    let s' = compile_rules (λ _. true) 0 fresh in
    let k = hash_exe_path curl in
    ((get k s'.kernel.exe_rules ≡ some deny_value)
      ↔ Denied guarded 0 (get_or (compilable_exe_paths guarded 0) []) k)
    × ((get k s'.kernel.exe_rules ≡ none) ⊎ (get k s'.kernel.exe_rules ≡ some deny_value))
    × (s'.kernel.exe_rules_on ≡ (if ltb 0 (length (wanted guarded 0)) then 1 else 0))
    × IsFaithful s'
compile_rules-Denied_example =
    compile_rules-Denied (λ _. true) 0 fresh (hash_exe_path curl) (λ _. refl) (refl, refl) tt

-- The process 7 executes curl.
abbrev starts : ExecEvent
starts = record {
  pid = 7;
  ppid = 1;
  uid = 1000;
  gid = 1000;
  comm = codes "curl";
  filename = curl;
  filename_len = 13;
}

-- While the orphans are judged, the process 7, which ran curl unseen, is the same throughout, and
-- the number 9 goes to a new process that is refused.
abbrev world : World
world = record {
  live = [];
  view = λ _. some (partly, some 3);
  started = λ _. some 3;
  orphan_view = λ pid. if pid == 7 then some (partly, some 3) else none;
  meanwhile = (9, true) ∷ [];
  orphan_started = λ pid. if pid == 7 then some 3 else some 8;
}

abbrev resynced : VerdictSink
resynced = resync (λ _. true) (λ _. true) 0 world fresh

resync-verdict_example : get 7 resynced.kernel.verdicts ≡ (
    if denies_process_wide guarded partly 0
    then (if any (λ l. l == 7) [] && true then some deny_value else none)
    else none)
unfolding get any
resync-verdict_example =
    resync-verdict (λ _. true) (λ _. true) 0 world fresh 7 3 partly (refl, refl, refl, refl, refl)

resync-recycled_example :
    get 9 resynced.kernel.verdicts ≡ get 9 (write_verdicts (λ _. true) ((9, true) ∷ []) [])
unfolding any
resync-recycled_example =
    resync-recycled (λ _. true) (λ _. true) 0 world fresh 9 8 refl (refl, refl)

-- The table refuses the entry for wget.
abbrev wget : Text
wget = codes "/usr/bin/wget"

abbrev stricter : Engine
stricter =
    new (deny_curl ∷ rule_of 4 deny (record any_scope { exe_path = some wget }) ∷ []) defaults

abbrev idle : VerdictSink
idle = record fresh { engine = new [] defaults; last_compiled = some [] }

abbrev takes_curl : ℕ → Bool
takes_curl k = k == 2042273892392317701

idle_memo : is_some_and idle.last_compiled (λ m. map_eq m (wanted idle.engine 0)) ≡ true
unfolding map_eq wanted entries compilable_exe_paths new sorted sort sort_deterministic retain any
    paths
idle_memo = refl

both : wanted stricter 0 ≡ (10567962255407837644, 2) ∷ (2042273892392317701, 2) ∷ []
unfolding wanted entries hash_exe_path hash_from compilable_exe_paths any paths put
    denies_process_wide process_wide_action retain new insert is_live is_expired undecidable_for
    exe_differs exe_is_known text_eq sha256_differs uid_differs lacks_exe lacks matches_process
    exe_fails sha256_fails uid_fails is_generic_allow is_program_refusal sorted wide sort
    sort_deterministic constrains_destination names_program lapsed synthetic unknown precedes
    specificity
both = refl

both_moved : is_some_and idle.last_compiled (λ m. map_eq m (wanted stricter 0)) ≡ false
unfolding map_eq
both_moved = rw both refl

one_short :
    (write_all takes_curl (wanted stricter 0) (drop_stale (wanted stricter 0) []) 0).1
    ≢ length (wanted stricter 0)
unfolding write_all drop_stale
one_short = rw both (omega arith)

curl_wanted : get 2042273892392317701 (wanted stricter 0) ≡ some 2
unfolding get
curl_wanted = rw both refl

-- Back on no rules at all, curl is refused.
compile_rules_refused_example :
    let failed = compile_rules takes_curl 0 (record idle { engine = stricter }) in
    let back = compile_rules (λ _. true) 0 (record failed { engine = new [] defaults }) in
    (back.kernel ≡ failed.kernel) × (get 2042273892392317701 back.kernel.exe_rules ≡ some 2)
compile_rules_refused_example =
    compile_rules_refused takes_curl (λ _. true) 0 idle stricter 2042273892392317701 2 refl
      idle_memo both_moved one_short refl curl_wanted
