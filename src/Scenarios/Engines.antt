-- ===== src/Scenarios/Engines.antt =====
-- An engine that starts on three rules and goes through a working day.
use colony_firewall_control.Prelude.{◌≡◌, refl, true, some, [], ◌∷◌, text_eq, retain, arith}
use colony_firewall_control.Process.{exe_is_known}
use colony_firewall_control.Rule.{allow, deny, action_eq, is_expired, lapsed}
use colony_firewall_control.Rule.Scope.{
  undecidable_for, matches_process, exe_differs, sha256_differs, uid_differs, lacks_exe, lacks,
  exe_fails, sha256_fails, uid_fails, names_program, constrains_destination,
}
use colony_firewall_control.Rule.Order.{sort_deterministic, sort, insert}
use colony_firewall_control.Rule.Lookup.{is_live}
use colony_firewall_control.Verdict.{Verdict}
use colony_firewall_control.Config.{DefaultPolicy, policy, balanced}
use colony_firewall_control.Engine.{
  Engine, resolved, new, evaluate, peek, remove_rule, drain_hits, process_wide_action,
  denies_process_wide, wide, is_generic_allow, is_program_refusal, sorted,
}
use colony_firewall_control.Engine.Ids.{Distinct}
use colony_firewall_control.Engine.Invariant.{
  IsWellFormed, here, next, evaluated, removed, drained, new-Reach-IsWellFormed,
}
use colony_firewall_control.Engine.Wide.{process_wide_action-peek}
use colony_firewall_control.Scenarios.Lookups.{machine, deny_curl, partly, flow}

abbrev pub defaults : DefaultPolicy
defaults = policy balanced

abbrev engine : Engine
engine = new machine.rules defaults

machine-Distinct : Distinct machine.rules
machine-Distinct = ((omega arith, (omega arith, tt)), ((omega arith, tt), (tt, tt)))

abbrev evening : Engine
evening = (drain_hits (remove_rule 3 (evaluate engine flow partly 0).0)).0

new-Reach-IsWellFormed_example : IsWellFormed evening
new-Reach-IsWellFormed_example =
    new-Reach-IsWellFormed machine.rules defaults machine-Distinct
      (next (next (next here (evaluated flow partly 0)) (removed 3)) drained)

engine-IsWellFormed : IsWellFormed engine
engine-IsWellFormed = new-Reach-IsWellFormed machine.rules defaults machine-Distinct here

-- An engine whose one rule refuses curl.
abbrev pub guarded : Engine
guarded = new (deny_curl ∷ []) defaults

refuses_curl : process_wide_action guarded partly 0 ≡ some deny
unfolding process_wide_action retain new insert is_live is_expired undecidable_for exe_differs
    exe_is_known text_eq sha256_differs uid_differs lacks_exe lacks matches_process exe_fails
    sha256_fails uid_fails is_generic_allow is_program_refusal sorted wide sort sort_deterministic
    constrains_destination names_program lapsed
refuses_curl = refl

process_wide_action-peek_example :
    (v : Verdict) × (peek guarded flow partly 0 ≡ resolved v)
    × (action_eq v.action allow ≡ action_eq deny allow)
process_wide_action-peek_example =
    process_wide_action-peek guarded partly 0 deny flow refuses_curl refl

kernel_refuses_curl : denies_process_wide guarded partly 0 ≡ true
unfolding denies_process_wide
kernel_refuses_curl = rw refuses_curl refl
