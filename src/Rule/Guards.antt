-- ===== src/Rule/Guards.antt =====
-- crates/cfc-core/src/rule.rs: the scopes that may not be written. A message is its constructor,
-- with what it prints.
use colony_firewall_control.Prelude.{
  ℕ, Bool, false, not, Option, none, some, [], ◌∷◌, ltb, ◌==◌, if◌then◌else◌, is_some, is_none,
  Text, text_eq, length, Result, ok, err,
}
use colony_firewall_control.Process.{unknown_exe}
use colony_firewall_control.Rule.{RuleScope}
use colony_firewall_control.Rule.Scope.{is_inbound}

-- The predicate that an inbound scope may not carry.
pub data Offender : Type 0 where
  dst_net dst_host executable_path executable_hash user_id : Offender

pub data ScopeError : Type 0 where
  hostname_policy : ScopeError
  unmatchable_parent : ScopeError
  exe_too_long : ℕ → ScopeError
  exe_is_placeholder : ScopeError
  exe_not_absolute : Text → ScopeError
  inbound_destination : Offender → ScopeError
  inbound_unattributable : Offender → ScopeError

abbrev pub Check : Type 0
Check = Result ScopeError (Unit {0})

abbrev pub max_exe_path_len : ℕ
max_exe_path_len = 4096

-- `Path::is_absolute` on Unix.
abbrev pub is_absolute : Text → Bool
is_absolute [] = false
is_absolute (c ∷ _) = c == b'/'

unfoldable pub reject_hostname_policy : RuleScope → Check
reject_hostname_policy s = if is_some s.dst_host then err hostname_policy else ok tt

unfoldable pub reject_unmatchable_parent : RuleScope → Check
reject_unmatchable_parent s = if is_none s.parent_exe then ok tt else err unmatchable_parent

-- The guards on a path that is there.
unfoldable pub reject_exe : Option Text → Check
reject_exe none = ok tt
reject_exe (some exe) =
    if ltb max_exe_path_len (length exe)
    then err (exe_too_long (length exe))
    else if text_eq exe unknown_exe
    then err exe_is_placeholder
    else if not (is_absolute exe)
    then err (exe_not_absolute exe)
    else ok tt

unfoldable pub reject_unmatchable_exe : RuleScope → Check
unfolding reject_exe
reject_unmatchable_exe s = reject_exe s.exe_path

unfoldable pub reject_inbound_destination_scope : RuleScope → Check
reject_inbound_destination_scope s =
    if not (is_inbound s.direction)
    then ok tt
    else if is_some s.dst_net
    then err (inbound_destination dst_net)
    else if is_some s.dst_host
    then err (inbound_destination dst_host)
    else ok tt

unfoldable pub reject_unattributable_inbound_scope : RuleScope → Check
reject_unattributable_inbound_scope s =
    if not (is_inbound s.direction)
    then ok tt
    else if is_some s.exe_path
    then err (inbound_unattributable executable_path)
    else if is_some s.exe_sha256
    then err (inbound_unattributable executable_hash)
    else if is_some s.uid
    then err (inbound_unattributable user_id)
    else ok tt
