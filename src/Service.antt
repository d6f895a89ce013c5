-- ===== src/Service.antt =====
-- crates/cfc-daemon/src/ipc/mod.rs: who may change the firewall, and the calls that change a rule in
-- the store and in the engine. A call that fails leaves both as they are.
pub mod Accepted
pub mod Agreement
pub mod Answers
pub mod Permitted
pub mod Restart
pub mod Runs
use colony_firewall_control.Prelude.{
  ℕ, ◌*◌, Bool, true, false, not, ◌&&◌, ◌||◌, Option, none, some, List, [], ◌∷◌, ltb, leb, ◌==◌,
  if◌then◌else◌, is_some, any, Text, text_eq, Result, ok, err, ◌>>=◌, ◌>>◌, refuse_if,
}
use colony_firewall_control.Rule.{
  Rule, RuleScope, Action, allow, action_eq, Duration, once, until_restart, always, seconds,
  is_expired,
}
use colony_firewall_control.Rule.Scope.{names_program}
use colony_firewall_control.Engine.{
  Engine, same_id, snapshot, preserve_server_owned, upsert_rule, remove_rule, new, drain_hits,
  notify_rules_expired,
}
use colony_firewall_control.Stats.{TablePresence, present, absent, unknown}
use colony_firewall_control.Wire
use colony_firewall_control.Convert.{
  Codec, ConvertError, rule_from_pb, reject_unpersistable_duration,
}
use colony_firewall_control.Storage
use colony_firewall_control.Storage.{
  RuleStore, StoreError, open_store, merge_hit_counts, purge_expired,
}
use colony_firewall_control.Config.{DefaultPolicy}

pub data Gate : Type 0 where
  privileged need_official deny_group : Gate

unfoldable pub gate : ℕ → ℕ → Bool → Gate
gate peer_uid own_uid group_ok =
    if peer_uid == 0 || peer_uid == own_uid
    then privileged
    else if group_ok
    then need_official
    else deny_group

pub data Access : Type 0 where
  read_only control : Access
  elevated : Text → Access

pub data Status : Type 0 where
  permission_denied : Text → Status
  rule_required : Status
  bad_rule : ConvertError → Status
  bad_exe : Text → Status
  timed_to_always : Status
  unbound : Status
  bad_uuid : Status
  storage : StoreError → Status

abbrev pub Answer {ℓ} : Type ℓ → Type ℓ
Answer A = Result Status A

-- What the daemon learns of a peer when it asks: whether it is in the group, the answer of the
-- official-client check, and the answers of polkit.
pub record Peer : Type 0 where
  pub uid : ℕ
  pub own_uid : ℕ
  pub require_group : Bool
  pub in_group : Bool
  pub official : Result Text Text
  pub polkit : Text → Result Text (Unit {0})

abbrev official_standing : Result Text Text → Answer (Option Text)
official_standing (ok exe) = ok (some exe)
official_standing (err reason) = err (permission_denied reason)

-- The `match` of `Control::standing`.
unfoldable pub standing_at : Peer → Gate → Answer (Option Text)
standing_at p privileged = ok none
standing_at p deny_group = err (permission_denied [])
standing_at p need_official = official_standing p.official

unfoldable pub standing : Peer → Answer (Option Text)
unfolding standing_at gate
standing p = standing_at p (gate p.uid p.own_uid (not p.require_group || p.in_group))

abbrev pub asked : Result Text (Unit {0}) → Answer (Unit {0})
asked (ok _) = ok tt
asked (err reason) = err (permission_denied reason)

-- Only an official client is asked.
abbrev elevate : Peer → Access → Option Text → Answer (Unit {0})
elevate p level none = ok tt
elevate p level (some exe) = elim level [
  | elevated action ↦ asked (p.polkit action)
  | read_only ↦ ok tt
  | control ↦ ok tt
]

unfoldable pub authorize : Peer → Access → Answer (Unit {0})
unfolding standing
authorize p level = elim level [
  | read_only ↦ ok tt
  | control ↦ standing p >>= elevate p control
  | elevated action ↦ standing p >>= elevate p (elevated action)
]

-- `polkit::GENERIC_ALLOW` is an argument of the functions that ask for it.
unfoldable pub opens_for_every_program : Rule → Bool
opens_for_every_program r = r.enabled && action_eq r.action allow && not (names_program r.scope)

abbrev is_privileged : Gate → Bool
is_privileged privileged = true
is_privileged need_official = false
is_privileged deny_group = false

unfoldable pub confirm_generic_allow : Text → Peer → Rule → Answer (Unit {0})
unfolding opens_for_every_program gate
confirm_generic_allow generic_allow p r =
    if not (opens_for_every_program r) || is_privileged (gate p.uid p.own_uid true)
    then ok tt
    else asked (p.polkit generic_allow)

abbrev pub path_eq : Option Text → Option Text → Bool
path_eq none none = true
path_eq none (some _) = false
path_eq (some _) none = false
path_eq (some a) (some b) = text_eq a b

unfoldable pub keeps_stored_exe : List Rule → Rule → Bool
keeps_stored_exe stored r =
    is_some r.scope.exe_path
    && any (λ old. old.id == r.id && path_eq old.scope.exe_path r.scope.exe_path) stored

-- `resolve_exe_off_thread`, with what `resolve_policy` finds on the file system.
unfoldable pub resolve_exe : (Text → Result Text Text) → RuleScope → Answer RuleScope
resolve_exe resolve_policy s = elim s.exe_path [
  | none ↦ ok s
  | some path ↦ elim (resolve_policy path) [
    | ok target ↦ ok (record s { exe_path = some target })
    | err reason ↦ err (bad_exe reason)
  ]
]

abbrev is_always : Duration → Bool
is_always always = true
is_always once = false
is_always until_restart = false
is_always (seconds _) = false

abbrev is_timed : Duration → Bool
is_timed (seconds _) = true
is_timed once = false
is_timed until_restart = false
is_timed always = false

-- A timed rule that would become Always in place.
unfoldable pub becomes_always : List Rule → Rule → Bool
becomes_always stored r =
    is_always r.duration && any (λ old. old.id == r.id && is_timed old.duration) stored

abbrev pub converted {ℓ} : {A : Type ℓ} → Result ConvertError A → Answer A
converted (ok a) = ok a
converted (err e) = err (bad_rule e)

abbrev pub stored {ℓ} : {A : Type ℓ} → Result StoreError A → Answer A
stored (ok a) = ok a
stored (err e) = err (storage e)

pub record State : Type 0 where
  pub engine : Engine
  pub store : RuleStore

-- What a call draws from outside: a fresh identifier, the time, the file system, and whether SQLite
-- carries out the write.
pub record Outside : Type 0 where
  pub codec : Codec
  pub fresh : ℕ
  pub now : ℕ
  pub resolve_policy : Text → Result Text Text
  pub works : Bool
  pub generic_allow : Text

-- The executable that a rule is written with.
unfoldable pub chosen_scope : Outside → Rule → State → Answer RuleScope
unfolding keeps_stored_exe resolve_exe
chosen_scope o sent s =
    if keeps_stored_exe (snapshot s.engine).rules sent
    then ok sent.scope
    else resolve_exe o.resolve_policy sent.scope

-- A rule that was read, behind the other checks.
unfoldable pub settled_rule : Outside → Peer → Rule → State → Answer Rule
unfolding confirm_generic_allow chosen_scope becomes_always
settled_rule o p sent s = do
  converted (reject_unpersistable_duration sent.duration)
  confirm_generic_allow o.generic_allow p sent
  scope ← chosen_scope o sent s
  let r : Rule = record sent { scope = scope }
  refuse_if (becomes_always (snapshot s.engine).rules r) timed_to_always
  ok (preserve_server_owned s.engine r)

-- The rule that is written.
unfoldable pub checked_rule : Outside → Peer → Wire.RuleInfo → State → Answer Rule
unfolding settled_rule
checked_rule o p m s = do
  sent ← converted (rule_from_pb o.codec o.fresh o.now m)
  settled_rule o p sent s

abbrev required : Option Wire.RuleInfo → Answer Wire.RuleInfo
required none = err rule_required
required (some m) = ok m

unfoldable pub upsert_rule_checked : Outside → Peer → Option Wire.RuleInfo → State → Answer State
unfolding checked_rule
upsert_rule_checked o p request s = do
  m ← required request
  r ← checked_rule o p m s
  store ← stored (Storage.upsert o.works r s.store)
  ok (record { engine = upsert_rule r s.engine; store = store })

-- The call of a client.
unfoldable pub call_upsert_rule : Outside → Peer → Option Wire.RuleInfo → State → Answer State
unfolding authorize
call_upsert_rule o p request s = do authorize p control; upsert_rule_checked o p request s

abbrev parsed : Option ℕ → Answer ℕ
parsed none = err bad_uuid
parsed (some id) = ok id

-- The state and whether a rule was deleted.
unfoldable pub delete_rule : Outside → Peer → Text → State → Answer (State × Bool)
unfolding authorize
delete_rule o p text s = do
  authorize p control
  id ← parsed (o.codec.uuid_parse_str text)
  (store, deleted) ← stored (Storage.delete o.works id s.store)
  ok (
    record { engine = if deleted then remove_rule id s.engine else s.engine; store = store },
    deleted,
  )

abbrev max_pause_secs : ℕ
max_pause_secs = 24 * 60 * 60

abbrev enforcing_grace_secs : ℕ
enforcing_grace_secs = 60

unfoldable pub requested_pause_secs : ℕ → ℕ → ℕ
requested_pause_secs duration_secs default_secs =
    if duration_secs == 0 then default_secs else duration_secs

-- `clamp`.
unfoldable pub resolve_pause_secs : ℕ → ℕ → ℕ
unfolding requested_pause_secs
resolve_pause_secs duration_secs default_secs =
    let secs = requested_pause_secs duration_secs default_secs in
    if ltb secs 1 then 1 else if ltb max_pause_secs secs then max_pause_secs else secs

unfoldable pub enforcing_heuristic : Bool → ℕ → ℕ → TablePresence → Bool
enforcing_heuristic dry_run packets_seen uptime_secs table = if dry_run then false else elim table [
  | present ↦ true
  | absent ↦ leb uptime_secs enforcing_grace_secs
  | unknown ↦ ltb 0 packets_seen || leb uptime_secs enforcing_grace_secs
]

-- The start of the daemon, as far as the rules go: the file is opened and its rules are put in force.
unfoldable pub start : ℕ → DefaultPolicy → RuleStore → State
start now policy store =
    let (loaded, set) = Storage.snapshot (open_store now store) in
    record { engine = new set.rules policy; store = loaded }

-- A tick of the maintenance task. `works`: SQLite takes the counts. One instant serves for the reads
-- of the clock, and the purge succeeds.
unfoldable pub tick : Bool → ℕ → State → State
tick works now s =
    let (engine, deltas) = drain_hits s.engine in
    let store =
      if works then record s.store { rows = merge_hit_counts deltas s.store.rows } else s.store in
    if any (λ r. is_expired r now) (snapshot engine).rules
    then record { engine = notify_rules_expired now engine; store = (purge_expired now store).0 }
    else record { engine = engine; store = store }
