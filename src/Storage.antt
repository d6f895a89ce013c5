-- ===== src/Storage.antt =====
-- crates/cfc-daemon/src/storage.rs: the table of rules. A row is a rule, or a text that cannot be
-- read as one; what SQLite carries out of a statement is an argument.
pub mod Loaded
pub mod Reloaded
use mathlib.Core.Option.{get_or}
use Prim.Native.Nat.{min}
use colony_firewall_control.Prelude.{
  ℕ, ◌+◌, ◌-◌, ◌^◌, Bool, true, false, not, ◌&&◌, ◌||◌, Option, none, some, List, [], ◌∷◌,
  if◌then◌else◌, is_some, is_none, is_none_or, any, length, Result, ok, err, ◌>>=◌, ◌>>◌, refuse_if,
}
use colony_firewall_control.Prelude.Maps.{Map, get, put, remove}
use colony_firewall_control.Connection.{Protocol, tcp, udp, icmp, other}
use colony_firewall_control.Rule.{
  Rule, RuleSet, Action, allow, action_eq, Duration, once, until_restart, always, seconds,
  is_expired,
}
use colony_firewall_control.Rule.Guards.{ScopeError, reject_hostname_policy}
use colony_firewall_control.Engine.{saturating_add, same_id}
use colony_firewall_control.Convert.{ConvertError, checks}

pub data Stored : Type 0 where
  readable : Rule → Stored
  unreadable : Stored

-- The rows by their identifier, and the count of those that the last snapshot did not load.
pub record RuleStore : Type 0 where
  pub rows : Map Stored
  pub skipped : ℕ

abbrev pub is_other : Option Protocol → Bool
is_other none = false
is_other (some p) = elim p [ other _ ↦ true | tcp ↦ false | udp ↦ false | icmp ↦ false ]

unfoldable pub heal_legacy_protocol : Rule → Rule × Bool
heal_legacy_protocol r =
    if not (action_eq r.action allow) && is_other r.scope.protocol
    then (record r { scope = record r.scope { protocol = none } }, true)
    else (r, false)

pub data Quarantine : Type 0 where
  unsupported_protocol : Quarantine
  refused : ConvertError → Quarantine

-- `.err()` of the chain of checks.
abbrev error_of : Result ConvertError (Unit {0}) → Option Quarantine
error_of (ok _) = none
error_of (err e) = some (refused e)

unfoldable pub quarantine_reason : Rule → Option Quarantine
quarantine_reason r =
    if is_some r.scope.dst_host
    then none
    else if action_eq r.action allow && is_other r.scope.protocol
    then some unsupported_protocol
    else error_of (checks r.scope)

-- The rule that a row is loaded as, if it is loaded.
unfoldable pub load_rule : Rule → Option Rule
unfolding heal_legacy_protocol quarantine_reason
load_rule r =
    let healed = if is_none r.scope.dst_host then (heal_legacy_protocol r).0 else r in
    if is_some (quarantine_reason healed) then none else some healed

unfoldable pub load : Stored → Option Rule
unfolding load_rule
load (readable r) = load_rule r
load unreadable = none

-- The loop of `snapshot`: the rules that are loaded, and how many rows are not.
unfoldable pub load_all : Map Stored → List Rule × ℕ
unfolding load
load_all [] = ([], 0)
load_all ((id, row) ∷ rows) =
    let (rules, skipped) = load_all rows in
    elim (load row) [ none ↦ (rules, skipped + 1) | some r ↦ (r ∷ rules, skipped) ]

unfoldable pub snapshot : RuleStore → RuleStore × RuleSet
unfolding load_all
snapshot s =
    let (rules, skipped) = load_all s.rows in
    (record s { skipped = skipped }, record { rules = rules })

pub data StoreError : Type 0 where
  scope_refused : ScopeError → StoreError
  database : StoreError

abbrev of_scope : Result ScopeError (Unit {0}) → Result StoreError (Unit {0})
of_scope (ok _) = ok tt
of_scope (err e) = err (scope_refused e)

-- `works`: SQLite carries out the statement or the transaction.
unfoldable pub upsert : Bool → Rule → RuleStore → Result StoreError RuleStore
upsert works r s = do
  of_scope (reject_hostname_policy r.scope)
  refuse_if (not works) database
  ok (record s { rows = put r.id (readable r) s.rows })

unfoldable pub hostname_gates : List Rule → Result StoreError (Unit {0})
hostname_gates [] = ok tt
hostname_gates (r ∷ rs) = of_scope (reject_hostname_policy r.scope) >> hostname_gates rs

unfoldable pub insert_all : List Rule → Map Stored → Map Stored
insert_all [] rows = rows
insert_all (r ∷ rs) rows = insert_all rs (put r.id (readable r) rows)

-- How many rows have an identifier that is not among the incoming ones.
unfoldable pub missing : List Rule → Map Stored → ℕ
missing incoming [] = 0
missing incoming ((id, _) ∷ rows) =
    (if any (same_id id) incoming then 0 else 1) + missing incoming rows

unfoldable pub apply_rules : Bool → List Rule → Bool → RuleStore → Result StoreError (RuleStore × ℕ)
unfolding hostname_gates insert_all missing
apply_rules works rs replace s = do
  hostname_gates rs
  refuse_if (not works) database
  ok (
      if replace
      then (record s { rows = insert_all rs [] }, missing rs s.rows)
      else (record s { rows = insert_all rs s.rows }, 0))

-- The store, and whether a row was deleted.
unfoldable pub delete : Bool → ℕ → RuleStore → Result StoreError (RuleStore × Bool)
delete works id s = do
  refuse_if (not works) database
  ok (record s { rows = remove id s.rows }, is_some (get id s.rows))

-- Rows that cannot be read are left alone.
unfoldable pub purge_where : (Rule → Bool) → Map Stored → Map Stored
purge_where doomed [] = []
purge_where doomed ((id, unreadable) ∷ rows) = (id, unreadable) ∷ purge_where doomed rows
purge_where doomed ((id, readable r) ∷ rows) =
    let rest = purge_where doomed rows in if doomed r then rest else (id, readable r) ∷ rest

unfoldable pub is_transient : Rule → Bool
is_transient r = elim r.duration [
  | once ↦ true
  | until_restart ↦ true
  | always ↦ false
  | seconds _ ↦ false
]

unfoldable pub purge_transient : RuleStore → RuleStore × ℕ
unfolding purge_where is_transient
purge_transient s =
    let kept = purge_where is_transient s.rows in
    (record s { rows = kept }, length s.rows - length kept)

unfoldable pub purge_expired : ℕ → RuleStore → RuleStore × ℕ
unfolding purge_where
purge_expired now s =
    let kept = purge_where (λ r. is_expired r now) s.rows in
    (record s { rows = kept }, length s.rows - length kept)

-- What opening the file does to the rules.
unfoldable pub open_store : ℕ → RuleStore → RuleStore
unfolding purge_transient purge_expired
open_store now s = (purge_expired now (purge_transient s).0).0

-- One increment: a row that is gone or cannot be read is left alone.
unfoldable pub merge_hit : ℕ → ℕ → Map Stored → Map Stored
merge_hit id extra rows = elim (get id rows) [
  | some row ↦ elim row [
    | readable r ↦
        put id (readable (record r { hit_count = saturating_add r.hit_count extra })) rows
    | unreadable ↦ rows
  ]
  | none ↦ rows
]

unfoldable pub merge_hit_counts : Map ℕ → Map Stored → Map Stored
unfolding merge_hit
merge_hit_counts [] rows = rows
merge_hit_counts ((id, extra) ∷ increments) rows =
    merge_hit_counts increments (merge_hit id extra rows)
