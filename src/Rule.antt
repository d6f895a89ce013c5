-- ===== src/Rule.antt =====
-- crates/cfc-core/src/rule.rs: the data of a rule, its expiry and the rule set. The operations on
-- a scope are in Rule/Scope and Rule/Guards, the digest form in Rule/Digest, the precedence order
-- in Rule/Order, and the walk that finds the winning rule in Rule/Lookup.
pub mod Scope
pub mod Guards
pub mod Digest
pub mod Lookup
pub mod Order
use colony_firewall_control.Prelude.{
  ℕ, ◌+◌, ◌*◌, ◌/◌, Bool, true, false, Option, none, List, leb, Text,
}
use colony_firewall_control.Connection.{Direction, IpAddr, Protocol}

pub data Action : Type 0 where
  allow deny reject : Action

-- The derived `PartialEq`.
abbrev pub action_eq : Action → Action → Bool
action_eq allow allow = true
action_eq deny deny = true
action_eq reject reject = true
action_eq _ _ = false

pub data Duration : Type 0 where
  once : Duration
  until_restart : Duration
  always : Duration
  seconds : ℕ → Duration

-- A network of the `ipnet` crate is an external value: it is known by the two answers that the
-- code asks of it.
pub record IpNet : Type 0 where
  pub prefix_len : ℕ
  pub contains : IpAddr → Bool

pub record RuleScope : Type 0 where
  pub direction : Option Direction
  pub exe_path : Option Text
  pub exe_sha256 : Option Text
  pub parent_exe : Option Text
  pub uid : Option ℕ
  pub dst_host : Option Text
  pub dst_net : Option IpNet
  pub dst_port : Option ℕ
  pub src_net : Option IpNet
  pub src_port : Option ℕ
  pub protocol : Option Protocol

-- `created_at` is an instant of the `chrono` crate: nanoseconds, counted from the earliest instant
-- that the crate can hold, so that it is never negative.
pub record Rule : Type 0 where
  pub id : ℕ
  pub name : Text
  pub enabled : Bool
  pub action : Action
  pub duration : Duration
  pub scope : RuleScope
  pub created_at : ℕ
  pub hit_count : ℕ

pub record RuleSet : Type 0 where
  pub rules : List Rule

-- `Rule::new`, with the identifier and the instant that it draws from outside.
unfoldable pub new : ℕ → ℕ → Text → Action → RuleScope → Rule
new id now name action scope = record {
  id = id;
  name = name;
  enabled = true;
  action = action;
  duration = always;
  scope = scope;
  created_at = now;
  hit_count = 0;
}

-- `DateTime::timestamp_millis`, from the same origin as the instants.
abbrev pub timestamp_millis : ℕ → ℕ
timestamp_millis t = t / 1000000

-- The `match` of `is_expired`.
unfoldable pub lapsed : Duration → ℕ → ℕ → Bool
lapsed (seconds n) created now = leb (timestamp_millis created + n * 1000) now
lapsed once created now = false
lapsed until_restart created now = false
lapsed always created now = false

-- `now` is in milliseconds from the origin of the instants; the origin cancels in the comparison.
unfoldable pub is_expired : Rule → ℕ → Bool
unfolding lapsed
is_expired r now = lapsed r.duration r.created_at now
