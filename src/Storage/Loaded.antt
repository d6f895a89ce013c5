-- ===== src/Storage/Loaded.antt =====
-- crates/cfc-daemon/src/storage.rs: what a start loads from the table.
use mathlib.Core.Path.{subst}
use colony_firewall_control.Prelude.{
  ℕ, ◌+◌, ◌≡◌, ◌≢◌, ◌⊎◌, refl, true, false, Option, none, some, [], ◌∷◌, if◌then◌else◌, is_some,
  is_none, length, ok, Bool-cases, Result-cases, inl, inr, arith,
}
use colony_firewall_control.Prelude.Maps.{Map}
use colony_firewall_control.Connection.{Protocol, tcp, udp, icmp, other}
use colony_firewall_control.Rule.{Rule, allow, action_eq}
use colony_firewall_control.Convert.{checks}
use colony_firewall_control.Storage.{
  Stored, RuleStore, heal_legacy_protocol, quarantine_reason, load_rule, load_all, snapshot,
  is_other,
}

-- The rule, or the rule without its protocol, which has no number on the wire.
abbrev pub Healed : Rule → Rule → Type 0
Healed stored r =
    (r ≡ stored)
    ⊎ ((r ≡ record stored { scope = record stored.scope { protocol = none } })
        × (action_eq stored.action allow ≡ false)
        × ((k : ℕ) × (stored.scope.protocol ≡ some (other k))))

other_cases : (o : Option Protocol) → ((k : ℕ) × (o ≡ some (other k))) ⊎ (is_other o ≡ false)
other_cases none = inr refl
other_cases (some tcp) = inr refl
other_cases (some udp) = inr refl
other_cases (some icmp) = inr refl
other_cases (some (other k)) = inl (k, refl)

healed_lem : (r : Rule) → Healed r (heal_legacy_protocol r).0
unfolding heal_legacy_protocol
healed_lem r = elim (Bool-cases (action_eq r.action allow)) [
  | inl allows ↦ inl (ground arith)
  | inr refuses ↦ elim (other_cases r.scope.protocol) [
    | inl (k, numbered) ↦ inr (ground arith, refuses, (k, numbered))
    | inr known ↦ inl (ground arith)
  ]
]

abbrev healed : Rule → Rule
healed r = if is_none r.scope.dst_host then (heal_legacy_protocol r).0 else r

healed-Healed : (r : Rule) → Healed r (healed r)
healed-Healed r = elim (Bool-cases (is_none r.scope.dst_host)) [
  | inl free ↦ rw free (healed_lem r)
  | inr named ↦ rw named (inl refl)
]

passed :
    (r : Rule)
    → is_some (quarantine_reason r) ≡ false
    → (is_some r.scope.dst_host ≡ true) ⊎ (checks r.scope ≡ ok tt)
unfolding quarantine_reason
passed r h = elim (Bool-cases (is_some r.scope.dst_host)) [
  | inl named ↦ inl named
  | inr free ↦ elim (Result-cases (checks r.scope)) [
    | inl (u, done) ↦ inr done
    | inr (e, refused) ↦ absurd (ground arith)
  ]
]

-- A rule that is loaded is the stored one, or, if it is not an Allow, the stored one without a
-- protocol that has no number; so no Allow is loaded wider than it was stored. It has passed the
-- checks of the API, or it names a host.
pub load_rule-Healed :
    (stored r : Rule)
    → load_rule stored ≡ some r
    → Healed stored r × ((is_some r.scope.dst_host ≡ true) ⊎ (checks r.scope ≡ ok tt))
unfolding load_rule
load_rule-Healed stored r h = elim (Bool-cases (is_some (quarantine_reason (healed stored)))) [
  | inl refused ↦ absurd (ground arith)
  | inr fine ↦
      let same : healed stored ≡ r = ground arith in
      (
        subst (Healed stored) same (healed-Healed stored),
        subst (λ x. (is_some x.scope.dst_host ≡ true) ⊎ (checks x.scope ≡ ok tt)) same
            (passed (healed stored) fine),
      )
]

load_all-length : (rows : Map Stored) → length (load_all rows).0 + (load_all rows).1 ≡ length rows
unfolding load_all
load_all-length [] = refl
load_all-length ((id, row) ∷ rows) = ground (arith, load_all-length rows)

-- Every row is loaded or counted as skipped.
pub snapshot-length :
    (s : RuleStore) → length (snapshot s).1.rules + (snapshot s).0.skipped ≡ length s.rows
unfolding snapshot
snapshot-length s = load_all-length s.rows

-- A rule in the form in which the API accepts it is loaded as it is.
pub load_rule_accepted :
    (r : Rule)
    → checks r.scope ≡ ok tt
    → r.scope.dst_host ≡ none
    → ((k : ℕ) → r.scope.protocol ≢ some (other k))
    → load_rule r ≡ some r
unfolding load_rule heal_legacy_protocol quarantine_reason
load_rule_accepted r checked host known = elim (other_cases r.scope.protocol) [
  | inl (k, numbered) ↦ absurd (known k numbered)
  | inr fine ↦ ground arith
]
