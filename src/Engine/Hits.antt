-- ===== src/Engine/Hits.antt =====
-- The hit counts: what `evaluate` credits, what a drain moves and what a client's echo keeps.
use mathlib.Core.Option
use mathlib.Core.Option.{get_or}
use colony_firewall_control.Prelude.{
  ℕ, ◌+◌, ◌≡◌, refl, sym, ap, ◌∙◌, Bool, false, Option, some, List, [], ◌∷◌, map, ◌==◌,
  if◌then◌else◌, find, arith,
}
use colony_firewall_control.Prelude.Maps.{Map, get, get-put}
use colony_firewall_control.Connection.{Connection}
use colony_firewall_control.Process.{Process}
use colony_firewall_control.Rule.{Rule}
use colony_firewall_control.Rule.Lookup.{Match, rule, undecidable, no_match, lookup}
use colony_firewall_control.Engine.{
  Engine, Decision, u64, decide, fallback_verdict, peek, credit, evaluate, upsert_rule,
  preserve_server_owned, with_hits, snapshot, drain_hits, same_id,
}
use colony_firewall_control.Engine.Ids.{rule_at}
use colony_firewall_control.Engine.Invariant.{IsWellFormed, rule_at-upsert-remove}

-- The hits of a rule that are not yet in its count.
abbrev pub pending : ℕ → Engine → ℕ
pending id e = get_or (get id e.hits) 0

-- The rule with the identifier answered.
abbrev pub answered_by : ℕ → Match → Bool
answered_by id (rule r) = r.id == id
answered_by id (undecidable _) = false
answered_by id no_match = false

credit-decide :
    (e : Engine) (m : Match) (id : ℕ)
    → pending id (credit (decide (fallback_verdict e) m) e)
      ≡ (if answered_by id m then u64 (pending id e + 1) else pending id e)
unfolding credit decide fallback_verdict
credit-decide e (rule r) id = ground (arith, get-put r.id id (u64 (pending r.id e + 1)) e.hits)
credit-decide e (undecidable r) id = ground arith
credit-decide e no_match id = refl

rules-credit : (d : Decision) (e : Engine) → (credit d e).rules ≡ e.rules
unfolding credit
rules-credit d e = ground arith

-- An evaluation decides as `peek` does, leaves the rules alone, and counts one hit for the rule
-- that answered and none for any other.
pub evaluate-hits :
    (e : Engine) (c : Connection) (p : Process) (now id : ℕ)
    → let (e', d) = evaluate e c p now in
      (d ≡ peek e c p now)
      × (e'.rules ≡ e.rules)
      × (pending id e' ≡ (
          if answered_by id (lookup (record { rules = e.rules }) c p now)
          then u64 (pending id e + 1)
          else pending id e))
unfolding evaluate peek
evaluate-hits e c p now id = (
  refl,
  rules-credit (peek e c p now) e,
  credit-decide e (lookup (record { rules = e.rules }) c p now) id,
)

with_hits_none : (rs : List Rule) → map (with_hits []) rs ≡ rs
unfolding with_hits get
with_hits_none [] = refl
with_hits_none (r ∷ rs) = ap (◌∷◌ r) (with_hits_none rs)

-- A drain hands over the pending hits, leaves none behind, and changes nothing that a client is
-- shown.
pub snapshot-drain_hits :
    (e : Engine)
    → let (e', deltas) = drain_hits e in
      (snapshot e' ≡ snapshot e) × (deltas ≡ e.hits) × ((drain_hits e').1 ≡ [])
unfolding drain_hits snapshot
snapshot-drain_hits e =
    (λ i. record { rules = with_hits_none (map (with_hits e.hits) e.rules) i }, refl, refl)

rule_at-map :
    (hits : Map ℕ) (id : ℕ) (rs : List Rule)
    → rule_at id (map (with_hits hits) rs) ≡ Option.map (with_hits hits) (rule_at id rs)
unfolding find with_hits
rule_at-map hits id [] = refl
rule_at-map hits id (r ∷ rs) = ground (arith, rule_at-map hits id rs)

id-rule_at : (id : ℕ) (rs : List Rule) (r : Rule) → rule_at id rs ≡ some r → r.id ≡ id
unfolding find
id-rule_at id [] r h = cc
id-rule_at id (s ∷ rs) r h = ground (arith, id-rule_at id rs r)

-- The count that a client is shown for an identifier.
abbrev pub shown : ℕ → Engine → Option ℕ
shown id e = Option.map (λ r. r.hit_count) (rule_at id (snapshot e).rules)

shown_of :
    (id : ℕ) (e : Engine) (r : Rule)
    → rule_at id e.rules ≡ some r
    → shown id e ≡ some (with_hits e.hits r).hit_count
unfolding snapshot
shown_of id e r h = rw (rule_at-map, h)

hits-upsert_rule : (r : Rule) (e : Engine) → (upsert_rule r e).hits ≡ e.hits
unfolding upsert_rule
hits-upsert_rule r e = ground arith

-- A rule as the daemon stores it keeps the daemon's count and creation instant.
preserve_server_owned_lem :
    (e : Engine) (r old : Rule)
    → rule_at r.id e.rules ≡ some old
    → ((preserve_server_owned e r).id ≡ r.id)
      × ((preserve_server_owned e r).hit_count ≡ old.hit_count)
      × ((preserve_server_owned e r).created_at ≡ old.created_at)
unfolding preserve_server_owned
preserve_server_owned_lem e r old h = ground arith

with_hits-hit_count :
    (hits hits' : Map ℕ) (r s : Rule)
    → hits ≡ hits'
    → r.id ≡ s.id
    → r.hit_count ≡ s.hit_count
    → (with_hits hits r).hit_count ≡ (with_hits hits' s).hit_count
unfolding with_hits
with_hits-hit_count hits hits' r s h a b = ground arith

-- A client that reads a rule, changes what it likes of it but its identifier and writes it back
-- leaves the rule's creation instant and the count that clients are shown as they were, whatever
-- count and instant it sends.
pub upsert-preserve_server_owned :
    (e : Engine) (r old : Rule)
    → IsWellFormed e
    → rule_at r.id e.rules ≡ some old
    → let e' = upsert_rule (preserve_server_owned e r) e in
      (shown r.id e' ≡ shown r.id e)
      × (Option.map (λ x. x.created_at) (rule_at r.id e'.rules) ≡ some old.created_at)
upsert-preserve_server_owned e r old w h =
    let (same_id, same_count, same_instant) = preserve_server_owned_lem e r old h in
    let stored = preserve_server_owned e r in
    let found : rule_at r.id (upsert_rule stored e).rules ≡ some stored =
      (rule_at-upsert-remove e stored 0 r.id w).0 ∙ ground arith in
    let same_hits = hits-upsert_rule stored e in
    (
      shown_of r.id (upsert_rule stored e) stored found
          ∙ ap some (
              with_hits-hit_count (upsert_rule stored e).hits e.hits stored old same_hits
                (same_id ∙ sym (id-rule_at r.id e.rules old h)) same_count)
          ∙ sym (shown_of r.id e old h),
      rw found (ap some same_instant),
    )
