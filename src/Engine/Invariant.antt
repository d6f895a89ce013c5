-- ===== src/Engine/Invariant.antt =====
-- Between two operations the engine's rules are in priority order under distinct identifiers, and
-- each operation acts on them as on a map from identifiers to rules.
use colony_firewall_control.Prelude.{
  ℕ, ◌≡◌, ◌∙◌, Bool, not, none, some, List, [], ◌∷◌, map, ◌==◌, if◌then◌else◌, retain, All, arith,
}
use colony_firewall_control.Prelude.Maps.{Map}
use colony_firewall_control.Connection.{Connection}
use colony_firewall_control.Process.{Process}
use colony_firewall_control.Config.{DefaultPolicy}
use colony_firewall_control.Rule.{Rule, is_expired}
use colony_firewall_control.Rule.Order.{precedes, insert, sort}
use colony_firewall_control.Rule.Order.Sorting.{IsSorted, Bounds, sort_lem}
use colony_firewall_control.Engine.{
  Engine, same_id, overwrite, new, upsert_rule, remove_rule, replace_rules, notify_rules_expired,
  drain_hits, with_hits, notify_changed, Decision, credit, evaluate, peek, restore_server_owned,
}
use colony_firewall_control.Engine.Ids.{
  Fresh, Distinct, rule_at, Distinct-sort, rule_at-sort, Distinct-overwrite, rule_at-overwrite,
  Distinct-retain, rule_at-remove,
}

pub record IsWellFormed (e : Engine) : Type 0 where
  pub ordered : IsSorted e.rules
  pub distinct : Distinct e.rules

Bounds-retain : (r : Rule) (p : Rule → Bool) (rs : List Rule) → Bounds r rs → Bounds r (retain p rs)
unfolding retain
Bounds-retain r p [] b = tt
Bounds-retain r p (s ∷ rs) b = ground (arith, Bounds-retain r p rs b.1)

IsSorted-retain : (p : Rule → Bool) (rs : List Rule) → IsSorted rs → IsSorted (retain p rs)
unfolding retain
IsSorted-retain p [] h = tt
IsSorted-retain p (r ∷ rs) h = ground (arith, Bounds-retain r p rs h.0, IsSorted-retain p rs h.1)

-- A change of the rules that keeps what the order and the identifiers rest on.
abbrev Keeps : (Rule → Rule) → Rule → Type 0
Keeps f r =
    ((f r).scope ≡ r.scope)
    × ((f r).action ≡ r.action)
    × ((f r).created_at ≡ r.created_at)
    × ((f r).id ≡ r.id)

precedes-Keeps :
    (f : Rule → Rule) (r s : Rule) → Keeps f r → Keeps f s → precedes (f r) (f s) ≡ precedes r s
unfolding precedes
precedes-Keeps f r s (a, b, c, d) (a', b', c', d') = rw (a, b, c, d, a', b', c', d')

module _ (f : Rule → Rule) where
  Bounds-map :
      (r : Rule) (rs : List Rule)
      → Keeps f r
      → All (Keeps f) rs
      → Bounds r rs
      → Bounds (f r) (map f rs)
  Bounds-map r [] k ks b = tt
  Bounds-map r (s ∷ rs) k ks b = (precedes-Keeps f r s k ks.0 ∙ b.0, Bounds-map r rs k ks.1 b.1)

  IsSorted-map : (rs : List Rule) → All (Keeps f) rs → IsSorted rs → IsSorted (map f rs)
  IsSorted-map [] ks h = tt
  IsSorted-map (r ∷ rs) ks h = (Bounds-map r rs ks.0 ks.1 h.0, IsSorted-map rs ks.1 h.1)

  Fresh-map : (id : ℕ) (rs : List Rule) → All (Keeps f) rs → Fresh id rs → Fresh id (map f rs)
  Fresh-map id [] ks h = tt
  Fresh-map id (r ∷ rs) ks h = ((λ e. h.0 (e ∙ (ks.0).3)), Fresh-map id rs ks.1 h.1)

  Distinct-map : (rs : List Rule) → All (Keeps f) rs → Distinct rs → Distinct (map f rs)
  Distinct-map [] ks h = tt
  Distinct-map (r ∷ rs) ks h =
      (rw ((ks.0).3) (Fresh-map r.id rs ks.1 h.0), Distinct-map rs ks.1 h.1)

with_hits-Keeps : (hits : Map ℕ) (rs : List Rule) → All (Keeps (with_hits hits)) rs
unfolding with_hits
with_hits-Keeps hits [] = tt
with_hits-Keeps hits (r ∷ rs) = (ground arith, with_hits-Keeps hits rs)

new-IsWellFormed :
    (rs : List Rule) (policy : DefaultPolicy) → Distinct rs → IsWellFormed (new rs policy)
unfolding new
new-IsWellFormed rs policy d = record { ordered = (sort_lem rs).1; distinct = Distinct-sort rs d }

notify_changed-IsWellFormed : (e : Engine) → IsWellFormed e → IsWellFormed (notify_changed e)
unfolding notify_changed
notify_changed-IsWellFormed e w = ground arith

upsert_rule-IsWellFormed : (r : Rule) (e : Engine) → IsWellFormed e → IsWellFormed (upsert_rule r e)
unfolding upsert_rule
upsert_rule-IsWellFormed r e w = notify_changed-IsWellFormed _ (record {
  ordered = (sort_lem (overwrite r e.rules)).1;
  distinct = Distinct-sort (overwrite r e.rules) (Distinct-overwrite r e.rules w.distinct);
})

retain-IsWellFormed :
    (p : Rule → Bool) (e : Engine)
    → IsWellFormed e
    → IsWellFormed (notify_changed (record e { rules = retain p e.rules }))
retain-IsWellFormed p e w = notify_changed-IsWellFormed _ (record {
  ordered = IsSorted-retain p e.rules w.ordered;
  distinct = Distinct-retain p e.rules w.distinct;
})

remove_rule-IsWellFormed : (id : ℕ) (e : Engine) → IsWellFormed e → IsWellFormed (remove_rule id e)
unfolding remove_rule
remove_rule-IsWellFormed id e w = retain-IsWellFormed (λ r. not (same_id id r)) e w

notify_rules_expired-IsWellFormed :
    (now : ℕ) (e : Engine) → IsWellFormed e → IsWellFormed (notify_rules_expired now e)
unfolding notify_rules_expired
notify_rules_expired-IsWellFormed now e w = retain-IsWellFormed (λ r. not (is_expired r now)) e w

drain_hits-IsWellFormed : (e : Engine) → IsWellFormed e → IsWellFormed (drain_hits e).0
unfolding drain_hits
drain_hits-IsWellFormed e w =
    let keeps = with_hits-Keeps e.hits e.rules in
    record {
      ordered = IsSorted-map (with_hits e.hits) e.rules keeps w.ordered;
      distinct = Distinct-map (with_hits e.hits) e.rules keeps w.distinct;
    }

credit-IsWellFormed : (d : Decision) (e : Engine) → IsWellFormed e → IsWellFormed (credit d e)
unfolding credit
credit-IsWellFormed d e w = ground arith

-- A batch that agrees with the engine on when its rules were created.
abbrev pub KeepsInstants : Engine → List Rule → Type 0
KeepsInstants e = All (λ r. (restore_server_owned e r).created_at ≡ r.created_at)

restore-Keeps :
    (e : Engine) (rs : List Rule) → KeepsInstants e rs → All (Keeps (restore_server_owned e)) rs
unfolding restore_server_owned
restore-Keeps e [] h = tt
restore-Keeps e (r ∷ rs) h = (ground arith, restore-Keeps e rs h.1)

KeepsInstants-insert :
    (e : Engine) (r : Rule) (rs : List Rule)
    → KeepsInstants e (r ∷ rs)
    → KeepsInstants e (insert r rs)
unfolding insert
KeepsInstants-insert e r [] h = h
KeepsInstants-insert e r (s ∷ rs) h = ground (arith, KeepsInstants-insert e r rs)

KeepsInstants-sort : (e : Engine) (rs : List Rule) → KeepsInstants e rs → KeepsInstants e (sort rs)
unfolding sort
KeepsInstants-sort e [] h = tt
KeepsInstants-sort e (r ∷ rs) h =
    KeepsInstants-insert e r (sort rs) (h.0, KeepsInstants-sort e rs h.1)

replace_rules-IsWellFormed :
    (rs : List Rule) (e : Engine)
    → Distinct rs
    → KeepsInstants e rs
    → IsWellFormed (replace_rules rs e)
unfolding replace_rules
replace_rules-IsWellFormed rs e d k =
    let keeps = restore-Keeps e (sort rs) (KeepsInstants-sort e rs k) in
    notify_changed-IsWellFormed _ (record {
      ordered = IsSorted-map (restore_server_owned e) (sort rs) keeps (sort_lem rs).1;
      distinct = Distinct-map (restore_server_owned e) (sort rs) keeps (Distinct-sort rs d);
    })

-- What the daemon does to its engine. A batch comes with the instants that the engine has, which
-- the caller establishes by `preserve_server_owned`.
pub data Step (e : Engine) : Engine → Type 0 where
  evaluated : (c : Connection) (p : Process) (now : ℕ) → Step e (evaluate e c p now).0
  upserted : (r : Rule) → Step e (upsert_rule r e)
  removed : (id : ℕ) → Step e (remove_rule id e)
  expired : (now : ℕ) → Step e (notify_rules_expired now e)
  drained : Step e (drain_hits e).0
  replaced : (rs : List Rule) → Distinct rs → KeepsInstants e rs → Step e (replace_rules rs e)

pub data Reach (e : Engine) : Engine → Type 0 where
  here : Reach e e
  next : {f g : Engine} → Reach e f → Step f g → Reach e g

pub Step-IsWellFormed : {e f : Engine} → Step e f → IsWellFormed e → IsWellFormed f
unfolding evaluate
Step-IsWellFormed {e} (evaluated c p now) w = credit-IsWellFormed (peek e c p now) e w
Step-IsWellFormed {e} (upserted r) w = upsert_rule-IsWellFormed r e w
Step-IsWellFormed {e} (removed id) w = remove_rule-IsWellFormed id e w
Step-IsWellFormed {e} (expired now) w = notify_rules_expired-IsWellFormed now e w
Step-IsWellFormed {e} drained w = drain_hits-IsWellFormed e w
Step-IsWellFormed {e} (replaced rs d k) w = replace_rules-IsWellFormed rs e d k

Reach-IsWellFormed : {e f : Engine} → Reach e f → IsWellFormed e → IsWellFormed f
Reach-IsWellFormed here w = w
Reach-IsWellFormed (next r st) w = Step-IsWellFormed st (Reach-IsWellFormed r w)

-- An engine started on rules with distinct identifiers keeps them in priority order, under distinct
-- identifiers, through every sequence of evaluations, upserts, removals, expiries, drains and
-- batches (with distinct identifiers and the engine's own creation instants).
pub new-Reach-IsWellFormed :
    (rs : List Rule) (policy : DefaultPolicy) {e : Engine}
    → Distinct rs
    → Reach (new rs policy) e
    → IsWellFormed e
new-Reach-IsWellFormed rs policy d r = Reach-IsWellFormed r (new-IsWellFormed rs policy d)

-- In a well-formed engine an upsert puts the rule under its identifier and leaves the rule of every
-- other identifier as it was; a removal takes away the one rule.
pub rule_at-upsert-remove :
    (e : Engine) (r : Rule) (gone id : ℕ)
    → IsWellFormed e
    → (rule_at id (upsert_rule r e).rules ≡ (if r.id == id then some r else rule_at id e.rules))
      × (rule_at id (remove_rule gone e).rules ≡ (if gone == id then none else rule_at id e.rules))
unfolding upsert_rule remove_rule notify_changed
rule_at-upsert-remove e r gone id w = (
  ground (
    arith,
    rule_at-sort id (overwrite r e.rules) (Distinct-overwrite r e.rules w.distinct),
    rule_at-overwrite id r e.rules,
  ),
  ground (arith, rule_at-remove id gone e.rules),
)
