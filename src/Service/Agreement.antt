-- ===== src/Service/Agreement.antt =====
-- crates/cfc-daemon/src/ipc/mod.rs and maintenance.rs: the rules in force and the stored rows, through
-- single operations on both.
use colony_firewall_control.Rule.Guards.{reject_hostname_policy}
use colony_firewall_control.Engine.Hits.{evaluate-hits}
use mathlib.Core.Path.{subst}
use colony_firewall_control.Prelude.{
  ℕ, ◌≡◌, refl, sym, ap, ◌∙◌, Bool, not, any, retain, Bool-cases, true, false, Option, none, some,
  List, [], ◌∷◌, map, if◌then◌else◌, is_some, find, ok, Option-cases, inl, inr, arith,
}
use colony_firewall_control.Prelude.Maps.{Map, get, put, remove, get-put, get-remove}
use colony_firewall_control.Connection.{Connection}
use colony_firewall_control.Process.{Process}
use colony_firewall_control.Rule.{Rule, is_expired}
use colony_firewall_control.Engine.{
  Engine, evaluate, drain_hits, with_hits, upsert_rule, remove_rule, saturating_add, notify_changed,
  notify_rules_expired, snapshot,
}
use colony_firewall_control.Engine.Ids.{Fresh, Distinct, rule_at, rule_at-remove}
use colony_firewall_control.Engine.Invariant.{
  IsWellFormed, upserted, drained, expired, Step-IsWellFormed, rule_at-upsert-remove,
}
use colony_firewall_control.Storage
use colony_firewall_control.Storage.{
  Stored, readable, unreadable, load, load_rule, merge_hit, merge_hit_counts, RuleStore,
  purge_expired, heal_legacy_protocol, quarantine_reason, StoreError,
}
use colony_firewall_control.Service.{State, tick}
use colony_firewall_control.Storage.Reloaded.{
  IsKeyed, loaded, unless, IsKeyed-put, IsKeyed-merge_hit_counts, IsKeyed-purge_where,
  get-purge_where, loaded-spared, is_expired-dated,
}

-- A rule without its count of hits, which the two do not share at every moment.
abbrev pub bare : Option Rule → Option Rule
bare none = none
bare (some r) = some (record r { hit_count = 0 })

-- For each identifier the stored row is loaded as the rule that is in force.
abbrev pub Agree : State → Type 0
Agree s = (id : ℕ) → bare (rule_at id s.engine.rules) ≡ bare (loaded (get id s.store.rows))

module _ (r : Rule) (n : ℕ) where
  quarantine_hits : quarantine_reason (record r { hit_count = n }) ≡ quarantine_reason r
  unfolding quarantine_reason
  quarantine_hits = refl

  heal_hits :
      (heal_legacy_protocol (record r { hit_count = n })).0
      ≡ record (heal_legacy_protocol r).0 { hit_count = n }
  unfolding heal_legacy_protocol
  heal_hits = ground arith

load_hits : (r : Rule) (n : ℕ) → bare (load_rule (record r { hit_count = n })) ≡ bare (load_rule r)
unfolding load_rule
load_hits r n =
    ground (arith, heal_hits r n, quarantine_hits r n, quarantine_hits (heal_legacy_protocol r).0 n)

loaded-merge_hit :
    (id extra j : ℕ) (rows : Map Stored)
    → bare (loaded (get j (merge_hit id extra rows))) ≡ bare (loaded (get j rows))
unfolding merge_hit load
loaded-merge_hit id extra j rows = elim (Option-cases (get id rows)) [
  | inl gone ↦ ground arith
  | inr (unreadable, found) ↦ ground arith
  | inr (readable r, found) ↦ ground (
    arith,
    get-put id j (readable (record r { hit_count = saturating_add r.hit_count extra })) rows,
    load_hits r (saturating_add r.hit_count extra),
  )
]

loaded-merge_hit_counts :
    (increments : Map ℕ) (j : ℕ) (rows : Map Stored)
    → bare (loaded (get j (merge_hit_counts increments rows))) ≡ bare (loaded (get j rows))
unfolding merge_hit_counts
loaded-merge_hit_counts [] j rows = refl
loaded-merge_hit_counts ((id, extra) ∷ increments) j rows =
    loaded-merge_hit_counts increments j (merge_hit id extra rows)
    ∙ loaded-merge_hit id extra j rows

rule_at-with_hits :
    (hits : Map ℕ) (id : ℕ) (rs : List Rule)
    → bare (rule_at id (map (with_hits hits) rs)) ≡ bare (rule_at id rs)
unfolding find with_hits
rule_at-with_hits hits id [] = refl
rule_at-with_hits hits id (r ∷ rs) = ground (arith, rule_at-with_hits hits id rs)

pub credit_rules :
    (e : Engine) (c : Connection) (p : Process) (now : ℕ) → (evaluate e c p now).0.rules ≡ e.rules
credit_rules e c p now = (evaluate-hits e c p now 0).1

upsert_rows :
    (works : Bool) (r : Rule) (st store : RuleStore)
    → Storage.upsert works r st ≡ ok store
    → store.rows ≡ put r.id (readable r) st.rows
unfolding Storage.upsert reject_hostname_policy
upsert_rows works r st store h = ground arith

pub delete_rows :
    (works : Bool) (id : ℕ) (st store : RuleStore) (deleted : Bool)
    → Storage.delete works id st ≡ ok (store, deleted)
    → (store.rows ≡ remove id st.rows) × (deleted ≡ is_some (get id st.rows))
unfolding Storage.delete
delete_rows works id st store deleted h = (ground arith, ground arith)

upsert-Agree :
    (works : Bool) (r : Rule) (s : State) (store : RuleStore)
    → IsWellFormed s.engine
    → Agree s
    → load_rule r ≡ some r
    → Storage.upsert works r s.store ≡ ok store
    → Agree (record { engine = upsert_rule r s.engine; store = store })
unfolding load
upsert-Agree works r s store w agree loads h id = ground (
  arith,
  (rule_at-upsert-remove s.engine r 0 id w).0,
  upsert_rows works r s.store store h,
  get-put r.id id (readable r) s.store.rows,
  agree id,
)

pub delete-Agree :
    (works : Bool) (gone : ℕ) (s : State) (store : RuleStore) (deleted : Bool)
    → Agree s
    → Storage.delete works gone s.store ≡ ok (store, deleted)
    → Agree
        (record { engine = if deleted then remove_rule gone s.engine else s.engine; store = store })
unfolding remove_rule notify_changed
delete-Agree works gone s store deleted agree h id = ground (
  arith,
  rule_at-remove id gone s.engine.rules,
  delete_rows works gone s.store store deleted h,
  get-remove gone id s.store.rows,
  agree id,
  agree gone,
)

abbrev pub IsSound : State → Type 0
IsSound s = IsWellFormed s.engine × Agree s × IsKeyed s.store.rows

pub upsert-IsSound :
    (works : Bool) (r : Rule) (s : State) (store : RuleStore)
    → IsSound s
    → load_rule r ≡ some r
    → Storage.upsert works r s.store ≡ ok store
    → IsSound (record { engine = upsert_rule r s.engine; store = store })
upsert-IsSound works r s store (w, agree, keyed) loads h = (
  Step-IsWellFormed (upserted r) w,
  upsert-Agree works r s store w agree loads h,
  subst IsKeyed (sym (upsert_rows works r s.store store h))
      (IsKeyed-put r.id (readable r) s.store.rows refl keyed),
)

flushed-Agree :
    (s : State) (rows : Map Stored)
    → Agree s
    → ((id : ℕ) → bare (loaded (get id rows)) ≡ bare (loaded (get id s.store.rows)))
    → (id : ℕ) → bare (rule_at id (drain_hits s.engine).0.rules) ≡ bare (loaded (get id rows))
unfolding drain_hits
flushed-Agree s rows agree same id =
    rule_at-with_hits s.engine.hits id s.engine.rules ∙ agree id ∙ sym (same id)

-- The counts, flushed or lost.
abbrev flushed : Bool → State → State
flushed works s = record {
  engine = (drain_hits s.engine).0;
  store =
      if works
      then record s.store { rows = merge_hit_counts (drain_hits s.engine).1 s.store.rows }
      else s.store;
}

flushed-IsSound : (works : Bool) (s : State) → IsSound s → IsSound (flushed works s)
flushed-IsSound true s (w, agree, keyed) = (
  Step-IsWellFormed drained w,
  flushed-Agree s (merge_hit_counts (drain_hits s.engine).1 s.store.rows) agree
      (λ id. loaded-merge_hit_counts (drain_hits s.engine).1 id s.store.rows),
  IsKeyed-merge_hit_counts (drain_hits s.engine).1 s.store.rows keyed,
)
flushed-IsSound false s (w, agree, keyed) =
    (Step-IsWellFormed drained w, flushed-Agree s s.store.rows agree (λ id. refl), keyed)

bare-unless_expired :
    (now : ℕ) (o : Option Rule)
    → bare (unless (λ r. is_expired r now) o) ≡ unless (λ r. is_expired r now) (bare o)
unfolding is_expired
bare-unless_expired now none = refl
bare-unless_expired now (some r) = ground arith

rule_at-Fresh : (id : ℕ) (rs : List Rule) → Fresh id rs → rule_at id rs ≡ none
unfolding find
rule_at-Fresh id [] f = refl
rule_at-Fresh id (r ∷ rs) f = ground (arith, f.0, rule_at-Fresh id rs f.1)

rule_at-expired :
    (now id : ℕ) (rs : List Rule)
    → Distinct rs
    → rule_at id (retain (λ r. not (is_expired r now)) rs)
      ≡ unless (λ r. is_expired r now) (rule_at id rs)
unfolding retain find
rule_at-expired now id [] d = refl
rule_at-expired now id (r ∷ rs) d =
    ground (arith, rule_at-expired now id rs d.1, rule_at-Fresh r.id rs d.0)

expired_rules :
    (now : ℕ) (e : Engine)
    → (notify_rules_expired now e).rules ≡ retain (λ r. not (is_expired r now)) e.rules
unfolding notify_rules_expired notify_changed
expired_rules now e = ground arith

expired-IsSound :
    (now : ℕ) (s : State)
    → IsSound s
    → IsSound (record {
      engine = notify_rules_expired now s.engine;
      store = (purge_expired now s.store).0;
    })
unfolding purge_expired
expired-IsSound now s (w, agree, keyed) = (
  Step-IsWellFormed (expired now) w,
  λ id.
      ap (λ rs. bare (rule_at id rs)) (expired_rules now s.engine)
      ∙ ap bare (rule_at-expired now id s.engine.rules w.distinct)
      ∙ bare-unless_expired now (rule_at id s.engine.rules)
      ∙ ap (unless (λ r. is_expired r now)) (agree id)
      ∙ sym (bare-unless_expired now (loaded (get id s.store.rows)))
      ∙ sym (
          ap bare
            (loaded-spared (λ r. is_expired r now) (is_expired-dated now) (get id s.store.rows)))
      ∙ sym (
          ap (λ o. bare (loaded o))
            (get-purge_where (λ r. is_expired r now) id s.store.rows keyed)),
  IsKeyed-purge_where (λ r. is_expired r now) s.store.rows keyed,
)

pub tick-IsSound : (works : Bool) (now : ℕ) (s : State) → IsSound s → IsSound (tick works now s)
unfolding tick
tick-IsSound works now s sound =
    let after = flushed-IsSound works s sound in
    elim (Bool-cases (any (λ r. is_expired r now) (snapshot (drain_hits s.engine).0).rules)) [
      | inl some_expired ↦ rw some_expired (expired-IsSound now (flushed works s) after)
      | inr none_expired ↦ rw none_expired after
    ]
