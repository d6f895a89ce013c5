-- ===== src/Service/Restart.antt =====
-- crates/cfc-daemon/src/main.rs: the rules that a start puts in force, after a run of the daemon.
use colony_firewall_control.Prelude.{ℕ, ◌≡◌, refl, sym, ap, ◌∙◌, Option, none, some, arith}
use colony_firewall_control.Prelude.Maps.{get}
use colony_firewall_control.Config.{DefaultPolicy}
use colony_firewall_control.Rule.{Rule, is_expired}
use colony_firewall_control.Engine.{new, sorted}
use colony_firewall_control.Engine.Ids.{rule_at, rule_at-sort}
use colony_firewall_control.Engine.Invariant.{IsWellFormed, new-Reach-IsWellFormed}
use colony_firewall_control.Engine.Invariant
use colony_firewall_control.Storage
use colony_firewall_control.Storage.{RuleStore, open_store, load_all, is_transient}
use colony_firewall_control.Storage.Reloaded.{
  IsKeyed, loaded, unless, is_dropped, rule_at-load_all, Distinct-load_all, loaded-open_store,
  IsKeyed-open_store,
}
use colony_firewall_control.Service.{State, start}
use colony_firewall_control.Service.Accepted.{ResolvesWell}
use colony_firewall_control.Service.Agreement.{bare, IsSound}
use colony_firewall_control.Service.Runs.{FileSystem, Reach, Reach-IsSound}

module _ (now : ℕ) (policy : DefaultPolicy) (store : RuleStore) (keyed : IsKeyed store.rows) where
  rule_at-start :
      (id : ℕ)
      → rule_at id (start now policy store).engine.rules
        ≡ loaded (get id (open_store now store).rows)
  unfolding start new Storage.snapshot sorted
  rule_at-start id =
      let rows = (open_store now store).rows in
      let fine = IsKeyed-open_store now store keyed in
      rule_at-sort id (load_all rows).0 (Distinct-load_all rows fine)
      ∙ rule_at-load_all id rows fine

  start-IsSound : IsSound (start now policy store)
  unfolding start Storage.snapshot
  start-IsSound =
      let rows = (open_store now store).rows in
      let fine = IsKeyed-open_store now store keyed in
      (
        new-Reach-IsWellFormed (load_all rows).0 policy (Distinct-load_all rows fine)
            Invariant.here,
        λ id. ap bare (rule_at-start id),
        fine,
      )

bare-unless_dropped :
    (now : ℕ) (o : Option Rule)
    → bare (unless (is_dropped now) o) ≡ unless (is_dropped now) (bare o)
unfolding is_expired is_transient
bare-unless_dropped now none = refl
bare-unless_dropped now (some r) = ground arith

-- Where each stored rule lies under its own identifier, and the file system, whenever it is asked,
-- resolves the path of a program only to a path that a rule may name: after a start, however clients
-- write rules by UpsertRule, answer prompts by SubmitVerdict and delete rules, flows are judged and
-- the maintenance task runs, the rules in force are well formed, and a further start at any instant
-- puts in force, for each identifier, the rule that is in force now, but for its count of hits,
-- unless its duration is once or until restart or it has expired by then. Imports by ApplyRules are
-- not among the calls.
pub start-Reach :
    (files : FileSystem) (now later : ℕ) (policy policy' : DefaultPolicy) (store : RuleStore)
    (id : ℕ) {t : State}
    → ((instant : ℕ) → ResolvesWell (files instant))
    → IsKeyed store.rows
    → Reach files (start now policy store) t
    → IsWellFormed t.engine
      × (bare (rule_at id (start later policy' t.store).engine.rules)
          ≡ unless (is_dropped later) (bare (rule_at id t.engine.rules)))
start-Reach files now later policy policy' store id {t} well keyed run =
    let (w, agree, fine) = Reach-IsSound files well (start-IsSound now policy store keyed) run in
    (
      w,
      ap bare
            (rule_at-start later policy' t.store fine id ∙ loaded-open_store later id t.store fine)
          ∙ bare-unless_dropped later (loaded (get id t.store.rows))
          ∙ ap (unless (is_dropped later)) (sym (agree id)),
    )
