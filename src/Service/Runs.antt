-- ===== src/Service/Runs.antt =====
-- crates/cfc-daemon/src/ipc/mod.rs and maintenance.rs: the rules in force and the stored rows, through
-- the calls of clients and the ticks of the maintenance task.
use mathlib.Core.Path.{subst}
use colony_firewall_control.Prelude.{
  Result-cases, refuse_if, ◌&&◌, ◌==◌, ℕ, ◌≡◌, sym, Bool, not, true, false, Option, none, some, [],
  if◌then◌else◌, Text, Result, ok, err, >>=-eq-ok, >>-eq-ok, inl, inr,
}
use colony_firewall_control.Connection.{Connection}
use colony_firewall_control.Process.{Process}
use colony_firewall_control.Engine.{Engine, evaluate, upsert_rule, remove_rule}
use colony_firewall_control.Engine.Invariant.{IsWellFormed, evaluated, removed, Step-IsWellFormed}
use colony_firewall_control.Wire
use colony_firewall_control.Storage
use colony_firewall_control.Storage.{
  Stored, readable, unreadable, load, load_rule, merge_hit, merge_hit_counts, RuleStore,
  purge_expired, heal_legacy_protocol, quarantine_reason, StoreError,
}
use colony_firewall_control.Service.{
  Outside, Peer, State, checked_rule, upsert_rule_checked, delete_rule, tick, stored, parsed,
  authorize, control, Status,
}
use colony_firewall_control.Storage.Reloaded.{IsKeyed, IsKeyed-remove}
use colony_firewall_control.Verdict.{user_prompt}
use colony_firewall_control.Prompts.{Router, PromptBinding, submit}
use colony_firewall_control.Convert.{action_from_pb}
use colony_firewall_control.Service.{converted, permission_denied}
use colony_firewall_control.Service.Answers.{
  VerdictRequest, submit_verdict, persisted, persist_answer, standing_rule, rule_of_answer,
}
use colony_firewall_control.Service.Answers.Accepted.{standing_rule-loads}
use colony_firewall_control.Service.Accepted.{ResolvesWell, checked_rule-loads}
use colony_firewall_control.Service.Agreement.{
  credit_rules, delete_rows, delete-Agree, IsSound, upsert-IsSound, tick-IsSound,
}

-- What `resolve_policy` finds on the file system at an instant.
abbrev pub FileSystem : Type 0
FileSystem = ℕ → Text → Result Text Text

abbrev pub seen_by : FileSystem → Outside → Outside
seen_by files o = record o { resolve_policy = files o.now }

-- What happens to the two: a client writes a rule by UpsertRule, answers a prompt by
-- SubmitVerdict or deletes a rule, the datapath evaluates a flow, and the maintenance task flushes the hit counts and drops what has expired.
pub data Step (files : FileSystem) (s : State) : State → Type 0 where
  wrote :
      {s' : State} (o : Outside) (p : Peer) (m : Wire.RuleInfo)
      → upsert_rule_checked (seen_by files o) p (some m) s ≡ ok s'
      → Step files s s'
  answered :
      {s' : State} (router router' : Router) (o : Outside) (p : Peer) (delivered : Bool)
      (req : VerdictRequest)
      → submit_verdict (seen_by files o) p delivered req router s ≡ ok (router', s')
      → Step files s s'
  deleted :
      {s' : State} (o : Outside) (p : Peer) (text : Text) (found : Bool)
      → delete_rule o p text s ≡ ok (s', found)
      → Step files s s'
  judged :
      (c : Connection) (p : Process) (now : ℕ)
      → Step files s (record s { engine = (evaluate s.engine c p now).0 })
  ticked : (works : Bool) (now : ℕ) → Step files s (tick works now s)

pub data Reach (files : FileSystem) (s : State) : State → Type 0 where
  here : Reach files s s
  next : {t u : State} → Reach files s t → Step files t u → Reach files s u

same_state : (a b : State) → ◌≡◌ {A = Result Status State} (ok a) (ok b) → a ≡ b
same_state a b h = cc

read_store : {A : Type 0} (m : Result StoreError A) (a : A) → stored m ≡ ok a → m ≡ ok a
read_store (ok x) a h = cc
read_store (err e) a h = cc

wrote-IsSound :
    (o : Outside) (p : Peer) (m : Wire.RuleInfo) (s s' : State)
    → ResolvesWell o.resolve_policy
    → upsert_rule_checked o p (some m) s ≡ ok s'
    → IsSound s
    → IsSound s'
unfolding upsert_rule_checked
wrote-IsSound o p m s s' well h sound =
    let (r, checked, h1) = >>=-eq-ok (checked_rule o p m s) _ h in
    let (store, done, last) = >>=-eq-ok (stored (Storage.upsert o.works r s.store)) _ h1 in
    subst IsSound (same_state (record { engine = upsert_rule r s.engine; store = store }) s' last) (
      upsert-IsSound o.works r s store sound (checked_rule-loads o p m s r well checked)
        (read_store (Storage.upsert o.works r s.store) store done))

answer_kept :
    {A : Type 0} (a b : A) (s s' : State)
    → ◌≡◌ {A = Result Status (A × State)} (ok (a, s)) (ok (b, s'))
    → s ≡ s'
answer_kept a b s s' h = cc

persist_answer-IsSound :
    (o : Outside) (p : Peer) (binding : PromptBinding) (m : Wire.RuleInfo) (s s' : State)
    → ResolvesWell o.resolve_policy
    → persist_answer o p binding m s ≡ ok s'
    → IsSound s
    → IsSound s'
unfolding persist_answer
persist_answer-IsSound o p binding m s s' well h sound =
    let (r, checked, h1) = >>=-eq-ok (standing_rule o p binding m) _ h in
    let (store, done, last) = >>=-eq-ok (stored (Storage.upsert o.works r s.store)) _ h1 in
    subst IsSound (same_state (record { engine = upsert_rule r s.engine; store = store }) s' last) (
      upsert-IsSound o.works r s store sound (standing_rule-loads o p binding m r well checked)
        (read_store (Storage.upsert o.works r s.store) store done))

persisted-IsSound :
    (o : Outside) (p : Peer) (req : VerdictRequest) (binding : Option PromptBinding)
    (scope : Option Wire.RuleScope) (s : State)
    → ResolvesWell o.resolve_policy
    → IsSound s
    → IsSound (persisted o p req binding scope s)
unfolding persisted
persisted-IsSound o p req none scope s well sound = sound
persisted-IsSound o p req (some binding) none s well sound = sound
persisted-IsSound o p req (some binding) (some scope) s well sound =
    let m = rule_of_answer o.codec req scope in
    elim (Result-cases (persist_answer o p binding m s)) [
      | inl (s', done) ↦ rw done (persist_answer-IsSound o p binding m s s' well done sound)
      | inr (e, refused) ↦ rw refused sound
    ]

answered-IsSound :
    (o : Outside) (p : Peer) (delivered : Bool) (req : VerdictRequest) (router router' : Router)
    (s s' : State)
    → ResolvesWell o.resolve_policy
    → submit_verdict o p delivered req router s ≡ ok (router', s')
    → IsSound s
    → IsSound s'
unfolding submit_verdict
answered-IsSound o p delivered req router router' s s' well h sound =
    let (_, h1) = >>-eq-ok (authorize p control) _ h in
    let (_, h2) =
      >>-eq-ok (refuse_if (not (p.uid == 0) && not delivered) (permission_denied [])) _ h1 in
    let (action, _, last) = >>=-eq-ok (converted (action_from_pb req.action)) _ h2 in
    let (after, binding) =
      submit req.prompt_id (record { action = action; source = user_prompt }) router in
    subst IsSound
      (answer_kept after router' (persisted o p req binding req.persist_scope s) s' last)
      (persisted-IsSound o p req binding req.persist_scope s well sound)

same_answer :
    (a b : State) (x y : Bool)
    → ◌≡◌ {A = Result Status (State × Bool)} (ok (a, x)) (ok (b, y))
    → a ≡ b
same_answer a b x y h = cc

kept_or_removed :
    (id : ℕ) (e : Engine) (gone : Bool)
    → IsWellFormed e
    → IsWellFormed (if gone then remove_rule id e else e)
kept_or_removed id e true w = Step-IsWellFormed (removed id) w
kept_or_removed id e false w = w

deleted-IsSound :
    (o : Outside) (p : Peer) (text : Text) (s s' : State) (found : Bool)
    → delete_rule o p text s ≡ ok (s', found)
    → IsSound s
    → IsSound s'
unfolding delete_rule
deleted-IsSound o p text s s' found h (w, agree, keyed) =
    let (_, h1) = >>-eq-ok (authorize p control) _ h in
    let (id, known, h2) = >>=-eq-ok (parsed (o.codec.uuid_parse_str text)) _ h1 in
    let ((store, gone), done, last) = >>=-eq-ok (stored (Storage.delete o.works id s.store)) _ h2 in
    let answer = read_store (Storage.delete o.works id s.store) (store, gone) done in
    subst IsSound
      (same_answer
        (record { engine = if gone then remove_rule id s.engine else s.engine; store = store }) s'
        gone found last)
      (
        kept_or_removed id s.engine gone w,
        delete-Agree o.works id s store gone agree answer,
        subst IsKeyed (sym (delete_rows o.works id s.store store gone answer).0)
            (IsKeyed-remove id s.store.rows keyed),
      )

module _ (files : FileSystem) (well : (now : ℕ) → ResolvesWell (files now)) where
  Step-IsSound : {s t : State} → Step files s t → IsSound s → IsSound t
  Step-IsSound {s} {t} (wrote o p m h) sound =
      wrote-IsSound (seen_by files o) p m s t (well o.now) h sound
  Step-IsSound {s} {t} (answered router router' o p delivered req h) sound =
      answered-IsSound (seen_by files o) p delivered req router router' s t (well o.now) h sound
  Step-IsSound {s} {t} (deleted o p text found h) sound = deleted-IsSound o p text s t found h sound
  Step-IsSound {s} (judged c p now) (w, agree, keyed) = (
    Step-IsWellFormed (evaluated c p now) w,
    λ id. rw (credit_rules s.engine c p now) (agree id),
    keyed,
  )
  Step-IsSound {s} (ticked works now) sound = tick-IsSound works now s sound

  pub Reach-IsSound : {s t : State} → IsSound s → Reach files s t → IsSound t
  Reach-IsSound sound here = sound
  Reach-IsSound sound (next r st) = Step-IsSound st (Reach-IsSound sound r)
