-- ===== src/Enforce/Resynced.antt =====
-- crates/cfc-daemon/src/ebpf/enforce.rs: the verdicts of the processes behind a resync.
use colony_firewall_control.Prelude.{
  ℕ, ◌≡◌, refl, ◌∙◌, Bool, true, false, not, ◌&&◌, Option, none, some, List, [], ◌∷◌, ◌==◌,
  if◌then◌else◌, is_some, is_some_and, any, retain, Bool-cases, ==_iff, arith, inl, inr, ap,
  Option-cases,
}
use colony_firewall_control.Prelude.Maps.{Map, get, remove, get-put, get-remove}
use colony_firewall_control.Process.{Process}
use colony_firewall_control.Engine.{Engine, denies_process_wide}
use colony_firewall_control.Kernel.{Takes, deny_value}
use colony_firewall_control.Enforce.{
  VerdictSink, World, write_verdict, write_verdicts, judged, still, deny_work, keys, orphans,
  doomed, may_clear, sweep, resync, compile_rules, record_compiled, with_verdicts,
}

abbrev names : ℕ → List ℕ → Bool
names pid pids = any (λ l. l == pid) pids

get-write_verdict :
    (takes : Takes) (j pid : ℕ) (deny : Bool) (m : Map ℕ)
    → get pid (write_verdict takes j deny m) ≡ (
        if j == pid
        then (if deny then (if takes pid then some deny_value else get pid m) else none)
        else get pid m)
unfolding write_verdict
get-write_verdict takes j pid true m = ground (arith, get-put j pid deny_value m)
get-write_verdict takes j pid false m = ground (arith, get-remove j pid m)

-- What is written for a process depends on no other.
get-write_verdicts_same :
    (takes : Takes) (pid : ℕ) (work : List (ℕ × Bool)) (m m' : Map ℕ)
    → get pid m ≡ get pid m'
    → get pid (write_verdicts takes work m) ≡ get pid (write_verdicts takes work m')
unfolding write_verdicts
get-write_verdicts_same takes pid [] m m' h = h
get-write_verdicts_same takes pid ((j, deny) ∷ work) m m' h =
    get-write_verdicts_same takes pid work (write_verdict takes j deny m)
      (write_verdict takes j deny m')
      (ground (arith, get-write_verdict takes j pid deny m, get-write_verdict takes j pid deny m'))

get-write_verdicts_other :
    (takes : Takes) (pid : ℕ) (work : List (ℕ × Bool)) (m : Map ℕ)
    → any (λ x. x.0 == pid) work ≡ false
    → get pid (write_verdicts takes work m) ≡ get pid m
unfolding write_verdicts any
get-write_verdicts_other takes pid [] m h = refl
get-write_verdicts_other takes pid ((j, deny) ∷ work) m h = ground (
  arith,
  get-write_verdicts_other takes pid work (write_verdict takes j deny m),
  get-write_verdict takes j pid deny m,
)

get-sweep_other :
    (w : World) (pid at : ℕ) (gone : List (ℕ × Option ℕ)) (m : Map ℕ)
    → get pid m ≡ none
    → get pid (sweep w gone m) ≡ none
unfolding sweep
get-sweep_other w pid at [] m h = h
get-sweep_other w pid at ((j, judged_at) ∷ gone) m h = ground (
  arith,
  get-sweep_other w pid at gone
      (if may_clear judged_at (w.orphan_started j) then remove j m else m),
  get-remove j pid m,
)

any-keys : (pid : ℕ) (m : Map ℕ) → any (λ l. l == pid) (keys m) ≡ is_some (get pid m)
unfolding any get
any-keys pid [] = refl
any-keys pid ((j, v) ∷ m) = ground (arith, any-keys pid m)

any-retain :
    (pid : ℕ) (p : ℕ → Bool) (xs : List ℕ) → names pid (retain p xs) ≡ (names pid xs && p pid)
unfolding any retain
any-retain pid p [] = refl
any-retain pid p (x ∷ xs) = elim (Bool-cases (x == pid)) [
  | inl same ↦ rw (← (==_iff x pid).0 same) (ground (arith, any-retain x p xs))
  | inr other ↦ ground (arith, any-retain pid p xs)
]

-- The orphans are the keys that are not live.
names-orphans :
    (w : World) (pid : ℕ) (m : Map ℕ)
    → names pid (orphans w m) ≡ (is_some (get pid m) && not (names pid w.live))
unfolding orphans
names-orphans w pid m =
    any-retain pid (λ k. not (any (λ l. l == k) w.live)) (keys m)
    ∙ ap (λ b. b && not (names pid w.live)) (any-keys pid m)

-- The process is the same whenever it is looked at, and nobody else writes about it.
abbrev pub IsSteady : World → ℕ → Process → ℕ → Type 0
IsSteady w pid p t =
    (w.view pid ≡ some (p, some t))
    × (w.started pid ≡ some t)
    × (w.orphan_view pid ≡ some (p, some t))
    × (w.orphan_started pid ≡ some t)
    × (any (λ x. x.0 == pid) w.meanwhile ≡ false)

module _ (e : Engine) (now : ℕ) (w : World) (pid t : ℕ) (p : Process)
    (steady : IsSteady w pid p t) where
  judged_lem : judged e now w pid ≡ some (denies_process_wide e p now)
  unfolding judged still
  judged_lem = ground arith

  -- The loop over the live processes.
  get-deny_work :
      (takes : Takes) (pids : List ℕ) (m : Map ℕ)
      → get pid (write_verdicts takes (deny_work e now w pids) m) ≡ (
          if names pid pids
          then (if denies_process_wide e p now
              then (if takes pid then some deny_value else get pid m)
              else none)
          else get pid m)
  unfolding deny_work write_verdicts any
  get-deny_work takes [] m = refl
  get-deny_work takes (j ∷ pids) m = elim (Option-cases (judged e now w j)) [
    | inl skipped ↦ ground (arith, judged_lem, get-deny_work takes pids m)
    | inr (deny, decided) ↦ ground (
      arith,
      judged_lem,
      get-deny_work takes pids (write_verdict takes j deny m),
      get-write_verdict takes j pid deny m,
    )
  ]

  -- The loop over the orphans.
  get-doomed :
      (pids : List ℕ) (m : Map ℕ)
      → get pid (sweep w (doomed e now w pids) m)
        ≡ (if not (denies_process_wide e p now) && names pid pids then none else get pid m)
  unfolding doomed sweep any may_clear
  get-doomed [] m = ground arith
  get-doomed (j ∷ pids) m =
      ground (arith, steady, get-doomed pids m, get-doomed pids (remove j m), get-remove j pid m)

compile_rules_verdicts :
    (takes : Takes) (now : ℕ) (s : VerdictSink)
    → ((compile_rules takes now s).kernel.verdicts ≡ s.kernel.verdicts)
unfolding compile_rules record_compiled
compile_rules_verdicts takes now s = ground arith

-- For a process that stays the same while a resync runs, and that nobody else writes about, the
-- verdict behind the resync is that of the rules: none where they do not deny it wherever it
-- connects, whatever was there and whether or not it was seen to exec; DENY where they do and it
-- was seen to exec, as long as the table takes it; and where they do and it was not seen, or the
-- table is full, what was there before.
pub resync-verdict :
    (takes_rule takes : Takes) (now : ℕ) (w : World) (s : VerdictSink) (pid t : ℕ) (p : Process)
    → IsSteady w pid p t
    → get pid (resync takes_rule takes now w s).kernel.verdicts ≡ (
        if denies_process_wide s.engine p now
        then (if any (λ l. l == pid) w.live && takes pid
            then some deny_value
            else get pid s.kernel.verdicts)
        else none)
unfolding resync with_verdicts
resync-verdict takes_rule takes now w s pid t p steady =
    let old = s.kernel.verdicts in
    let compiled = compile_rules_verdicts takes_rule now s in
    let e = s.engine in
    let enforced =
      write_verdicts takes (deny_work e now w w.live)
        (compile_rules takes_rule now s).kernel.verdicts in
    ground (
      arith,
      compiled,
      get-deny_work e now w pid t p steady takes w.live old,
      get-write_verdicts_other takes pid w.meanwhile enforced,
      get-doomed e now w pid t p steady (orphans w enforced)
          (write_verdicts takes w.meanwhile enforced),
      names-orphans w pid enforced,
    )

-- What is judged of an orphan that is gone, or whose number went to another process.
abbrev pub IsRecycled : World → ℕ → ℕ → Type 0
IsRecycled w pid now_at =
    (w.orphan_started pid ≡ some now_at)
    × (is_some_and (w.orphan_view pid) (λ v. is_some_and v.1 (λ t. now_at == t)) ≡ false)

get-doomed_recycled :
    (e : Engine) (now : ℕ) (w : World) (pid u : ℕ) (pids : List ℕ) (m : Map ℕ)
    → IsRecycled w pid u
    → get pid (sweep w (doomed e now w pids) m) ≡ get pid m
unfolding doomed sweep may_clear
get-doomed_recycled e now w pid u [] m r = refl
get-doomed_recycled e now w pid u (j ∷ pids) m r = ground (
  arith,
  get-doomed_recycled e now w pid u pids m,
  get-doomed_recycled e now w pid u pids (remove j m),
  get-remove j pid m,
)

get-deny_work_other :
    (e : Engine) (now : ℕ) (w : World) (pid : ℕ) (takes : Takes) (pids : List ℕ) (m : Map ℕ)
    → names pid pids ≡ false
    → get pid (write_verdicts takes (deny_work e now w pids) m) ≡ get pid m
unfolding deny_work write_verdicts any
get-deny_work_other e now w pid takes [] m h = refl
get-deny_work_other e now w pid takes (j ∷ pids) m h = elim (Option-cases (judged e now w j)) [
  | inl skipped ↦ ground (arith, get-deny_work_other e now w pid takes pids m)
  | inr (deny, decided) ↦ ground (
    arith,
    get-deny_work_other e now w pid takes pids (write_verdict takes j deny m),
    get-write_verdict takes j pid deny m,
  )
]

-- A process that a resync did not see to exec, and whose number has gone to another process since
-- it was judged, keeps what others wrote of the new one meanwhile: the resync clears nothing of it.
pub resync-recycled :
    (takes_rule takes : Takes) (now : ℕ) (w : World) (s : VerdictSink) (pid u : ℕ)
    → any (λ l. l == pid) w.live ≡ false
    → IsRecycled w pid u
    → get pid (resync takes_rule takes now w s).kernel.verdicts
      ≡ get pid (write_verdicts takes w.meanwhile s.kernel.verdicts)
unfolding resync with_verdicts
resync-recycled takes_rule takes now w s pid u dead recycled =
    let verdicts = (compile_rules takes_rule now s).kernel.verdicts in
    let enforced = write_verdicts takes (deny_work s.engine now w w.live) verdicts in
    let compiled = compile_rules_verdicts takes_rule now s in
    get-doomed_recycled s.engine now w pid u (orphans w enforced)
      (write_verdicts takes w.meanwhile enforced) recycled
    ∙ get-write_verdicts_same takes pid w.meanwhile enforced s.kernel.verdicts
        (get-deny_work_other s.engine now w pid takes w.live verdicts dead ∙ ap (get pid) compiled)
