-- ===== src/Enforce/Compiled.antt =====
-- crates/cfc-daemon/src/ebpf/enforce.rs: the kernel's table of programs, as `compile_rules` leaves
-- it, and what it leaves when a write is refused.
use mathlib.Core.Option.{get_or}
use colony_firewall_control.Prelude.{
  ℕ, ◌≡◌, ◌≢◌, ◌↔◌, ◌⊎◌, inl, inr, refl, sym, ◌∙◌, Bool, true, false, Option, none, some, [], ltb,
  if◌then◌else◌, is_some, is_some_and, length, Bool-cases, arith, ◌∷◌,
}
use colony_firewall_control.Prelude.Maps.{Map, get, Unique}
use colony_firewall_control.Engine.{Engine, compilable_exe_paths}
use colony_firewall_control.Kernel.{Kernel, Takes, deny_value}
use colony_firewall_control.Enforce.{
  VerdictSink, wanted, map_eq, write_all, drop_stale, record_compiled, compile_rules,
}
use colony_firewall_control.Enforce.Entries.{
  Denied, entries-Unique, entries_value, Denied-entries, entries-denied, get-write_all, written_all,
  get-drop_stale, get-map_eq,
}

-- What the kernel holds is what was last compiled: the table has these entries, and its gate is
-- open exactly if there is one.
abbrev Holds : Map ℕ → Kernel → Type 0
Holds w k =
    ((j : ℕ) → get j k.exe_rules ≡ get j w) × (k.exe_rules_on ≡ (if ltb 0 (length w) then 1 else 0))

abbrev Remembers : Option (Map ℕ) → Kernel → Type 0
Remembers none k = Unit
Remembers (some w) k = Unique w × Holds w k

abbrev pub IsFaithful : VerdictSink → Type 0
IsFaithful s = Remembers s.last_compiled s.kernel

-- The sink drives an object that has both maps of the table.
abbrev pub HasTable : VerdictSink → Type 0
HasTable s = (s.exe_rules ≡ true) × (s.exe_rules_on ≡ true)

module _ (e : Engine) (now : ℕ) where
  wanted-Unique : Unique (wanted e now)
  unfolding wanted
  wanted-Unique = entries-Unique e now (get_or (compilable_exe_paths e now) [])

kept :
    (w : Map ℕ) (table : Map ℕ) (j : ℕ)
    → (if is_some (get j w) then get j w else (if is_some (get j w) then get j table else none))
      ≡ get j w
kept w table j = ground arith

record_compiled-Holds :
    (takes : Takes) (w : Map ℕ) (s : VerdictSink)
    → ((k : ℕ) → takes k ≡ true)
    → Unique w
    → s.exe_rules_on ≡ true
    → let s' = record_compiled w (write_all takes w (drop_stale w s.kernel.exe_rules) 0) s in
      Holds w s'.kernel × (s'.last_compiled ≡ some w)
unfolding record_compiled
record_compiled-Holds takes w s taken u on =
    let table = drop_stale w s.kernel.exe_rules in
    let all = written_all takes w table 0 taken in
    (
      (
        λ j. ground (
          arith,
          taken j,
          get-write_all takes w table 0 j u,
          get-drop_stale w s.kernel.exe_rules j,
        ),
        ground arith,
      ),
      ground arith,
    )

memo_same :
    (memo : Option (Map ℕ)) (k : Kernel) (w : Map ℕ)
    → Unique w
    → Remembers memo k
    → is_some_and memo (λ m. map_eq m w) ≡ true
    → Holds w k
unfolding map_eq
memo_same none k w u r h = cc
memo_same (some m) k w u (v, (r, gate)) h =
    let same : length m ≡ length w = ground arith in
    (λ j. r j ∙ get-map_eq m w j v u same (ground arith), rw (← same) gate)

abbrev is_memo : VerdictSink → ℕ → Bool
is_memo s now = is_some_and s.last_compiled (λ m. map_eq m (wanted s.engine now))

-- Nothing is written where the answer has not moved.
compile_rules_memo :
    (takes : Takes) (now : ℕ) (s : VerdictSink)
    → is_memo s now ≡ true
    → compile_rules takes now s ≡ s
unfolding compile_rules
compile_rules_memo takes now s h = ground arith

abbrev written : Takes → ℕ → VerdictSink → Map ℕ × ℕ
written takes now s =
    write_all takes (wanted s.engine now) (drop_stale (wanted s.engine now) s.kernel.exe_rules) 0

compile_rules_moved :
    (takes : Takes) (now : ℕ) (s : VerdictSink)
    → s.exe_rules ≡ true
    → is_memo s now ≡ false
    → compile_rules takes now s ≡ record_compiled (wanted s.engine now) (written takes now s) s
unfolding compile_rules
compile_rules_moved takes now s has h = ground arith

compile_rules-Holds :
    (takes : Takes) (now : ℕ) (s : VerdictSink)
    → ((k : ℕ) → takes k ≡ true)
    → HasTable s
    → IsFaithful s
    → let s' = compile_rules takes now s in Holds (wanted s.engine now) s'.kernel × IsFaithful s'
compile_rules-Holds takes now s taken has f =
    let w = wanted s.engine now in
    let u = wanted-Unique s.engine now in
    elim (Bool-cases (is_memo s now)) [
      | inl same ↦
          rw (compile_rules_memo takes now s same)
            (memo_same s.last_compiled s.kernel w u f same, f)
      | inr moved ↦
          let (holds, memo) = record_compiled-Holds takes w s taken u has.1 in
          rw (compile_rules_moved takes now s has.0 moved) (holds, rw memo (u, holds))
    ]

gate_value :
    (w : Map ℕ) (k v : ℕ) → get k w ≡ some v → ◌≡◌ {A = ℕ} (if ltb 0 (length w) then 1 else 0) 1
unfolding get
gate_value [] k v h = cc
gate_value ((j, x) ∷ w) k v h = ground arith

-- A table with an entry is open.
pub compile_rules_open :
    (takes : Takes) (now : ℕ) (s : VerdictSink) (k v : ℕ)
    → ((j : ℕ) → takes j ≡ true)
    → HasTable s
    → IsFaithful s
    → get k (compile_rules takes now s).kernel.exe_rules ≡ some v
    → (compile_rules takes now s).kernel.exe_rules_on ≢ 0
compile_rules_open takes now s k v taken has f h =
    let ((entry, gate), _) = compile_rules-Holds takes now s taken has f in
    let open_gate = gate_value (wanted s.engine now) k v (sym (entry k) ∙ h) in
    λ e. absurd (ground arith)

-- The kernel's table, as long as it takes what is written, refuses exactly the programs that the
-- rules now deny whatever their user: behind a run of compile_rules it has the value DENY for a
-- hash exactly if a path that may be compiled and is denied has this hash, and no other value; its
-- gate is open exactly if the table has an entry. What the next run compares with is true of the
-- kernel again.
pub compile_rules-Denied :
    (takes : Takes) (now : ℕ) (s : VerdictSink) (k : ℕ)
    → ((j : ℕ) → takes j ≡ true)
    → HasTable s
    → IsFaithful s
    → let s' = compile_rules takes now s in
      let exes = get_or (compilable_exe_paths s.engine now) [] in
      ((get k s'.kernel.exe_rules ≡ some deny_value) ↔ Denied s.engine now exes k)
      × ((get k s'.kernel.exe_rules ≡ none) ⊎ (get k s'.kernel.exe_rules ≡ some deny_value))
      × (s'.kernel.exe_rules_on ≡ (if ltb 0 (length (wanted s.engine now)) then 1 else 0))
      × IsFaithful s'
unfolding wanted
compile_rules-Denied takes now s k taken has f =
    let exes = get_or (compilable_exe_paths s.engine now) [] in
    let ((entry, gate), faithful) = compile_rules-Holds takes now s taken has f in
    (
      (
        λ h. Denied-entries s.engine now exes k (sym (entry k) ∙ h),
        λ (path, found, hashed, denied).
            rw (entry k, ← hashed) (entries-denied s.engine now exes path found denied),
      ),
      rw (entry k) (entries_value s.engine now exes k),
      gate,
      faithful,
    )

-- Where the rules change, the table refuses one of the new entries, and the rules then change back,
-- the second run takes its answer for the one that it has compiled, and writes nothing: every entry
-- of the rules between that the table took stays in the kernel.
pub compile_rules_refused :
    (takes takes' : Takes) (now : ℕ) (s : VerdictSink) (between : Engine) (k v : ℕ)
    → s.exe_rules ≡ true
    → is_memo s now ≡ true
    → is_memo (record s { engine = between }) now ≡ false
    → (written takes now (record s { engine = between })).1 ≢ length (wanted between now)
    → takes k ≡ true
    → get k (wanted between now) ≡ some v
    → let failed = compile_rules takes now (record s { engine = between }) in
      let back = compile_rules takes' now (record failed { engine = s.engine }) in
      (back.kernel ≡ failed.kernel) × (get k back.kernel.exe_rules ≡ some v)
unfolding record_compiled
compile_rules_refused takes takes' now s between k v has memo moved short taken wants =
    let s2 : VerdictSink = record s { engine = between } in
    let failed = compile_rules_moved takes now s2 has moved in
    let still : is_memo (record (compile_rules takes now s2) { engine = s.engine }) now ≡ true =
      rw failed (ground arith) in
    rw
      (compile_rules_memo takes' now (record (compile_rules takes now s2) { engine = s.engine })
        still)
      (
        refl,
        rw failed (
            ground (
              arith,
              get-write_all takes (wanted between now)
                  (drop_stale (wanted between now) s.kernel.exe_rules) 0 k
                  (wanted-Unique between now),
            )),
      )
