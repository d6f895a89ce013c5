-- ===== src/Enforce/Programs.antt =====
-- crates/cfc-daemon/src/ebpf/enforce.rs: what is decided for a program without its user holds for
-- every process of that program.
use mathlib.Core.Option.{get_or}
use colony_firewall_control.Prelude.{
  ℕ, ◌≡◌, Bool, true, false, not, ◌&&◌, none, some, List, [], ◌∷◌, is_some, is_none, any, retain,
  Text, text_eq, arith, ◌⊎◌, inl, inr, Option-cases, Bool-cases, eq_of_text_eq,
}
use colony_firewall_control.Process.{Process, exe_is_known}
use colony_firewall_control.Rule.{Rule, RuleScope, Action}
use colony_firewall_control.Rule.Scope.{
  undecidable_for, matches_process, exe_differs, sha256_differs, uid_differs, lacks_exe, lacks,
  exe_fails, sha256_fails, uid_fails,
}
use colony_firewall_control.Rule.Lookup.{is_live}
use colony_firewall_control.Engine.{
  Engine, wide, paths, process_wide_action, denies_process_wide, compilable_exe_paths,
}
use colony_firewall_control.Enforce.{synthetic}

-- A scope that asks for a user names another program.
abbrev OtherUser : Text → RuleScope → Type 0
OtherUser path s = (s.uid ≡ none) ⊎ ((q : Text) × (s.exe_path ≡ some q) × (text_eq path q ≡ false))

-- The condition on the rules, for all of them.
abbrev AllOther : Text → List Rule → Type 0
AllOther path [] = Unit
AllOther path (r ∷ rs) = OtherUser path r.scope × AllOther path rs

module _ (path : Text) (p : Process) (same : p.exe ≡ path) where
  decided :
      (s : RuleScope)
      → OtherUser path s
      → undecidable_for s (synthetic path) ≡ false
      → (undecidable_for s p ≡ false) × (matches_process s p ≡ matches_process s (synthetic path))
  unfolding undecidable_for matches_process exe_differs sha256_differs uid_differs lacks_exe lacks
      exe_fails sha256_fails uid_fails exe_is_known synthetic
  decided s (inl e) h = (ground arith, ground arith)
  decided s (inr (q, e, f)) h = (ground arith, ground arith)

  abbrev Carries : Bool → List Rule → Action → Type 0
  Carries saw rs a = wide (synthetic path) saw rs ≡ some a → wide p saw rs ≡ some a

  wide_round :
      (saw : Bool) (r : Rule) (rs : List Rule) (a : Action)
      → OtherUser path r.scope
      → Carries saw rs a
      → Carries true rs a
      → Carries saw (r ∷ rs) a
  unfolding wide
  wide_round saw r rs a o kept passed h = ground (arith, decided r.scope o, kept, passed)

  wide-synthetic : (saw : Bool) (rs : List Rule) (a : Action) → AllOther path rs → Carries saw rs a
  unfolding wide
  wide-synthetic saw [] a o h = cc
  wide-synthetic saw (r ∷ rs) a o h =
      wide_round saw r rs a o.0 (wide-synthetic saw rs a o.1) (wide-synthetic true rs a o.1) h

OtherUser-cases :
    (path : Text) (s : RuleScope)
    → (is_some s.uid && is_none s.exe_path) ≡ false
    → (is_some s.uid ≡ true → (q : Text) → s.exe_path ≡ some q → text_eq path q ≡ false)
    → OtherUser path s
OtherUser-cases path s h k = elim (Option-cases s.uid) [
  | inl e ↦ inl e
  | inr (u, e) ↦ elim (Option-cases s.exe_path) [
    | inl none_named ↦ absurd (ground arith)
    | inr (q, named) ↦ inr (q, named, k (ground arith) q named)
  ]
]

-- The scopes that `compilable_exe_paths` lets a program through.
AllOther-compilable :
    (path : Text) (rs : List Rule)
    → any (λ (r : Rule). is_some r.scope.uid && is_none r.scope.exe_path) rs ≡ false
    → any (text_eq path) (paths (retain (λ (r : Rule). is_some r.scope.uid) rs)) ≡ false
    → AllOther path rs
unfolding any retain paths
AllOther-compilable path [] h k = tt
AllOther-compilable path (r ∷ rs) h k = (
  OtherUser-cases path r.scope (ground arith) (λ asked q named. ground arith),
  AllOther-compilable path rs (ground arith) (ground arith),
)

any-retain :
    (path : Text) (keeps : Text → Bool) (xs : List Text)
    → any (text_eq path) (retain keeps xs) ≡ true
    → keeps path ≡ true
unfolding any retain
any-retain path keeps [] h = cc
any-retain path keeps (x ∷ xs) h = elim (Bool-cases (keeps x)) [
  | inl kept ↦ elim (Bool-cases (text_eq path x)) [
    | inl e ↦ rw (eq_of_text_eq path x e) kept
    | inr e ↦ any-retain path keeps xs (ground arith)
  ]
  | inr dropped ↦ any-retain path keeps xs (ground arith)
]

-- The program is one that `compilable_exe_paths` gives.
abbrev pub IsCompilable : Engine → ℕ → Text → Type 0
IsCompilable e now path = any (text_eq path) (get_or (compilable_exe_paths e now) []) ≡ true

IsCompilable-AllOther :
    (e : Engine) (now : ℕ) (path : Text)
    → IsCompilable e now path
    → AllOther path (retain (is_live now) e.rules)
unfolding compilable_exe_paths any
IsCompilable-AllOther e now path h =
    let live = retain (is_live now) e.rules in
    let scoped = paths (retain (λ (r : Rule). is_some r.scope.uid) live) in
    elim (Bool-cases (any (λ (r : Rule). is_some r.scope.uid && is_none r.scope.exe_path) live)) [
      | inl open_to_all ↦ absurd (ground arith)
      | inr bound ↦
          let kept : any (text_eq path) (retain (λ q. not (any (text_eq q) scoped)) (paths live))
              ≡ true =
            ground arith in
          AllOther-compilable path live bound
            (ground (arith, any-retain path (λ q. not (any (text_eq q) scoped)) (paths live)))
    ]

-- A program that may be compiled and is denied with its user unknown is denied in each of its
-- processes.
pub denies-synthetic :
    (e : Engine) (now : ℕ) (path : Text) (p : Process)
    → p.exe ≡ path
    → IsCompilable e now path
    → denies_process_wide e (synthetic path) now ≡ true
    → denies_process_wide e p now ≡ true
unfolding denies_process_wide process_wide_action
denies-synthetic e now path p same h d =
    let rs = retain (is_live now) e.rules in
    elim (Option-cases (wide (synthetic path) false rs)) [
      | inl abstains ↦ absurd (ground arith)
      | inr (a, answers) ↦
          let also =
            wide-synthetic path p same false rs a (IsCompilable-AllOther e now path h) answers in
          ground arith
    ]
