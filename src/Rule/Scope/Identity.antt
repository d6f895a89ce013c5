-- ===== src/Rule/Scope/Identity.antt =====
-- A partly known process: what `undecidable_for` and `matches_process` say of the processes that it
-- could turn out to be.
use colony_firewall_control.Prelude.{
  ℕ, ◌+◌, ◌≡◌, ◌⊎◌, inl, inr, Bool, true, false, Option, none, some, [], ◌∷◌, if◌then◌else◌,
  is_some, or, Text, text_eq, text_eq_refl, text_eq-cons, text_eq_comm, Option-cases, ok, arith,
}
use mathlib.Core.Option.{get_or}
use colony_firewall_control.Process.{Process, exe_is_known}
use colony_firewall_control.Rule.{RuleScope}
use colony_firewall_control.Rule.Scope.{
  undecidable_for, matches_process, exe_differs, exe_fails, sha256_differs, sha256_fails,
  uid_differs, uid_fails, lacks, lacks_exe,
}
use colony_firewall_control.Rule.Guards.{reject_unmatchable_exe}

-- `q` keeps whatever is known of `p`.
pub record Learns (p q : Process) : Type 0 where
  pub exe : (exe_is_known p ≡ false) ⊎ (q.exe ≡ p.exe)
  pub sha256 : (p.sha256 ≡ none) ⊎ (q.sha256 ≡ p.sha256)
  pub uid : (p.uid ≡ none) ⊎ (q.uid ≡ p.uid)

-- The same, with nothing left unknown.
pub record Attributes (p q : Process) : Type 0 where
  pub learns : Learns p q
  pub exe_known : exe_is_known q ≡ true
  pub sha256_known : is_some q.sha256 ≡ true
  pub uid_known : is_some q.uid ≡ true

-- One predicate of a scope, before and after more is learnt: `d` it differs, `l` it is lacking,
-- `f` it fails.
abbrev Follows : Bool → Bool → Bool → Bool → Bool → Bool → Type 0
Follows d l f d' l' f' =
    (d ≡ true → (d' ≡ true) × (f ≡ true) × (f' ≡ true))
    × (l ≡ false → (d' ≡ d) × (l' ≡ false) × (f' ≡ f))

exe-Follows :
    (path : Option Text) (p q : Process)
    → (exe_is_known p ≡ false) ⊎ (q.exe ≡ p.exe)
    → Follows
        (exe_differs path p)
        (lacks_exe path p)
        (exe_fails path p)
        (exe_differs path q)
        (lacks_exe path q)
        (exe_fails path q)
unfolding exe_differs lacks_exe exe_fails exe_is_known
exe-Follows none p q h = ground arith
exe-Follows (some path) p q (inl u) = ground arith
exe-Follows (some path) p q (inr e) = rw e (ground arith)

sha256-Follows :
    (x a b : Option Text)
    → (a ≡ none) ⊎ (b ≡ a)
    → Follows
        (sha256_differs x a)
        (lacks x a)
        (sha256_fails x a)
        (sha256_differs x b)
        (lacks x b)
        (sha256_fails x b)
unfolding sha256_differs lacks sha256_fails
sha256-Follows none a b h = ground arith
sha256-Follows (some x) none b h = ground arith
sha256-Follows (some x) (some y) b (inl e) = cc
sha256-Follows (some x) (some y) b (inr e) = rw e (ground (arith, text_eq_comm x y))

uid-Follows :
    (x a b : Option ℕ)
    → (a ≡ none) ⊎ (b ≡ a)
    → Follows
        (uid_differs x a)
        (lacks x a)
        (uid_fails x a)
        (uid_differs x b)
        (lacks x b)
        (uid_fails x b)
unfolding uid_differs lacks uid_fails
uid-Follows x a b h = ground arith

-- A scope that can be decided for a process stays decided, with the same answer, whatever more is
-- learnt of the process.
pub undecidable_for-Learns :
    (s : RuleScope) (p q : Process)
    → undecidable_for s p ≡ false
    → Learns p q
    → (undecidable_for s q ≡ false) × (matches_process s q ≡ matches_process s p)
unfolding undecidable_for matches_process
undecidable_for-Learns s p q h l = ground (
  arith,
  exe-Follows s.exe_path p q l.exe,
  sha256-Follows s.exe_sha256 p.sha256 q.sha256 l.sha256,
  uid-Follows s.uid p.uid q.uid l.uid,
)

-- The process that the scope asks for, and one that differs from it in all that is unknown of `p`.
abbrev meets : RuleScope → Process → Process
meets s p = record p {
  exe = if exe_is_known p then p.exe else get_or s.exe_path (b'/' ∷ []);
  sha256 = or (or p.sha256 s.exe_sha256) (some []);
  uid = or (or p.uid s.uid) (some 0);
}

abbrev misses : RuleScope → Process → Process
misses s p = record p {
  exe = if exe_is_known p then p.exe else b'/' ∷ get_or s.exe_path [];
  sha256 = or p.sha256 (some (0 ∷ get_or s.exe_sha256 []));
  uid = or p.uid (some (get_or s.uid 0 + 1));
}

meets-Attributes :
    (s : RuleScope) (p : Process) → reject_unmatchable_exe s ≡ ok tt → Attributes p (meets s p)
unfolding exe_is_known reject_unmatchable_exe text_eq
meets-Attributes s p g = ground arith

misses-Attributes : (s : RuleScope) (p : Process) → Attributes p (misses s p)
unfolding exe_is_known text_eq
misses-Attributes s p = ground arith

meets-matches :
    (s : RuleScope) (p : Process)
    → reject_unmatchable_exe s ≡ ok tt
    → undecidable_for s p ≡ true
    → matches_process s (meets s p) ≡ true
unfolding undecidable_for matches_process exe_is_known exe_differs exe_fails sha256_differs
    sha256_fails uid_differs uid_fails lacks lacks_exe reject_unmatchable_exe
meets-matches s p g h = ground (
  arith,
  Option-cases s.exe_path,
  Option-cases s.exe_sha256,
  Option-cases s.uid,
  Option-cases p.sha256,
  Option-cases p.uid,
  text_eq_comm (get_or s.exe_sha256 []) (get_or p.sha256 []),
  text_eq_refl (get_or s.exe_sha256 []),
  text_eq_refl (get_or s.exe_path []),
)

misses-matches :
    (s : RuleScope) (p : Process)
    → undecidable_for s p ≡ true
    → matches_process s (misses s p) ≡ false
unfolding undecidable_for matches_process exe_is_known text_eq exe_differs exe_fails sha256_differs
    sha256_fails uid_differs uid_fails lacks lacks_exe
misses-matches s p h = ground (
  arith,
  Option-cases s.exe_path,
  Option-cases s.exe_sha256,
  Option-cases s.uid,
  text_eq-cons b'/' (get_or s.exe_path []),
  text_eq-cons 0 (get_or s.exe_sha256 []),
)

-- A scope with a matchable executable path that is undecidable for a process has two full
-- identities of that process that disagree: one is matched by the scope and one is not.
pub undecidable_for-disagree :
    (s : RuleScope) (p : Process)
    → reject_unmatchable_exe s ≡ ok tt
    → undecidable_for s p ≡ true
    → (q r : Process) × Attributes p q
      × Attributes p r
      × (matches_process s q ≡ true)
      × (matches_process s r ≡ false)
undecidable_for-disagree s p g h = (
  meets s p,
  misses s p,
  meets-Attributes s p g,
  misses-Attributes s p,
  meets-matches s p g h,
  misses-matches s p h,
)
