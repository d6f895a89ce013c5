-- ===== src/Rule/Lookup/Standing.antt =====
-- The three ways in which a rule can stand to a flow, and the walk of `RuleSet::lookup` over them.
use colony_firewall_control.Prelude.{
  ℕ, ◌≡◌, refl, ap, Bool, false, not, ◌&&◌, Option, none, some, List, [], ◌∷◌, if◌then◌else◌,
  is_some, is_none, retain, arith,
}
use colony_firewall_control.Connection.{Connection}
use colony_firewall_control.Process.{Process}
use colony_firewall_control.Rule.{Rule, RuleSet}
use colony_firewall_control.Rule.Scope.{undecidable_for, matches_process, matches_known_connection}
use colony_firewall_control.Rule.Lookup.{
  Walk, Match, start, carry_on, break_off, is_allow, generic, remember, visit, walk, conclude,
  is_live, lookup,
}

-- The rule is not about the flow, it could be about it, it is about it.
pub data Standing : Type 0 where
  excluded possible applies : Standing

unfoldable pub standing : Connection → Process → Rule → Standing
standing c p r =
    if not (matches_known_connection r.scope c)
    then excluded
    else if undecidable_for r.scope p
    then possible
    else if not (matches_process r.scope p)
    then excluded
    else if is_some r.scope.dst_host
    then possible
    else applies

-- A held generic Allow lets only program rules through.
abbrev pub skips : Walk → Rule → Bool
skips w r = is_some w.generic_allow && generic r

abbrev pub becomes_held : Walk → Rule → Bool
becomes_held w r = is_none w.generic_allow && is_allow r && generic r

unfoldable pub next : Standing → Walk → Rule → Walk
next excluded w r = w
next possible w r = if skips w r then w else remember w r
next applies w r =
    if skips w r then w else if becomes_held w r then record w { generic_allow = some r } else w

unfoldable pub stops : Standing → Walk → Rule → Bool
stops excluded w r = false
stops possible w r = false
stops applies w r = not (skips w r) && not (becomes_held w r)

-- The loop over any assignment of standings.
unfoldable pub walk_at : (Rule → Standing) → Walk → List Rule → Walk × Option Rule
walk_at σ w [] = (w, none)
walk_at σ w (r ∷ rs) =
    let rest = walk_at σ (next (σ r) w r) rs in if stops (σ r) w r then (w, some r) else rest

visit-standing :
    (c : Connection) (p : Process) (w : Walk) (r : Rule)
    → visit c p w r
      ≡ (if stops (standing c p r) w r then break_off else carry_on (next (standing c p r) w r))
unfolding visit standing stops next
visit-standing c p w r = ground arith

walk-walk_at :
    (c : Connection) (p : Process) (w : Walk) (rs : List Rule)
    → walk c p w rs ≡ walk_at (standing c p) w rs
unfolding walk walk_at
walk-walk_at c p w [] = refl
walk-walk_at c p w (r ∷ rs) =
    ground (arith, visit-standing c p w r, walk-walk_at c p (next (standing c p r) w r) rs)

unfoldable pub lookup_at : (Rule → Standing) → List Rule → Match
lookup_at σ rs = conclude (walk_at σ start rs)

-- The code's walk is the walk over the standings of the flow.
pub lookup-lookup_at :
    (set : RuleSet) (c : Connection) (p : Process) (now : ℕ)
    → lookup set c p now ≡ lookup_at (standing c p) (retain (is_live now) set.rules)
unfolding lookup lookup_at
lookup-lookup_at set c p now = ap conclude (walk-walk_at c p start (retain (is_live now) set.rules))
