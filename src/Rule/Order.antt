-- ===== src/Rule/Order.antt =====
-- crates/cfc-core/src/rule.rs: `RuleSet::sort_deterministic`. The standard library's stable sort
-- is an insertion sort here; a stable sort has one result.
pub mod Sorting
use colony_firewall_control.Prelude.{ℕ, Bool, true, false, List, [], ◌∷◌, ltb, leb, if◌then◌else◌}
use colony_firewall_control.Rule.{Rule, RuleSet, Action, allow, deny, reject}
use colony_firewall_control.Rule.Scope.{specificity}

unfoldable pub action_rank : Action → ℕ
action_rank deny = 0
action_rank reject = 1
action_rank allow = 2

-- The key's lexicographic order, the first component reversed: `r` sorts no later than `s`.
unfoldable pub precedes : Rule → Rule → Bool
unfolding action_rank
precedes r s =
    if ltb (specificity s.scope) (specificity r.scope)
    then true
    else if ltb (specificity r.scope) (specificity s.scope)
    then false
    else if ltb (action_rank r.action) (action_rank s.action)
    then true
    else if ltb (action_rank s.action) (action_rank r.action)
    then false
    else if ltb r.created_at s.created_at
    then true
    else if ltb s.created_at r.created_at
    then false
    else leb r.id s.id

unfoldable pub insert : Rule → List Rule → List Rule
insert r [] = r ∷ []
insert r (s ∷ rs) = let rest = insert r rs in if precedes r s then r ∷ s ∷ rs else s ∷ rest

unfoldable pub sort : List Rule → List Rule
sort [] = []
sort (r ∷ rs) = insert r (sort rs)

unfoldable pub sort_deterministic : RuleSet → RuleSet
unfolding sort
sort_deterministic set = record { rules = sort set.rules }
