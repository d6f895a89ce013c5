-- ===== src/Config/Inbound.antt =====
-- The inbound default that a configuration file can set.
use colony_firewall_control.Prelude.{if◌then◌else◌, ◌≡◌, ◌≢◌, refl, arith}
use mathlib.Core.Option.{get_or}
use colony_firewall_control.Rule.{Action, action_eq, allow, deny, reject}
use colony_firewall_control.Config.{DefaultPolicy, DefaultPolicyToml, inbound_choice, resolve}

inbound_choice_lem :
    (a : Action)
    → (inbound_choice a ≢ allow) × (inbound_choice a ≡ (if action_eq a allow then deny else a))
inbound_choice_lem allow = ((λ h. ground arith), refl)
inbound_choice_lem deny = ((λ h. ground arith), refl)
inbound_choice_lem reject = ((λ h. ground arith), refl)

-- Whatever the table and the profile say, the inbound default of the resolved policy is not Allow:
-- it is what they choose, but Deny where they choose Allow.
pub resolve-inbound_action :
    (t : DefaultPolicyToml) (base : DefaultPolicy)
    → ((resolve t base).inbound_action ≢ allow)
      × ((resolve t base).inbound_action ≡ (
          let chosen = get_or t.inbound_action base.inbound_action in
          if action_eq chosen allow then deny else chosen))
unfolding resolve
resolve-inbound_action t base = inbound_choice_lem (get_or t.inbound_action base.inbound_action)
