-- ===== src/Nfqueue/Pipeline/Permitted.antt =====
-- What the pipeline lets pass, and why.
use colony_firewall_control.Prelude.{
  ℕ, ◌≡◌, ◌≢◌, ◌⊎◌, inl, inr, refl, sym, ap, ◌∙◌, Bool, true, false, Option, none, some, Bool-cases,
  arith,
}
use colony_firewall_control.Connection.{Connection, inbound, outbound}
use colony_firewall_control.Process.{Process}
use colony_firewall_control.Rule.{Rule, RuleSet, Action, allow, deny, reject, action_eq}
use colony_firewall_control.Rule.Lookup.{Match, rule, undecidable, no_match, lookup}
use colony_firewall_control.Rule.Lookup.Found.{Answers, lookup-Answers}
use colony_firewall_control.Verdict.{Verdict, from_rule, from_policy}
use colony_firewall_control.Engine.{
  Engine, Decision, resolved, needs_prompt, decide, peek, inbound_default, fallback_verdict,
}
use colony_firewall_control.Nfqueue.{accept, drop_it}
use colony_firewall_control.Nfqueue.Pipeline.{
  PipelineDeps, PacketMeta, PacketOutcome, silent, deliver, prompt, unanswered, conclude,
}

-- The packet is let pass at once.
abbrev pub lets_pass : PacketOutcome → Bool
lets_pass (silent accept) = true
lets_pass (silent drop_it) = false
lets_pass (deliver c p v) = action_eq v.action allow
lets_pass (prompt c p fallback undecided) = false

abbrev pub asks : PacketOutcome → Bool
asks (prompt c p fallback undecided) = true
asks (silent v) = false
asks (deliver c p v) = false

-- A rule let the packet pass: a live Allow of the engine's that matches what was made of it.
abbrev pub ByRule : Engine → ℕ → PacketOutcome → Type 0
ByRule e now outcome =
    (c : Connection) × (p : Process) × (r : Rule) × (outcome ≡ deliver c p (from_rule allow r.id))
    × (r.action ≡ allow)
    × Answers c p now e.rules r

-- No rule is about the flow, or could be.
abbrev pub Unruled : Engine → ℕ → PacketOutcome → Type 0
Unruled e now outcome =
    (c : Connection) × (p : Process) × (outcome ≡ deliver c p (from_policy allow))
    × (lookup (record { rules = e.rules }) c p now ≡ no_match)

pub action_allow : (a : Action) → action_eq a allow ≡ true → a ≡ allow
action_allow allow h = refl
action_allow deny h = cc
action_allow reject h = cc

allowed :
    (r : Rule) (v : Verdict)
    → from_rule r.action r.id ≡ v
    → action_eq v.action allow ≡ true
    → r.action ≡ allow
allowed r v same h = action_allow r.action (ap (λ (w : Verdict). action_eq w.action allow) same ∙ h)

same_verdict :
    (r : Rule) (v : Verdict)
    → from_rule r.action r.id ≡ v
    → action_eq v.action allow ≡ true
    → v ≡ from_rule allow r.id
same_verdict r v same h = sym same ∙ ap (λ (a : Action). from_rule a r.id) (allowed r v same h)

decide_allow :
    (fallback v : Verdict) (m : Match)
    → decide fallback m ≡ resolved v
    → action_eq v.action allow ≡ true
    → (r : Rule) × (m ≡ rule r) × (v ≡ from_rule allow r.id) × (r.action ≡ allow)
unfolding decide
decide_allow fallback v (rule r) e h =
    (r, refl, same_verdict r v (ground (arith, e)) h, allowed r v (ground (arith, e)) h)
decide_allow fallback v (undecidable r) e h = absurd (ground (arith, e, h))
decide_allow fallback v no_match e h = cc

decide_unruled :
    (fallback f : Verdict) (m : Match) → decide fallback m ≡ needs_prompt f none → m ≡ no_match
unfolding decide
decide_unruled fallback f (rule r) e = cc
decide_unruled fallback f (undecidable r) e = ground (arith, e)
decide_unruled fallback f no_match e = refl

pub Decision-cases :
    (d : Decision)
    → ((v : Verdict) × (d ≡ resolved v)) ⊎ ((f : Verdict) × (u : Option ℕ) × (d ≡ needs_prompt f u))
Decision-cases (resolved v) = inl (v, refl)
Decision-cases (needs_prompt f u) = inr (f, u, refl)

pub peek-ByRule :
    (e : Engine) (c : Connection) (p : Process) (now : ℕ) (v : Verdict)
    → peek e c p now ≡ resolved v
    → action_eq v.action allow ≡ true
    → ByRule e now (deliver c p v)
unfolding peek
peek-ByRule e c p now v d h =
    let set : RuleSet = record { rules = e.rules } in
    let (r, found, same, allows) = decide_allow (fallback_verdict e) v (lookup set c p now) d h in
    (c, p, r, ap (deliver c p) same, allows, lookup-Answers set c p now r found)

-- What is refused without a question.
abbrev pub Refused : PacketOutcome → Type 0
Refused outcome = (lets_pass outcome ≡ false) × (asks outcome ≡ false)

pub not_allow : (a : Action) → a ≢ allow → action_eq a allow ≡ false
not_allow allow h = absurd (h refl)
not_allow deny h = refl
not_allow reject h = refl

module _ (deps : PipelineDeps) (meta : PacketMeta) (now : ℕ) (c : Connection) (p : Process) where
  pub conclude-inbound :
      (d : Decision)
      → peek deps.engine c p now ≡ d
      → c.direction ≡ inbound
      → inbound_default deps.engine ≢ allow
      → Refused (conclude deps meta c p d) ⊎ ByRule deps.engine now (conclude deps meta c p d)
  unfolding conclude unanswered
  conclude-inbound (resolved v) e i closed = elim (Bool-cases (action_eq v.action allow)) [
    | inl h ↦ inr (peek-ByRule deps.engine c p now v e h)
    | inr h ↦ inl (h, refl)
  ]
  conclude-inbound (needs_prompt f u) e i closed =
      inl (rw i (not_allow (inbound_default deps.engine) closed), rw i refl)

  unanswered_why :
      (f : Verdict) (u : Option ℕ)
      → c.direction ≡ outbound
      → lets_pass (unanswered deps meta c p f u) ≡ true
      → (u ≡ none)
        × (unanswered deps meta c p f u ≡ deliver c p (from_policy allow))
        × ((meta.loopback ≡ true) ⊎ (deps.paused ≡ true))
  unfolding unanswered
  unanswered_why f none o h = ground (arith, o, h)
  unanswered_why f (some u) o h = absurd (ground (arith, o, h))

  pub conclude-outbound :
      (d : Decision)
      → peek deps.engine c p now ≡ d
      → c.direction ≡ outbound
      → lets_pass (conclude deps meta c p d) ≡ true
      → ByRule deps.engine now (conclude deps meta c p d)
        ⊎ (Unruled deps.engine now (conclude deps meta c p d)
            × ((meta.loopback ≡ true) ⊎ (deps.paused ≡ true)))
  unfolding conclude peek
  conclude-outbound (resolved v) e o h = inl (peek-ByRule deps.engine c p now v e h)
  conclude-outbound (needs_prompt f u) e o h =
      let (settled, delivered, why) = unanswered_why f u o h in
      inr (
        (
          c,
          p,
          delivered,
          decide_unruled (fallback_verdict deps.engine) f
              (lookup (record { rules = deps.engine.rules }) c p now)
              (e ∙ ap (needs_prompt f) settled),
        ),
        why,
      )
