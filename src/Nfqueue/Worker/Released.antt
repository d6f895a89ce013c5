-- ===== src/Nfqueue/Worker/Released.antt =====
-- What a packet that waited is told when its prompt is resolved.
use colony_firewall_control.Prelude.{
  ◌≡◌, ◌⊎◌, inl, inr, refl, ap, Bool, true, false, not, ◌&&◌, [], ◌∷◌, ◌++◌, Bool-cases, arith,
}
use colony_firewall_control.Rule.{Action, allow, deny, reject, action_eq}
use colony_firewall_control.Verdict.{Verdict}
use colony_firewall_control.Engine.{Decision, resolved, needs_prompt, peek}
use colony_firewall_control.Nfqueue.{drop_it, nfq_verdict_for}
use colony_firewall_control.Nfqueue.Pipeline
use colony_firewall_control.Nfqueue.Pipeline.Permitted.{ByRule, action_allow, peek-ByRule}
use colony_firewall_control.Nfqueue.Worker.{
  Worker, ParkedPacket, Surroundings, release, settled_verdict, unchosen, from_a_rule,
}
use colony_firewall_control.Nfqueue.Worker.Counted.{settled, credited, deliver-verdicts}

-- The rules refuse the flow.
abbrev pub refuses_now : Decision → Bool
refuses_now (resolved v) = not (action_eq v.action allow)
refuses_now (needs_prompt fallback undecided) = false

-- The prompt's answer stands, or the rules' decision takes its place.
settled_verdict-source :
    (answer : Verdict) (d : Decision)
    → (((settled_verdict answer d).0 ≡ answer) × (refuses_now d ≡ false))
      ⊎ ((d ≡ resolved (settled_verdict answer d).0)
          × ((refuses_now d ≡ true) ⊎ (unchosen answer.source ≡ true)))
unfolding settled_verdict
settled_verdict-source answer (needs_prompt f u) = inl (refl, refl)
settled_verdict-source answer (resolved v) = elim (Bool-cases (action_eq v.action allow)) [
  | inr e ↦ rw e (inr (refl, inl refl))
  | inl e ↦ elim (Bool-cases (from_a_rule v.source && unchosen answer.source)) [
    | inl g ↦ rw (e, g) (inr (refl, inr (ground (arith, g))))
    | inr g ↦ rw (e, g) (inl (refl, refl))
  ]
]

dropped : (a : Action) → action_eq a allow ≡ false → nfq_verdict_for a ≡ drop_it
unfolding nfq_verdict_for
dropped allow h = cc
dropped deny h = refl
dropped reject h = refl

unchosen_of :
    (answer : Verdict) (d : Decision) (v : Verdict)
    → d ≡ resolved v
    → (refuses_now d ≡ true) ⊎ (unchosen answer.source ≡ true)
    → action_eq v.action allow ≡ true
    → unchosen answer.source ≡ true
unchosen_of answer d v decided (inl refusal) e =
    absurd (ground (arith, ap refuses_now decided, refusal, e))
unchosen_of answer d v decided (inr why) e = why

-- A packet that waited is answered once. It is dropped; or the prompt's answer is Allow and the
-- rules as they now are do not refuse the flow; or the answer is a fallback that nobody chose and
-- a live Allow rule that matches lets the packet pass.
pub release-permitted :
    (s : Surroundings) (answer : Verdict) (packet : ParkedPacket) (w : Worker)
    → let v = (settled s answer packet w).verdict in
      ((release s answer packet w).verdicts
        ≡ w.verdicts ++ ((packet.message.id, nfq_verdict_for v.action) ∷ []))
      × ((nfq_verdict_for v.action ≡ drop_it)
          ⊎ ((answer.action ≡ allow)
              × (refuses_now (peek w.engine packet.connection packet.process s.now) ≡ false))
          ⊎ ((unchosen answer.source ≡ true)
              × ByRule w.engine s.now (Pipeline.deliver packet.connection packet.process v)))
unfolding release
release-permitted s answer packet w =
    let d = peek w.engine packet.connection packet.process s.now in
    let v = (settled_verdict answer d).0 in
    (
      deliver-verdicts s packet.message (settled s answer packet w) (credited s answer packet w),
      elim (Bool-cases (action_eq v.action allow)) [
        | inr e ↦ inl (dropped v.action e)
        | inl e ↦ elim (settled_verdict-source answer d) [
          | inl (same, kept) ↦ inr (inl (action_allow answer.action (rw same at e), kept))
          | inr (decided, why) ↦ inr (
              inr (
                unchosen_of answer d v decided why e,
                peek-ByRule w.engine packet.connection packet.process s.now v decided e,
              ))
        ]
      ],
    )
