-- ===== src/Nfqueue/Pipeline/Gate.antt =====
-- `handle_packet` at the two directions.
use colony_firewall_control.Prelude.{
  ℕ, ◌≡◌, ◌≢◌, ◌⊎◌, inl, inr, refl, sym, ap, ◌∙◌, true, false, ◌&&◌, Option, none, some, ◌==◌,
  is_some_and, Bool-cases, Option-cases, Result-cases, err, ok, arith,
}
use colony_firewall_control.Connection.{Connection, inbound, outbound, Stamp}
use colony_firewall_control.Process.{Process}
use colony_firewall_control.Packet.{Bytes, parse, Fault}
use colony_firewall_control.Packet.Directed.{parse-direction}
use colony_firewall_control.Rule.{Action, allow, deny, reject, action_eq}
use colony_firewall_control.Engine.{Engine, peek, evaluate, inbound_default, fallback_verdict}
use colony_firewall_control.Nfqueue.{accept, nfq_verdict_for}
use colony_firewall_control.Nfqueue.Pipeline.{
  PipelineDeps, PacketMeta, PacketOutcome, silent, SocketOwner, owner_of, is_own, attribute,
  with_owner, with_cached_host, unparseable, conclude, judge, handle_packet,
}
use colony_firewall_control.Nfqueue.Pipeline.Permitted.{
  lets_pass, ByRule, Unruled, Refused, action_allow, not_allow, conclude-inbound, conclude-outbound,
}

-- The flow and the process that the rules are asked about.
abbrev judged_process : PipelineDeps → PacketMeta → Connection → Process
judged_process deps meta c = attribute deps meta (owner_of deps meta c)

abbrev judged_flow : PipelineDeps → PacketMeta → Connection → Connection
judged_flow deps meta c =
    with_cached_host deps (with_owner (owner_of deps meta c) (judged_process deps meta c) c)

with_owner-direction :
    (owner : Option SocketOwner) (p : Process) (c : Connection)
    → (with_owner owner p c).direction ≡ c.direction
unfolding with_owner
with_owner-direction none p c = refl
with_owner-direction (some owner) p c = ground arith

with_cached_host-direction :
    (deps : PipelineDeps) (c : Connection) → (with_cached_host deps c).direction ≡ c.direction
unfolding with_cached_host
with_cached_host-direction deps c = ground arith

judged_flow-direction :
    (deps : PipelineDeps) (meta : PacketMeta) (c : Connection)
    → (judged_flow deps meta c).direction ≡ c.direction
judged_flow-direction deps meta c =
    with_cached_host-direction deps
      (with_owner (owner_of deps meta c) (judged_process deps meta c) c)
    ∙ with_owner-direction (owner_of deps meta c) (judged_process deps meta c) c

judge_others :
    (deps : PipelineDeps) (meta : PacketMeta) (now : ℕ) (c : Connection)
    → is_own deps meta (owner_of deps meta c) ≡ false
    → let f = judged_flow deps meta c in
      let p = judged_process deps meta c in
      (judge deps meta now c).1 ≡ conclude deps meta f p (peek deps.engine f p now)
unfolding judge evaluate
judge_others deps meta now c e = rw e refl

judge_own :
    (deps : PipelineDeps) (meta : PacketMeta) (now : ℕ) (c : Connection)
    → is_own deps meta (owner_of deps meta c) ≡ true
    → (judge deps meta now c).1 ≡ silent accept
unfolding judge
judge_own deps meta now c e = rw e refl

-- The lookup found a process of the daemon, and the kernel says that root owns the socket.
abbrev pub Own : PipelineDeps → PacketMeta → Connection → Type 0
Own deps meta c =
    (owner : SocketOwner) × (owner_of deps meta c ≡ some owner)
    × (deps.dns.is_self owner.pid ≡ true)
    × (meta.uid ≡ some 0)

some_zero : (u : Option ℕ) → is_some_and u (◌==◌ 0) ≡ true → u ≡ some 0
some_zero none h = cc
some_zero (some u) h = ground (arith, h)

is_own-Own :
    (deps : PipelineDeps) (meta : PacketMeta) (c : Connection)
    → is_own deps meta (owner_of deps meta c) ≡ true
    → Own deps meta c
unfolding is_own
is_own-Own deps meta c h = elim (Option-cases (owner_of deps meta c)) [
  | inl e ↦ let never : is_own deps meta none ≡ true = rw e at h in cc
  | inr (owner, e) ↦
      let own : deps.dns.is_self owner.pid && is_some_and meta.uid (◌==◌ 0) ≡ true = rw e at h in
      (owner, e, ground (arith, own), some_zero meta.uid (ground (arith, own)))
]

inbound_unowned :
    (deps : PipelineDeps) (meta : PacketMeta) (c : Connection)
    → c.direction ≡ inbound
    → is_own deps meta (owner_of deps meta c) ≡ false
unfolding is_own owner_of
inbound_unowned deps meta c i = rw i refl

lets_pass-silent : (a : Action) → lets_pass (silent (nfq_verdict_for a)) ≡ action_eq a allow
unfolding nfq_verdict_for
lets_pass-silent allow = refl
lets_pass-silent deny = refl
lets_pass-silent reject = refl

unparseable-Refused :
    (deps : PipelineDeps) (meta : PacketMeta)
    → meta.direction ≡ inbound
    → inbound_default deps.engine ≢ allow
    → Refused (unparseable deps meta)
unfolding unparseable
unparseable-Refused deps meta i closed = (
  rw i (
      lets_pass-silent (inbound_default deps.engine)
      ∙ not_allow (inbound_default deps.engine) closed),
  refl,
)

unparseable-allow :
    (deps : PipelineDeps) (meta : PacketMeta)
    → meta.direction ≡ outbound
    → lets_pass (unparseable deps meta) ≡ true
    → (fallback_verdict deps.engine).action ≡ allow
unfolding unparseable
unparseable-allow deps meta o h =
    let a = (fallback_verdict deps.engine).action in
    action_allow a (sym (lets_pass-silent a) ∙ (rw o at h))

module _ (deps : PipelineDeps) (meta : PacketMeta) (stamp : Stamp) (now : ℕ) (payload : Bytes) where
  handle_packet-unparseable :
      (x : Fault)
      → parse stamp payload meta.direction ≡ err x
      → handle_packet deps meta stamp now payload ≡ (deps.engine, unparseable deps meta)
  unfolding handle_packet
  handle_packet-unparseable x e = rw (handle_packet, e) refl

  handle_packet-judge :
      (c : Connection)
      → parse stamp payload meta.direction ≡ ok c
      → handle_packet deps meta stamp now payload ≡ judge deps meta now c
  unfolding handle_packet
  handle_packet-judge c e = rw (handle_packet, e) refl

  handle_packet-conclude :
      (c : Connection)
      → parse stamp payload meta.direction ≡ ok c
      → is_own deps meta (owner_of deps meta c) ≡ false
      → let f = judged_flow deps meta c in
        let p = judged_process deps meta c in
        (handle_packet deps meta stamp now payload).1
        ≡ conclude deps meta f p (peek deps.engine f p now)
  handle_packet-conclude c e others =
      ap (λ (x : Engine × PacketOutcome). x.1) (handle_packet-judge c e)
      ∙ judge_others deps meta now c others

-- With an inbound default other than Allow, an inbound packet is refused and nobody is asked, or a
-- live Allow rule that matches its flow lets it pass, and a packet that cannot be parsed is not
-- excepted.
pub handle_packet-inbound :
    (deps : PipelineDeps) (meta : PacketMeta) (stamp : Stamp) (now : ℕ) (payload : Bytes)
    → meta.direction ≡ inbound
    → inbound_default deps.engine ≢ allow
    → let (_, outcome) = handle_packet deps meta stamp now payload in
      Refused outcome ⊎ ByRule deps.engine now outcome
handle_packet-inbound deps meta stamp now payload i closed =
    elim (Result-cases (parse stamp payload meta.direction)) [
      | inr (x, e) ↦
          rw (handle_packet-unparseable deps meta stamp now payload x e)
            (inl (unparseable-Refused deps meta i closed))
      | inl (c, e) ↦
          let way = parse-direction stamp payload meta.direction c e ∙ i in
          let others = inbound_unowned deps meta c way in
          rw (handle_packet-conclude deps meta stamp now payload c e others) (
            conclude-inbound deps meta now (judged_flow deps meta c) (judged_process deps meta c)
              (peek deps.engine (judged_flow deps meta c) (judged_process deps meta c) now) refl
              (judged_flow-direction deps meta c ∙ way) closed)
    ]

-- An outbound packet that is let pass at once is the daemon's own; or it could not be parsed and
-- the default is Allow; or a live Allow rule that matches its flow lets it pass; or no rule is or
-- could be about it, and it leaves by the loopback or prompting is paused.
pub handle_packet-outbound :
    (deps : PipelineDeps) (meta : PacketMeta) (stamp : Stamp) (now : ℕ) (payload : Bytes)
    → meta.direction ≡ outbound
    → let (_, outcome) = handle_packet deps meta stamp now payload in
      lets_pass outcome ≡ true
      → ((c : Connection) × (parse stamp payload outbound ≡ ok c) × Own deps meta c)
        ⊎ (((e : Fault) × (parse stamp payload outbound ≡ err e))
            × ((fallback_verdict deps.engine).action ≡ allow))
        ⊎ ByRule deps.engine now outcome
        ⊎ (Unruled deps.engine now outcome × ((meta.loopback ≡ true) ⊎ (deps.paused ≡ true)))
handle_packet-outbound deps meta stamp now payload o h =
    elim (Result-cases (parse stamp payload meta.direction)) [
      | inr (x, e) ↦
          let passed = rw (handle_packet-unparseable deps meta stamp now payload x e) at h in
          inr
            (inl ((x, ap (parse stamp payload) (sym o) ∙ e), unparseable-allow deps meta o passed))
      | inl (c, e) ↦ elim (Bool-cases (is_own deps meta (owner_of deps meta c))) [
        | inl own ↦ inl (c, ap (parse stamp payload) (sym o) ∙ e, is_own-Own deps meta c own)
        | inr others ↦
            let way = parse-direction stamp payload meta.direction c e ∙ o in
            let same = handle_packet-conclude deps meta stamp now payload c e others in
            inr (
              inr (
                rw same (
                  conclude-outbound deps meta now (judged_flow deps meta c)
                    (judged_process deps meta c)
                    (peek deps.engine (judged_flow deps meta c) (judged_process deps meta c) now)
                    refl (judged_flow-direction deps meta c ∙ way) (rw same at h))))
      ]
    ]
