-- ===== src/Nfqueue/Pipeline.antt =====
-- `handle_packet` of crates/cfc-daemon/src/nfqueue/mod.rs: what is done with one packet. The two
-- traits that it takes, of the process lookup and of the host cache, are records of functions.
pub mod Permitted
pub mod Gate
use colony_firewall_control.Prelude.{
  ℕ, Bool, true, false, ◌&&◌, Option, none, some, ◌==◌, if◌then◌else◌, is_none, is_some_and, Text,
  err, ok, or,
}
use colony_firewall_control.Connection.{
  Connection, Direction, inbound, IpAddr, Protocol, Stamp, direction_eq, with_process,
  with_host_verified,
}
use colony_firewall_control.Process.{Process, unknown}
use colony_firewall_control.Packet.{Bytes, parse}
use colony_firewall_control.Rule.{Action}
use colony_firewall_control.Verdict.{Verdict, from_policy, default_allow}
use colony_firewall_control.Engine.{
  Engine, Decision, resolved, needs_prompt, evaluate, inbound_default, fallback_verdict,
}
use colony_firewall_control.Nfqueue.{NfqVerdict, accept, nfq_verdict_for}

-- What the lookup holds on to of the descriptor that it found.
pub record SocketOwner : Type 0 where
  pub pid : ℕ
  pub starttime : ℕ
  pub inode : ℕ
  pub fd : ℕ

pub record ProcessResolver : Type 0 where
  pub socket_owner : Protocol → Direction → IpAddr → ℕ → IpAddr → ℕ → Option ℕ → Option SocketOwner
  pub resolve : SocketOwner → Process

-- `enqueue` starts a lookup elsewhere; the worker's log holds the addresses.
pub record HostCache : Type 0 where
  pub is_self : ℕ → Bool
  pub cached_host : IpAddr → Option (Text × Bool)

pub record PacketMeta : Type 0 where
  pub uid : Option ℕ
  pub gid : Option ℕ
  pub direction : Direction
  pub loopback : Bool

pub record PipelineDeps : Type 0 where
  pub engine : Engine
  pub paused : Bool
  pub dns : HostCache
  pub resolver : ProcessResolver

pub data PacketOutcome : Type 0 where
  silent : NfqVerdict → PacketOutcome
  deliver : Connection → Process → Verdict → PacketOutcome
  prompt : Connection → Process → Verdict → Option ℕ → PacketOutcome

-- An inbound packet has no owner to look for.
unfoldable pub owner_of : PipelineDeps → PacketMeta → Connection → Option SocketOwner
owner_of deps meta c =
    if direction_eq c.direction inbound
    then none
    else deps.resolver.socket_owner c.protocol c.direction c.src_ip c.src_port c.dst_ip c.dst_port
        meta.uid

-- The daemon's own traffic.
unfoldable pub is_own : PipelineDeps → PacketMeta → Option SocketOwner → Bool
is_own deps meta none = false
is_own deps meta (some owner) = deps.dns.is_self owner.pid && is_some_and meta.uid (◌==◌ 0)

-- The kernel's identifiers override what the lookup found.
unfoldable pub attribute : PipelineDeps → PacketMeta → Option SocketOwner → Process
attribute deps meta owner =
    let found : Process = elim owner [ none ↦ unknown 0 | some o ↦ deps.resolver.resolve o ] in
    record found { uid = or meta.uid found.uid; gid = or meta.gid found.gid }

unfoldable pub with_owner : Option SocketOwner → Process → Connection → Connection
unfolding with_process
with_owner none p c = record c { uid = p.uid }
with_owner (some owner) p c = with_process c owner.pid p.uid

unfoldable pub with_cached_host : PipelineDeps → Connection → Connection
unfolding with_host_verified
with_cached_host deps c = elim (deps.dns.cached_host c.dst_ip) [
  | none ↦ c
  | some (host, verified) ↦ with_host_verified c host verified
]

-- What becomes of a flow that no rule answered.
unfoldable pub unanswered :
    PipelineDeps → PacketMeta → Connection → Process → Verdict → Option ℕ → PacketOutcome
unanswered deps meta c p fallback undecided =
    if direction_eq c.direction inbound
    then deliver c p (from_policy (inbound_default deps.engine))
    else if meta.loopback && is_none undecided
    then deliver c p default_allow
    else if deps.paused && is_none undecided
    then deliver c p default_allow
    else prompt c p fallback undecided

-- The default of an unparseable packet, for its direction.
unfoldable pub unparseable : PipelineDeps → PacketMeta → PacketOutcome
unfolding fallback_verdict inbound_default nfq_verdict_for
unparseable deps meta = silent (
    nfq_verdict_for (
      if direction_eq meta.direction inbound
      then inbound_default deps.engine
      else (fallback_verdict deps.engine).action))

unfoldable pub conclude :
    PipelineDeps → PacketMeta → Connection → Process → Decision → PacketOutcome
unfolding unanswered
conclude deps meta c p (resolved verdict) = deliver c p verdict
conclude deps meta c p (needs_prompt fallback undecided) =
    unanswered deps meta c p fallback undecided

-- From the parsed flow on; the engine comes back with its hit counted.
unfoldable pub judge : PipelineDeps → PacketMeta → ℕ → Connection → Engine × PacketOutcome
unfolding owner_of is_own attribute with_owner with_cached_host evaluate conclude
judge deps meta now parsed =
    let owner = owner_of deps meta parsed in
    let p = attribute deps meta owner in
    let c = with_cached_host deps (with_owner owner p parsed) in
    let (engine, decision) = evaluate deps.engine c p now in
    if is_own deps meta owner
    then (deps.engine, silent accept)
    else (engine, conclude deps meta c p decision)

unfoldable pub handle_packet :
    PipelineDeps → PacketMeta → Stamp → ℕ → Bytes → Engine × PacketOutcome
unfolding parse unparseable judge
handle_packet deps meta stamp now payload = elim (parse stamp payload meta.direction) [
  | err _ ↦ (deps.engine, unparseable deps meta)
  | ok parsed ↦ judge deps meta now parsed
]
