-- ===== src/Nfqueue.antt =====
-- crates/cfc-daemon/src/nfqueue/mod.rs: the thread that owns the packet queue. Nfqueue/Pipeline
-- decides one packet, Nfqueue/Worker keeps the packets that wait for an answer.
pub mod Pipeline
pub mod Worker
use colony_firewall_control.Prelude.{ℕ, ◌==◌, if◌then◌else◌, Bool, ◌&&◌, not, Option}
use colony_firewall_control.Connection.{Direction, outbound, inbound}
use colony_firewall_control.Rule.{Action, allow, deny, reject}
use colony_firewall_control.Stats.{Stats, record_allow, record_deny}

-- The verdicts of the queue library.
pub data NfqVerdict : Type 0 where
  accept drop_it : NfqVerdict

abbrev pub nf_inet_local_out : ℕ
nf_inet_local_out = 3

-- Every hook but the local output counts as inbound.
unfoldable pub direction_for_hook : ℕ → Direction
direction_for_hook hook = if hook == nf_inet_local_out then outbound else inbound

unfoldable pub nfq_verdict_for : Action → NfqVerdict
nfq_verdict_for allow = accept
nfq_verdict_for deny = drop_it
nfq_verdict_for reject = drop_it

unfoldable pub record_action : Stats → Action → Stats
unfolding record_allow record_deny
record_action s allow = record_allow s
record_action s deny = record_deny s
record_action s reject = record_deny s
