-- ===== src/Enforce/Unattended.antt =====
-- crates/cfc-ebpf/src/main.rs with crates/cfc-daemon/src/ebpf/enforce.rs: a program that starts
-- while no daemon runs, and connects.
use colony_firewall_control.Prelude.{ℕ, ◌≡◌, take, Text, List, All}
use colony_firewall_control.Connection.{Connection}
use colony_firewall_control.Process.{Process}
use colony_firewall_control.Rule.{Rule, is_expired}
use colony_firewall_control.Verdict.{Verdict}
use colony_firewall_control.Engine.{Engine}
use colony_firewall_control.Kernel.{Kernel, ExecEvent}

abbrev path_of : ExecEvent → Text
path_of event = take event.filename_len event.filename

-- No rule expires between two instants.
abbrev pub Unexpired : ℕ → ℕ → List Rule → Type 0
Unexpired now later = All (λ r. is_expired r later ≡ is_expired r now)
