-- ===== src/Process.antt =====
-- crates/cfc-core/src/process.rs: the local program that owns a flow.
use colony_firewall_control.Prelude.{ℕ, Bool, not, Option, none, List, [], Text, codes, text_eq}

pub data Provenance : Type 0 where
  unknown_provenance unpackaged verified modified : Provenance

pub record Process : Type 0 where
  pub pid : ℕ
  pub ppid : Option ℕ
  pub uid : Option ℕ
  pub gid : Option ℕ
  pub exe : Text
  pub cmdline : List Text
  pub cwd : Option Text
  pub sha256 : Option Text
  pub started_at : Option ℕ
  pub package_name : Option Text
  pub provenance : Provenance

-- `UNKNOWN_EXE`, the placeholder for a program that could not be identified.
abbrev pub unknown_exe : Text
unknown_exe = codes "<unknown>"

unfoldable pub exe_is_known : Process → Bool
exe_is_known p = not (text_eq p.exe unknown_exe)

unfoldable pub unknown : ℕ → Process
unknown pid = record {
  pid = pid;
  ppid = none;
  uid = none;
  gid = none;
  exe = unknown_exe;
  cmdline = [];
  cwd = none;
  sha256 = none;
  started_at = none;
  package_name = none;
  provenance = unknown_provenance;
}
