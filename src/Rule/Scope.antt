-- ===== src/Rule/Scope.antt =====
-- crates/cfc-core/src/rule.rs: what a scope asks of a process and of a connection.
pub mod Identity
use colony_firewall_control.Prelude.{
  ℕ, ◌+◌, Bool, true, false, not, ◌&&◌, ◌||◌, Option, none, some, List, [], ◌∷◌, ltb, ◌==◌,
  if◌then◌else◌, is_some, is_none, is_some_and, Text, text_eq,
}
use colony_firewall_control.Connection.{
  Connection, Direction, outbound, inbound, Protocol, tcp, udp, icmp, other, direction_eq,
  protocol_eq,
}
use colony_firewall_control.Process.{Process, exe_is_known}
use colony_firewall_control.Rule.{RuleScope, IpNet}

-- `RuleScope::any`.
unfoldable pub any : RuleScope
any = record {
  direction = none;
  exe_path = none;
  exe_sha256 = none;
  parent_exe = none;
  uid = none;
  dst_host = none;
  dst_net = none;
  dst_port = none;
  src_net = none;
  src_port = none;
  protocol = none;
}

abbrev narrows : Option IpNet → Bool
narrows net = is_some_and net (λ n. ltb 0 n.prefix_len)

-- `.filter(|set| *set).count()`; at most ten, so the cast to `u8` keeps it.
abbrev count_set : List Bool → ℕ
count_set [] = 0
count_set (b ∷ bs) = (if b then 1 else 0) + count_set bs

unfoldable pub specificity : RuleScope → ℕ
specificity s = count_set (
    narrows s.src_net
    ∷ is_some s.src_port
    ∷ is_some s.exe_path
    ∷ is_some s.exe_sha256
    ∷ is_some s.parent_exe
    ∷ is_some s.uid
    ∷ is_some s.dst_host
    ∷ narrows s.dst_net
    ∷ is_some s.dst_port
    ∷ is_some s.protocol
    ∷ [])

unfoldable pub names_program : RuleScope → Bool
names_program s = is_some s.exe_path || is_some s.exe_sha256

-- `self.direction == Some(Direction::Inbound)`.
abbrev pub is_inbound : Option Direction → Bool
is_inbound d = is_some_and d (λ x. direction_eq x inbound)

unfoldable pub constrains_destination : RuleScope → Bool
constrains_destination s =
    is_some s.dst_host
    || is_some s.dst_net
    || is_some s.dst_port
    || is_some s.protocol
    || is_some s.src_net
    || is_some s.src_port
    || is_inbound s.direction

-- The process is known to be another program than the scope's.
unfoldable pub exe_differs : Option Text → Process → Bool
exe_differs none p = false
exe_differs (some path) p = exe_is_known p && not (text_eq p.exe path)

unfoldable pub sha256_differs : Option Text → Option Text → Bool
sha256_differs (some expected) (some actual) = not (text_eq expected actual)
sha256_differs _ _ = false

unfoldable pub uid_differs : Option ℕ → Option ℕ → Bool
uid_differs (some u) (some actual) = not (actual == u)
uid_differs _ _ = false

-- The scope asks for what is not known of the process.
unfoldable pub lacks_exe : Option Text → Process → Bool
lacks_exe path p = is_some path && not (exe_is_known p)

unfoldable pub lacks {ℓ} : {A : Type ℓ} → Option A → Option A → Bool
lacks expected actual = is_some expected && is_none actual

unfoldable pub undecidable_for : RuleScope → Process → Bool
undecidable_for s p =
    if exe_differs s.exe_path p
    then false
    else if sha256_differs s.exe_sha256 p.sha256
    then false
    else if uid_differs s.uid p.uid
    then false
    else (lacks_exe s.exe_path p || lacks s.exe_sha256 p.sha256 || lacks s.uid p.uid)

-- The tests of `matches_process` that return false.
unfoldable pub exe_fails : Option Text → Process → Bool
exe_fails none p = false
exe_fails (some path) p = not (exe_is_known p) || not (text_eq p.exe path)

unfoldable pub sha256_fails : Option Text → Option Text → Bool
sha256_fails none _ = false
sha256_fails (some h) none = true
sha256_fails (some h) (some actual) = not (text_eq actual h)

-- `proc.uid != Some(u)`.
unfoldable pub uid_fails : Option ℕ → Option ℕ → Bool
uid_fails none _ = false
uid_fails (some u) none = true
uid_fails (some u) (some actual) = not (actual == u)

unfoldable pub matches_process : RuleScope → Process → Bool
matches_process s p =
    if exe_fails s.exe_path p
    then false
    else if sha256_fails s.exe_sha256 p.sha256
    then false
    else if uid_fails s.uid p.uid
    then false
    else true

-- The `match` on the direction: an unset one means outbound.
abbrev wrong_direction : Option Direction → Direction → Bool
wrong_direction (some d) actual = not (direction_eq actual d)
wrong_direction none actual = not (direction_eq actual outbound)

abbrev is_other : Protocol → Bool
is_other (other _) = true
is_other tcp = false
is_other udp = false
is_other icmp = false

abbrev wrong_protocol : RuleScope → Connection → Bool
wrong_protocol s c =
    is_some_and s.protocol
      (λ proto. not (is_some s.dst_host && is_other proto) && not (protocol_eq c.protocol proto))

unfoldable pub matches_known_connection : RuleScope → Connection → Bool
matches_known_connection s c =
    if wrong_direction s.direction c.direction
    then false
    else if is_some_and s.src_net (λ net. not (net.contains c.src_ip))
    then false
    else if is_some_and s.src_port (λ port. not (c.src_port == port))
    then false
    else if is_some_and s.dst_net (λ net. not (net.contains c.dst_ip))
    then false
    else if is_some_and s.dst_port (λ port. not (c.dst_port == port))
    then false
    else if wrong_protocol s c
    then false
    else true

unfoldable pub matches_connection : RuleScope → Connection → Bool
unfolding matches_known_connection
matches_connection s c = is_none s.dst_host && matches_known_connection s c

unfoldable pub matches : RuleScope → Connection → Process → Bool
unfolding matches_process matches_connection
matches s c p = matches_process s p && matches_connection s c
