-- ===== src/Nfqueue/Worker/Keys.antt =====
-- `FlowKey` of crates/cfc-daemon/src/nfqueue/mod.rs: which packets share a prompt.
pub mod Laws
use colony_firewall_control.Prelude.{
  ℕ, ◌≡◌, refl, ap, Bool, true, false, ◌&&◌, Option, none, some, List, [], ◌∷◌, ◌==◌, if◌then◌else◌,
  is_some, Text, text_eq, eq_of_text_eq, text_eq_refl, arith,
}
use colony_firewall_control.Connection.{
  Connection, IpAddr, v4, v6, Protocol, tcp, udp, icmp, other, protocol_eq,
}
use colony_firewall_control.Process.{Process, exe_is_known}

pub data FlowOrigin : Type 0 where
  exe : Text → Option Text → FlowOrigin
  unattributed : ℕ → FlowOrigin

pub record FlowKey : Type 0 where
  pub origin : FlowOrigin
  pub uid : Option ℕ
  pub dst_ip : IpAddr
  pub dst_port : ℕ
  pub protocol : Protocol

-- The image is known and so is its user.
abbrev pub identified : Process → Bool
identified p = exe_is_known p && is_some p.uid

unfoldable pub origin_of : (Text → Bool) → ℕ → Process → FlowOrigin
origin_of sealed uuid p = elim p.sha256 [
  | some sha256 ↦ if identified p then exe p.exe (some sha256) else unattributed uuid
  | none ↦ if identified p && sealed p.exe then exe p.exe none else unattributed uuid
]

unfoldable pub for_flow : (Text → Bool) → ℕ → Connection → Process → FlowKey
unfolding origin_of
for_flow sealed uuid c p = record {
  origin = origin_of sealed uuid p;
  uid = p.uid;
  dst_ip = c.dst_ip;
  dst_port = c.dst_port;
  protocol = c.protocol;
}

-- The derived `PartialEq`.
abbrev pub ip_eq : IpAddr → IpAddr → Bool
ip_eq (v4 a b c d) (v4 a' b' c' d') = a == a' && b == b' && c == c' && d == d'
ip_eq (v6 s) (v6 t) = text_eq s t
ip_eq _ _ = false

abbrev pub number_eq : Option ℕ → Option ℕ → Bool
number_eq none none = true
number_eq (some a) (some b) = a == b
number_eq _ _ = false

abbrev pub digest_eq : Option Text → Option Text → Bool
digest_eq none none = true
digest_eq (some s) (some t) = text_eq s t
digest_eq _ _ = false

abbrev pub origin_eq : FlowOrigin → FlowOrigin → Bool
origin_eq (exe s h) (exe t g) = text_eq s t && digest_eq h g
origin_eq (unattributed a) (unattributed b) = a == b
origin_eq _ _ = false

unfoldable pub flow_eq : FlowKey → FlowKey → Bool
flow_eq a b =
    origin_eq a.origin b.origin
    && number_eq a.uid b.uid
    && ip_eq a.dst_ip b.dst_ip
    && a.dst_port == b.dst_port
    && protocol_eq a.protocol b.protocol

-- The `HashMap` from flows to prompts.
abbrev pub FlowMap : Type 0
FlowMap = List (FlowKey × ℕ)

unfoldable pub flow_get : FlowKey → FlowMap → Option ℕ
flow_get k [] = none
flow_get k ((f, id) ∷ m) = let rest = flow_get k m in if flow_eq f k then some id else rest

unfoldable pub flow_put : FlowKey → ℕ → FlowMap → FlowMap
flow_put k id [] = (k, id) ∷ []
flow_put k id ((f, j) ∷ m) =
    let rest = flow_put k id m in if flow_eq f k then (k, id) ∷ m else (f, j) ∷ rest

unfoldable pub flow_remove : FlowKey → FlowMap → FlowMap
flow_remove k [] = []
flow_remove k ((f, j) ∷ m) =
    let rest = flow_remove k m in if flow_eq f k then rest else (f, j) ∷ rest
