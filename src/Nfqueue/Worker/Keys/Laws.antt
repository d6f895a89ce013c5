-- ===== src/Nfqueue/Worker/Keys/Laws.antt =====
-- Keys of flows are compared by what they hold, and the map from flows to prompts.
use colony_firewall_control.Prelude.{
  ℕ, ◌≡◌, refl, ap, true, Option, none, some, [], ◌∷◌, if◌then◌else◌, Text, eq_of_text_eq,
  text_eq_refl, arith,
}
use colony_firewall_control.Connection.{
  IpAddr, v4, v6, Protocol, tcp, udp, icmp, other, protocol_eq,
}
use colony_firewall_control.Nfqueue.Worker.Keys.{
  FlowOrigin, exe, unattributed, FlowKey, ip_eq, number_eq, digest_eq, origin_eq, flow_eq, FlowMap,
  flow_get, flow_put, flow_remove,
}

pub eq_of_ip_eq : (a b : IpAddr) → ip_eq a b ≡ true → a ≡ b
eq_of_ip_eq (v4 a b c d) (v4 a' b' c' d') h = ground (arith, h)
eq_of_ip_eq (v6 s) (v6 t) h = ap v6 (eq_of_text_eq s t h)
eq_of_ip_eq (v4 a b c d) (v6 t) h = cc
eq_of_ip_eq (v6 s) (v4 a b c d) h = cc

eq_of_number_eq : (a b : Option ℕ) → number_eq a b ≡ true → a ≡ b
eq_of_number_eq none none h = refl
eq_of_number_eq (some a) (some b) h = ground (arith, h)
eq_of_number_eq none (some b) h = cc
eq_of_number_eq (some a) none h = cc

eq_of_digest_eq : (a b : Option Text) → digest_eq a b ≡ true → a ≡ b
eq_of_digest_eq none none h = refl
eq_of_digest_eq (some s) (some t) h = ap some (eq_of_text_eq s t h)
eq_of_digest_eq none (some b) h = cc
eq_of_digest_eq (some a) none h = cc

eq_of_protocol_eq : (a b : Protocol) → protocol_eq a b ≡ true → a ≡ b
eq_of_protocol_eq tcp tcp h = refl
eq_of_protocol_eq udp udp h = refl
eq_of_protocol_eq icmp icmp h = refl
eq_of_protocol_eq (other a) (other b) h = ground (arith, h)
eq_of_protocol_eq tcp udp h = cc
eq_of_protocol_eq tcp icmp h = cc
eq_of_protocol_eq tcp (other b) h = cc
eq_of_protocol_eq udp tcp h = cc
eq_of_protocol_eq udp icmp h = cc
eq_of_protocol_eq udp (other b) h = cc
eq_of_protocol_eq icmp tcp h = cc
eq_of_protocol_eq icmp udp h = cc
eq_of_protocol_eq icmp (other b) h = cc
eq_of_protocol_eq (other a) tcp h = cc
eq_of_protocol_eq (other a) udp h = cc
eq_of_protocol_eq (other a) icmp h = cc

eq_of_origin_eq : (a b : FlowOrigin) → origin_eq a b ≡ true → a ≡ b
eq_of_origin_eq (exe s h) (exe t g) e = ground (arith, e, eq_of_text_eq s t, eq_of_digest_eq h g)
eq_of_origin_eq (unattributed a) (unattributed b) e = ground (arith, e)
eq_of_origin_eq (exe s h) (unattributed b) e = cc
eq_of_origin_eq (unattributed a) (exe t g) e = cc

pub eq_of_flow_eq : (a b : FlowKey) → flow_eq a b ≡ true → a ≡ b
unfolding flow_eq
eq_of_flow_eq a b h = ground (
  arith,
  h,
  eq_of_origin_eq a.origin b.origin,
  eq_of_number_eq a.uid b.uid,
  eq_of_ip_eq a.dst_ip b.dst_ip,
  eq_of_protocol_eq a.protocol b.protocol,
)

pub ip_eq_refl : (a : IpAddr) → ip_eq a a ≡ true
ip_eq_refl (v4 a b c d) = ground arith
ip_eq_refl (v6 s) = text_eq_refl s

number_eq_refl : (a : Option ℕ) → number_eq a a ≡ true
number_eq_refl none = refl
number_eq_refl (some a) = ground arith

digest_eq_refl : (a : Option Text) → digest_eq a a ≡ true
digest_eq_refl none = refl
digest_eq_refl (some s) = text_eq_refl s

protocol_eq_refl : (a : Protocol) → protocol_eq a a ≡ true
protocol_eq_refl tcp = refl
protocol_eq_refl udp = refl
protocol_eq_refl icmp = refl
protocol_eq_refl (other a) = ground arith

origin_eq_refl : (a : FlowOrigin) → origin_eq a a ≡ true
origin_eq_refl (exe s h) = ground (arith, text_eq_refl s, digest_eq_refl h)
origin_eq_refl (unattributed a) = ground arith

pub flow_eq_refl : (a : FlowKey) → flow_eq a a ≡ true
unfolding flow_eq
flow_eq_refl a = ground (
  arith,
  origin_eq_refl a.origin,
  number_eq_refl a.uid,
  ip_eq_refl a.dst_ip,
  protocol_eq_refl a.protocol,
)

flow_eq_left : (a b c : FlowKey) → flow_eq a b ≡ true → flow_eq a c ≡ flow_eq b c
flow_eq_left a b c h = ap (λ (k : FlowKey). flow_eq k c) (eq_of_flow_eq a b h)

flow_eq_right : (f k j : FlowKey) → flow_eq k j ≡ true → flow_eq f k ≡ flow_eq f j
flow_eq_right f k j h = ap (flow_eq f) (eq_of_flow_eq k j h)

pub flow_get-put :
    (k j : FlowKey) (id : ℕ) (m : FlowMap)
    → flow_get j (flow_put k id m) ≡ (if flow_eq k j then some id else flow_get j m)
unfolding flow_get flow_put
flow_get-put k j id [] = refl
flow_get-put k j id ((f, i) ∷ m) =
    ground (arith, flow_get-put k j id m, flow_eq_left f k j, flow_eq_right f k j)

pub flow_get-remove :
    (k j : FlowKey) (m : FlowMap)
    → flow_get j (flow_remove k m) ≡ (if flow_eq k j then none else flow_get j m)
unfolding flow_get flow_remove
flow_get-remove k j [] = ground arith
flow_get-remove k j ((f, i) ∷ m) =
    ground (arith, flow_get-remove k j m, flow_eq_left f k j, flow_eq_right f k j)
