-- ===== src/Convert/Stable.antt =====
-- crates/cfc-daemon/src/convert.rs: a rule that was accepted is accepted again as it is listed.
use colony_firewall_control.Rule.Scope.{any}
use mathlib.Core.Path.{subst}
use colony_firewall_control.Prelude.{
  ℕ, ◌≡◌, ◌≢◌, ◌<◌, ◌≤◌, ◌^◌, ◌*◌, ◌/◌, refl, Bool, true, false, Option, none, some, if◌then◌else◌,
  Text, ok, err, ◌>>=◌, ◌>>◌, arith, Option-cases, inl, inr, Result-cases, ◌+◌,
}
use colony_firewall_control.Connection.{Protocol, Direction, other}
use colony_firewall_control.Rule.{
  Rule, RuleScope, IpNet, timestamp_millis, seconds, is_expired, lapsed,
}
use colony_firewall_control.Rule.Guards.{reject_hostname_policy}
use colony_firewall_control.Wire
use colony_firewall_control.Convert.{
  Codec, Converted, action_from_pb, protocol_from_pb, port_from_pb, direction_from_pb,
  digest_from_pb, net_from_pb, path_from_pb, empty_to_none, or_empty, flagged, scope_to_pb,
  scope_from_pb, scope_read, scope_checked, rule_to_pb, rule_from_pb, id_from_pb, scope_of, checks,
  created_from_pb, timed_from_pb, path_to_pb, net_to_pb,
}
use colony_firewall_control.Convert.Fields.{
  IsLawful, action_from-to, protocol_from-to, direction_from-to, port_from-to, uid_from-to,
  timed_from-to, digest_from-to, net_from-to, path_from-to, id_from-to, id_small,
}

-- The scope that a message is read as, field by field.
record Reads (c : Codec) (m : Wire.RuleScope) (s : RuleScope) : Type 0 where
  dst_net : net_from_pb c m.dst_net ≡ ok s.dst_net
  protocol : flagged m.has_protocol (protocol_from_pb m.protocol) ≡ ok s.protocol
  dst_port : flagged m.has_dst_port (port_from_pb m.dst_port) ≡ ok s.dst_port
  direction : flagged m.has_direction (direction_from_pb m.direction) ≡ ok s.direction
  src_net : net_from_pb c m.src_net ≡ ok s.src_net
  src_port : flagged m.has_src_port (port_from_pb m.src_port) ≡ ok s.src_port
  exe_sha256 : digest_from_pb m.exe_sha256 ≡ ok s.exe_sha256
  exe_path : path_from_pb c m.exe_path ≡ s.exe_path
  parent_exe : path_from_pb c m.parent_exe ≡ s.parent_exe
  uid : (if m.has_uid then some m.uid else none) ≡ s.uid
  dst_host : empty_to_none m.dst_host ≡ s.dst_host
  no_host : s.dst_host ≡ none

-- Seven readings that succeed, taken apart.
inverted :
    (r1 : Converted (Option IpNet)) (r2 : Converted (Option Protocol)) (r3 : Converted (Option ℕ))
    (r4 : Converted (Option Direction)) (r5 : Converted (Option IpNet)) (r6 : Converted (Option ℕ))
    (r7 : Converted (Option Text))
    (rest : Option IpNet
      → Option Protocol
      → Option ℕ
      → Option Direction
      → Option IpNet
      → Option ℕ
      → Option Text
      → Converted RuleScope)
    {s : RuleScope}
    → (r1 >>= λ a1. r2 >>= λ a2.
        r3 >>= λ a3. r4 >>= λ a4. r5 >>= λ a5. r6 >>= λ a6. r7 >>= λ a7. rest a1 a2 a3 a4 a5 a6 a7)
      ≡ ok s
    → (a1 : Option IpNet) × (a2 : Option Protocol) × (a3 : Option ℕ) × (a4 : Option Direction)
      × (a5 : Option IpNet) × (a6 : Option ℕ) × (a7 : Option Text) × ((r1 ≡ ok a1)
          × (r2 ≡ ok a2)
          × (r3 ≡ ok a3)
          × (r4 ≡ ok a4)
          × (r5 ≡ ok a5)
          × (r6 ≡ ok a6)
          × (r7 ≡ ok a7))
      × (rest a1 a2 a3 a4 a5 a6 a7 ≡ ok s)
inverted (err e) r2 r3 r4 r5 r6 r7 rest h = cc
inverted (ok a) (err e) r3 r4 r5 r6 r7 rest h = cc
inverted (ok a) (ok b) (err e) r4 r5 r6 r7 rest h = cc
inverted (ok a) (ok b) (ok d) (err e) r5 r6 r7 rest h = cc
inverted (ok a) (ok b) (ok d) (ok f) (err e) r6 r7 rest h = cc
inverted (ok a) (ok b) (ok d) (ok f) (ok g) (err e) r7 rest h = cc
inverted (ok a) (ok b) (ok d) (ok f) (ok g) (ok i) (err e) rest h = cc
inverted (ok a) (ok b) (ok d) (ok f) (ok g) (ok i) (ok j) rest h =
    (a, b, d, f, g, i, j, (refl, refl, refl, refl, refl, refl, refl), h)

module _ (c : Codec) where
  scope_checked_lem :
      (scope s : RuleScope) → scope_checked scope ≡ ok s → (scope ≡ s) × (scope.dst_host ≡ none)
  unfolding scope_checked reject_hostname_policy
  scope_checked_lem scope s h = elim (Option-cases scope.dst_host) [
    | inl without ↦ (ground arith, without)
    | inr (host, named) ↦ absurd (ground arith)
  ]

  scope_from_pb-Reads :
      (m : Wire.RuleScope) (s : RuleScope) → scope_from_pb c m ≡ ok s → Reads c m s
  unfolding scope_from_pb scope_read
  scope_from_pb-Reads m s h =
      let (dst_net, protocol, dst_port, direction, src_net, src_port, digest, e, last) =
        inverted (net_from_pb c m.dst_net) (flagged m.has_protocol (protocol_from_pb m.protocol))
          (flagged m.has_dst_port (port_from_pb m.dst_port))
          (flagged m.has_direction (direction_from_pb m.direction)) (net_from_pb c m.src_net)
          (flagged m.has_src_port (port_from_pb m.src_port)) (digest_from_pb m.exe_sha256)
          (λ a1 a2 a3 a4 a5 a6 a7. scope_checked (scope_read c m a1 a2 a3 a4 a5 a6 a7)) h in
      let (same, without) =
        scope_checked_lem
          (scope_read c m dst_net protocol dst_port direction src_net src_port digest) s last in
      subst (Reads c m) same (record {
        dst_net = e.0;
        protocol = e.1;
        dst_port = e.2;
        direction = e.3;
        src_net = e.4;
        src_port = e.5;
        exe_sha256 = e.6;
        exe_path = refl;
        parent_exe = refl;
        uid = refl;
        dst_host = refl;
        no_host = without;
      })

  Reads-scope_from_pb :
      (m : Wire.RuleScope) (s : RuleScope) → Reads c m s → scope_from_pb c m ≡ ok s
  unfolding scope_from_pb scope_read scope_checked reject_hostname_policy
  Reads-scope_from_pb m s r = ground arith

same_scope : (scope s : RuleScope) → ◌≡◌ {A = Converted RuleScope} (ok scope) (ok s) → scope ≡ s
same_scope scope s h = cc

any_again : (c : Codec) → scope_from_pb c (scope_to_pb c any) ≡ ok any
unfolding any scope_to_pb scope_from_pb scope_read scope_checked reject_hostname_policy net_to_pb
    net_from_pb path_to_pb path_from_pb or_empty empty_to_none digest_from_pb flagged
any_again c = refl

module _ {c : Codec} (lawful : IsLawful c) where
  Reads-scope_to_pb :
      (m : Wire.RuleScope) (s : RuleScope) → Reads c m s → Reads c (scope_to_pb c s) s
  unfolding scope_to_pb empty_to_none or_empty
  Reads-scope_to_pb m s r = record {
    dst_net = net_from-to lawful m.dst_net s.dst_net r.dst_net;
    protocol = protocol_from-to m.has_protocol m.protocol s.protocol r.protocol;
    dst_port = port_from-to m.has_dst_port m.dst_port s.dst_port r.dst_port;
    direction = direction_from-to m.has_direction m.direction s.direction r.direction;
    src_net = net_from-to lawful m.src_net s.src_net r.src_net;
    src_port = port_from-to m.has_src_port m.src_port s.src_port r.src_port;
    exe_sha256 = digest_from-to m.exe_sha256 s.exe_sha256 r.exe_sha256;
    exe_path =
        subst (λ o. path_from_pb c (path_to_pb c o) ≡ o) r.exe_path
          (path_from-to lawful m.exe_path);
    parent_exe =
        subst (λ o. path_from_pb c (path_to_pb c o) ≡ o) r.parent_exe
          (path_from-to lawful m.parent_exe);
    uid = uid_from-to s.uid;
    dst_host = rw (r.no_host, empty_to_none, or_empty) refl;
    no_host = r.no_host;
  }

  scope_again :
      (m : Option Wire.RuleScope) (s : RuleScope)
      → scope_of c m ≡ ok s
      → scope_of c (some (scope_to_pb c s)) ≡ ok s
  unfolding scope_of
  scope_again none s h =
      subst (λ scope. scope_from_pb c (scope_to_pb c scope) ≡ ok scope) (same_scope any s h)
        (any_again c)
  scope_again (some m) s h =
      Reads-scope_from_pb c (scope_to_pb c s) s
        (Reads-scope_to_pb m s (scope_from_pb-Reads c m s h))

created_le : (c : Codec) (now : ℕ) (ms : Wire.UnixMillis) → created_from_pb c now ms ≤ now
unfolding created_from_pb
created_le c now none = omega arith
created_le c now (some ms) = ground arith

created_again :
    (c : Codec) (now now' : ℕ) (ms : Wire.UnixMillis) (t : ℕ)
    → created_from_pb c now ms ≡ t
    → now ≤ now'
    → t / 1000000 ≢ c.epoch_ms
    → created_from_pb c now' (some (timestamp_millis t)) ≡ t / 1000000 * 1000000
unfolding created_from_pb
created_again c now now' ms t e later dated = let bound = created_le c now ms in ground arith

inverted_rule :
    {I S D A : Type 0} (r1 : Converted I) (r2 : Converted S) (r3 : S → Converted (Unit {0}))
    (r4 : Converted A) (r5 : Converted D) (rest : I → S → A → D → Rule) {r : Rule}
    → (r1 >>= λ a1. r2 >>= λ a2. r3 a2 >> (r4 >>= λ a4. r5 >>= λ a5. ok (rest a1 a2 a4 a5))) ≡ ok r
    → (a1 : I) × (a2 : S) × (a4 : A) × (a5 : D) × ((r1 ≡ ok a1)
        × (r2 ≡ ok a2)
        × (r3 a2 ≡ ok tt)
        × (r4 ≡ ok a4)
        × (r5 ≡ ok a5))
      × (rest a1 a2 a4 a5 ≡ r)
inverted_rule (err e) r2 r3 r4 r5 rest h = cc
inverted_rule (ok a) (err e) r3 r4 r5 rest h = cc
inverted_rule (ok a) (ok b) r3 (err e) r5 rest h = elim (Result-cases (r3 b)) [
  | inl (u, passed) ↦ absurd (ground arith)
  | inr (e', refused) ↦ absurd (ground arith)
]
inverted_rule (ok a) (ok b) r3 (ok d) (err e) rest h = elim (Result-cases (r3 b)) [
  | inl (u, passed) ↦ absurd (ground arith)
  | inr (e', refused) ↦ absurd (ground arith)
]
inverted_rule (ok a) (ok b) r3 (ok d) (ok f) rest h = elim (Result-cases (r3 b)) [
  | inl (u, passed) ↦ (a, b, d, f, (refl, refl, passed, refl, refl), ground arith)
  | inr (e', refused) ↦ absurd (ground arith)
]

-- What an accepted message was read as.
record Accepted (c : Codec) (fresh now : ℕ) (m : Wire.RuleInfo) (r : Rule) : Type 0 where
  id : id_from_pb c fresh m.id ≡ ok r.id
  scope : scope_of c m.scope ≡ ok r.scope
  checked : checks r.scope ≡ ok tt
  action : action_from_pb m.action ≡ ok r.action
  duration : timed_from_pb m.duration m.duration_seconds ≡ ok r.duration
  created : created_from_pb c now m.created_at_unix_ms ≡ r.created_at
  name : m.name ≡ r.name
  enabled : m.enabled ≡ r.enabled
  hit_count : m.hit_count ≡ r.hit_count

module _ (c : Codec) (fresh now : ℕ) (m : Wire.RuleInfo) (r : Rule) where
  rule_from_pb-Accepted : rule_from_pb c fresh now m ≡ ok r → Accepted c fresh now m r
  unfolding rule_from_pb
  rule_from_pb-Accepted h =
      let (id, scope, action, duration, e, same) =
        inverted_rule (id_from_pb c fresh m.id) (scope_of c m.scope) checks
          (action_from_pb m.action) (timed_from_pb m.duration m.duration_seconds)
          (λ id scope action duration. record {
            id = id;
            name = m.name;
            enabled = m.enabled;
            action = action;
            duration = duration;
            scope = scope;
            created_at = created_from_pb c now m.created_at_unix_ms;
            hit_count = m.hit_count;
          })
          h in
      subst (Accepted c fresh now m) same (record {
        id = e.0;
        scope = e.1;
        checked = e.2;
        action = e.3;
        duration = e.4;
        created = refl;
        name = refl;
        enabled = refl;
        hit_count = refl;
      })

  Accepted-rule_from_pb : Accepted c fresh now m r → rule_from_pb c fresh now m ≡ ok r
  unfolding rule_from_pb
  Accepted-rule_from_pb a = ground arith

-- A rule that the daemon accepts from a client is the same rule when it is listed to a client and
-- comes back, at any later instant, but for the fraction of a millisecond of its creation. A rule
-- created in the millisecond of the Unix epoch, which the wire cannot tell from an unset one, is
-- excepted.
pub rule_from_pb-rule_to_pb :
    (c : Codec) (fresh fresh' now now' : ℕ) (m : Wire.RuleInfo) (r : Rule)
    → IsLawful c
    → fresh < 2 ^ 128
    → now ≤ now'
    → r.created_at / 1000000 ≢ c.epoch_ms
    → rule_from_pb c fresh now m ≡ ok r
    → rule_from_pb c fresh' now' (rule_to_pb c r)
      ≡ ok (record r { created_at = r.created_at / 1000000 * 1000000 })
unfolding rule_to_pb
rule_from_pb-rule_to_pb c fresh fresh' now now' m r lawful small later dated h =
    let a = rule_from_pb-Accepted c fresh now m r h in
    Accepted-rule_from_pb c fresh' now' (rule_to_pb c r)
      (record r { created_at = r.created_at / 1000000 * 1000000 })
      (record {
        id = id_from-to lawful fresh' r.id (id_small lawful fresh m.id r.id small a.id);
        scope = scope_again lawful m.scope r.scope a.scope;
        checked = a.checked;
        action = action_from-to r.action;
        duration = timed_from-to m.duration m.duration_seconds r.duration a.duration;
        created = created_again c now now' m.created_at_unix_ms r.created_at a.created later dated;
        name = refl;
        enabled = refl;
        hit_count = refl;
      })

-- A timed rule that the daemon accepts has lapsed when its seconds have gone by since it was
-- accepted, whatever creation date the client sent.
pub rule_from_pb-is_expired :
    (c : Codec) (fresh now n : ℕ) (m : Wire.RuleInfo) (r : Rule)
    → rule_from_pb c fresh now m ≡ ok r
    → r.duration ≡ seconds n
    → is_expired r (timestamp_millis now + n * 1000) ≡ true
unfolding is_expired lapsed
rule_from_pb-is_expired c fresh now n m r h timed =
    let a = rule_from_pb-Accepted c fresh now m r h in
    let bound = created_le c now m.created_at_unix_ms in
    let past : r.created_at ≤ now = ground arith in rw timed (ground arith)

no_number : (has : Bool) (n k : ℕ) → flagged has (protocol_from_pb n) ≡ ok (some (other k)) → ⊥
unfolding flagged protocol_from_pb
no_number false n k h = cc
no_number true n k h = ground arith

scope_known :
    (c : Codec) (m : Option Wire.RuleScope) (s : RuleScope)
    → scope_of c m ≡ ok s
    → (s.dst_host ≡ none) × ((k : ℕ) → s.protocol ≢ some (other k))
unfolding scope_of any
scope_known c none s h =
    let same = same_scope any s h in (rw (← same) refl, λ k. rw (← same) (λ e. cc))
scope_known c (some m) s h =
    let r = scope_from_pb-Reads c m s h in
    (r.no_host, λ k e. no_number m.has_protocol m.protocol k (rw (← e) r.protocol))

-- The scope of an accepted rule has passed the checks, names no host, and no unnumbered protocol.
pub rule_from_pb-checks :
    (c : Codec) (fresh now : ℕ) (m : Wire.RuleInfo) (r : Rule)
    → rule_from_pb c fresh now m ≡ ok r
    → (checks r.scope ≡ ok tt)
      × (r.scope.dst_host ≡ none)
      × ((k : ℕ) → r.scope.protocol ≢ some (other k))
rule_from_pb-checks c fresh now m r h =
    let a = rule_from_pb-Accepted c fresh now m r h in
    let (host, protocol) = scope_known c m.scope r.scope a.scope in (a.checked, host, protocol)
