-- ===== src/Convert/Fields.antt =====
-- crates/cfc-daemon/src/convert.rs: each field of a rule, read back from what is written of it.
use colony_firewall_control.Rule.Digest.Canonical.{canonical-canonical, canonical-IsLowerHex}
use colony_firewall_control.Prelude.{
  ℕ, ◌<◌, ◌^◌, ◌≡◌, ◌≢◌, refl, Bool, true, false, Option, none, some, [], ◌∷◌, if◌then◌else◌,
  is_some, length, Text, ok, Option-cases, arith, inl, inr, Result-cases,
}
use colony_firewall_control.Connection.{
  Direction, outbound, inbound, Protocol, tcp, udp, icmp, other,
}
use colony_firewall_control.Rule.{
  IpNet, Action, allow, deny, reject, Duration, once, until_restart, always, seconds,
}
use colony_firewall_control.Rule.Digest.{canonical_exe_sha256}
use colony_firewall_control.Convert.{
  Codec, action_to_pb, action_from_pb, protocol_to_pb, protocol_from_pb, direction_to_pb,
  direction_from_pb, duration_to_pb, duration_from_pb, timed_from_pb, or_empty, empty_to_none,
  or_zero, flagged, port_from_pb, digest_from_pb, net_to_pb, net_from_pb, path_to_pb, path_from_pb,
  id_from_pb,
}

-- What the code relies on of the crates: a network or identifier that was read is read again from
-- its text, which is not empty, and a path that was a text is that text again.
pub record IsLawful (c : Codec) : Type 0 where
  pub net_again :
      (text : Text) (n : IpNet)
      → c.net_from_str text ≡ some n
      → (c.net_from_str (c.net_to_string n) ≡ some n) × (c.net_to_string n ≢ [])
  pub uuid_again :
      (id : ℕ)
      → id < 2 ^ 128
      → (c.uuid_parse_str (c.uuid_to_string id) ≡ some id) × (c.uuid_to_string id ≢ [])
  pub uuid_bound : (text : Text) (id : ℕ) → c.uuid_parse_str text ≡ some id → id < 2 ^ 128
  pub path_again : (text : Text) → c.to_string_lossy (c.as_path text) ≡ text

pub action_from-to : (a : Action) → action_from_pb (action_to_pb a) ≡ ok a
unfolding action_from_pb action_to_pb
action_from-to allow = refl
action_from-to deny = refl
action_from-to reject = refl

abbrev protocol_wire : Option Protocol → ℕ
protocol_wire o = elim o [ none ↦ 0 | some p ↦ protocol_to_pb p ]

abbrev direction_wire : Option Direction → ℕ
direction_wire o = elim o [ none ↦ 0 | some p ↦ direction_to_pb p ]

pub protocol_from-to :
    (has : Bool) (n : ℕ) (o : Option Protocol)
    → flagged has (protocol_from_pb n) ≡ ok o
    → flagged (is_some o) (protocol_from_pb (protocol_wire o)) ≡ ok o
unfolding flagged protocol_from_pb protocol_to_pb
protocol_from-to has n none h = refl
protocol_from-to has n (some tcp) h = refl
protocol_from-to has n (some udp) h = refl
protocol_from-to has n (some icmp) h = refl
protocol_from-to false n (some (other k)) h = cc
protocol_from-to true n (some (other k)) h = ground arith

pub direction_from-to :
    (has : Bool) (n : ℕ) (o : Option Direction)
    → flagged has (direction_from_pb n) ≡ ok o
    → flagged (is_some o) (direction_from_pb (direction_wire o)) ≡ ok o
unfolding flagged direction_from_pb direction_to_pb
direction_from-to has n none h = refl
direction_from-to has n (some outbound) h = refl
direction_from-to has n (some inbound) h = refl

pub port_from-to :
    (has : Bool) (n : ℕ) (o : Option ℕ)
    → flagged has (port_from_pb n) ≡ ok o
    → flagged (is_some o) (port_from_pb (or_zero o)) ≡ ok o
unfolding flagged port_from_pb
port_from-to has n none h = refl
port_from-to false n (some p) h = cc
port_from-to true n (some p) h = ground arith

pub uid_from-to : (o : Option ℕ) → (if is_some o then some (or_zero o) else none) ≡ o
uid_from-to none = refl
uid_from-to (some u) = refl

pub timed_from-to :
    (d n : ℕ) (x : Duration)
    → timed_from_pb d n ≡ ok x
    → timed_from_pb (duration_to_pb x) (elim x [ seconds k ↦ k | _ ↦ 0 ]) ≡ ok x
unfolding timed_from_pb duration_from_pb duration_to_pb
timed_from-to d n once h = refl
timed_from-to d n until_restart h = refl
timed_from-to d n always h = refl
timed_from-to d n (seconds k) h = ground arith

read_empty : (text : Text) → text ≢ [] → empty_to_none text ≡ some text
unfolding empty_to_none
read_empty [] h = absurd (h refl)
read_empty (letter ∷ rest) h = refl

net_read :
    (c : Codec) (text : Text) (n : IpNet)
    → net_from_pb c text ≡ ok (some n)
    → c.net_from_str text ≡ some n
unfolding net_from_pb empty_to_none
net_read c [] n h = cc
net_read c (letter ∷ rest) n h = elim (Option-cases (c.net_from_str (letter ∷ rest))) [
  | inl unread ↦ ground arith
  | inr (m, found) ↦ ground arith
]

net_known :
    (c : Codec) (text : Text) (n : IpNet)
    → text ≢ []
    → c.net_from_str text ≡ some n
    → net_from_pb c text ≡ ok (some n)
unfolding net_from_pb empty_to_none
net_known c [] n h k = absurd (h refl)
net_known c (letter ∷ rest) n h k = rw k refl

id_known :
    (c : Codec) (fresh : ℕ) (text : Text) (id : ℕ)
    → text ≢ []
    → c.uuid_parse_str text ≡ some id
    → id_from_pb c fresh text ≡ ok id
unfolding id_from_pb
id_known c fresh [] id h k = absurd (h refl)
id_known c fresh (letter ∷ rest) id h k = ground arith

digest_read : (text d : Text) → digest_from_pb text ≡ ok (some d) → canonical_exe_sha256 text ≡ ok d
unfolding digest_from_pb empty_to_none
digest_read [] d h = cc
digest_read (letter ∷ rest) d h = elim (Result-cases (canonical_exe_sha256 (letter ∷ rest))) [
  | inl (x, found) ↦ ground arith
  | inr (e, refused) ↦ ground arith
]

digest_known :
    (d : Text) → length d ≡ 64 → canonical_exe_sha256 d ≡ ok d → digest_from_pb d ≡ ok (some d)
unfolding digest_from_pb empty_to_none
digest_known [] n h = absurd (omega arith)
digest_known (letter ∷ rest) n h = ground arith

pub digest_from-to :
    (text : Text) (o : Option Text)
    → digest_from_pb text ≡ ok o
    → digest_from_pb (or_empty o) ≡ ok o
unfolding digest_from_pb or_empty
digest_from-to text none h = refl
digest_from-to text (some d) h =
    let canonical = digest_read text d h in
    digest_known d (canonical-IsLowerHex text d canonical).0 (canonical-canonical text d canonical)

module _ {c : Codec} (lawful : IsLawful c) where
  pub net_from-to :
      (text : Text) (o : Option IpNet)
      → net_from_pb c text ≡ ok o
      → net_from_pb c (net_to_pb c o) ≡ ok o
  unfolding net_from_pb net_to_pb
  net_from-to text none h = refl
  net_from-to text (some n) h =
      let (again, full) = lawful.net_again text n (net_read c text n h) in
      net_known c (c.net_to_string n) n full again

  pub path_from-to :
      (text : Text) → path_from_pb c (path_to_pb c (path_from_pb c text)) ≡ path_from_pb c text
  unfolding path_from_pb path_to_pb empty_to_none
  path_from-to [] = refl
  path_from-to (letter ∷ rest) = rw (lawful.path_again (letter ∷ rest)) refl

  pub id_small :
      (fresh : ℕ) (text : Text) (id : ℕ)
      → fresh < 2 ^ 128
      → id_from_pb c fresh text ≡ ok id
      → id < 2 ^ 128
  unfolding id_from_pb
  id_small fresh [] id small h = ground arith
  id_small fresh (letter ∷ rest) id small h =
      elim (Option-cases (c.uuid_parse_str (letter ∷ rest))) [
        | inl unread ↦ absurd (ground arith)
        | inr (k, found) ↦ lawful.uuid_bound (letter ∷ rest) id (ground arith)
      ]

  pub id_from-to : (fresh id : ℕ) → id < 2 ^ 128 → id_from_pb c fresh (c.uuid_to_string id) ≡ ok id
  id_from-to fresh id small =
      let (again, full) = lawful.uuid_again id small in
      id_known c fresh (c.uuid_to_string id) id full again
