-- ===== src/Hostnames.antt =====
-- crates/cfc-daemon/src/dns.rs: the cache of host names. The resolver's jobs run elsewhere: what
-- they find, and whether a job may start, are arguments; instants and spans are in nanoseconds.
pub mod Confirmed
pub mod Sizes
use colony_firewall_control.Prelude.{
  ℕ, ◌+◌, ◌*◌, ◌-◌, Bool, true, false, not, ◌&&◌, ◌||◌, Option, none, some, List, [], ◌∷◌, ltb, leb,
  ◌==◌, if◌then◌else◌, is_some, is_some_and, length, Text,
}
use Prim.Native.Nat.{min, max}
use colony_firewall_control.Connection.{IpAddr}
use colony_firewall_control.Rule.Digest.{to_ascii_lowercase}
use colony_firewall_control.Nfqueue.Worker.Keys.{ip_eq}

abbrev pub second : ℕ
second = 1000000000

abbrev pub cache_ttl_secs : ℕ
cache_ttl_secs = 300

abbrev pub negative_ttl_secs : ℕ
negative_ttl_secs = 60

abbrev pub cache_max_entries : ℕ
cache_max_entries = 4096

abbrev pub observed_min_ttl_secs : ℕ
observed_min_ttl_secs = 60

abbrev pub observed_max_ttl_secs : ℕ
observed_max_ttl_secs = 3600

pub data Trust : Type 0 where
  ptr observed : Trust

pub record Entry : Type 0 where
  pub hostname : Option Text
  pub inserted : ℕ
  pub in_flight : Bool
  pub trust : Trust
  pub ttl : ℕ

-- The `HashMap` from addresses to entries.
abbrev pub Entries : Type 0
Entries = List (IpAddr × Entry)

unfoldable pub find_entry : IpAddr → Entries → Option Entry
find_entry ip [] = none
find_entry ip ((k, e) ∷ m) = let rest = find_entry ip m in if ip_eq k ip then some e else rest

unfoldable pub insert_entry : IpAddr → Entry → Entries → Entries
insert_entry ip e [] = (ip, e) ∷ []
insert_entry ip e ((k, f) ∷ m) =
    let rest = insert_entry ip e m in if ip_eq k ip then (ip, e) ∷ m else (k, f) ∷ rest

unfoldable pub remove_entry : IpAddr → Entries → Entries
remove_entry ip [] = []
remove_entry ip ((k, f) ∷ m) =
    let rest = remove_entry ip m in if ip_eq k ip then rest else (k, f) ∷ rest

-- `policy` holds the confirmed names, `cache` those that are shown.
pub record DnsCache : Type 0 where
  pub cache : Entries
  pub policy : Entries
  pub daemon_pid : ℕ

unfoldable pub new : ℕ → DnsCache
new pid = record { cache = []; policy = []; daemon_pid = pid }

unfoldable pub is_self : DnsCache → ℕ → Bool
is_self d pid = pid == d.daemon_pid

unfoldable pub is_fresh : Entry → ℕ → Bool
is_fresh e now = not e.in_flight && leb (now - e.inserted) e.ttl

abbrev pub at_least : Trust → Trust → Bool
at_least observed t = true
at_least ptr ptr = true
at_least ptr observed = false

unfoldable pub supersedes : Entry → Trust → ℕ → Bool
unfolding is_fresh
supersedes e trust now = at_least trust e.trust || not (is_fresh e now)

unfoldable pub lookup_at : IpAddr → ℕ → DnsCache → Option Text
unfolding find_entry is_fresh
lookup_at ip now d = elim (find_entry ip d.cache) [
  | none ↦ none
  | some e ↦ if is_fresh e now then e.hostname else none
]

abbrev pub confirmed_name : Option Text → Option (Text × Bool)
confirmed_name none = none
confirmed_name (some host) = some (host, true)

unfoldable pub cached_named : IpAddr → ℕ → DnsCache → Option (Text × Bool)
unfolding find_entry is_fresh
cached_named ip now d = elim (find_entry ip d.policy) [
  | none ↦ none
  | some e ↦ if not (is_fresh e now) then none else confirmed_name e.hostname
]

unfoldable pub cached_trust : IpAddr → ℕ → DnsCache → Option Trust
unfolding find_entry is_fresh
cached_trust ip now d = elim (find_entry ip d.cache) [
  | none ↦ none
  | some e ↦ if is_fresh e now && is_some e.hostname then some e.trust else none
]

-- The first of the entries that were inserted earliest.
unfoldable pub oldest : Entries → Option (IpAddr × ℕ)
oldest [] = none
oldest ((k, e) ∷ m) = elim (oldest m) [
  | none ↦ some (k, e.inserted)
  | some (j, at) ↦ if leb e.inserted at then some (k, e.inserted) else some (j, at)
]

unfoldable pub evict_if_full : Entries → Entries
unfolding oldest remove_entry
evict_if_full m =
    if ltb (length m) cache_max_entries
    then m
    else elim (oldest m) [ none ↦ m | some (k, _) ↦ remove_entry k m ]

-- `trim_end_matches('.')`.
unfoldable pub trim_end_dots : Text → Text
trim_end_dots [] = []
trim_end_dots (letter ∷ rest) = elim (trim_end_dots rest) [
  | [] ↦ if letter == 46 then [] else letter ∷ []
  | a ∷ b ↦ letter ∷ a ∷ b
]

abbrev pub host_letter : ℕ → Bool
host_letter b =
    leb 48 b && leb b 57
    || leb 65 b && leb b 90
    || leb 97 b && leb b 122
    || b == 45
    || b == 95
    || b == 46

abbrev pub host_letters : Text → Bool
host_letters [] = true
host_letters (b ∷ rest) = host_letter b && host_letters rest

-- What an observed answer leaves: its time to live is kept between a minute and an hour.
abbrev pub seen_entry : Text → ℕ → ℕ → Entry
seen_entry name ttl now = record {
  hostname = some name;
  inserted = now;
  in_flight = false;
  trust = observed;
  ttl = min (max ttl observed_min_ttl_secs) observed_max_ttl_secs * second;
}

unfoldable pub observe_answer_at : IpAddr → Text → ℕ → ℕ → DnsCache → DnsCache
unfolding trim_end_dots to_ascii_lowercase find_entry supersedes evict_if_full insert_entry
observe_answer_at ip written ttl now d =
    let name = to_ascii_lowercase (trim_end_dots written) in
    if length name == 0 || not (host_letters name)
    then d
    else if is_some_and (find_entry ip d.cache) (λ old. not (supersedes old observed now))
    then d
    else record d { cache = insert_entry ip (seen_entry name ttl now) (evict_if_full d.cache) }

abbrev pub busy : Option Entry → ℕ → Bool
busy entry now = is_some_and entry (λ e. e.in_flight || is_fresh e now)

-- `enqueue_lookup` up to the start of the job: `permit` says that one may start, `later` and `last`
-- are the instants of the second look and of the entry.
unfoldable pub enqueue_lookup : IpAddr → ℕ → Bool → ℕ → ℕ → DnsCache → DnsCache
unfolding find_entry is_fresh evict_if_full insert_entry
enqueue_lookup ip now permit later last d =
    let pending : Entry = record {
      hostname = none;
      inserted = last;
      in_flight = true;
      trust = ptr;
      ttl = negative_ttl_secs * second;
    } in
    if busy (find_entry ip d.policy) now
    then d
    else if not permit
    then d
    else if busy (find_entry ip d.policy) later
    then d
    else record d { policy = insert_entry ip pending (evict_if_full d.policy) }

-- What a job found.
abbrev pub ptr_entry : Option Text → ℕ → Entry
ptr_entry hostname now = record {
  hostname = hostname;
  inserted = now;
  in_flight = false;
  trust = ptr;
  ttl = (if is_some hostname then cache_ttl_secs else negative_ttl_secs) * second;
}

unfoldable pub show_ptr : IpAddr → Entry → ℕ → Entries → Entries
unfolding find_entry supersedes evict_if_full insert_entry
show_ptr ip entry now cache =
    if is_some_and (find_entry ip cache) (λ old. not (supersedes old ptr now))
    then cache
    else if not (is_some (find_entry ip cache))
    then insert_entry ip entry (evict_if_full cache)
    else insert_entry ip entry cache

unfoldable pub record_ptr_result : IpAddr → Option Text → ℕ → DnsCache → DnsCache
unfolding find_entry insert_entry show_ptr
record_ptr_result ip hostname now d =
    if not (is_some (find_entry ip d.policy)) then d else record d {
      policy = insert_entry ip (ptr_entry hostname now) d.policy;
      cache = show_ptr ip (ptr_entry hostname now) now d.cache;
    }

-- The operations that change the cache.
pub data Change : Type 0 where
  answer_seen : IpAddr → Text → ℕ → ℕ → Change
  lookup_asked : IpAddr → ℕ → Bool → ℕ → ℕ → Change
  job_done : IpAddr → Option Text → ℕ → Change

unfoldable pub change : Change → DnsCache → DnsCache
unfolding observe_answer_at enqueue_lookup record_ptr_result
change (answer_seen ip name ttl now) d = observe_answer_at ip name ttl now d
change (lookup_asked ip now permit later last) d = enqueue_lookup ip now permit later last d
change (job_done ip hostname now) d = record_ptr_result ip hostname now d

unfoldable pub changes : List Change → DnsCache → DnsCache
unfolding change
changes [] d = d
changes (c ∷ cs) d = changes cs (change c d)
