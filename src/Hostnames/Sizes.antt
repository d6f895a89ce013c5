-- ===== src/Hostnames/Sizes.antt =====
-- How many entries the caches hold.
use colony_firewall_control.Prelude.{
  ℕ, ◌+◌, ◌≤◌, ◌<◌, ◌≡◌, refl, Bool, true, Option, none, some, List, [], ◌∷◌, leb, if◌then◌else◌,
  is_some, length, Text, Bool-cases, Option-cases, inl, inr, arith,
}
use colony_firewall_control.Connection.{IpAddr}
use colony_firewall_control.Rule.Digest.{to_ascii_lowercase}
use colony_firewall_control.Nfqueue.Worker.Keys.{ip_eq}
use colony_firewall_control.Nfqueue.Worker.Keys.Laws.{ip_eq_refl}
use colony_firewall_control.Hostnames.Confirmed.{observe_answer_at-policy, enqueue_lookup-policy}
use colony_firewall_control.Hostnames.{
  cache_max_entries, Entry, Entries, find_entry, insert_entry, remove_entry, DnsCache, new, oldest,
  evict_if_full, observe_answer_at, seen_entry, trim_end_dots, enqueue_lookup, ptr_entry, show_ptr,
  record_ptr_result, Change, answer_seen, lookup_asked, job_done, change, changes,
}

length-insert_entry :
    (ip : IpAddr) (e : Entry) (m : Entries)
    → length (insert_entry ip e m) ≡ (if is_some (find_entry ip m) then length m else length m + 1)
unfolding insert_entry find_entry
length-insert_entry ip e [] = omega arith
length-insert_entry ip e ((k, f) ∷ m) = elim (Bool-cases (ip_eq k ip)) [
  | inl same ↦ rw (insert_entry, same) refl
  | inr other ↦ rw (insert_entry, other) (ground (arith, other, length-insert_entry ip e m))
]

length-remove_entry : (ip : IpAddr) (m : Entries) → length (remove_entry ip m) ≤ length m
unfolding remove_entry
length-remove_entry ip [] = omega arith
length-remove_entry ip ((k, f) ∷ m) = elim (Bool-cases (ip_eq k ip)) [
  | inl same ↦ rw (remove_entry, same) (omega (arith, length-remove_entry ip m))
  | inr other ↦ rw (remove_entry, other) (omega (arith, length-remove_entry ip m))
]

remove_entry_lt :
    (ip : IpAddr) (m : Entries)
    → is_some (find_entry ip m) ≡ true
    → length (remove_entry ip m) < length m
unfolding remove_entry find_entry
remove_entry_lt ip [] h = cc
remove_entry_lt ip ((k, f) ∷ m) h = elim (Bool-cases (ip_eq k ip)) [
  | inl same ↦ rw (remove_entry, same) (omega (arith, length-remove_entry ip m))
  | inr other ↦ rw (remove_entry, other) (ground (arith, other, h, remove_entry_lt ip m))
]

-- The oldest entry is one of them.
oldest-find_entry :
    (m : Entries) (k : IpAddr) (at : ℕ) → oldest m ≡ some (k, at) → is_some (find_entry k m) ≡ true
unfolding oldest find_entry
oldest-find_entry [] k at h = cc
oldest-find_entry ((j, e) ∷ m) k at h = elim (Option-cases (oldest m)) [
  | inl f ↦ let same : j ≡ k = ground (arith, h, f) in rw (← same) (ground (arith, ip_eq_refl j))
  | inr ((i, first), f) ↦ elim (Bool-cases (leb e.inserted first)) [
    | inl g ↦
        let same : j ≡ k = ground (arith, h, f, g) in rw (← same) (ground (arith, ip_eq_refl j))
    | inr g ↦
        let rest : oldest m ≡ some (k, at) = ground (arith, h, f, g) in
        ground (arith, oldest-find_entry m k at rest)
  ]
]

oldest_some : (m : Entries) → oldest m ≡ none → length m ≡ 0
unfolding oldest
oldest_some [] h = refl
oldest_some ((j, e) ∷ m) h = ground (arith, h)

-- There is room for one more.
evict_if_full_lt :
    (m : Entries) → length m ≤ cache_max_entries → length (evict_if_full m) < cache_max_entries
unfolding evict_if_full
evict_if_full_lt m h = elim (Option-cases (oldest m)) [
  | inl e ↦ ground (arith, h, e, oldest_some m e)
  | inr ((k, at), e) ↦ ground (arith, h, e, remove_entry_lt k m (oldest-find_entry m k at e))
]

insert_evicted_le :
    (ip : IpAddr) (e : Entry) (m : Entries)
    → length m ≤ cache_max_entries
    → length (insert_entry ip e (evict_if_full m)) ≤ cache_max_entries
insert_evicted_le ip e m h =
    ground (arith, length-insert_entry ip e (evict_if_full m), evict_if_full_lt m h)

abbrev pub IsBounded : DnsCache → Type 0
IsBounded d = (length d.cache ≤ cache_max_entries) × (length d.policy ≤ cache_max_entries)

observe_answer_at-cache_le :
    (ip : IpAddr) (name : Text) (ttl now : ℕ) (d : DnsCache)
    → length d.cache ≤ cache_max_entries
    → length (observe_answer_at ip name ttl now d).cache ≤ cache_max_entries
unfolding observe_answer_at
observe_answer_at-cache_le ip name ttl now d h =
    let name' = to_ascii_lowercase (trim_end_dots name) in
    ground (arith, h, insert_evicted_le ip (seen_entry name' ttl now) d.cache h)

enqueue_lookup-cache :
    (ip : IpAddr) (now : ℕ) (permit : Bool) (later last : ℕ) (d : DnsCache)
    → (enqueue_lookup ip now permit later last d).cache ≡ d.cache
unfolding enqueue_lookup
enqueue_lookup-cache ip now permit later last d = ground arith

show_ptr_le :
    (ip : IpAddr) (e : Entry) (now : ℕ) (m : Entries)
    → length m ≤ cache_max_entries
    → length (show_ptr ip e now m) ≤ cache_max_entries
unfolding show_ptr
show_ptr_le ip e now m h = ground (arith, h, insert_evicted_le ip e m h, length-insert_entry ip e m)

record_ptr_result_le :
    (ip : IpAddr) (hostname : Option Text) (now : ℕ) (d : DnsCache)
    → IsBounded d
    → IsBounded (record_ptr_result ip hostname now d)
unfolding record_ptr_result
record_ptr_result_le ip hostname now d (h, k) =
    elim (Bool-cases (is_some (find_entry ip d.policy))) [
      | inr e ↦ rw (record_ptr_result, e) (h, k)
      | inl e ↦
          rw (record_ptr_result, e)
            (
              show_ptr_le ip (ptr_entry hostname now) now d.cache h,
              ground (arith, e, k, length-insert_entry ip (ptr_entry hostname now) d.policy),
            )
    ]

change-IsBounded : (c : Change) (d : DnsCache) → IsBounded d → IsBounded (change c d)
unfolding change
change-IsBounded (answer_seen ip name ttl now) d (h, k) = (
  observe_answer_at-cache_le ip name ttl now d h,
  rw (observe_answer_at-policy ip name ttl now d) k,
)
change-IsBounded (lookup_asked ip now permit later last) d (h, k) = (
  rw (enqueue_lookup-cache ip now permit later last d) h,
  elim (enqueue_lookup-policy ip now permit later last d) [
    | inl kept ↦ rw kept k
    | inr (e, _, stored) ↦ rw stored (insert_evicted_le ip e d.policy k)
  ],
)
change-IsBounded (job_done ip hostname now) d h = record_ptr_result_le ip hostname now d h

changes-IsBounded : (cs : List Change) (d : DnsCache) → IsBounded d → IsBounded (changes cs d)
unfolding changes
changes-IsBounded [] d h = h
changes-IsBounded (c ∷ cs) d h = changes-IsBounded cs (change c d) (change-IsBounded c d h)

-- Whatever answers are observed and whatever lookups start and end, neither cache holds more than 4096
-- entries.
pub new-changes-IsBounded : (pid : ℕ) (cs : List Change) → IsBounded (changes cs (new pid))
unfolding new
new-changes-IsBounded pid cs = changes-IsBounded cs (new pid) (omega arith, omega arith)
