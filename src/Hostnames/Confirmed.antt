-- ===== src/Hostnames/Confirmed.antt =====
-- The names that the rules are asked about.
use mathlib.Core.List.{Memᴰ}
use mathlib.Core.Option.{get_or}
use colony_firewall_control.Prelude.{
  ℕ, ◌*◌, ◌-◌, ◌≤◌, ◌≡◌, refl, ap, ◌∙◌, Bool, true, Option, none, some, List, [], ◌∷◌,
  if◌then◌else◌, Text, All, Bool-cases, Option-cases, inl, inr, ◌⊎◌, arith,
}
use colony_firewall_control.Connection.{IpAddr}
use colony_firewall_control.Nfqueue.Worker.Keys.{ip_eq}
use colony_firewall_control.Nfqueue.Worker.Keys.Laws.{eq_of_ip_eq}
use colony_firewall_control.Hostnames.{
  second, cache_ttl_secs, Entry, Entries, find_entry, insert_entry, remove_entry, DnsCache, new,
  is_fresh, cached_named, oldest, evict_if_full, observe_answer_at, enqueue_lookup, ptr_entry,
  record_ptr_result, busy, Change, answer_seen, lookup_asked, job_done, change, changes,
}

ip_eq_left : (a b c : IpAddr) → ip_eq a b ≡ true → ip_eq a c ≡ ip_eq b c
ip_eq_left a b c h = ap (λ (k : IpAddr). ip_eq k c) (eq_of_ip_eq a b h)

ip_eq_right : (a b c : IpAddr) → ip_eq b c ≡ true → ip_eq a b ≡ ip_eq a c
ip_eq_right a b c h = ap (ip_eq a) (eq_of_ip_eq b c h)

pub find_entry-insert_entry :
    (k j : IpAddr) (e : Entry) (m : Entries)
    → find_entry j (insert_entry k e m) ≡ (if ip_eq k j then some e else find_entry j m)
unfolding find_entry insert_entry
find_entry-insert_entry k j e [] = refl
find_entry-insert_entry k j e ((i, f) ∷ m) = elim (Bool-cases (ip_eq i k)) [
  | inl same ↦ rw (insert_entry, same) (ground (arith, same, ip_eq_left i k j))
  | inr other ↦
      rw (insert_entry, other)
        (ground (arith, other, find_entry-insert_entry k j e m, ip_eq_right i k j))
]

pub find_entry-remove_entry :
    (k j : IpAddr) (m : Entries)
    → find_entry j (remove_entry k m) ≡ (if ip_eq k j then none else find_entry j m)
unfolding find_entry remove_entry
find_entry-remove_entry k j [] = ground arith
find_entry-remove_entry k j ((i, f) ∷ m) = elim (Bool-cases (ip_eq i k)) [
  | inl same ↦
      rw (remove_entry, same)
        (ground (arith, same, find_entry-remove_entry k j m, ip_eq_left i k j))
  | inr other ↦
      rw (remove_entry, other)
        (ground (arith, other, find_entry-remove_entry k j m, ip_eq_right i k j))
]

find_entry-evict_if_full :
    (j : IpAddr) (e : Entry) (m : Entries)
    → find_entry j (evict_if_full m) ≡ some e
    → find_entry j m ≡ some e
unfolding evict_if_full
find_entry-evict_if_full j e m h = elim (Option-cases (oldest m)) [
  | inl f ↦ ground (arith, h, f)
  | inr ((k, at), f) ↦ ground (arith, h, f, find_entry-remove_entry k j m)
]

text_injective : (a b : Text) → some a ≡ some b → a ≡ b
text_injective a b h = ap (λ (o : Option Text). get_or o a) h

entry_injective : (e f : Entry) → some e ≡ some f → e ≡ f
entry_injective e f h = ap (λ (o : Option Entry). get_or o e) h

pub observe_answer_at-policy :
    (ip : IpAddr) (name : Text) (ttl now : ℕ) (d : DnsCache)
    → (observe_answer_at ip name ttl now d).policy ≡ d.policy
unfolding observe_answer_at
observe_answer_at-policy ip name ttl now d = ground arith

-- What an entry holds while its job runs.
abbrev IsPending : Entry → Type 0
IsPending e = e.hostname ≡ none

pub enqueue_lookup-policy :
    (ip : IpAddr) (now : ℕ) (permit : Bool) (later last : ℕ) (d : DnsCache)
    → ((enqueue_lookup ip now permit later last d).policy ≡ d.policy)
      ⊎ ((e : Entry) × IsPending e
          × ((enqueue_lookup ip now permit later last d).policy
              ≡ insert_entry ip e (evict_if_full d.policy)))
unfolding enqueue_lookup
enqueue_lookup-policy ip now permit later last d =
    elim (Bool-cases (busy (find_entry ip d.policy) now)) [
      | inl e ↦ rw (enqueue_lookup, e) (inl refl)
      | inr e ↦ elim (Bool-cases permit) [
        | inr f ↦ rw (enqueue_lookup, e, f) (inl refl)
        | inl f ↦ elim (Bool-cases (busy (find_entry ip d.policy) later)) [
          | inl g ↦ rw (enqueue_lookup, e, f, g) (inl refl)
          | inr g ↦ rw (enqueue_lookup, e, f, g) (inr (_, refl, refl))
        ]
      ]
    ]

record_ptr_result-policy :
    (ip : IpAddr) (hostname : Option Text) (now : ℕ) (d : DnsCache)
    → ((record_ptr_result ip hostname now d).policy ≡ d.policy)
      ⊎ ((record_ptr_result ip hostname now d).policy
          ≡ insert_entry ip (ptr_entry hostname now) d.policy)
unfolding record_ptr_result
record_ptr_result-policy ip hostname now d = ground arith

-- The names of the policy cache are known, each since its instant and for five minutes.
module _ (Known : IpAddr → Text → ℕ → Type 0) where
  abbrev IsSupported : Entries → Type 0
  IsSupported m =
      (ip : IpAddr) (e : Entry) (host : Text)
      → find_entry ip m ≡ some e
      → e.hostname ≡ some host
      → Known ip host e.inserted × (e.ttl ≡ cache_ttl_secs * second)

  -- A job's finding is known.
  abbrev IsBacked : Change → Type 0
  IsBacked (answer_seen ip name ttl now) = Unit
  IsBacked (lookup_asked ip now permit later last) = Unit
  IsBacked (job_done ip none now) = Unit
  IsBacked (job_done ip (some host) now) = Known ip host now

  IsSupported-insert :
      (ip : IpAddr) (new_entry : Entry) (m : Entries)
      → IsSupported m
      → ((host : Text)
          → new_entry.hostname ≡ some host
          → Known ip host new_entry.inserted × (new_entry.ttl ≡ cache_ttl_secs * second))
      → IsSupported (insert_entry ip new_entry m)
  IsSupported-insert ip new_entry m all backed j e host found named =
      let here = find_entry-insert_entry ip j new_entry m in
      elim (Bool-cases (ip_eq ip j)) [
        | inr other ↦ all j e host (ground (arith, found, here, other)) named
        | inl same ↦
            let place : ip ≡ j = eq_of_ip_eq ip j same in
            let entry : new_entry ≡ e =
              entry_injective new_entry e (ground (arith, found, here, same)) in
            rw (← place, ← entry) (backed host (ap (λ (x : Entry). x.hostname) entry ∙ named))
      ]

  IsSupported-evict : (m : Entries) → IsSupported m → IsSupported (evict_if_full m)
  IsSupported-evict m all j e host found named =
      all j e host (find_entry-evict_if_full j e m found) named

  change-IsSupported :
      (c : Change) (d : DnsCache)
      → IsBacked c
      → IsSupported d.policy
      → IsSupported (change c d).policy
  unfolding change
  change-IsSupported (answer_seen ip name ttl now) d backed all =
      rw (observe_answer_at-policy ip name ttl now d) all
  change-IsSupported (lookup_asked ip now permit later last) d backed all =
      elim (enqueue_lookup-policy ip now permit later last d) [
        | inl kept ↦ rw kept all
        | inr (e, pending, stored) ↦ rw stored (
            IsSupported-insert ip e (evict_if_full d.policy) (IsSupported-evict d.policy all)
              (λ host named. absurd (ground (arith, pending, named))))
      ]
  change-IsSupported (job_done ip none now) d backed all =
      elim (record_ptr_result-policy ip none now d) [
        | inl kept ↦ rw kept all
        | inr stored ↦
            rw stored (IsSupported-insert ip (ptr_entry none now) d.policy all (λ host named. cc))
      ]
  change-IsSupported (job_done ip (some found) now) d backed all =
      elim (record_ptr_result-policy ip (some found) now d) [
        | inl kept ↦ rw kept all
        | inr stored ↦ rw stored (
            IsSupported-insert ip (ptr_entry (some found) now) d.policy all
              (λ host named. (rw (← text_injective found host named) backed, refl)))
      ]

  changes-IsSupported :
      (cs : List Change) (d : DnsCache)
      → All IsBacked cs
      → IsSupported d.policy
      → IsSupported (changes cs d).policy
  unfolding changes
  changes-IsSupported [] d backed all = all
  changes-IsSupported (c ∷ cs) d (first, backed) all =
      changes-IsSupported cs (change c d) backed (change-IsSupported c d first all)

-- The job for the address found the name at the instant.
abbrev pub Found : List Change → IpAddr → Text → ℕ → Type 0
Found cs ip host at = Memᴰ (job_done ip (some host) at) cs

All-IsBacked :
    (cs every : List Change)
    → ((c : Change) → Memᴰ c cs → Memᴰ c every)
    → All (IsBacked (Found every)) cs
All-IsBacked [] every within = tt
All-IsBacked (answer_seen ip name ttl now ∷ cs) every within =
    (tt, All-IsBacked cs every (λ c m. within c (Memᴰ.tail m)))
All-IsBacked (lookup_asked ip now permit later last ∷ cs) every within =
    (tt, All-IsBacked cs every (λ c m. within c (Memᴰ.tail m)))
All-IsBacked (job_done ip none now ∷ cs) every within =
    (tt, All-IsBacked cs every (λ c m. within c (Memᴰ.tail m)))
All-IsBacked (job_done ip (some host) now ∷ cs) every within = (
  within (job_done ip (some host) now) (Memᴰ.head refl),
  All-IsBacked cs every (λ c m. within c (Memᴰ.tail m)),
)

-- The entry behind a name that the rules are given.
cached_named-entry :
    (ip : IpAddr) (now : ℕ) (d : DnsCache) (host : Text) (verified : Bool)
    → cached_named ip now d ≡ some (host, verified)
    → (e : Entry) × (find_entry ip d.policy ≡ some e)
      × (e.hostname ≡ some host)
      × (now - e.inserted ≤ e.ttl)
unfolding cached_named is_fresh
cached_named-entry ip now d host verified h = elim (Option-cases (find_entry ip d.policy)) [
  | inl f ↦ absurd (ground (arith, h, f))
  | inr (e, f) ↦ elim (Option-cases e.hostname) [
    | inl g ↦ absurd (ground (arith, h, f, g))
    | inr (text, g) ↦ (e, f, ground (arith, h, f, g), ground (arith, h, f, g))
  ]
]

new-IsSupported :
    (pid : ℕ) (Known : IpAddr → Text → ℕ → Type 0) → IsSupported Known (new pid).policy
unfolding new find_entry
new-IsSupported pid Known ip e host found named = cc

-- Whatever answers are observed and in whatever order lookups start and end, the name that the rules
-- are given for an address is one that a job found for that address, at most five minutes before.
pub cached_named-Found :
    (pid : ℕ) (cs : List Change) (ip : IpAddr) (now : ℕ) (host : Text) (verified : Bool)
    → cached_named ip now (changes cs (new pid)) ≡ some (host, verified)
    → (at : ℕ) × Found cs ip host at × (now - at ≤ cache_ttl_secs * second)
cached_named-Found pid cs ip now host verified h =
    let d = changes cs (new pid) in
    let (e, found, named, fresh) = cached_named-entry ip now d host verified h in
    let supported =
      changes-IsSupported (Found cs) cs (new pid) (All-IsBacked cs cs (λ c m. m))
        (new-IsSupported pid (Found cs)) in
    let (at, ttl) = supported ip e host found named in (e.inserted, at, omega (arith, fresh, ttl))
