-- ===== src/Scenarios/Resolved.antt =====
-- A name that is looked up, and observed under another.
use colony_firewall_control.Prelude.{ℕ, ◌*◌, ◌-◌, ◌≤◌, ◌≡◌, refl, true, some, List, [], ◌∷◌, codes}
use colony_firewall_control.Connection.{IpAddr, v4}
use colony_firewall_control.Hostnames
use colony_firewall_control.Hostnames.{
  Change, answer_seen, lookup_asked, job_done, change, changes, cached_named, lookup_at, second,
  cache_ttl_secs, enqueue_lookup, record_ptr_result, observe_answer_at, find_entry, insert_entry,
  evict_if_full, is_fresh,
}
use colony_firewall_control.Hostnames.Confirmed.{Found, cached_named-Found}
use colony_firewall_control.Hostnames.Sizes.{IsBounded, new-changes-IsBounded}

abbrev server : IpAddr
server = v4 192 0 2 1

abbrev history : List Change
history =
    lookup_asked server 0 true 0 0
    ∷ job_done server (some (codes "a.bc")) 5
    ∷ answer_seen server (codes "evil.example") 60 7
    ∷ []

abbrev later : ℕ
later = 100 * second

-- The rules are given the confirmed name, not the observed one.
confirmed :
    cached_named server later (changes history (Hostnames.new 1)) ≡ some (codes "a.bc", true)
unfolding cached_named changes change Hostnames.new
confirmed = refl

cached_named-Found_example :
    (at : ℕ) × Found history server (codes "a.bc") at × (later - at ≤ cache_ttl_secs * second)
cached_named-Found_example = cached_named-Found 1 history server later (codes "a.bc") true confirmed

new-changes-IsBounded_example : IsBounded (changes history (Hostnames.new 1))
new-changes-IsBounded_example = new-changes-IsBounded 1 history
