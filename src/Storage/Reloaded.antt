-- ===== src/Storage/Reloaded.antt =====
-- crates/cfc-daemon/src/storage.rs: the table of rules as a map from identifiers to rows, through
-- its operations and through a start.
use colony_firewall_control.Prelude.{
  ℕ, ◌≡◌, refl, ◌∙◌, ap, Bool, ◌||◌, Option, none, some, [], ◌∷◌, if◌then◌else◌, find, Option-cases,
  inl, inr, arith,
}
use colony_firewall_control.Prelude.Maps.{Map, get, put, remove, get-put, get-remove}
use colony_firewall_control.Rule.{Rule, is_expired}
use colony_firewall_control.Engine.{saturating_add}
use colony_firewall_control.Engine.Ids.{Fresh, Distinct, rule_at}
use colony_firewall_control.Storage.{
  Stored, RuleStore, readable, unreadable, load, load_rule, load_all, heal_legacy_protocol,
  merge_hit, merge_hit_counts, purge_where, purge_transient, purge_expired, open_store,
  is_transient,
}

-- A row lies under the identifier of its rule.
abbrev pub IsNamed : ℕ → Stored → Type 0
IsNamed id (readable r) = r.id ≡ id
IsNamed id unreadable = Unit

abbrev pub IsKeyed : Map Stored → Type 0
IsKeyed [] = Unit
IsKeyed ((id, row) ∷ rows) = (get id rows ≡ none) × IsNamed id row × IsKeyed rows

-- The rule that a start loads of a row.
abbrev pub loaded : Option Stored → Option Rule
loaded none = none
loaded (some row) = load row

pub IsKeyed-put :
    (id : ℕ) (row : Stored) (rows : Map Stored)
    → IsNamed id row
    → IsKeyed rows
    → IsKeyed (put id row rows)
unfolding get put
IsKeyed-put id row [] n k = (refl, n, tt)
IsKeyed-put id row ((j, old) ∷ rows) n k =
    ground (arith, IsKeyed-put id row rows n k.2, get-put id j row rows)

pub IsKeyed-remove : (id : ℕ) (rows : Map Stored) → IsKeyed rows → IsKeyed (remove id rows)
unfolding remove
IsKeyed-remove id [] k = tt
IsKeyed-remove id ((j, row) ∷ rows) k =
    ground (arith, IsKeyed-remove id rows k.2, get-remove id j rows)

named_at :
    (id : ℕ) (r : Rule) (rows : Map Stored)
    → IsKeyed rows
    → get id rows ≡ some (readable r)
    → r.id ≡ id
unfolding get
named_at id r [] k h = cc
named_at id r ((j, unreadable) ∷ rows) k h = ground (arith, named_at id r rows k.2)
named_at id r ((j, readable s) ∷ rows) k h = ground (arith, named_at id r rows k.2)

IsKeyed-merge_hit :
    (id extra : ℕ) (rows : Map Stored) → IsKeyed rows → IsKeyed (merge_hit id extra rows)
unfolding merge_hit
IsKeyed-merge_hit id extra rows k = elim (Option-cases (get id rows)) [
  | inl gone ↦ ground arith
  | inr (unreadable, found) ↦ ground arith
  | inr (readable r, found) ↦ ground (
    arith,
    found,
    IsKeyed-put id (readable (record r { hit_count = saturating_add r.hit_count extra })) rows
        (named_at id r rows k found) k,
  )
]

pub IsKeyed-merge_hit_counts :
    (increments : Map ℕ) (rows : Map Stored)
    → IsKeyed rows
    → IsKeyed (merge_hit_counts increments rows)
unfolding merge_hit_counts
IsKeyed-merge_hit_counts [] rows k = k
IsKeyed-merge_hit_counts ((id, extra) ∷ increments) rows k =
    IsKeyed-merge_hit_counts increments (merge_hit id extra rows)
      (IsKeyed-merge_hit id extra rows k)

-- What a purge leaves of a row.
abbrev pub spared : (Rule → Bool) → Option Stored → Option Stored
spared doomed none = none
spared doomed (some unreadable) = some unreadable
spared doomed (some (readable r)) = if doomed r then none else some (readable r)

pub get-purge_where :
    (doomed : Rule → Bool) (id : ℕ) (rows : Map Stored)
    → IsKeyed rows
    → get id (purge_where doomed rows) ≡ spared doomed (get id rows)
unfolding get purge_where
get-purge_where doomed id [] k = refl
get-purge_where doomed id ((j, unreadable) ∷ rows) k =
    ground (arith, get-purge_where doomed id rows k.2)
get-purge_where doomed id ((j, readable r) ∷ rows) k =
    ground (arith, k.0, get-purge_where doomed id rows k.2)

pub IsKeyed-purge_where :
    (doomed : Rule → Bool) (rows : Map Stored) → IsKeyed rows → IsKeyed (purge_where doomed rows)
unfolding purge_where
IsKeyed-purge_where doomed [] k = tt
IsKeyed-purge_where doomed ((j, unreadable) ∷ rows) k = (
  get-purge_where doomed j rows k.2 ∙ ap (spared doomed) k.0,
  tt,
  IsKeyed-purge_where doomed rows k.2,
)
IsKeyed-purge_where doomed ((j, readable r) ∷ rows) k =
    ground (arith, k.0, get-purge_where doomed j rows k.2, IsKeyed-purge_where doomed rows k.2)

-- Loading keeps what a purge looks at.
pub load_rule-same :
    (stored r : Rule)
    → load_rule stored ≡ some r
    → (r.id ≡ stored.id) × (r.duration ≡ stored.duration) × (r.created_at ≡ stored.created_at)
unfolding load_rule heal_legacy_protocol
load_rule-same stored r h = ground arith

load-named : (id : ℕ) (row : Stored) (r : Rule) → IsNamed id row → load row ≡ some r → r.id ≡ id
unfolding load
load-named id unreadable r n h = cc
load-named id (readable stored) r n h = (load_rule-same stored r h).0 ∙ n

-- What a start loads is the map of the rows that are loaded.
pub rule_at-load_all :
    (id : ℕ) (rows : Map Stored)
    → IsKeyed rows
    → rule_at id (load_all rows).0 ≡ loaded (get id rows)
unfolding get load_all find
rule_at-load_all id [] k = refl
rule_at-load_all id ((j, row) ∷ rows) k = elim (Option-cases (load row)) [
  | inl gone ↦ ground (arith, gone, k.0, rule_at-load_all id rows k.2)
  | inr (r, found) ↦
      ground (arith, found, rule_at-load_all id rows k.2, load-named j row r k.1 found)
]

Fresh-load_all :
    (id : ℕ) (rows : Map Stored) → get id rows ≡ none → IsKeyed rows → Fresh id (load_all rows).0
unfolding get load_all
Fresh-load_all id [] h k = tt
Fresh-load_all id ((j, row) ∷ rows) h k = elim (Option-cases (load row)) [
  | inl gone ↦ ground (arith, gone, Fresh-load_all id rows)
  | inr (r, found) ↦ ground (arith, found, Fresh-load_all id rows, load-named j row r)
]

pub Distinct-load_all : (rows : Map Stored) → IsKeyed rows → Distinct (load_all rows).0
unfolding load_all
Distinct-load_all [] k = tt
Distinct-load_all ((j, row) ∷ rows) k = elim (Option-cases (load row)) [
  | inl gone ↦ ground (arith, gone, Distinct-load_all rows)
  | inr (r, found) ↦
      ground (arith, found, Distinct-load_all rows, Fresh-load_all j rows, load-named j row r)
]

-- A start drops the rules of one run and those that have expired.
abbrev pub is_dropped : ℕ → Rule → Bool
is_dropped now r = is_transient r || is_expired r now

-- A rule, unless it is doomed.
abbrev pub unless : (Rule → Bool) → Option Rule → Option Rule
unless doomed none = none
unless doomed (some r) = if doomed r then none else some r

module _ (doomed : Rule → Bool)
    (dated : (r r' : Rule)
      → r'.duration ≡ r.duration
      → r'.created_at ≡ r.created_at
      → doomed r' ≡ doomed r) where
  pub loaded-spared : (o : Option Stored) → loaded (spared doomed o) ≡ unless doomed (loaded o)
  unfolding load
  loaded-spared none = refl
  loaded-spared (some unreadable) = refl
  loaded-spared (some (readable r)) = elim (Option-cases (load_rule r)) [
    | inl gone ↦ ground arith
    | inr (r', found) ↦
        let (_, same, created) = load_rule-same r r' found in
        ground (arith, found, dated r r' same created)
  ]

is_transient-dated :
    (r r' : Rule)
    → r'.duration ≡ r.duration
    → r'.created_at ≡ r.created_at
    → is_transient r' ≡ is_transient r
unfolding is_transient
is_transient-dated r r' d c = rw d refl

pub is_expired-dated :
    (now : ℕ) (r r' : Rule)
    → r'.duration ≡ r.duration
    → r'.created_at ≡ r.created_at
    → is_expired r' now ≡ is_expired r now
unfolding is_expired
is_expired-dated now r r' d c = rw (d, c) refl

unless_twice :
    (now : ℕ) (o : Option Rule)
    → unless (λ r. is_expired r now) (unless is_transient o) ≡ unless (is_dropped now) o
unless_twice now none = refl
unless_twice now (some r) = ground arith

-- What a start loads of the rows that it finds.
pub loaded-open_store :
    (now id : ℕ) (s : RuleStore)
    → IsKeyed s.rows
    → loaded (get id (open_store now s).rows) ≡ unless (is_dropped now) (loaded (get id s.rows))
unfolding open_store purge_transient purge_expired
loaded-open_store now id s k =
    ap loaded (
      get-purge_where (λ r. is_expired r now) id (purge_where is_transient s.rows)
        (IsKeyed-purge_where is_transient s.rows k))
    ∙ loaded-spared (λ r. is_expired r now) (is_expired-dated now)
        (get id (purge_where is_transient s.rows))
    ∙ ap (λ o. unless (λ r. is_expired r now) (loaded o)) (get-purge_where is_transient id s.rows k)
    ∙ ap (unless (λ r. is_expired r now))
        (loaded-spared is_transient is_transient-dated (get id s.rows))
    ∙ unless_twice now (loaded (get id s.rows))

pub IsKeyed-open_store :
    (now : ℕ) (s : RuleStore) → IsKeyed s.rows → IsKeyed (open_store now s).rows
unfolding open_store purge_transient purge_expired
IsKeyed-open_store now s k =
    IsKeyed-purge_where (λ r. is_expired r now) (purge_where is_transient s.rows)
      (IsKeyed-purge_where is_transient s.rows k)
