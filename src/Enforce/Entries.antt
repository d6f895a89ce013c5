-- ===== src/Enforce/Entries.antt =====
-- crates/cfc-daemon/src/ebpf/enforce.rs: the maps of entries that `compile_rules` makes and writes.
use colony_firewall_control.Prelude.{
  ℕ, ◌+◌, ◌≡◌, ◌⊎◌, inl, inr, refl, true, ◌&&◌, none, some, List, [], ◌∷◌, ◌==◌, if◌then◌else◌,
  is_some, any, length, Text, text_eq, Bool-cases, eq_of_text_eq, text_eq_refl, arith,
}
use colony_firewall_control.Prelude.Maps.{
  Map, get, put, remove, Unique, Unique-put, Unique-remove, get-put, get-remove, length-remove,
}
use colony_firewall_control.Engine.{Engine, denies_process_wide}
use colony_firewall_control.Kernel.{Takes, deny_value, hash_exe_path}
use colony_firewall_control.Enforce.{synthetic, entries, within, write_all, drop_stale}

-- A path of the list that is denied.
abbrev pub Denied : Engine → ℕ → List Text → ℕ → Type 0
Denied e now paths k =
    (path : Text) × (any (text_eq path) paths ≡ true)
    × (hash_exe_path path ≡ k)
    × (denies_process_wide e (synthetic path) now ≡ true)

module _ (e : Engine) (now : ℕ) where
  pub entries-Unique : (paths : List Text) → Unique (entries e now paths)
  unfolding entries
  entries-Unique [] = tt
  entries-Unique (path ∷ paths) = ground (
    arith,
    entries-Unique paths,
    Unique-put (hash_exe_path path) deny_value (entries e now paths),
  )

  pub entries_value :
      (paths : List Text) (k : ℕ)
      → (get k (entries e now paths) ≡ none) ⊎ (get k (entries e now paths) ≡ some deny_value)
  unfolding entries get
  entries_value [] k = inl refl
  entries_value (path ∷ paths) k = elim (Bool-cases (denies_process_wide e (synthetic path) now)) [
    | inl h ↦
        rw (h, get-put (hash_exe_path path) k deny_value (entries e now paths))
          (elim (Bool-cases (hash_exe_path path == k)) [
            | inl same ↦ rw same (inr refl)
            | inr other ↦ rw other (entries_value paths k)
          ])
    | inr h ↦ rw h (entries_value paths k)
  ]

  further :
      (path : Text) (paths : List Text) (k : ℕ)
      → Denied e now paths k
      → Denied e now (path ∷ paths) k
  unfolding any
  further path paths k (q, found, hashed, denied) = (q, ground arith, hashed, denied)

  pub Denied-entries :
      (paths : List Text) (k : ℕ)
      → get k (entries e now paths) ≡ some deny_value
      → Denied e now paths k
  unfolding entries get any
  Denied-entries [] k h = cc
  Denied-entries (path ∷ paths) k h =
      elim (Bool-cases (denies_process_wide e (synthetic path) now)) [
        | inl d ↦ elim (Bool-cases (hash_exe_path path == k)) [
          | inl same ↦ (path, ground (arith, text_eq_refl path), ground arith, d)
          | inr other ↦ further path paths k (
              Denied-entries paths k
                (ground (arith, get-put (hash_exe_path path) k deny_value (entries e now paths))))
        ]
        | inr d ↦ further path paths k (Denied-entries paths k (ground arith))
      ]

  pub entries-denied :
      (paths : List Text) (path : Text)
      → any (text_eq path) paths ≡ true
      → denies_process_wide e (synthetic path) now ≡ true
      → get (hash_exe_path path) (entries e now paths) ≡ some deny_value
  unfolding entries get any
  entries-denied [] path h d = cc
  entries-denied (q ∷ paths) path h d = elim (Bool-cases (text_eq path q)) [
    | inl same ↦
        rw (← eq_of_text_eq path q same, d)
          (ground (
            arith,
            get-put (hash_exe_path path) (hash_exe_path path) deny_value (entries e now paths),
          ))
    | inr other ↦ ground (
      arith,
      get-put (hash_exe_path q) (hash_exe_path path) deny_value (entries e now paths),
      entries-denied paths path,
    )
  ]

-- The rounds of the loop, with a table that may refuse keys.
pub get-write_all :
    (takes : Takes) (w table : Map ℕ) (n k : ℕ)
    → Unique w
    → get k (write_all takes w table n).0
      ≡ (if takes k && is_some (get k w) then get k w else get k table)
unfolding write_all get
get-write_all takes [] table n k u = ground arith
get-write_all takes ((j, v) ∷ w) table n k u = ground (
  arith,
  get-write_all takes w (if takes j then put j v table else table) (if takes j then n + 1 else n) k
      u.1,
  get-put j k v table,
)

pub written_all :
    (takes : Takes) (w table : Map ℕ) (n : ℕ)
    → ((k : ℕ) → takes k ≡ true)
    → (write_all takes w table n).1 ≡ n + length w
unfolding write_all
written_all takes [] table n h = omega arith
written_all takes ((k, v) ∷ w) table n h = ground (
  arith,
  h k,
  written_all takes w (if takes k then put k v table else table) (if takes k then n + 1 else n) h,
)

pub get-drop_stale :
    (keep table : Map ℕ) (k : ℕ)
    → get k (drop_stale keep table) ≡ (if is_some (get k keep) then get k table else none)
unfolding drop_stale get
get-drop_stale keep [] k = ground arith
get-drop_stale keep ((j, v) ∷ table) k = ground (arith, get-drop_stale keep table k)

within-get : (a b : Map ℕ) (k v : ℕ) → within a b ≡ true → get k a ≡ some v → get k b ≡ some v
unfolding get
within-get [] b k v h g = cc
within-get ((j, w) ∷ a) b k v h g = ground (arith, within-get a b k v)

within-remove :
    (a b : Map ℕ) (k : ℕ) → within a b ≡ true → get k a ≡ none → within a (remove k b) ≡ true
unfolding get
within-remove [] b k h g = refl
within-remove ((j, w) ∷ a) b k h g = ground (arith, within-remove a b k, get-remove k j b)

-- Two maps that `==` finds equal have the same entries.
pub get-map_eq :
    (a b : Map ℕ) (k : ℕ)
    → Unique a
    → Unique b
    → length a ≡ length b
    → within a b ≡ true
    → get k a ≡ get k b
unfolding get
get-map_eq [] [] k u w l h = refl
get-map_eq [] (x ∷ b) k u w l h = absurd (omega arith)
get-map_eq ((j, v) ∷ a) b k u w l h =
    let has : get j b ≡ some v = ground arith in
    let rest =
      get-map_eq a (remove j b) k u.1 (Unique-remove j b w)
        (omega (arith, length-remove j v b w has)) (within-remove a b j (ground arith) u.0) in
    ground (arith, get-remove j k b)
