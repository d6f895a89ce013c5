-- ===== src/Rule/Order/Sorting.antt =====
-- The priority order is total, so the sorted set does not depend on the order of insertion.
use mathlib.Core.List.Permᴰ
use mathlib.Core.List.{Permᴰ, Memᴰ}
use native.Mathlib.Decide.{ℕ_discrete}
use colony_firewall_control.Prelude.{
  ◌≡◌, ◌≢◌, refl, ap, ◌∙◌, true, false, not, List, [], ◌∷◌, All, arith, Bool-cases, inl, inr,
}
use colony_firewall_control.Rule.{Rule}
use colony_firewall_control.Rule.Order.{precedes, insert, sort}

precedes_total : (r s : Rule) → r.id ≢ s.id → precedes r s ≡ not (precedes s r)
unfolding precedes
precedes_total r s h = ground arith

precedes_trans : (r s t : Rule) → precedes r s ≡ true → precedes s t ≡ true → precedes r t ≡ true
unfolding precedes
precedes_trans r s t h k = ground arith

insert_comm :
    (r s : Rule) (rs : List Rule) → r.id ≢ s.id → insert r (insert s rs) ≡ insert s (insert r rs)
unfolding insert
insert_comm r s [] h = ground (arith, precedes_total r s h)
insert_comm r s (t ∷ rs) h =
    ground (
      arith,
      precedes_total r s h,
      precedes_trans r s t,
      precedes_trans s r t,
      insert_comm r s rs h,
    )

-- A rule's identifier determines the rule among those of the list.
abbrev pub Identified : List Rule → Type 0
Identified rs = (r s : Rule) → Memᴰ r rs → Memᴰ s rs → r.id ≡ s.id → r ≡ s

Memᴰ-Permᴰ : {r : Rule} {rs ss : List Rule} → Permᴰ rs ss → Memᴰ r rs → Memᴰ r ss
Memᴰ-Permᴰ Permᴰ.nil m = m
Memᴰ-Permᴰ (Permᴰ.cons e d) (Memᴰ.head h) = Memᴰ.head (h ∙ e)
Memᴰ-Permᴰ (Permᴰ.cons e d) (Memᴰ.tail m) = Memᴰ.tail (Memᴰ-Permᴰ d m)
Memᴰ-Permᴰ (Permᴰ.swap e f) (Memᴰ.head h) = Memᴰ.tail (Memᴰ.head (h ∙ e))
Memᴰ-Permᴰ (Permᴰ.swap e f) (Memᴰ.tail (Memᴰ.head h)) = Memᴰ.head (h ∙ f)
Memᴰ-Permᴰ (Permᴰ.swap e f) (Memᴰ.tail (Memᴰ.tail m)) = Memᴰ.tail (Memᴰ.tail m)
Memᴰ-Permᴰ (Permᴰ.trans d e) m = Memᴰ-Permᴰ e (Memᴰ-Permᴰ d m)

insert_swap :
    (r s : Rule) (rs : List Rule)
    → (r.id ≡ s.id → r ≡ s)
    → insert r (insert s rs) ≡ insert s (insert r rs)
insert_swap r s rs h = elim (ℕ_discrete r.id s.id) [
  | yes e ↦ rw (h e)
  | no n ↦ insert_comm r s rs n
]

-- Two sets with the same rules, in whatever orders, sort to the same list.
pub sort-Permᴰ : {rs ss : List Rule} → Identified rs → Permᴰ rs ss → sort rs ≡ sort ss
unfolding sort
sort-Permᴰ i Permᴰ.nil = refl
sort-Permᴰ i (Permᴰ.cons {a = a} {b = b} e d) =
    rw e (ap (insert b) (sort-Permᴰ (λ r s m n. i r s (Memᴰ.tail m) (Memᴰ.tail n)) d))
sort-Permᴰ i (Permᴰ.swap {a = a} {b = b} {l = l} e f) =
    insert_swap a b (sort l) (i a b (Memᴰ.head refl) (Memᴰ.tail (Memᴰ.head refl))) ∙ (rw (e, f))
sort-Permᴰ i (Permᴰ.trans d e) =
    sort-Permᴰ i d
    ∙ sort-Permᴰ (λ r s m n. i r s (Memᴰ-Permᴰ (Permᴰ.symm d) m) (Memᴰ-Permᴰ (Permᴰ.symm d) n)) e

-- `r` sorts no later than any of the rules.
abbrev pub Bounds : Rule → List Rule → Type 0
Bounds r = All (λ s. precedes r s ≡ true)

abbrev pub IsSorted : List Rule → Type 0
IsSorted [] = Unit
IsSorted (r ∷ rs) = Bounds r rs × IsSorted rs

Bounds-trans : (r s : Rule) (rs : List Rule) → precedes r s ≡ true → Bounds s rs → Bounds r rs
Bounds-trans r s [] h b = tt
Bounds-trans r s (t ∷ rs) h b = (precedes_trans r s t h b.0, Bounds-trans r s rs h b.1)

precedes_or : (r s : Rule) → precedes r s ≡ false → precedes s r ≡ true
unfolding precedes
precedes_or r s h = ground arith

Bounds-insert :
    (r s : Rule) (rs : List Rule) → precedes s r ≡ true → Bounds s rs → Bounds s (insert r rs)
unfolding insert
Bounds-insert r s [] h b = (h, tt)
Bounds-insert r s (t ∷ rs) h b = ground (arith, Bounds-insert r s rs h b.1)

insert-IsSorted : (r : Rule) (rs : List Rule) → IsSorted rs → IsSorted (insert r rs)
unfolding insert
insert-IsSorted r [] h = (tt, tt)
insert-IsSorted r (s ∷ rs) h =
    ground
      (arith, Bounds-trans r s rs, precedes_or r s, Bounds-insert r s rs, insert-IsSorted r rs h.1)

insert-Permᴰ : (r : Rule) (rs : List Rule) → Permᴰ (r ∷ rs) (insert r rs)
unfolding insert
insert-Permᴰ r [] = Permᴰ.refl (r ∷ [])
insert-Permᴰ r (s ∷ rs) = elim (Bool-cases (precedes r s)) [
  | inl e ↦ rw e (Permᴰ.refl (r ∷ s ∷ rs))
  | inr e ↦ rw e (Permᴰ.trans (Permᴰ.swap refl refl) (Permᴰ.cons refl (insert-Permᴰ r rs)))
]

-- Sorting keeps the rules and puts each before all that it precedes.
pub sort_lem : (rs : List Rule) → Permᴰ rs (sort rs) × IsSorted (sort rs)
unfolding sort
sort_lem [] = (Permᴰ.nil, tt)
sort_lem (r ∷ rs) = (
  Permᴰ.trans (Permᴰ.cons refl (sort_lem rs).0) (insert-Permᴰ r (sort rs)),
  insert-IsSorted r (sort rs) (sort_lem rs).1,
)
