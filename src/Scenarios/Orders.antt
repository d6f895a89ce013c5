-- ===== src/Scenarios/Orders.antt =====
-- Rules in priority order, and digests as users write them.
use mathlib.Core.List.{Permᴰ, Memᴰ}
use colony_firewall_control.Prelude.{
  ◌≡◌, ◌⊎◌, inl, inr, ◌∙◌, sym, ap, refl, [], ◌∷◌, Text, codes, ok, find, arith,
}
use colony_firewall_control.Rule.{Rule}
use colony_firewall_control.Rule.Order.{sort}
use colony_firewall_control.Rule.Order.Sorting.{Identified, sort-Permᴰ}
use colony_firewall_control.Rule.Digest.{
  canonical_exe_sha256, to_ascii_lowercase, trim, trim_start, is_whitespace, lower, byte_len,
  len_utf8, check_digest, is_ascii_hexdigit,
}
use colony_firewall_control.Scenarios.Lookups.{deny_curl, allow_web}

one_of : (r : Rule) → Memᴰ r (deny_curl ∷ allow_web ∷ []) → (r ≡ deny_curl) ⊎ (r ≡ allow_web)
one_of r (Memᴰ.head h) = inl h
one_of r (Memᴰ.tail (Memᴰ.head h)) = inr h
one_of r (Memᴰ.tail (Memᴰ.tail m)) = elim m [ ]

same_rule :
    (r s : Rule)
    → (r ≡ deny_curl) ⊎ (r ≡ allow_web)
    → (s ≡ deny_curl) ⊎ (s ≡ allow_web)
    → r.id ≡ s.id
    → r ≡ s
same_rule r s (inl a) (inl b) e = a ∙ sym b
same_rule r s (inr a) (inr b) e = a ∙ sym b
same_rule r s (inl a) (inr b) e =
    ground (arith, ap (λ (x : Rule). x.id) a, ap (λ (x : Rule). x.id) b)
same_rule r s (inr a) (inl b) e =
    ground (arith, ap (λ (x : Rule). x.id) a, ap (λ (x : Rule). x.id) b)

two_rules-Identified : Identified (deny_curl ∷ allow_web ∷ [])
two_rules-Identified r s m n e = same_rule r s (one_of r m) (one_of s n) e

sort-Permᴰ_example : sort (deny_curl ∷ allow_web ∷ []) ≡ sort (allow_web ∷ deny_curl ∷ [])
sort-Permᴰ_example = sort-Permᴰ two_rules-Identified (Permᴰ.swap refl refl)

abbrev written : Text
written = codes " E3B0C44298FC1C149AFBF4C8996FB92427AE41E4649B934CA495991B7852B855\n"

abbrev stored : Text
stored = codes "e3b0c44298fc1c149afbf4c8996fb92427ae41e4649b934ca495991b7852b855"

canonical_written : canonical_exe_sha256 written ≡ ok stored
unfolding canonical_exe_sha256 to_ascii_lowercase trim trim_start is_whitespace lower byte_len
    len_utf8 check_digest is_ascii_hexdigit find
canonical_written = refl
