-- ===== src/Reject/Bucket/Bound.antt =====
-- How many refusals the budget lets out.
use mathlib.Core.Path.{subst}
use native.Mathlib.Nat.{le_of_mul-le-mul_left}
use colony_firewall_control.Prelude.{
  sym, ℕ, suc, ◌+◌, ◌*◌, ◌-◌, ◌^◌, ◌≤◌, ◌<◌, ◌≡◌, List, [], ◌∷◌, if◌then◌else◌, length, arith,
}
use colony_firewall_control.Reject.Bucket.{Budget, Arithmetic, token, new, refill, spend, take_at}

-- The instants are in order, none before the last one of the budget.
abbrev pub InOrder : ℕ → List ℕ → Type 0
InOrder last [] = Unit
InOrder last (now ∷ instants) = (last ≤ now) × InOrder now instants

-- The budget after attempts at the instants, and how many of them it granted.
abbrev pub attempts : Budget → List ℕ → Budget × ℕ
attempts b [] = (b, 0)
attempts b (now ∷ instants) =
    let (b', granted) = take_at now b in
    let (b'', more) = attempts b' instants in (b'', (if granted then 1 else 0) + more)

abbrev pub nanos : ℕ
nanos = 1000000000

-- An amount is at most one part in so many too large.
abbrev pub precision : ℕ
precision = 2 ^ 50

-- The five roundings of a refill, of at most one part in 2^53 each, together.
abbrev pub IsAccurate : Arithmetic → Type 0
IsAccurate credited =
    (tokens elapsed per_sec : ℕ)
    → credited tokens elapsed per_sec * nanos * precision
      ≤ (tokens * nanos + elapsed * (per_sec * token)) * (precision + 1)

add_span :
    (rate from mid to : ℕ)
    → from ≤ mid
    → mid ≤ to
    → (mid - from) * rate + (to - mid) * rate ≡ (to - from) * rate
add_span rate from mid to h k = grind arith

take_at-token :
    (now : ℕ) (b : Budget)
    → let (b', granted) = take_at now b in
      ((if granted then 1 else 0) * token + b'.tokens
        ≤ b.credited b.tokens (now - b.last) b.per_sec)
      × (b'.tokens ≤ b.burst * token)
      × (b'.last ≡ now)
      × (b'.per_sec ≡ b.per_sec)
      × (b'.burst ≡ b.burst)
      × (b'.credited ≡ b.credited)
unfolding take_at refill spend
take_at-token now b =
    (ground arith, ground arith, ground arith, ground arith, ground arith, ground arith)

-- One attempt and those after it, together.
together :
    (one granted more tokens tokens' credit full before after span : ℕ) (n : ℕ)
    → tokens ≤ full
    → before + after ≡ span
    → granted * one + tokens' ≤ credit
    → credit * nanos * precision ≤ (tokens * nanos + before) * (precision + 1)
    → more * one * nanos * precision
      ≤ tokens' * nanos * precision + after * (precision + 1) + n * full * nanos
    → (granted + more) * one * nanos * precision
      ≤ tokens * nanos * precision + span * (precision + 1) + suc n * full * nanos
together one granted more tokens tokens' credit full before after span n a b c d e = grind arith

last_in :
    (b : Budget) (instants : List ℕ)
    → InOrder b.last instants
    → b.last ≤ (attempts b instants).0.last
last_in b [] o = omega arith
last_in b (now ∷ instants) o =
    let (_, _, same, _, _, _) = take_at-token now b in
    let later =
      last_in (take_at now b).0 instants (subst (λ l. InOrder l instants) (sym same) o.1) in
    omega (arith, later, same, o.0)

-- The bound on so many grants of so many attempts, in the time from an instant to another.
abbrev AtMost : ℕ → ℕ → ℕ → ℕ → ℕ → ℕ → ℕ → Type 0
AtMost granted tokens from to per_sec burst n =
    granted * token * nanos * precision
    ≤ tokens * nanos * precision
      + (to - from) * (per_sec * token) * (precision + 1)
      + n * (burst * token) * nanos

-- The bound on the attempts from a budget that is no fuller than its burst.
abbrev Within : Budget → List ℕ → Type 0
Within b instants =
    let (b', granted) = attempts b instants in
    AtMost granted b.tokens b.last b'.last b.per_sec b.burst (length instants)

same_bound :
    (granted tokens from from' to per_sec per_sec' burst burst' n : ℕ)
    → from' ≡ from
    → per_sec' ≡ per_sec
    → burst' ≡ burst
    → AtMost granted tokens from' to per_sec' burst' n
    → AtMost granted tokens from to per_sec burst n
same_bound granted tokens from from' to per_sec per_sec' burst burst' n e f g h =
    rw (← e, ← f, ← g) h

attempts_le :
    (b : Budget) (instants : List ℕ)
    → IsAccurate b.credited
    → b.tokens ≤ b.burst * token
    → InOrder b.last instants
    → Within b instants
attempts_le b [] accurate full o = omega arith
attempts_le b (now ∷ instants) accurate full o =
    let (spent, capped, same, rate, burst, credited) = take_at-token now b in
    let next = (take_at now b).0 in
    let in_order = subst (λ l. InOrder l instants) (sym same) o.1 in
    let rest =
      attempts_le next instants (subst IsAccurate (sym credited) accurate) (rw burst capped)
        in_order in
    together token (if (take_at now b).1 then 1 else 0) (attempts next instants).1 b.tokens
      next.tokens (b.credited b.tokens (now - b.last) b.per_sec) (b.burst * token)
      ((now - b.last) * (b.per_sec * token))
      (((attempts next instants).0.last - now) * (b.per_sec * token))
      (((attempts next instants).0.last - b.last) * (b.per_sec * token)) (length instants) full
      (add_span (b.per_sec * token) b.last now (attempts next instants).0.last o.0
        (omega (arith, last_in next instants in_order, same)))
      spent (accurate b.tokens (now - b.last) b.per_sec)
      (same_bound (attempts next instants).1 next.tokens now next.last
        (attempts next instants).0.last b.per_sec next.per_sec b.burst next.burst (length instants)
        same rate burst rest)

per_token :
    (one granted burst n span per_sec : ℕ)
    → 0 < one
    → granted * one * nanos * precision
      ≤ burst * one * nanos * precision
        + span * (per_sec * one) * (precision + 1)
        + n * (burst * one) * nanos
    → granted * (nanos * precision)
      ≤ burst * nanos * (precision + n) + span * per_sec * (precision + 1)
per_token one granted burst n span per_sec some_token h =
    le_of_mul-le-mul_left {k = one} (grind arith) some_token

-- Where a refill makes the amount of tokens at most one part in 2^50 larger than it is exactly:
-- from a fresh budget, over any sequence of attempts in the order of time, the refusals granted are
-- at most the burst and the rate times the time that passed, with one part in 2^50 more of the
-- latter, and one part in 2^50 more of the burst for each attempt.
pub new-attempts_le :
    (credited : Arithmetic) (start per_sec burst : ℕ) (instants : List ℕ)
    → IsAccurate credited
    → InOrder start instants
    → let (b, granted) = attempts (new credited start per_sec burst) instants in
      granted * (nanos * precision)
      ≤ burst * nanos * (precision + length instants) + (b.last - start) * per_sec * (precision + 1)
unfolding new
new-attempts_le credited start per_sec burst instants accurate o =
    let fresh = new credited start per_sec burst in
    per_token token (attempts fresh instants).1 burst (length instants)
      ((attempts fresh instants).0.last - start) per_sec (omega arith)
      (attempts_le fresh instants accurate (omega arith) o)
