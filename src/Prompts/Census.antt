-- ===== src/Prompts/Census.antt =====
-- The census of answering subscriptions: who can be shown a prompt, while clients come and go.
use mathlib.Core.Option.{get_or}
use colony_firewall_control.Prelude.{
  ℕ, ◌+◌, ◌≡◌, refl, ap, Bool, true, false, ◌||◌, Option, none, some, inl, inr, Bool-cases, List,
  [], ◌∷◌, ◌==◌, if◌then◌else◌, is_some, arith,
}
use colony_firewall_control.Prelude.Maps.{Map, get, get-put, get-remove}
use colony_firewall_control.Verdict.{Verdict}
use colony_firewall_control.Config.{DefaultPolicy}
use colony_firewall_control.Prompts.{
  Router, PromptBinding, PromptRequest, new, resolve, enqueue, subscribe, drop_subscription, reload,
  send, prompts_inc, prompts_dec, has_audience, should_deliver, any_key, register, unregister,
}

-- The owners of the live answering subscriptions.
abbrev pub count : ℕ → List ℕ → ℕ
count uid [] = 0
count uid (u ∷ live) = (if u == uid then 1 else 0) + count uid live

abbrev pub without_one : ℕ → List ℕ → List ℕ
without_one uid [] = []
without_one uid (u ∷ live) = if u == uid then live else u ∷ without_one uid live

abbrev pub any_owner : (ℕ → Bool) → List ℕ → Bool
any_owner p [] = false
any_owner p (u ∷ live) = p u || any_owner p live

pub record Clients : Type 0 where
  pub router : Router
  pub live : List ℕ

-- Subscriptions open and are dropped among the other steps of the router.
pub data Step (c : Clients) : Clients → Type 0 where
  answering :
      (uid : ℕ) → Step c (record { router = (subscribe uid true c.router).0; live = uid ∷ c.live })
  watching : (uid : ℕ) → Step c (record c { router = (subscribe uid false c.router).0 })
  dropped :
      (uid n : ℕ)
      → count uid c.live ≡ n + 1
      → Step c
          (record { router = drop_subscription (some uid) c.router; live = without_one uid c.live })
  stopped_watching : Step c (record c { router = drop_subscription none c.router })
  resolved : (id : ℕ) (v : Verdict) → Step c (record c { router = (resolve id v c.router).0 })
  enqueued :
      (req : PromptRequest) (binding : PromptBinding) (now : ℕ)
      → Step c (record c { router = (enqueue req binding now c.router).0 })
  reloaded : (policy : DefaultPolicy) → Step c (record c { router = reload policy c.router })

pub data Reach (c : Clients) : Clients → Type 0 where
  here : Reach c c
  next : {d e : Clients} → Reach c d → Step d e → Reach c e

abbrev pub nobody : DefaultPolicy → Clients
nobody policy = record { router = new policy; live = [] }

abbrev entry : ℕ → Option ℕ
entry n = if n == 0 then none else some n

-- The census holds the number of each owner's subscriptions, and no entry of an owner with none.
IsCounted : Clients → Type 0
IsCounted c = (uid : ℕ) → get uid c.router.subscribers ≡ entry (count uid c.live)

count-without_one :
    (u uid n : ℕ) (live : List ℕ)
    → count uid live ≡ n + 1
    → count u (without_one uid live) ≡ (if uid == u then n else count u live)
count-without_one u uid n [] h = ground (arith, h)
count-without_one u uid n (j ∷ live) h = elim (Bool-cases (j == uid)) [
  | inl e ↦ ground (arith, h)
  | inr e ↦ ground (arith, h, count-without_one u uid n live)
]

entry-inc : (n : ℕ) → get_or (entry n) 0 + 1 ≡ n + 1
entry-inc n = ground arith

register-IsCounted :
    (uid : ℕ) (c : Clients)
    → IsCounted c
    → IsCounted (record { router = register uid c.router; live = uid ∷ c.live })
unfolding register IsCounted
register-IsCounted uid c h u = elim (Bool-cases (uid == u)) [
  | inl e ↦
      let same : uid ≡ u = ground arith in
      let mine : count uid c.live ≡ count u c.live = ap (λ k. count k c.live) same in
      ground (
        arith,
        h uid,
        get-put uid u (get_or (get uid c.router.subscribers) 0 + 1) c.router.subscribers,
      )
  | inr e ↦
      ground (
        arith,
        h u,
        get-put uid u (get_or (get uid c.router.subscribers) 0 + 1) c.router.subscribers,
      )
]

unregister-IsCounted :
    (uid n : ℕ) (c : Clients)
    → count uid c.live ≡ n + 1
    → IsCounted c
    → IsCounted (record { router = unregister uid c.router; live = without_one uid c.live })
unfolding unregister IsCounted
unregister-IsCounted uid n c e h u = ground (
  arith,
  h u,
  h uid,
  get-put uid u n c.router.subscribers,
  get-remove uid u c.router.subscribers,
  count-without_one u uid n c.live e,
)

any_key-get :
    (p : ℕ → Bool) (k : ℕ) (v : ℕ) (m : Map ℕ) → get k m ≡ some v → p k ≡ true → any_key p m ≡ true
unfolding get any_key
any_key-get p k v [] e h = cc
any_key-get p k v ((j, w) ∷ m) e h = elim (Bool-cases (j == k)) [
  | inl q ↦ let same : j ≡ k = ground arith in let hit : p j ≡ true = rw same h in ground arith
  | inr q ↦ ground (arith, any_key-get p k v m, e, h)
]

key_of :
    (p : ℕ → Bool) (m : Map ℕ)
    → any_key p m ≡ true
    → (k : ℕ) × (is_some (get k m) ≡ true) × (p k ≡ true)
unfolding any_key get
key_of p [] h = ground (arith, h)
key_of p ((j, w) ∷ m) h = elim (Bool-cases (p j)) [
  | inl e ↦ (j, ground arith, e)
  | inr e ↦
      let (k, found, holds) = key_of p m (ground (arith, h)) in (k, ground (arith, found), holds)
]

any_owner-count :
    (p : ℕ → Bool) (k : ℕ) (live : List ℕ)
    → (count k live == 0) ≡ false
    → p k ≡ true
    → any_owner p live ≡ true
any_owner-count p k [] c h = ground (arith, c)
any_owner-count p k (j ∷ live) c h = elim (Bool-cases (j == k)) [
  | inl q ↦ let same : j ≡ k = ground arith in let hit : p j ≡ true = rw same h in ground arith
  | inr q ↦ ground (arith, any_owner-count p k live, c, h)
]

owner_of :
    (p : ℕ → Bool) (live : List ℕ)
    → any_owner p live ≡ true
    → (k : ℕ) × ((count k live == 0) ≡ false) × (p k ≡ true)
owner_of p [] h = ground (arith, h)
owner_of p (j ∷ live) h = elim (Bool-cases (p j)) [
  | inl e ↦ (j, ground arith, e)
  | inr e ↦
      let (k, counted, holds) = owner_of p live (ground (arith, h)) in
      (k, ground (arith, counted), holds)
]

bool_eq : (a b : Bool) → (a ≡ true → b ≡ true) → (b ≡ true → a ≡ true) → a ≡ b
bool_eq a b f g = ground (arith, f, g)

IsCounted-any :
    (c : Clients) (p : ℕ → Bool) → IsCounted c → any_key p c.router.subscribers ≡ any_owner p c.live
unfolding IsCounted
IsCounted-any c p counted =
    bool_eq _ _
      (λ h.
        let (k, found, holds) = key_of p c.router.subscribers h in
        any_owner-count p k c.live (ground (arith, counted k, found)) holds)
      (λ h.
        let (k, live, holds) = owner_of p c.live h in
        any_key-get p k (count k c.live) c.router.subscribers (ground (arith, counted k, live))
          holds)

Step-IsCounted : {c d : Clients} → Step c d → IsCounted c → IsCounted d
unfolding subscribe drop_subscription resolve enqueue reload send prompts_inc prompts_dec IsCounted
Step-IsCounted {c} (answering uid) h = register-IsCounted uid c h
Step-IsCounted {c} (watching uid) h = h
Step-IsCounted {c} (dropped uid n e) h = unregister-IsCounted uid n c e h
Step-IsCounted {c} stopped_watching h = h
Step-IsCounted {c} (resolved id v) h = λ u. ground (arith, h u)
Step-IsCounted {c} (enqueued req binding now) h = λ u. ground (arith, h u)
Step-IsCounted {c} (reloaded policy) h = h

Reach-IsCounted : {c d : Clients} → Reach c d → IsCounted c → IsCounted d
Reach-IsCounted here h = h
Reach-IsCounted (next r s) h = Step-IsCounted s (Reach-IsCounted r h)

nobody-IsCounted : (policy : DefaultPolicy) → IsCounted (nobody policy)
unfolding IsCounted new get
nobody-IsCounted policy u = refl

-- However subscriptions open and drop, a prompt about a process of a given owner has an audience
-- exactly when one of the live answering subscriptions may be shown it.
pub Reach-has_audience :
    (policy : DefaultPolicy) (c : Clients) (owner : Option ℕ)
    → Reach (nobody policy) c
    → has_audience owner c.router ≡ any_owner (should_deliver owner) c.live
unfolding has_audience
Reach-has_audience policy c owner r =
    IsCounted-any c (should_deliver owner) (Reach-IsCounted r (nobody-IsCounted policy))
