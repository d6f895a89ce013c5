-- ===== src/Prompts/Once.antt =====
-- Exactly one answer for each prompt, over every order of the steps.
use mathlib.Core.Path.{subst}
use colony_firewall_control.Prelude.{
  ℕ, ◌+◌, ◌%◌, length, ◌≡◌, ◌≢◌, refl, ◌∙◌, Bool, true, false, ◌||◌, Option, none, some, List, [],
  ◌∷◌, ◌==◌, if◌then◌else◌, is_some, Text, arith, inl, inr, Option-cases, Bool-cases, Bool-cases,
}
use colony_firewall_control.Prelude.Maps.{get, get-put, get-remove}
use colony_firewall_control.Verdict.{Verdict, from_policy}
use colony_firewall_control.Config.{DefaultPolicy}
use colony_firewall_control.Prompts.{
  Router, PromptBinding, PromptRequest, new, resolve, submit, parse_u64, enqueue, counter_mod,
  reclaim, sweep, subscribe, drop_subscription, register, unregister, reload, no_ui_verdict,
}
use colony_firewall_control.Prompts.Steps.{
  answers, resolve-balance, resolve-Gauged, enqueue-Gauged, enqueue-balance, World, contains,
  without, ask, Step, submitted, asked, broadcast, not_broadcast, woken, subscribed, dropped,
  reloaded, started, waiting, Reach, here, next, IsBalanced,
}

contains-without :
    (j id : ℕ) (ids : List ℕ)
    → contains j (without id ids) ≡ (if id == j then false else contains j ids)
contains-without j id [] = ground arith
contains-without j id (i ∷ ids) = ground (arith, contains-without j id ids)

resolve-pending :
    (id j : ℕ) (v : Verdict) (r : Router)
    → is_some (get j (resolve id v r).0.pending)
      ≡ (if id == j then false else is_some (get j r.pending))
unfolding resolve
resolve-pending id j v r = ground (arith, get-remove id j r.pending)

enqueue-pending :
    (req : PromptRequest) (binding : PromptBinding) (now j : ℕ) (r : Router)
    → is_some (get j (enqueue req binding now r).0.pending) ≡ (
        if is_some (enqueue req binding now r).1
        then (req.prompt_id == j || is_some (get j r.pending))
        else is_some (get j r.pending))
unfolding enqueue
enqueue-pending req binding now j r = ground (arith, get-put req.prompt_id j binding r.pending)

-- A router that resolves one prompt, between lists of tasks that lose at most that prompt.
resolved-IsBalanced :
    (w : World) (id : ℕ) (v : Verdict) (announcing sleeping : List ℕ)
    → ((j : ℕ)
        → id ≢ j
        → (contains j w.announcing || contains j w.sleeping) ≡ true
        → (contains j announcing || contains j sleeping) ≡ true)
    → IsBalanced w
    → IsBalanced (record {
      router = (resolve id v w.router).0;
      asked = w.asked;
      announcing = announcing;
      sleeping = sleeping;
    })
resolved-IsBalanced w id v announcing sleeping keep b = record {
  balance = λ j. resolve-balance id j v w.router ∙ b.balance j;
  watched = λ j h. ground (arith, resolve-pending id j v w.router, b.watched j, keep j);
  gauged = resolve-Gauged id v w.router b.gauged;
}

-- A step that leaves the prompts alone.
same-IsBalanced :
    (w : World) (r : Router)
    → r.pending ≡ w.router.pending
    → r.sent ≡ w.router.sent
    → r.prompts_pending ≡ w.router.prompts_pending
    → IsBalanced w
    → IsBalanced (record w { router = r })
same-IsBalanced w r p s g b = record {
  balance = λ j. rw (p, s) (b.balance j);
  watched = λ j. rw p (b.watched j);
  gauged = record { unique = rw p b.gauged.unique; gauge = rw (p, g) b.gauged.gauge };
}

submit-resolve :
    (text : Text) (id : ℕ) (v : Verdict) (r : Router)
    → parse_u64 text ≡ some id
    → (resolve id v r).0 ≡ (submit text v r).0
unfolding submit
submit-resolve text id v r e = ground (arith, e)

submit-IsBalanced :
    (w : World) (text : Text) (v : Verdict)
    → IsBalanced w
    → IsBalanced (record w { router = (submit text v w.router).0 })
unfolding submit
submit-IsBalanced w text v b = elim (Option-cases (parse_u64 text)) [
  | inl e ↦ same-IsBalanced w _ (ground arith) (ground arith) (ground arith) b
  | inr (id, e) ↦
      subst (λ r. IsBalanced (record w { router = r })) (submit-resolve text id v w.router e)
        (resolved-IsBalanced w id v w.announcing w.sleeping (λ j n h. h) b)
]

absent :
    (w : World) (id : ℕ)
    → IsBalanced w
    → contains id w.asked ≡ false
    → get id w.router.pending ≡ none
absent w id b fresh = ground (arith, b.balance id)

one_more :
    (id j x : ℕ) (ids : List ℕ)
    → contains id ids ≡ false
    → x ≡ (if contains j ids then 1 else 0)
    → x + (if id == j then 1 else 0) ≡ (if contains j (id ∷ ids) then 1 else 0)
one_more id j x ids fresh e = elim (Bool-cases (id == j)) [
  | inl q ↦
      let same : id ≡ j = ground arith in
      let gone : contains j ids ≡ false = subst (λ k. contains k ids ≡ false) same fresh in
      ground arith
  | inr q ↦ ground arith
]

ask-IsBalanced :
    (w : World) (req : PromptRequest) (binding : PromptBinding) (now : ℕ)
    → contains req.prompt_id w.asked ≡ false
    → IsBalanced w
    → IsBalanced (ask req binding now w)
unfolding ask
ask-IsBalanced w req binding now fresh b =
    let free = absent w req.prompt_id b fresh in
    record {
      balance = λ j.
          enqueue-balance req binding now j w.router free
          ∙ one_more req.prompt_id j _ w.asked fresh (b.balance j);
      watched = λ j h. ground (arith, enqueue-pending req binding now j w.router, b.watched j);
      gauged = enqueue-Gauged req binding now w.router free b.gauged;
    }

without_other :
    (j id : ℕ) (ids : List ℕ) → id ≢ j → contains j ids ≡ true → contains j (without id ids) ≡ true
without_other j id ids n h = ground (arith, contains-without j id ids)

subscribe-IsBalanced :
    (w : World) (uid : ℕ) (answering : Bool)
    → IsBalanced w
    → IsBalanced (record w { router = (subscribe uid answering w.router).0 })
unfolding subscribe register
subscribe-IsBalanced w uid true b = same-IsBalanced w (register uid w.router) refl refl refl b
subscribe-IsBalanced w uid false b = same-IsBalanced w w.router refl refl refl b

drop-IsBalanced :
    (w : World) (uid : Option ℕ)
    → IsBalanced w
    → IsBalanced (record w { router = drop_subscription uid w.router })
unfolding drop_subscription unregister
drop-IsBalanced w none b = b
drop-IsBalanced w (some uid) b =
    same-IsBalanced w (unregister uid w.router) (ground arith) (ground arith) (ground arith) b

Step-IsBalanced : {w v : World} → Step w v → IsBalanced w → IsBalanced v
unfolding reclaim sweep reload
Step-IsBalanced {w} (submitted text v) b = submit-IsBalanced w text v b
Step-IsBalanced {w} (asked req binding now fresh) b = ask-IsBalanced w req binding now fresh b
Step-IsBalanced {w} (broadcast id h) b = record {
  balance = b.balance;
  watched = λ j e. ground (arith, b.watched j e, contains-without j id w.announcing);
  gauged = b.gauged;
}
Step-IsBalanced {w} (not_broadcast id h) b =
    resolved-IsBalanced w id (no_ui_verdict w.router) _ _
      (λ j n e. ground (arith, without_other j id w.announcing n)) b
Step-IsBalanced {w} (woken id h) b =
    resolved-IsBalanced w id (from_policy w.router.default_policy.timeout_action) _ _
      (λ j n e. ground (arith, without_other j id w.sleeping n)) b
Step-IsBalanced {w} (subscribed uid answering) b = subscribe-IsBalanced w uid answering b
Step-IsBalanced {w} (dropped uid) b = drop-IsBalanced w uid b
Step-IsBalanced {w} (reloaded policy) b = same-IsBalanced w _ refl refl refl b

started-IsBalanced : (policy : DefaultPolicy) → IsBalanced (started policy)
unfolding new get
started-IsBalanced policy = record {
  balance = λ id. refl;
  watched = λ id h. h;
  gauged = record { unique = tt; gauge = refl };
}

Reach-IsBalanced : {u w : World} → Reach u w → IsBalanced u → IsBalanced w
Reach-IsBalanced here b = b
Reach-IsBalanced (next r s) b = Step-IsBalanced s (Reach-IsBalanced r b)

-- In every state that the steps of clients, sweepers, worker and configuration reach from the
-- start, in any order, a prompt that the worker asked about either waits or was sent one answer,
-- never both and never two; an id never asked about has neither; and the gauge is the number of
-- waiting prompts modulo 2^64.
pub Reach-answers-waiting :
    (policy : DefaultPolicy) (w : World)
    → Reach (started policy) w
    → ((id : ℕ)
        → answers id w.router + waiting id w.router ≡ (if contains id w.asked then 1 else 0))
      × (w.router.prompts_pending ≡ length w.router.pending % counter_mod)
Reach-answers-waiting policy w r =
    let b = Reach-IsBalanced r (started-IsBalanced policy) in (b.balance, b.gauged.gauge)

-- In a reached state where no broadcast is left to be sent and every sweeper has run, each id that
-- the worker asked about was sent exactly one answer, and no other id was sent any.
pub Reach-answers :
    (policy : DefaultPolicy) (w : World)
    → Reach (started policy) w
    → w.announcing ≡ []
    → w.sleeping ≡ []
    → (id : ℕ) → answers id w.router ≡ (if contains id w.asked then 1 else 0)
Reach-answers policy w r a s id =
    let b = Reach-IsBalanced r (started-IsBalanced policy) in
    let quiet : (contains id w.announcing || contains id w.sleeping) ≡ false = rw (a, s) refl in
    ground (arith, b.balance id, b.watched id)
