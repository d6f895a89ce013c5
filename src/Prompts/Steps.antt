-- ===== src/Prompts/Steps.antt =====
-- The router among its clients, its sweepers and the worker: each prompt is answered exactly once.
use colony_firewall_control.Prelude.{
  ℕ, ◌+◌, ◌-◌, ◌%◌, inl, inr, Option-cases, ◌≡◌, Bool, true, false, ◌||◌, Option, none, List, [],
  ◌∷◌, ◌++◌, ◌==◌, if◌then◌else◌, is_some, length, Text, arith,
}
use colony_firewall_control.Prelude.Maps.{
  get, remove, get-put, get-remove, Unique, length-put, Unique-put, length-remove, Unique-remove,
}
use colony_firewall_control.Verdict.{Verdict}
use colony_firewall_control.Config.{DefaultPolicy}
use colony_firewall_control.Prompts.{
  Router, PromptBinding, PromptRequest, new, resolve, submit, enqueue, reclaim, sweep, subscribe,
  drop_subscription, reload, counter_mod, no_ui_verdict,
}

-- How often the worker was sent an answer for an id.
abbrev pub answers_in : ℕ → List (ℕ × Verdict) → ℕ
answers_in id [] = 0
answers_in id ((k, _) ∷ sent) = (if k == id then 1 else 0) + answers_in id sent

abbrev pub answers : ℕ → Router → ℕ
answers id r = answers_in id r.sent

-- 1 while the prompt waits for an answer.
abbrev pub waiting : ℕ → Router → ℕ
waiting id r = if is_some (get id r.pending) then 1 else 0

answers-append :
    (id k : ℕ) (v : Verdict) (sent : List (ℕ × Verdict))
    → answers_in id (sent ++ ((k, v) ∷ [])) ≡ answers_in id sent + (if k == id then 1 else 0)
answers-append id k v [] = ground arith
answers-append id k v ((j, _) ∷ sent) = ground (arith, answers-append id k v sent)

-- Whatever resolution wins, the answers and the waiting prompts balance.
pub resolve-balance :
    (id j : ℕ) (v : Verdict) (r : Router)
    → answers j (resolve id v r).0 + waiting j (resolve id v r).0 ≡ answers j r + waiting j r
unfolding resolve
resolve-balance id j v r = ground (arith, answers-append j id v r.sent, get-remove id j r.pending)

-- The gauge counts the waiting prompts, up to the wrap of its counter.
pub record Gauged (r : Router) : Type 0 where
  pub unique : Unique r.pending
  pub gauge : r.prompts_pending ≡ length r.pending % counter_mod

dec_wrap : (n : ℕ) → ((n + 1) % counter_mod + counter_mod - 1) % counter_mod ≡ n % counter_mod
dec_wrap n = omega arith

inc_wrap : (n : ℕ) → (n % counter_mod + 1) % counter_mod ≡ (n + 1) % counter_mod
inc_wrap n = omega arith

gauge_less :
    (gauge l m : ℕ)
    → gauge ≡ m % counter_mod
    → l + 1 ≡ m
    → (gauge + counter_mod - 1) % counter_mod ≡ l % counter_mod
gauge_less gauge l m g e = rw (g, ← e) (dec_wrap l)

pub resolve-Gauged : (id : ℕ) (v : Verdict) (r : Router) → Gauged r → Gauged (resolve id v r).0
unfolding resolve
resolve-Gauged id v r g = elim (Option-cases (get id r.pending)) [
  | inl e ↦ record { unique = ground (arith, g.unique); gauge = ground (arith, g.gauge) }
  | inr (b, e) ↦ record {
    unique = ground (arith, Unique-remove id r.pending g.unique);
    gauge = ground (
      arith,
      gauge_less r.prompts_pending (length (remove id r.pending)) (length r.pending) g.gauge
          (length-remove id b r.pending g.unique e),
    );
  }
]

pub enqueue-Gauged :
    (req : PromptRequest) (binding : PromptBinding) (now : ℕ) (r : Router)
    → get req.prompt_id r.pending ≡ none
    → Gauged r
    → Gauged (enqueue req binding now r).0
unfolding enqueue
enqueue-Gauged req binding now r e g = record {
  unique = ground (arith, g.unique, Unique-put req.prompt_id binding r.pending g.unique);
  gauge =
      ground
        (arith, g.gauge, inc_wrap (length r.pending), length-put req.prompt_id binding r.pending e);
}

pub enqueue-balance :
    (req : PromptRequest) (binding : PromptBinding) (now j : ℕ) (r : Router)
    → get req.prompt_id r.pending ≡ none
    → answers j (enqueue req binding now r).0 + waiting j (enqueue req binding now r).0
      ≡ answers j r + waiting j r + (if req.prompt_id == j then 1 else 0)
unfolding enqueue
enqueue-balance req binding now j r e = ground (
  arith,
  answers-append j req.prompt_id (no_ui_verdict r) r.sent,
  get-put req.prompt_id j binding r.pending,
)

-- The router, the ids that the worker asked about, those whose broadcast is still to be sent, and
-- those whose sweeper sleeps.
pub record World : Type 0 where
  pub router : Router
  pub asked : List ℕ
  pub announcing : List ℕ
  pub sleeping : List ℕ

abbrev pub contains : ℕ → List ℕ → Bool
contains id [] = false
contains id (j ∷ ids) = j == id || contains id ids

abbrev pub without : ℕ → List ℕ → List ℕ
without id [] = []
without id (j ∷ ids) = if j == id then without id ids else j ∷ without id ids

-- A prompt that nobody may see is answered at once; any other is left to be broadcast.
unfoldable pub ask : PromptRequest → PromptBinding → ℕ → World → World
ask req binding now w =
    let (router, event) = enqueue req binding now w.router in
    record w {
      router = router;
      asked = req.prompt_id ∷ w.asked;
      announcing = if is_some event then req.prompt_id ∷ w.announcing else w.announcing;
    }

-- The steps of the clients, the sweepers, the worker and the configuration, in any order.
pub data Step (w : World) : World → Type 0 where
  submitted :
      (text : Text) (v : Verdict) → Step w (record w { router = (submit text v w.router).0 })
  asked :
      (req : PromptRequest) (binding : PromptBinding) (now : ℕ)
      → contains req.prompt_id w.asked ≡ false
      → Step w (ask req binding now w)
  broadcast :
      (id : ℕ)
      → contains id w.announcing ≡ true
      → Step w (record w { announcing = without id w.announcing; sleeping = id ∷ w.sleeping })
  not_broadcast :
      (id : ℕ)
      → contains id w.announcing ≡ true
      → Step w (record w { router = reclaim id w.router; announcing = without id w.announcing })
  woken :
      (id : ℕ)
      → contains id w.sleeping ≡ true
      → Step w (record w { router = sweep id w.router; sleeping = without id w.sleeping })
  subscribed :
      (uid : ℕ) (answering : Bool)
      → Step w (record w { router = (subscribe uid answering w.router).0 })
  dropped : (uid : Option ℕ) → Step w (record w { router = drop_subscription uid w.router })
  reloaded : (policy : DefaultPolicy) → Step w (record w { router = reload policy w.router })

abbrev pub started : DefaultPolicy → World
started policy = record { router = new policy; asked = []; announcing = []; sleeping = [] }

pub data Reach (w : World) : World → Type 0 where
  here : Reach w w
  next : {u v : World} → Reach w u → Step u v → Reach w v

pub record IsBalanced (w : World) : Type 0 where
  pub balance :
      (id : ℕ) → answers id w.router + waiting id w.router ≡ (if contains id w.asked then 1 else 0)
  pub watched :
      (id : ℕ)
      → is_some (get id w.router.pending) ≡ true
      → (contains id w.announcing || contains id w.sleeping) ≡ true
  pub gauged : Gauged w.router
