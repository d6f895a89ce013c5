-- ===== src/Scenarios/Prompting.antt =====
-- Two clients, one prompt: a user answers it before its sweeper wakes.
use colony_firewall_control.Prelude.{
  ℕ, ◌+◌, ◌%◌, ◌≡◌, refl, true, none, some, [], ◌∷◌, if◌then◌else◌, length, codes,
}
use colony_firewall_control.Rule.{allow}
use colony_firewall_control.Verdict.{Verdict, user_prompt}
use colony_firewall_control.Config.{DefaultPolicy, DefaultPolicyToml, policy, balanced}
use colony_firewall_control.Prompts.{
  PromptRequest, default_binding, counter_mod, has_audience, should_deliver, subscribe, submit,
  sweep, drop_subscription, new, enqueue, any_key, register,
}
use colony_firewall_control.Prelude.Maps.{get, put}
use colony_firewall_control.Prompts.Steps.{
  World, Reach, here, next, subscribed, asked, broadcast, submitted, woken, started, ask, without,
  answers, waiting, contains,
}
use colony_firewall_control.Prompts.Once.{Reach-answers-waiting, Reach-answers}
use colony_firewall_control.Prompts.Census.{nobody, Clients, any_owner, Reach-has_audience}
use colony_firewall_control.Prompts.Census
use colony_firewall_control.Scenarios.Lookups.{owned, flow}

abbrev defaults : DefaultPolicy
defaults = policy balanced

abbrev request : PromptRequest
request = record { prompt_id = 1; connection = flow; process = owned; undecided = none }

abbrev allowed : Verdict
allowed = record { action = allow; source = user_prompt }

-- A user subscribes, is asked, and answers; then the sweeper finds nothing left to do.
abbrev subscribed_world : World
subscribed_world = record (started defaults) {
  router = (subscribe 1000 true (started defaults).router).0;
}

abbrev asked_world : World
asked_world = ask request default_binding 0 subscribed_world

abbrev broadcast_world : World
broadcast_world = record asked_world {
  announcing = without 1 asked_world.announcing;
  sleeping = 1 ∷ asked_world.sleeping;
}

abbrev answered_world : World
answered_world = record broadcast_world {
  router = (submit (codes "1") allowed broadcast_world.router).0;
}

abbrev swept_world : World
swept_world = record answered_world {
  router = sweep 1 answered_world.router;
  sleeping = without 1 answered_world.sleeping;
}

to_broadcast : Reach (started defaults) broadcast_world
unfolding ask enqueue has_audience any_key should_deliver subscribe register put get new
to_broadcast =
    next (next (next here (subscribed 1000 true)) (asked request default_binding 0 refl))
      (broadcast 1 refl)

to_swept : Reach (started defaults) swept_world
to_swept = next (next to_broadcast (submitted (codes "1") allowed)) (woken 1 refl)

Reach-answers-waiting_example :
    ((id : ℕ)
      → answers id answered_world.router + waiting id answered_world.router
        ≡ (if contains id answered_world.asked then 1 else 0))
    × (answered_world.router.prompts_pending ≡ length answered_world.router.pending % counter_mod)
Reach-answers-waiting_example =
    Reach-answers-waiting defaults answered_world
      (next to_broadcast (submitted (codes "1") allowed))

none_announcing : swept_world.announcing ≡ []
unfolding ask enqueue has_audience any_key should_deliver subscribe register put get new
none_announcing = refl

none_sleeping : swept_world.sleeping ≡ []
unfolding ask
none_sleeping = refl

Reach-answers_example :
    answers 1 swept_world.router ≡ (if contains 1 swept_world.asked then 1 else 0)
Reach-answers_example = Reach-answers defaults swept_world to_swept none_announcing none_sleeping 1

-- Two subscriptions of one user, one of which is dropped again.
abbrev two_clients : Clients
two_clients = record {
  router =
      drop_subscription (some 1000)
        (subscribe 1000 true (subscribe 1000 true (nobody defaults).router).0).0;
  live = 1000 ∷ [];
}

Reach-has_audience_example :
    has_audience (some 1000) two_clients.router
    ≡ any_owner (should_deliver (some 1000)) two_clients.live
Reach-has_audience_example = Reach-has_audience defaults two_clients (some 1000) (
    Census.next
      (Census.next (Census.next Census.here (Census.answering 1000)) (Census.answering 1000))
      (Census.dropped 1000 1 refl))

-- A file that asks for Allow, over the balanced profile.
abbrev open_table : DefaultPolicyToml
open_table = record {
  no_ui_action = none;
  timeout_action = none;
  inbound_action = some allow;
  prompt_timeout_secs = none;
}
