-- ===== src/Nfqueue/Worker/Counted.antt =====
-- How often a message is answered, and how often it waits.
use colony_firewall_control.Prelude.{
  ℕ, ◌+◌, ◌≡◌, refl, ap, ◌∙◌, Bool, none, some, List, [], ◌∷◌, ◌++◌, ◌==◌, if◌then◌else◌,
  Result-cases, inl, inr, arith,
}
use colony_firewall_control.Prelude.Maps.{Map, get, put, remove, Unique}
use colony_firewall_control.Packet.{parse}
use colony_firewall_control.Verdict.{Verdict}
use colony_firewall_control.Engine.{peek}
use colony_firewall_control.Nfqueue.{NfqVerdict, nfq_verdict_for, direction_for_hook}
use colony_firewall_control.Nfqueue.Worker.{
  Worker, Message, ParkedPacket, PendingPrompt, ObservedConnection, Surroundings, send_verdict,
  inject_refusal, apply_action, record_observation, deliver, release, release_all, settled_verdict,
  credit_source,
}

abbrev pub bit : Bool → ℕ
bit b = if b then 1 else 0

-- How often message `n` was answered.
unfoldable pub answers : ℕ → List (ℕ × NfqVerdict) → ℕ
answers n [] = 0
answers n ((id, v) ∷ vs) = bit (id == n) + answers n vs

-- How often message `n` waits.
unfoldable pub parked_in : ℕ → List ParkedPacket → ℕ
parked_in n [] = 0
parked_in n (p ∷ ps) = bit (p.message.id == n) + parked_in n ps

unfoldable pub parked : ℕ → Map PendingPrompt → ℕ
unfolding parked_in
parked n [] = 0
parked n ((id, pending) ∷ m) = parked_in n pending.packets + parked n m

pub answers-append :
    (n id : ℕ) (v : NfqVerdict) (vs : List (ℕ × NfqVerdict))
    → answers n (vs ++ ((id, v) ∷ [])) ≡ answers n vs + bit (id == n)
unfolding answers
answers-append n id v [] = ground arith
answers-append n id v ((j, u) ∷ vs) = ground (arith, answers-append n id v vs)

pub parked_in-append :
    (n : ℕ) (p : ParkedPacket) (ps : List ParkedPacket)
    → parked_in n (ps ++ (p ∷ [])) ≡ parked_in n ps + bit (p.message.id == n)
unfolding parked_in
parked_in-append n p [] = ground arith
parked_in-append n p (q ∷ ps) = ground (arith, parked_in-append n p ps)

pub parked-put_new :
    (n id : ℕ) (p : PendingPrompt) (m : Map PendingPrompt)
    → get id m ≡ none
    → parked n (put id p m) ≡ parked n m + parked_in n p.packets
unfolding parked put get
parked-put_new n id p [] h = ground arith
parked-put_new n id p ((j, q) ∷ m) h = ground (arith, parked-put_new n id p m, h)

pub parked-put_old :
    (n id : ℕ) (p old : PendingPrompt) (m : Map PendingPrompt)
    → get id m ≡ some old
    → parked n (put id p m) + parked_in n old.packets ≡ parked n m + parked_in n p.packets
unfolding parked put get
parked-put_old n id p old [] h = cc
parked-put_old n id p old ((j, q) ∷ m) h = ground (arith, parked-put_old n id p old m, h)

parked-remove_absent :
    (n id : ℕ) (m : Map PendingPrompt) → get id m ≡ none → parked n (remove id m) ≡ parked n m
unfolding parked remove get
parked-remove_absent n id [] h = refl
parked-remove_absent n id ((j, q) ∷ m) h = ground (arith, parked-remove_absent n id m, h)

pub parked-remove :
    (n id : ℕ) (p : PendingPrompt) (m : Map PendingPrompt)
    → Unique m
    → get id m ≡ some p
    → parked n (remove id m) + parked_in n p.packets ≡ parked n m
unfolding parked remove get
parked-remove n id p [] u h = cc
parked-remove n id p ((j, q) ∷ m) u h =
    ground (arith, parked-remove n id p m u.1, parked-remove_absent n id m, h)

-- What a delivery leaves alone.
pub record Keeps (w w' : Worker) : Type 0 where
  pub waiters : w'.waiters ≡ w.waiters
  pub pending_flows : w'.pending_flows ≡ w.pending_flows
  pub next_prompt_id : w'.next_prompt_id ≡ w.next_prompt_id

pub Keeps-trans : (a b c : Worker) → Keeps a b → Keeps b c → Keeps a c
Keeps-trans a b c k l = record {
  waiters = l.waiters ∙ k.waiters;
  pending_flows = l.pending_flows ∙ k.pending_flows;
  next_prompt_id = l.next_prompt_id ∙ k.next_prompt_id;
}

inject_refusal-Keeps :
    (s : Surroundings) (msg : Message) (w : Worker)
    → Keeps w (inject_refusal s msg w) × ((inject_refusal s msg w).verdicts ≡ w.verdicts)
unfolding inject_refusal
inject_refusal-Keeps s msg w =
    elim (Result-cases (parse s.stamp msg.payload (direction_for_hook msg.hook))) [
      | inl (c, e) ↦
          rw (inject_refusal, e)
            (record { waiters = refl; pending_flows = refl; next_prompt_id = refl }, refl)
      | inr (x, e) ↦
          rw (inject_refusal, e)
            (record { waiters = refl; pending_flows = refl; next_prompt_id = refl }, refl)
    ]

-- A delivery answers its message, once, with the verdict for its action.
pub deliver-verdicts :
    (s : Surroundings) (msg : Message) (o : ObservedConnection) (w : Worker)
    → (deliver s msg o w).verdicts ≡ w.verdicts ++ ((msg.id, nfq_verdict_for o.verdict.action) ∷ [])
unfolding deliver apply_action send_verdict record_observation
deliver-verdicts s msg o w = ground (arith, (inject_refusal-Keeps s msg w).1)

pub deliver-Keeps :
    (s : Surroundings) (msg : Message) (o : ObservedConnection) (w : Worker)
    → Keeps w (deliver s msg o w)
unfolding deliver apply_action send_verdict record_observation
deliver-Keeps s msg o w =
    let kept = (inject_refusal-Keeps s msg w).0 in
    record {
      waiters = ground (arith, kept.waiters);
      pending_flows = ground (arith, kept.pending_flows);
      next_prompt_id = ground (arith, kept.next_prompt_id);
    }

-- What a release records, and the state that it delivers from.
abbrev pub settled : Surroundings → Verdict → ParkedPacket → Worker → ObservedConnection
settled s answer p w =
    let settlement = settled_verdict answer (peek w.engine p.connection p.process s.now) in
    record {
      connection = p.connection;
      process = p.process;
      verdict = settlement.0;
      undecided = settlement.1;
    }

abbrev pub credited : Surroundings → Verdict → ParkedPacket → Worker → Worker
credited s answer p w = record w {
  engine = credit_source (settled s answer p w).verdict.source w.engine;
}

pub release-deliver :
    (s : Surroundings) (answer : Verdict) (p : ParkedPacket) (w : Worker)
    → release s answer p w ≡ deliver s p.message (settled s answer p w) (credited s answer p w)
unfolding release
release-deliver s answer p w = refl

release-Keeps :
    (s : Surroundings) (answer : Verdict) (p : ParkedPacket) (w : Worker)
    → Keeps w (release s answer p w)
unfolding release
release-Keeps s answer p w =
    let kept = deliver-Keeps s p.message (settled s answer p w) (credited s answer p w) in
    record {
      waiters = kept.waiters;
      pending_flows = kept.pending_flows;
      next_prompt_id = kept.next_prompt_id;
    }

release-answers :
    (s : Surroundings) (answer : Verdict) (n : ℕ) (p : ParkedPacket) (w : Worker)
    → answers n (release s answer p w).verdicts ≡ answers n w.verdicts + bit (p.message.id == n)
unfolding release
release-answers s answer n p w =
    let o = settled s answer p w in
    ap (answers n) (deliver-verdicts s p.message o (credited s answer p w))
    ∙ answers-append n p.message.id (nfq_verdict_for o.verdict.action) w.verdicts

pub release_all-Keeps :
    (s : Surroundings) (answer : Verdict) (ps : List ParkedPacket) (w : Worker)
    → Keeps w (release_all s answer ps w)
unfolding release_all
release_all-Keeps s answer [] w = record {
  waiters = refl;
  pending_flows = refl;
  next_prompt_id = refl;
}
release_all-Keeps s answer (p ∷ ps) w =
    let next = release s answer p w in
    Keeps-trans w next (release_all s answer ps next) (release-Keeps s answer p w)
      (release_all-Keeps s answer ps next)

pub release_all-answers :
    (s : Surroundings) (answer : Verdict) (n : ℕ) (ps : List ParkedPacket) (w : Worker)
    → answers n (release_all s answer ps w).verdicts ≡ answers n w.verdicts + parked_in n ps
unfolding release_all parked_in
release_all-answers s answer n [] w = omega arith
release_all-answers s answer n (p ∷ ps) w =
    let next = release s answer p w in
    omega (arith, release_all-answers s answer n ps next, release-answers s answer n p w)
