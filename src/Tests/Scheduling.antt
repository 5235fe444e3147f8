-- ===== src/Tests/Scheduling.antt =====
-- A channel of numbers in a list, runs of the background of a build, and concrete cases of its
-- theorems.
use xtax.Base.{
  ℕ, zero, suc, ◌+◌, ◌≤◌, ltb, Bool, true, false, Option, none, some, List, [], ◌∷◌, ◌++◌, ◌∙◌,
  length, ◌≡◌, ◌≢◌, refl, ap, arith,
}
use xtax.Schedule.{
  Channel, Sending, sent, full, closed, Strategy, on_start, periodic, manual, schedule, trigger,
  finished, Move,
}
use xtax.Schedule.Background.{System, Step, Run, here, later, Reach}
use xtax.Schedule.Queue.{IsFifo}
use xtax.Schedule.Order.{Ordered, Reach-Ordered}
use xtax.Schedule.Counts.{count}
use xtax.Schedule.Bounds.{on_start-sends-once, manual-sends-le, cancelled-sends-le}

record Messages : Type 0 where
  list : List ℕ
  is_closed : Bool
  slots : ℕ

abbrev behind : ℕ → Messages → Messages
behind i q = record { list = q.list ++ (i ∷ []); is_closed = q.is_closed; slots = q.slots }

abbrev answer : ℕ → Messages → Bool → Bool → Sending Messages
answer i q true room = closed
answer i q false true = sent (behind i q)
answer i q false false = full

abbrev first_of : Messages → List ℕ → Option (ℕ × Messages)
first_of q [] = none
first_of q (i ∷ is) = some (i, record { list = is; is_closed = q.is_closed; slots = q.slots })

abbrev list_channel : Channel
list_channel = record {
  Queue = Messages;
  channel = λ n. record { list = []; is_closed = false; slots = n };
  try_send = λ i q. answer i q q.is_closed (ltb (length q.list) q.slots);
  recv = λ q. first_of q q.list;
  close = λ q. record { list = []; is_closed = true; slots = q.slots };
}

answer-sent :
    (i : ℕ) (q r : Messages) (a b : Bool)
    → answer i q a b ≡ sent r
    → (a ≡ false) × (b ≡ true) × (r ≡ behind i q)
answer-sent i q r true b e = cc
answer-sent i q r false true e = (refl, refl, cc)
answer-sent i q r false false e = cc

answer-closed : (i : ℕ) (q : Messages) (a b : Bool) → answer i q a b ≡ closed → a ≡ true
answer-closed i q true b e = refl
answer-closed i q false true e = cc
answer-closed i q false false e = cc

answer-full : (i : ℕ) (q : Messages) (a b : Bool) → answer i q a b ≡ full → b ≡ false
answer-full i q true b e = cc
answer-full i q false true e = cc
answer-full i q false false e = refl

first-some :
    (i : ℕ) (q r : Messages) (is : List ℕ)
    → first_of q is ≡ some (i, r)
    → (is ≡ i ∷ r.list) × (r.is_closed ≡ q.is_closed) × (r.slots ≡ q.slots)
first-some i q r [] e = cc
first-some i q r (j ∷ js) e = (cc, cc, cc)

first-none : (q : Messages) (is : List ℕ) → first_of q is ≡ none → is ≡ []
first-none q [] e = refl
first-none q (j ∷ js) e = cc

list_channel-IsFifo : IsFifo list_channel (λ q. q.list) (λ q. q.is_closed) (λ q. q.slots)
list_channel-IsFifo = record {
  channel_empty = λ n. refl;
  channel_open = λ n. refl;
  channel_slots = λ n. refl;
  send_last = λ i q r e. ap (λ (x : Messages). x.list) (answer-sent i q r _ _ e).2;
  send_room = λ i q r e. let h = (answer-sent i q r _ _ e).1 in ground arith;
  send_open = λ i q r e.
      let h = answer-sent i q r _ _ e in (h.0, ap (λ (x : Messages). x.is_closed) h.2 ∙ h.0);
  send_slots = λ i q r e. ap (λ (x : Messages). x.slots) (answer-sent i q r _ _ e).2;
  refused_closed = λ i q e. answer-closed i q _ _ e;
  refused_full = λ i q e. let h = answer-full i q _ _ e in ground arith;
  recv_first = λ i q r e. (first-some i q r q.list e).0;
  recv_closed = λ i q r e. (first-some i q r q.list e).1;
  recv_slots = λ i q r e. (first-some i q r q.list e).2;
  recv_none = λ q e. first-none q q.list e;
  close_closed = λ q. refl;
  close_empty = λ q. refl;
  close_slots = λ q. refl;
}

-- Two registrations: `OnStart`, and a `Manual`.
abbrev plan : ℕ → Strategy
plan zero = on_start
plan (suc _) = manual 7

abbrev Reached : Type 0
Reached = (s : System list_channel) × Reach list_channel 2 plan s

-- `OnStart` sends its task, a request makes the other loop send, the worker takes the first task,
-- and the store is dropped.
scheduled_run : Reached
unfolding schedule
scheduled_run = (_, later (later here (Step.spawn (omega arith))) (Step.spawn (omega arith)))

started_run : Reached
unfolding scheduled_run schedule trigger
started_run =
    (_, later (later scheduled_run.1 (Step.move 0 (Move.go refl))) (Step.enqueue 0 refl refl))

asked_run : Reached
unfolding started_run
asked_run = (
  _,
  later (later (later started_run.1 (Step.request 7)) (Step.move 1 Move.observe))
      (Step.enqueue 1 refl refl),
)

taken_run : Reached
unfolding asked_run
taken_run = (_, later (later asked_run.1 (Step.take refl refl)) Step.cancel)

-- Two tasks were sent, one of them was started.
taken_run_enqueued : taken_run.0.enqueued ≡ 0 ∷ 1 ∷ []
unfolding taken_run
taken_run_enqueued = refl

taken_run_started : taken_run.0.started ≡ 0 ∷ []
unfolding taken_run
taken_run_started = refl

Reach-Ordered_example :
    Ordered list_channel
      (λ q. q.list)
      (λ q. q.is_closed)
      (λ q. q.slots)
      list_channel-IsFifo
      taken_run.0
Reach-Ordered_example =
    Reach-Ordered list_channel (λ q. q.list) (λ q. q.is_closed) (λ q. q.slots) list_channel-IsFifo
      taken_run.0 taken_run.1

on_start-sends-once_example :
    (count 0 taken_run.0.enqueued ≤ 1)
    × ((taken_run.0.loops 0).pc ≢ finished → count 0 taken_run.0.enqueued ≡ 0)
on_start-sends-once_example = on_start-sends-once 2 plan 0 taken_run.0 refl taken_run.1

manual-sends-le_example : count 1 taken_run.0.enqueued ≤ taken_run.0.requests 7
manual-sends-le_example = manual-sends-le 2 plan 1 7 taken_run.0 refl taken_run.1

-- A periodic loop that was about to send its task when the store was dropped.
abbrev every_five : ℕ → Strategy
every_five _ = periodic 5

cancelled_run : (s : System list_channel) × Reach list_channel 1 every_five s
unfolding schedule
cancelled_run = (_, later (later here (Step.spawn (omega arith))) Step.cancel)

sent_late : (t : System list_channel) × Run list_channel 1 every_five cancelled_run.0 t
unfolding cancelled_run schedule trigger
sent_late = (
  _,
  later
      (later (later (later here (Step.enqueue 0 refl refl)) (Step.move 0 Move.elapse))
        (Step.move 0 (Move.leave refl)))
      (Step.take refl refl),
)

cancelled-sends-le_example : count 0 sent_late.0.enqueued ≤ count 0 cancelled_run.0.enqueued + 1
unfolding cancelled_run
cancelled-sends-le_example =
    cancelled-sends-le 1 every_five 0 cancelled_run.0 sent_late.0 refl cancelled_run.1 refl
      sent_late.1
