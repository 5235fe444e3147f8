-- ===== src/Schedule/Order.antt =====
-- crates/xtax-blob-storage/src/builder/maintenance.rs: the order of the tasks, the bound of the
-- queue, and when the worker stops.
use xtax.Base.{
  ℕ, ◌≤◌, Bool, true, false, some, List, [], ◌∷◌, ◌++◌, length, length-append, ◌≡◌, refl, sym, ap,
  ◌∙◌, arith,
}
use xtax.Exec.{ok}
use xtax.Schedule.{
  Channel, Sending, sent, full, closed, queue_slots, Strategy, schedule, answer_trigger, trigger,
  Worker, receiving, running, stopped, at, update, after_send, finished, Pc,
}
use xtax.Schedule.Background.{System, Step, here, later, init, Reach}
use xtax.Schedule.Queue.{IsFifo}

answer-sent :
    (c : Channel) (q r : c.Queue) (x : Sending c.Queue)
    → answer_trigger c q x ≡ some (ok r)
    → x ≡ sent r
answer-sent c q r (sent x) e = cc
answer-sent c q r full e = cc
answer-sent c q r closed e = cc

pub trigger-sent :
    (c : Channel) (i : ℕ) (q r : c.Queue) → trigger c i q ≡ some (ok r) → c.try_send i q ≡ sent r
unfolding trigger
trigger-sent c i q r e = answer-sent c q r (c.try_send i q) e

abbrev pub is_stopped : Worker → Bool
is_stopped stopped = true
is_stopped _ = false

append_assoc {ℓ} : {A : Type ℓ} (xs ys zs : List A) → (xs ++ ys) ++ zs ≡ xs ++ (ys ++ zs)
append_assoc [] ys zs = refl
append_assoc (x ∷ xs) ys zs = ap (λ r. x ∷ r) (append_assoc xs ys zs)

append_nil {ℓ} : {A : Type ℓ} (xs : List A) → xs ++ [] ≡ xs
append_nil [] = refl
append_nil (x ∷ xs) = ap (λ r. x ∷ r) (append_nil xs)

module _ (c : Channel) (waiting : c.Queue → List ℕ) (is_closed : c.Queue → Bool)
    (slots : c.Queue → ℕ) (fifo : IsFifo c waiting is_closed slots) where
  -- The worker has started the tasks in the order in which they were sent, the others wait, and
  -- only a worker that has stopped has lost any.
  pub record Ordered (s : System c) : Type 0 where
    pub lost : List ℕ
    pub order : s.enqueued ≡ s.started ++ (waiting s.queue ++ lost)
    pub kept : is_stopped s.worker ≡ false → lost ≡ []
    pub closing : is_closed s.queue ≡ is_stopped s.worker
    pub room : slots s.queue ≡ queue_slots
    pub bound : length (waiting s.queue) ≤ queue_slots

  init-Ordered : Ordered (init c)
  init-Ordered = record {
    lost = [];
    order = ap (λ r. r ++ []) (sym (fifo.channel_empty queue_slots));
    kept = λ _. refl;
    closing = fifo.channel_open queue_slots;
    room = fifo.channel_slots queue_slots;
    bound = omega (arith, ap length (fifo.channel_empty queue_slots));
  }

  -- Moves of loops do not touch the queue.
  unmoved :
      (s t : System c)
      → Ordered s
      → t.queue ≡ s.queue
      → t.enqueued ≡ s.enqueued
      → t.started ≡ s.started
      → is_stopped t.worker ≡ is_stopped s.worker
      → Ordered t
  unmoved s t inv q e st w = record {
    lost = inv.lost;
    order = rw (q, e, st) inv.order;
    kept = λ h. inv.kept (sym w ∙ h);
    closing = rw (q, w) inv.closing;
    room = rw q inv.room;
    bound = rw q inv.bound;
  }

  -- A sent task waits behind the others.
  sent-Ordered :
      (s : System c) (i : ℕ) (q : c.Queue) (loops : ℕ → xtax.Schedule.Loop)
      → Ordered s
      → c.try_send i s.queue ≡ sent q
      → Ordered (record s { queue = q; loops = loops; enqueued = s.enqueued ++ (i ∷ []) })
  sent-Ordered s i q loops inv e =
      let going = sym inv.closing ∙ (fifo.send_open i s.queue q e).0 in
      let whole = inv.kept going in
      record {
        lost = [];
        order =
            ap (λ r. r ++ (i ∷ []))
              (inv.order ∙ ap (λ l. s.started ++ (waiting s.queue ++ l)) whole)
            ∙ ap (λ r. (s.started ++ r) ++ (i ∷ [])) (append_nil (waiting s.queue))
            ∙ append_assoc s.started (waiting s.queue) (i ∷ [])
            ∙ ap (λ r. s.started ++ r)
                (sym (fifo.send_last i s.queue q e) ∙ sym (append_nil (waiting q)));
        kept = λ _. refl;
        closing = (fifo.send_open i s.queue q e).1 ∙ sym going;
        room = fifo.send_slots i s.queue q e ∙ inv.room;
        bound = omega (
          arith,
          inv.room,
          fifo.send_room i s.queue q e,
          ap length (fifo.send_last i s.queue q e),
          length-append (waiting s.queue) (i ∷ []),
        );
      }

  taken-Ordered :
      (s : System c) (i : ℕ) (q : c.Queue)
      → Ordered s
      → s.worker ≡ receiving
      → c.recv s.queue ≡ some (i, q)
      → Ordered (record s { queue = q; worker = running i; started = s.started ++ (i ∷ []) })
  taken-Ordered s i q inv w e = record {
    lost = inv.lost;
    order =
        inv.order
        ∙ ap (λ r. s.started ++ (r ++ inv.lost)) (fifo.recv_first i s.queue q e)
        ∙ sym (append_assoc s.started (i ∷ []) (waiting q ++ inv.lost));
    kept = λ h. inv.kept (ap is_stopped w);
    closing = fifo.recv_closed i s.queue q e ∙ inv.closing ∙ ap is_stopped w;
    room = fifo.recv_slots i s.queue q e ∙ inv.room;
    bound = omega (arith, inv.bound, ap length (fifo.recv_first i s.queue q e));
  }

  stopped-Ordered :
      (s : System c) → Ordered s → Ordered (record s { worker = stopped; queue = c.close s.queue })
  stopped-Ordered s inv = record {
    lost = waiting s.queue ++ inv.lost;
    order =
        inv.order
        ∙ ap (λ r. s.started ++ (r ++ (waiting s.queue ++ inv.lost)))
            (sym (fifo.close_empty s.queue));
    kept = λ h. cc;
    closing = fifo.close_closed s.queue;
    room = fifo.close_slots s.queue ∙ inv.room;
    bound = omega (arith, ap length (fifo.close_empty s.queue));
  }

  Step-Ordered :
      {n : ℕ} {plan : ℕ → Strategy} (s t : System c) → Step c n plan s t → Ordered s → Ordered t
  Step-Ordered s t (Step.spawn lt) inv = unmoved s t inv refl refl refl refl
  Step-Ordered s t (Step.move i mv) inv = unmoved s t inv refl refl refl refl
  Step-Ordered s t (Step.enqueue i {q} p e) inv =
      sent-Ordered s i q _ inv (trigger-sent c i s.queue q e)
  Step-Ordered s t (Step.wait i k p e) inv = unmoved s t inv refl refl refl refl
  Step-Ordered s t (Step.refuse i p e) inv = unmoved s t inv refl refl refl refl
  Step-Ordered s t (Step.take {i} {q} w e) inv = taken-Ordered s i q inv w e
  Step-Ordered s t (Step.complete {i} w) inv =
      unmoved s t inv refl refl refl (ap is_stopped (sym w))
  Step-Ordered s t (Step.stop w h) inv = stopped-Ordered s inv
  Step-Ordered s t (Step.starve w r k f) inv = stopped-Ordered s inv
  Step-Ordered s t Step.cancel inv = unmoved s t inv refl refl refl refl
  Step-Ordered s t (Step.request h) inv = unmoved s t inv refl refl refl refl
  Step-Ordered s t (Step.forget h) inv = unmoved s t inv refl refl refl refl

  -- In every state that a build reaches, however its loops and its worker are interleaved: the
  -- worker has started tasks in the order in which they were sent, the tasks that were sent and not
  -- started wait in the queue in that order unless the worker has stopped, the queue is closed just
  -- when the worker has stopped, and at most sixteen tasks wait.
  pub Reach-Ordered : {n : ℕ} {plan : ℕ → Strategy} (s : System c) → Reach c n plan s → Ordered s
  Reach-Ordered s here = init-Ordered
  Reach-Ordered s (later {t} r st) = Step-Ordered t s st (Reach-Ordered t r)
