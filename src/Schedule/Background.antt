-- ===== src/Schedule/Background.antt =====
-- crates/xtax-blob-storage/src/builder/maintenance.rs and builder/strategies.rs: the state of a
-- build that runs in the background, and its steps.
use xtax.Base.{ℕ, suc, ◌<◌, Bool, true, false, none, some, List, [], ◌∷◌, ◌++◌, ◌≡◌}
use xtax.Error.{BlobStorageError}
use xtax.Exec.{ok, err}
use xtax.Schedule.{
  Channel, queue_slots, Strategy, on_start, unscheduled, select, sending, finished, Loop, schedule,
  after_send, trigger, Worker, receiving, running, stopped, update, at, mark, is_heard, next_values,
  Move, handle,
}

-- All of a build that goes on in the background. `enqueued` and `started` record the tasks that
-- were sent and that the worker took, and `requests` counts the calls of `Manual::trigger`.
pub record System (c : Channel) : Type 0 where
  pub queue : c.Queue
  pub cancelled : Bool
  pub worker : Worker
  pub scheduled : ℕ
  pub loops : ℕ → Loop
  pub values : ℕ → ℕ
  pub dropped : ℕ → Bool
  pub enqueued : List ℕ
  pub started : List ℕ
  pub requests : ℕ → ℕ

-- `n` registrations with the strategies of `plan`.
pub data Step (c : Channel) (n : ℕ) (plan : ℕ → Strategy) (s : System c) : System c → Type 0 where
  spawn :
      s.scheduled < n
      → Step c n plan s (record s {
        scheduled = suc s.scheduled;
        loops =
            update s.loops s.scheduled
              (record { pc = schedule (plan s.scheduled); unseen = false });
      })
  move :
      (i : ℕ) {l : Loop}
      → Move s.cancelled (s.dropped (handle (plan i))) (plan i) (s.loops i) l
      → Step c n plan s (record s { loops = update s.loops i l })
  enqueue :
      (i : ℕ) {q : c.Queue}
      → (s.loops i).pc ≡ sending
      → trigger c i s.queue ≡ some (ok q)
      → Step c n plan s (record s {
        queue = q;
        loops = update s.loops i (at (after_send (plan i)) (s.loops i));
        enqueued = s.enqueued ++ (i ∷ []);
      })
  -- The biased `select!` of `OnStart` is polled anew while the queue is full.
  wait :
      (i : ℕ)
      → plan i ≡ on_start
      → (s.loops i).pc ≡ sending
      → trigger c i s.queue ≡ none
      → Step c n plan s (record s { loops = update s.loops i (at select (s.loops i)) })
  refuse :
      (i : ℕ) {e : BlobStorageError}
      → (s.loops i).pc ≡ sending
      → trigger c i s.queue ≡ some (err e)
      → Step c n plan s (record s { loops = update s.loops i (at finished (s.loops i)) })
  take :
      {i : ℕ} {q : c.Queue}
      → s.worker ≡ receiving
      → c.recv s.queue ≡ some (i, q)
      → Step c n plan s
          (record s { queue = q; worker = running i; started = s.started ++ (i ∷ []) })
  complete : {i : ℕ} → s.worker ≡ running i → Step c n plan s (record s { worker = receiving })
  stop :
      s.worker ≡ receiving
      → s.cancelled ≡ true
      → Step c n plan s (record s { worker = stopped; queue = c.close s.queue })
  -- Every sender was dropped: that of `spawn_tasks`, and those of the loops.
  starve :
      s.worker ≡ receiving
      → c.recv s.queue ≡ none
      → s.scheduled ≡ n
      → ((i : ℕ) → i < n → (s.loops i).pc ≡ finished)
      → Step c n plan s (record s { worker = stopped; queue = c.close s.queue })
  -- The guard of the store is dropped.
  cancel : Step c n plan s (record s { cancelled = true })
  -- `Manual::trigger`.
  request :
      (h : ℕ)
      → Step c n plan s (record s {
        values = next_values h (is_heard h plan s.loops n) s.values;
        loops = λ i. mark h (plan i) (s.loops i);
        requests = update s.requests h (suc (s.requests h));
      })
  forget : (h : ℕ) → Step c n plan s (record s { dropped = update s.dropped h true })

-- `spawn_tasks`, before it schedules the first registration.
abbrev pub init : (c : Channel) → System c
init c = record {
  queue = c.channel queue_slots;
  cancelled = false;
  worker = receiving;
  scheduled = 0;
  loops = λ _. record { pc = unscheduled; unseen = false };
  values = λ _. 0;
  dropped = λ _. false;
  enqueued = [];
  started = [];
  requests = λ _. 0;
}

-- The states that a run from `s` passes.
pub data Run (c : Channel) (n : ℕ) (plan : ℕ → Strategy) (s : System c) : System c → Type 0 where
  here : Run c n plan s s
  later : {t u : System c} → Run c n plan s t → Step c n plan t u → Run c n plan s u

abbrev pub Reach : (c : Channel) → ℕ → (ℕ → Strategy) → System c → Type 0
Reach c n plan = Run c n plan (init c)
