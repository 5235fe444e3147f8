-- ===== src/Schedule.antt =====
-- crates/xtax-blob-storage/src/builder/maintenance.rs and builder/strategies.rs: the loops of the
-- built-in strategies, the queue of the maintenance tasks and its worker, interleaved in any
-- order. The queue is a channel of tokio, which is a parameter; a message is the number of the
-- registration whose task it carries.
pub mod Queue
pub mod Background
pub mod Order
pub mod Counts
pub mod Bounds
use xtax.Base.{
  ℕ, zero, suc, ◌+◌, ◌%◌, ◌^◌, ◌<◌, ◌==◌, Str, text, Bool, true, false, ◌&&◌, ◌||◌, Option, none,
  some, List, [], ◌∷◌, ◌++◌, ◌≡◌, if◌then◌else◌,
}
use xtax.Error.{BlobStorageError}
use xtax.Exec.{Result, ok, err}

-- The answer to `try_send`: the channel with the message, or the reason why not.
pub data Sending (Q : Type 0) : Type 0 where
  sent : Q → Sending Q
  full : Sending Q
  closed : Sending Q

-- `mpsc::channel` for the numbers of registrations. `recv` takes a message where one waits.
pub record Channel : Type 1 where
  pub Queue : Type 0
  pub channel : ℕ → Queue
  pub try_send : ℕ → Queue → Sending Queue
  pub recv : Queue → Option (ℕ × Queue)
  pub close : Queue → Queue

abbrev pub queue_slots : ℕ
queue_slots = 16

-- The built-in strategies; a period is in nanoseconds, and the number of a `Manual` names the
-- handle that it was cloned from.
pub data Strategy : Type 0 where
  on_start : Strategy
  periodic : ℕ → Strategy
  manual : ℕ → Strategy

-- Where the loop of a registration stands.
pub data Pc : Type 0 where
  unscheduled : Pc
  select : Pc  -- OnStart: before `ctx.cancelled()` of the biased `select!`
  sending : Pc  -- before `ctx.trigger()`
  sleeping : Pc  -- Periodic: in the `select!` of the loop
  awake : Pc  -- Periodic: before `ctx.is_cancelled()`
  listening : Pc  -- Manual: in the `select!` of the loop
  finished : Pc

-- A loop, with the mark of its watch receiver: whether there is a value that it has not seen.
pub record Loop : Type 0 where
  pub pc : Pc
  pub unseen : Bool

-- `schedule`: where the spawned loop starts. A zero period spawns nothing.
unfoldable pub schedule : Strategy → Pc
schedule on_start = select
schedule (periodic period) = if period == 0 then finished else sending
schedule (manual _) = listening

-- Where a loop goes on when its task was sent.
abbrev pub after_send : Strategy → Pc
after_send on_start = finished
after_send (periodic _) = sleeping
after_send (manual _) = listening

module _ (c : Channel) where
  -- `trigger`, polled: it waits while the queue is full.
  abbrev pub answer_trigger : c.Queue → Sending c.Queue → Option (Result c.Queue)
  answer_trigger q (sent r) = some (ok r)
  answer_trigger q full = none
  answer_trigger q closed =
      some (err (BlobStorageError.invalid_input (text "maintenance queue shut down")))

  unfoldable pub trigger : ℕ → c.Queue → Option (Result c.Queue)
  trigger i q = answer_trigger q (c.try_send i q)

  abbrev answer_try : Sending c.Queue → Result c.Queue
  answer_try (sent r) = ok r
  answer_try full = err (BlobStorageError.invalid_input (text "maintenance queue full"))
  answer_try closed = err (BlobStorageError.invalid_input (text "maintenance queue shut down"))

  unfoldable pub try_trigger : ℕ → c.Queue → Result c.Queue
  try_trigger i q = answer_try (c.try_send i q)

-- The worker of the queue.
pub data Worker : Type 0 where
  receiving : Worker
  running : ℕ → Worker
  stopped : Worker

abbrev pub update {ℓ} : {A : Type ℓ} → (ℕ → A) → ℕ → A → ℕ → A
update f i a j = if i == j then a else f j

abbrev pub at : Pc → Loop → Loop
at p l = record { pc = p; unseen = l.unseen }

-- A receiver lives from its registration to the end of its loop.
abbrev pub is_live : Pc → Bool
is_live unscheduled = false
is_live finished = false
is_live _ = true

abbrev pub listens : ℕ → Strategy → Loop → Bool
listens h (manual g) l = (h == g) && is_live l.pc
listens h _ l = false

-- `watch::Sender::send` marks the value as not seen for every receiver.
abbrev pub mark : ℕ → Strategy → Loop → Loop
mark h k l = if listens h k l then record { pc = l.pc; unseen = true } else l

-- Whether one of the first `n` registrations has a receiver of the handle.
unfoldable pub is_heard : ℕ → (ℕ → Strategy) → (ℕ → Loop) → ℕ → Bool
is_heard h plan loops zero = false
is_heard h plan loops (suc n) = listens h (plan n) (loops n) || is_heard h plan loops n

-- `Manual::trigger`: the next value, which reaches the channel if there is a receiver.
unfoldable pub next_values : ℕ → Bool → (ℕ → ℕ) → ℕ → ℕ
next_values h heard values = if heard then update values h ((values h + 1) % 2 ^ 64) else values

-- A loop moves without sending. A `select!` that is not biased takes any branch that is ready.
pub data Move (cancelled dropped : Bool) : Strategy → Loop → Loop → Type 0 where
  skip :
      {u : Bool}
      → cancelled ≡ true
      → Move cancelled dropped on_start
          (record { pc = select; unseen = u })
          (record { pc = finished; unseen = u })
  go :
      {u : Bool}
      → cancelled ≡ false
      → Move cancelled dropped on_start
          (record { pc = select; unseen = u })
          (record { pc = sending; unseen = u })
  elapse :
      {d : ℕ} {u : Bool}
      → Move cancelled dropped
          (periodic d)
          (record { pc = sleeping; unseen = u })
          (record { pc = awake; unseen = u })
  interrupt :
      {d : ℕ} {u : Bool}
      → cancelled ≡ true
      → Move cancelled dropped
          (periodic d)
          (record { pc = sleeping; unseen = u })
          (record { pc = finished; unseen = u })
  leave :
      {d : ℕ} {u : Bool}
      → cancelled ≡ true
      → Move cancelled dropped
          (periodic d)
          (record { pc = awake; unseen = u })
          (record { pc = finished; unseen = u })
  repeat :
      {d : ℕ} {u : Bool}
      → cancelled ≡ false
      → Move cancelled dropped
          (periodic d)
          (record { pc = awake; unseen = u })
          (record { pc = sending; unseen = u })
  quit :
      {h : ℕ} {u : Bool}
      → cancelled ≡ true
      → Move cancelled dropped
          (manual h)
          (record { pc = listening; unseen = u })
          (record { pc = finished; unseen = u })
  observe :
      {h : ℕ}
      → Move cancelled dropped
          (manual h)
          (record { pc = listening; unseen = true })
          (record { pc = sending; unseen = false })
  orphan :
      {h : ℕ}
      → dropped ≡ true
      → Move cancelled dropped
          (manual h)
          (record { pc = listening; unseen = false })
          (record { pc = finished; unseen = false })

abbrev pub handle : Strategy → ℕ
handle (manual h) = h
handle _ = 0
