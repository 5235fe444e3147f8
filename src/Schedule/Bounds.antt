-- ===== src/Schedule/Bounds.antt =====
-- crates/xtax-blob-storage/src/builder/strategies.rs: bounds for the tasks that the loops send.
use xtax.Base.{
  ℕ, suc, ◌+◌, ◌≤◌, ◌==◌, Bool, true, false, Bool-cases, ◌≡◌, ◌≢◌, refl, ap, inl, inr, arith,
  ==_iff,
}
use xtax.Schedule.{
  Channel, Strategy, on_start, periodic, manual, schedule, Pc, unscheduled, sending, finished, Loop,
  Move, update, mark, listens,
}
use xtax.Schedule.Background.{System, Step, Run, Reach, init}
use xtax.Schedule.Counts.{count, IsCharge, Reach-IsFresh, Run-Charged}

-- One, until the loop of `OnStart` has finished.
abbrev once : Pc → ℕ
once finished = 0
once _ = 1

once-le : (p : Pc) → once p ≤ 1
once-le p = ground arith

once-IsCharge : IsCharge (λ _. Unit) on_start (λ l. once l.pc) (λ _. 1)
unfolding schedule
once-IsCharge = record {
  on_spawn = λ l e. ground arith;
  on_move = λ {c} {d} {l} {m} _ mv. once_moved mv;
  on_send = λ l e. ground arith;
  on_wait = λ l k e. ground arith;
  on_finish = λ l. ground arith;
  on_request = λ h l r. omega arith;
}
  where
    once_moved : {c d : Bool} {l m : Loop} → Move c d on_start l m → once m.pc ≤ once l.pc
    once_moved (Move.skip h) = omega arith
    once_moved (Move.go h) = omega arith

abbrev pub is_manual : Strategy → Bool
is_manual (manual _) = true
is_manual _ = false

-- The task that a loop may still send without a look at the cancellation.
abbrev last : Pc → ℕ
last unscheduled = 1
last sending = 1
last _ = 0

last-le : (p : Pc) → last p ≤ 1
last-le p = ground arith

last_moved :
    {c d : Bool} {k : Strategy} {l m : Loop}
    → is_manual k ≡ false
    → c ≡ true
    → Move c d k l m
    → last m.pc ≤ last l.pc
last_moved q late (Move.skip h) = omega arith
last_moved q late (Move.go h) = cc
last_moved q late Move.elapse = omega arith
last_moved q late (Move.interrupt h) = omega arith
last_moved q late (Move.leave h) = omega arith
last_moved q late (Move.repeat h) = cc
last_moved q late (Move.quit h) = cc
last_moved q late Move.observe = cc
last_moved q late (Move.orphan h) = cc

last-IsCharge :
    (k : Strategy) → is_manual k ≡ false → IsCharge (λ c. c ≡ true) k (λ l. last l.pc) (λ _. 0)
unfolding schedule
last-IsCharge on_start q = record {
  on_spawn = λ l e. omega arith;
  on_move = λ {c} {d} {l} {m} late mv. last_moved q late mv;
  on_send = λ l e. ground arith;
  on_wait = λ l k e. ground arith;
  on_finish = λ l. omega arith;
  on_request = λ h l r. omega arith;
}
last-IsCharge (periodic d) q = record {
  on_spawn = λ l e. ground arith;
  on_move = λ {c} {d} {l} {m} late mv. last_moved q late mv;
  on_send = λ l e. ground arith;
  on_wait = λ l k e. ground arith;
  on_finish = λ l. omega arith;
  on_request = λ h l r. omega arith;
}
last-IsCharge (manual h) q = cc

-- Tasks that a `Manual` has to send: for the value that it has not seen, and for the one it has.
abbrev unseen_one : Bool → ℕ
unseen_one true = 1
unseen_one false = 0

abbrev sending_one : Pc → ℕ
sending_one sending = 1
sending_one _ = 0

abbrev asked : Loop → ℕ
asked l = unseen_one l.unseen + sending_one l.pc

asked_moved : {c d : Bool} {g : ℕ} {l m : Loop} → Move c d (manual g) l m → asked m ≤ asked l
asked_moved (Move.quit h) = omega arith
asked_moved Move.observe = omega arith
asked_moved (Move.orphan h) = omega arith

mark-asked : (h : ℕ) (k : Strategy) (l : Loop) → asked (mark h k l) ≤ asked l + 1
mark-asked h k l = elim (Bool-cases (listens h k l)) [
  | inl q ↦ rw q (omega arith)
  | inr q ↦ rw q (omega arith)
]

counted_up : (g h : ℕ) (r : ℕ → ℕ) → (h == g) ≡ true → update r h (suc (r h)) g ≡ suc (r g)
counted_up g h r q = rw q (ap (λ (x : ℕ). suc (r x)) ((==_iff h g).0 q))

asked_more :
    (g h : ℕ) (l : Loop) (r : ℕ → ℕ)
    → asked (mark h (manual g) l) + r g ≤ asked l + update r h (suc (r h)) g
asked_more g h l r = elim (Bool-cases (h == g)) [
  | inr q ↦ rw q (omega arith)
  | inl q ↦ omega (arith, mark-asked h (manual g) l, counted_up g h r q)
]

asked-IsCharge : (g : ℕ) → IsCharge (λ _. Unit) (manual g) asked (λ r. r g)
unfolding schedule
asked-IsCharge g = record {
  on_spawn = λ l e. omega arith;
  on_move = λ {c} {d} {l} {m} _ mv. asked_moved mv;
  on_send = λ l e. ground arith;
  on_wait = λ l k e. cc;
  on_finish = λ l. omega arith;
  on_request = λ h l r. asked_more g h l r;
}

Step-cancelled :
    {c : Channel} {n : ℕ} {plan : ℕ → Strategy} (s t : System c)
    → Step c n plan s t
    → s.cancelled ≡ true
    → t.cancelled ≡ true
Step-cancelled s t (Step.spawn lt) e = e
Step-cancelled s t (Step.move i mv) e = e
Step-cancelled s t (Step.enqueue i p q) e = e
Step-cancelled s t (Step.wait i k p q) e = e
Step-cancelled s t (Step.refuse i p q) e = e
Step-cancelled s t (Step.take w q) e = e
Step-cancelled s t (Step.complete w) e = e
Step-cancelled s t (Step.stop w h) e = e
Step-cancelled s t (Step.starve w r k f) e = e
Step-cancelled s t Step.cancel e = refl
Step-cancelled s t (Step.request h) e = e
Step-cancelled s t (Step.forget h) e = e

once-live : (p : Pc) → p ≢ finished → once p ≡ 1
once-live p h = ground arith

module _ {c : Channel} (n : ℕ) (plan : ℕ → Strategy) (i : ℕ) where
  -- The loop of `OnStart` sends its task at most once, and has not sent it before it has finished.
  pub on_start-sends-once :
      (s : System c)
      → plan i ≡ on_start
      → Reach c n plan s
      → (count i s.enqueued ≤ 1) × ((s.loops i).pc ≢ finished → count i s.enqueued ≡ 0)
  on_start-sends-once s k r =
      let charge : IsCharge (λ _. Unit) (plan i) (λ l. once l.pc) (λ _. 1) = rw k once-IsCharge in
      let h : count i s.enqueued + once (s.loops i).pc ≤ 1 = omega (
        arith,
        (Run-Charged (λ _. Unit) plan i (λ l. once l.pc) (λ _. 1) charge (init c) s (λ u v st _. tt)
            (λ j _. refl) tt r).spent,
      ) in
      (omega arith, λ live. omega (arith, once-live (s.loops i).pc live))

  -- The loop of a `Manual` sends at most one task for each call of `trigger` on its handle,
  -- however the calls, the loop and the worker are interleaved.
  pub manual-sends-le :
      (g : ℕ) (s : System c)
      → plan i ≡ manual g
      → Reach c n plan s
      → count i s.enqueued ≤ s.requests g
  manual-sends-le g s k r =
      let charge : IsCharge (λ _. Unit) (plan i) asked (λ q. q g) = rw k (asked-IsCharge g) in
      omega (
        arith,
        (Run-Charged (λ _. Unit) plan i asked (λ q. q g) charge (init c) s (λ u v st _. tt)
            (λ j _. refl) tt r).spent,
      )

  -- After the cancellation, the loop of `OnStart` or of `Periodic` sends at most one more task.
  pub cancelled-sends-le :
      (s t : System c)
      → is_manual (plan i) ≡ false
      → Reach c n plan s
      → s.cancelled ≡ true
      → Run c n plan s t
      → count i t.enqueued ≤ count i s.enqueued + 1
  cancelled-sends-le s t k r late run = omega (
    arith,
    (Run-Charged (λ x. x ≡ true) plan i (λ l. last l.pc) (λ _. 0) (last-IsCharge (plan i) k) s t
        Step-cancelled (Reach-IsFresh s r) late run).spent,
    last-le (s.loops i).pc,
  )
