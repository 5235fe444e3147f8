-- ===== src/Schedule/Counts.antt =====
-- crates/xtax-blob-storage/src/builder/strategies.rs: what the steps of a system do to the tasks
-- that one registration has sent, with a quantity of its loop that pays for them.
use xtax.Base.{
  ℕ, suc, ◌+◌, ◌≤◌, ◌==◌, Bool, true, false, Bool-cases, List, [], ◌∷◌, ◌++◌, ◌≡◌, refl, sym, ap,
  ◌∙◌, inl, inr, arith, if◌then◌else◌, ==_iff,
}
use xtax.Schedule.{
  Channel, Strategy, on_start, schedule, Pc, unscheduled, select, sending, finished, Loop, Move, at,
  update, after_send, mark, listens,
}
use xtax.Schedule.Background.{System, Step, Run, here, later, Reach}

abbrev pub count : ℕ → List ℕ → ℕ
count i [] = 0
count i (j ∷ js) = if i == j then suc (count i js) else count i js

pub count-append : (i : ℕ) (xs ys : List ℕ) → count i (xs ++ ys) ≡ count i xs + count i ys
count-append i [] ys = omega arith
count-append i (x ∷ xs) ys = ground (arith, count-append i xs ys)

abbrev pub is_spawned : Pc → Bool
is_spawned unscheduled = false
is_spawned _ = true

Move-is_spawned : {c d : Bool} {k : Strategy} {l m : Loop} → Move c d k l m → is_spawned l.pc ≡ true
Move-is_spawned (Move.skip _) = refl
Move-is_spawned (Move.go _) = refl
Move-is_spawned Move.elapse = refl
Move-is_spawned (Move.interrupt _) = refl
Move-is_spawned (Move.leave _) = refl
Move-is_spawned (Move.repeat _) = refl
Move-is_spawned (Move.quit _) = refl
Move-is_spawned Move.observe = refl
Move-is_spawned (Move.orphan _) = refl

-- The quantity `w` of a loop with the strategy `k` pays for its sending, and `gain` is what the
-- calls of `Manual::trigger` add. `P` is what is known of the cancellation.
pub record IsCharge (P : Bool → Type 0) (k : Strategy) (w : Loop → ℕ) (gain : (ℕ → ℕ) → ℕ)
    : Type 0 where
  pub on_spawn :
      (l : Loop) → l.pc ≡ unscheduled → w (record { pc = schedule k; unseen = false }) ≤ w l
  pub on_move : {c d : Bool} {l m : Loop} → P c → Move c d k l m → w m ≤ w l
  pub on_send : (l : Loop) → l.pc ≡ sending → suc (w (at (after_send k) l)) ≤ w l
  pub on_wait : (l : Loop) → k ≡ on_start → l.pc ≡ sending → w (at select l) ≤ w l
  pub on_finish : (l : Loop) → w (at finished l) ≤ w l
  pub on_request :
      (h : ℕ) (l : Loop) (r : ℕ → ℕ) → w (mark h k l) + gain r ≤ w l + gain (update r h (suc (r h)))

mark-pc : (h : ℕ) (k : Strategy) (l : Loop) → (mark h k l).pc ≡ l.pc
mark-pc h k l = elim (Bool-cases (listens h k l)) [ inl q ↦ rw q refl | inr q ↦ rw q refl ]

module _ (P : Bool → Type 0) (plan : ℕ → Strategy) (i : ℕ) (w : Loop → ℕ) (gain : (ℕ → ℕ) → ℕ)
    (charge : IsCharge P (plan i) w gain) where
  pays_at : (j : ℕ) → j ≡ i → IsCharge P (plan j) w gain
  pays_at j e = rw e charge

module _ {c : Channel} where
  -- Registrations are scheduled in order.
  abbrev pub IsFresh : System c → Type 0
  IsFresh s = (j : ℕ) → s.scheduled ≤ j → (s.loops j).pc ≡ unscheduled

  touched :
      (s : System c) (i : ℕ) (l : Loop)
      → is_spawned (s.loops i).pc ≡ true
      → IsFresh s
      → (j : ℕ) → s.scheduled ≤ j
      → (update s.loops i l j).pc ≡ unscheduled
  touched s i l e fresh j h = elim (Bool-cases (i == j)) [
    | inr q ↦ rw q (fresh j h)
    | inl q ↦ cc (
        sym e
        ∙ ap (λ (x : ℕ). is_spawned (s.loops x).pc) ((==_iff i j).0 q)
        ∙ ap is_spawned (fresh j h))
  ]

  Step-IsFresh :
      {n : ℕ} {plan : ℕ → Strategy} (s t : System c) → Step c n plan s t → IsFresh s → IsFresh t
  Step-IsFresh s t (Step.spawn lt) fresh = λ j h. elim (Bool-cases (s.scheduled == j)) [
    | inl q ↦ absurd (omega (arith, (==_iff s.scheduled j).0 q))
    | inr q ↦ rw q (fresh j (omega arith))
  ]
  Step-IsFresh s t (Step.move i mv) fresh = touched s i _ (Move-is_spawned mv) fresh
  Step-IsFresh s t (Step.enqueue i p e) fresh = touched s i _ (ap is_spawned p) fresh
  Step-IsFresh s t (Step.wait i k p e) fresh = touched s i _ (ap is_spawned p) fresh
  Step-IsFresh s t (Step.refuse i p e) fresh = touched s i _ (ap is_spawned p) fresh
  Step-IsFresh {plan = plan} s t (Step.request h) fresh =
      λ j g. mark-pc h (plan j) (s.loops j) ∙ fresh j g
  Step-IsFresh s t (Step.take w e) fresh = fresh
  Step-IsFresh s t (Step.complete w) fresh = fresh
  Step-IsFresh s t (Step.stop w h) fresh = fresh
  Step-IsFresh s t (Step.starve w r k f) fresh = fresh
  Step-IsFresh s t Step.cancel fresh = fresh
  Step-IsFresh s t (Step.forget h) fresh = fresh

  pub Reach-IsFresh : {n : ℕ} {plan : ℕ → Strategy} (s : System c) → Reach c n plan s → IsFresh s
  Reach-IsFresh s here = λ j h. refl
  Reach-IsFresh s (later {t} r st) = Step-IsFresh t s st (Reach-IsFresh t r)

  module _ (P : Bool → Type 0) (plan : ℕ → Strategy) (i : ℕ) (w : Loop → ℕ) (gain : (ℕ → ℕ) → ℕ)
      (charge : IsCharge P (plan i) w gain) where
    -- The tasks that the registration sent, with what its loop keeps.
    abbrev pub total : System c → ℕ
    total s = count i s.enqueued + w (s.loops i)

    updated :
        (s : System c) (j : ℕ) (l : Loop)
        → (j ≡ i → w l ≤ w (s.loops j))
        → w (update s.loops j l i) ≤ w (s.loops i)
    updated s j l f = elim (Bool-cases (j == i)) [
      | inr q ↦ rw q (omega arith)
      | inl q ↦
          let e = (==_iff j i).0 q in rw q (omega (arith, f e, ap (λ (x : ℕ). w (s.loops x)) e))
    ]

    paid :
        (s : System c) (j : ℕ)
        → (s.loops j).pc ≡ sending
        → count i (s.enqueued ++ (j ∷ []))
            + w (update s.loops j (at (after_send (plan j)) (s.loops j)) i)
          ≤ total s
    paid s j p = elim (Bool-cases (j == i)) [
      | inr q ↦ rw q (ground (arith, count-append i s.enqueued (j ∷ [])))
      | inl q ↦
          let e = (==_iff j i).0 q in
          rw q (
            ground (
              arith,
              count-append i s.enqueued (j ∷ []),
              (pays_at P plan i w gain charge j e).on_send (s.loops j) p,
              ap (λ (x : ℕ). w (s.loops x)) e,
            ))
    ]

    pub Step-total :
        {n : ℕ} (s t : System c)
        → Step c n plan s t
        → IsFresh s
        → P s.cancelled
        → total t + gain s.requests ≤ total s + gain t.requests
    Step-total s t (Step.spawn lt) fresh late = omega (
      arith,
      updated s s.scheduled _ λ e.
          (pays_at P plan i w gain charge s.scheduled e).on_spawn _
            (fresh s.scheduled (omega arith)),
    )
    Step-total s t (Step.move j mv) fresh late =
        omega (arith, updated s j _ λ e. (pays_at P plan i w gain charge j e).on_move late mv)
    Step-total s t (Step.enqueue j p e) fresh late = omega (arith, paid s j p)
    Step-total s t (Step.wait j k p e) fresh late =
        omega
          (arith, updated s j _ λ e. (pays_at P plan i w gain charge j e).on_wait (s.loops j) k p)
    Step-total s t (Step.refuse j p e) fresh late =
        omega (arith, updated s j _ λ e. (pays_at P plan i w gain charge j e).on_finish (s.loops j))
    Step-total s t (Step.request h) fresh late =
        omega (arith, charge.on_request h (s.loops i) s.requests)
    Step-total s t (Step.take w e) fresh late = omega arith
    Step-total s t (Step.complete w) fresh late = omega arith
    Step-total s t (Step.stop w h) fresh late = omega arith
    Step-total s t (Step.starve w r k f) fresh late = omega arith
    Step-total s t Step.cancel fresh late = omega arith
    Step-total s t (Step.forget h) fresh late = omega arith

    -- What a run keeps.
    pub record Charged (s t : System c) : Type 0 where
      pub fresh : IsFresh t
      pub late : P t.cancelled
      pub spent : total t + gain s.requests ≤ total s + gain t.requests

    pub Run-Charged :
        {n : ℕ} (s t : System c)
        → ((u v : System c) → Step c n plan u v → P u.cancelled → P v.cancelled)
        → IsFresh s
        → P s.cancelled
        → Run c n plan s t
        → Charged s t
    Run-Charged s t keeps fresh late here = record {
      fresh = fresh;
      late = late;
      spent = omega arith;
    }
    Run-Charged s t keeps fresh late (later {t = u} r st) =
        let before = Run-Charged s u keeps fresh late r in
        record {
          fresh = Step-IsFresh u t st before.fresh;
          late = keeps u t st before.late;
          spent = omega (arith, before.spent, Step-total u t st before.fresh before.late);
        }
