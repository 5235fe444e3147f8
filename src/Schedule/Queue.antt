-- ===== src/Schedule/Queue.antt =====
-- What tokio promises of a bounded channel: it keeps the order, holds at most as many messages as
-- it has slots, refuses when it is full or closed, and drops its messages when it is closed.
use xtax.Base.{ℕ, ◌<◌, ◌≤◌, Bool, true, false, none, some, List, [], ◌∷◌, ◌++◌, length, ◌≡◌}
use xtax.Schedule.{Channel, sent, full, closed}

pub record IsFifo (c : Channel) (waiting : c.Queue → List ℕ) (is_closed : c.Queue → Bool)
    (slots : c.Queue → ℕ) : Type 0 where
  pub channel_empty : (n : ℕ) → waiting (c.channel n) ≡ []
  pub channel_open : (n : ℕ) → is_closed (c.channel n) ≡ false
  pub channel_slots : (n : ℕ) → slots (c.channel n) ≡ n
  pub send_last :
      (i : ℕ) (q r : c.Queue) → c.try_send i q ≡ sent r → waiting r ≡ waiting q ++ (i ∷ [])
  pub send_room : (i : ℕ) (q r : c.Queue) → c.try_send i q ≡ sent r → length (waiting q) < slots q
  pub send_open :
      (i : ℕ) (q r : c.Queue)
      → c.try_send i q ≡ sent r
      → (is_closed q ≡ false) × (is_closed r ≡ false)
  pub send_slots : (i : ℕ) (q r : c.Queue) → c.try_send i q ≡ sent r → slots r ≡ slots q
  pub refused_closed : (i : ℕ) (q : c.Queue) → c.try_send i q ≡ closed → is_closed q ≡ true
  pub refused_full : (i : ℕ) (q : c.Queue) → c.try_send i q ≡ full → slots q ≤ length (waiting q)
  pub recv_first : (i : ℕ) (q r : c.Queue) → c.recv q ≡ some (i, r) → waiting q ≡ i ∷ waiting r
  pub recv_closed : (i : ℕ) (q r : c.Queue) → c.recv q ≡ some (i, r) → is_closed r ≡ is_closed q
  pub recv_slots : (i : ℕ) (q r : c.Queue) → c.recv q ≡ some (i, r) → slots r ≡ slots q
  pub recv_none : (q : c.Queue) → c.recv q ≡ none → waiting q ≡ []
  pub close_closed : (q : c.Queue) → is_closed (c.close q) ≡ true
  pub close_empty : (q : c.Queue) → waiting (c.close q) ≡ []
  pub close_slots : (q : c.Queue) → slots (c.close q) ≡ slots q
