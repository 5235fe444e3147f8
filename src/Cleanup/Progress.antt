-- ===== src/Cleanup/Progress.antt =====
-- What a run of the cleanup visitor has done so far, against the view of the store.
use xtax.Base.{
  ℕ, ◌+◌, ◌%◌, ◌^◌, leb, Str, Bool, true, false, none, some, List, [], ◌∷◌, ◌++◌, length,
  length-append, is_empty, contains, contains-append, ◌≡◌, refl, sym, ◌∙◌, arith, Bool-cases, inl,
  inr, if◌then◌else◌, ◌||◌, ap,
}
use mathlib.Core.List.{append-nil}
use xtax.Exec.{beside, Outcome, returns, fails, final, match_outcome}
use xtax.Types.{Timestamp, BlobMeta}
use xtax.Store.{BlobStore}
use xtax.Store.Contract.{View, DeletesView}
use xtax.Cleanup.{CleanupVisitor, CleanupPredicate, flush, cleanup_visitor, counted}

-- The keys that the predicate picks.
abbrev pub picked : CleanupPredicate → List (Str × BlobMeta) → List Str
picked predicate [] = []
picked predicate ((k, m) ∷ es) =
    let rest = picked predicate es in if predicate k m then k ∷ rest else rest

module _ (inner : BlobStore) (view : inner.State → View) (s0 : inner.State) where
  -- Of the keys picked so far, those outside the batch are deleted and counted; nothing else is
  -- touched.
  pub record Progress (seen : List Str) (v : CleanupVisitor) (s : inner.State) : Type 0 where
    pub done : List Str
    pub size : length seen ≡ length done + length v.batch
    pub members : (j : Str) → contains seen j ≡ (contains done j || contains v.batch j)
    pub counts : v.deleted_count ≡ length done % 2 ^ 64
    pub gone : (j : Str) → contains done j ≡ true → view s j ≡ none
    pub kept : (j : Str) → contains done j ≡ false → view s j ≡ view s0 j

  abbrev pub Spared : List Str → inner.State → Type 0
  Spared seen t = (j : Str) → contains seen j ≡ false → view t j ≡ view s0 j

  -- After a flush the batch is empty; where the deletion failed, still nothing else is touched.
  abbrev pub Flushed : List Str → Outcome (CleanupVisitor × inner.State) (Unit {0}) → Type 0
  Flushed seen (returns _ (w, t)) = Progress seen w t × (w.batch ≡ [])
  Flushed seen (fails _ (w, t)) = Spared seen t

  -- The visitor never stops a visit.
  abbrev pub Held : List Str → Outcome (CleanupVisitor × inner.State) Bool → Type 0
  Held seen (returns b (w, t)) = (b ≡ true) × Progress seen w t
  Held seen (fails _ (w, t)) = Spared seen t

  is_empty_iff : (ks : List Str) → is_empty ks ≡ true → ks ≡ []
  is_empty_iff [] h = refl
  is_empty_iff (k ∷ ks) h = cc

  wraps : (a b c d : ℕ) → a ≡ b + c → d ≡ b % 2 ^ 64 → (d + c) % 2 ^ 64 ≡ a % 2 ^ 64
  wraps a b c d p q = omega arith

  pub push-Progress :
      (seen : List Str) (v : CleanupVisitor) (s : inner.State) (k : Str)
      → Progress seen v s
      → Progress (seen ++ (k ∷ [])) (record v { batch = v.batch ++ (k ∷ []) }) s
  push-Progress seen v s k p = record {
    done = p.done;
    size = omega (arith, p.size, length-append seen (k ∷ []), length-append v.batch (k ∷ []));
    members = λ j.
        ground
          (arith, p.members j, contains-append seen (k ∷ []) j, contains-append v.batch (k ∷ []) j);
    counts = p.counts;
    gone = p.gone;
    kept = p.kept;
  }

  module _ (law : DeletesView inner view) where
    untouched :
        (ks : List Str) (s t : inner.State) (j : Str)
        → inner.delete ks s ≡ returns tt t
        → contains ks j ≡ false
        → view t j ≡ view s j
    untouched ks s t j e h = sym (ap (λ o. view (final o) j) e) ∙ law.others ks s j h

    deleted-Progress :
        (seen : List Str) (v : CleanupVisitor) (s t : inner.State)
        → Progress seen v s
        → inner.delete v.batch s ≡ returns tt t
        → Progress seen (counted v) t
    unfolding contains
    deleted-Progress seen v s t p e = record {
      done = seen;
      size = omega arith;
      members = λ j. ground arith;
      counts = wraps (length seen) (length p.done) (length v.batch) v.deleted_count p.size p.counts;
      gone = λ j h. elim (Bool-cases (contains v.batch j)) [
        | inl q ↦ law.gone v.batch s t e j q
        | inr q ↦ untouched v.batch s t j e q ∙ p.gone j (ground (arith, p.members j))
      ];
      kept = λ j h.
          untouched v.batch s t j e (ground (arith, p.members j))
          ∙ p.kept j (ground (arith, p.members j));
    }

    Spared-by :
        (seen : List Str) (v : CleanupVisitor) (s : inner.State)
        → Progress seen v s
        → Spared seen (final (inner.delete v.batch s))
    Spared-by seen v s p j h =
        law.others v.batch s j (ground (arith, p.members j))
        ∙ p.kept j (ground (arith, p.members j))

    deleted-Flushed :
        (seen : List Str) (v : CleanupVisitor) (s : inner.State)
        (o : Outcome inner.State (Unit {0}))
        → inner.delete v.batch s ≡ o
        → Progress seen v s
        → Flushed seen
            (match_outcome (beside v o) (λ _ x. returns tt (counted v, x.1)) (λ e x. fails e x))
    deleted-Flushed seen v s (returns _ t) e p = (deleted-Progress seen v s t p e, refl)
    deleted-Flushed seen v s (fails b t) e p =
        λ j h. sym (ap (λ o. view (final o) j) e) ∙ Spared-by seen v s p j h

    pub flush-Flushed :
        (seen : List Str) (v : CleanupVisitor) (s : inner.State)
        → Progress seen v s
        → Flushed seen (flush inner (v, s))
    unfolding flush
    flush-Flushed seen v s p = elim (Bool-cases (is_empty v.batch)) [
      | inl q ↦ rw q (p, is_empty_iff v.batch q)
      | inr q ↦ rw q (deleted-Flushed seen v s (inner.delete v.batch s) refl p)
    ]

    module _ (now : inner.State → Timestamp) (predicate : CleanupPredicate) (batch_size : ℕ) where
      go_on_after :
          (seen : List Str) (o : Outcome (CleanupVisitor × inner.State) (Unit {0}))
          → Flushed seen o
          → Held seen (match_outcome o (λ _ x. returns true x) (λ e x. fails e x))
      go_on_after seen (returns _ (w, t)) p = (refl, p.0)
      go_on_after seen (fails e (w, t)) p = p

      pub cleanup_visitor-Held :
          (seen : List Str) (k : Str) (m : BlobMeta) (v : CleanupVisitor) (s : inner.State)
          → Progress seen v s
          → Held
              (seen ++ picked predicate ((k, m) ∷ []))
              (cleanup_visitor inner now predicate batch_size k (some m) (v, s))
      unfolding cleanup_visitor
      cleanup_visitor-Held seen k m v s p = elim (Bool-cases (predicate k m)) [
        | inr q ↦ rw (q, append-nil seen) (refl, p)
        | inl q ↦ elim (Bool-cases (leb batch_size (length (v.batch ++ (k ∷ []))))) [
          | inl r ↦ rw (q, r) (go_on_after _ _ (flush-Flushed _ _ s (push-Progress seen v s k p)))
          | inr r ↦ rw (q, r) (refl, push-Progress seen v s k p)
        ]
      ]
