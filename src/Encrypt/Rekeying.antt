-- ===== src/Encrypt/Rekeying.antt =====
-- What `rekey` leaves as it was: every blob of the layer.
use xtax.Base.{
  ℕ, Str, true, Option, none, some, [], ◌∷◌, ◌++◌, length, ◌≡◌, refl, sym, ap, ◌∙◌, arith, str_eq,
  str_eq_iff, ends_with, if◌then◌else◌, Bool-cases, Option-cases, inl, inr,
}
use xtax.Error.{BlobStorageError}
use xtax.Exec.{ok, Outcome, returns, fails, final, match_outcome, Outcome-cases, Result-cases}
use xtax.Types.{Bytes, Stream, BlobInput, BlobMeta, with_size, cursor}
use xtax.Filter.{suffix_filter}
use xtax.Store.{BlobStore, BlobVisitor}
use xtax.Store.Contract.{View, ReadsView, PutsView}
use xtax.Encrypt.{error_aware_reader}
use xtax.Encrypt.Provider.{EncryptionProvider, EncryptionResult, IsSound}
use xtax.Encrypt.View.{decrypted, opened}
use xtax.Encrypt.Rekey.{
  read_header, replace_header, rekey_one, rekey_visitor, rekey, counted, settle,
}

module _ (inner : BlobStore) (enc : EncryptionProvider inner.State) (suffix : Str)
    (view : inner.State → View) where
  -- The layer shows the same blobs in both states.
  abbrev pub SameBlobs : inner.State → inner.State → Type 0
  SameBlobs s t = (j : Str) → decrypted enc suffix view t j ≡ decrypted enc suffix view s j

  same_views : (s t : inner.State) → ((j : Str) → view t j ≡ view s j) → SameBlobs s t
  same_views s t h j = rw (h j, h (j ++ suffix))

  opened-rekeyed :
      (j : Str) (c : Option Stream) (reader : Stream) (new : Bytes)
      → ((st : Stream) → enc.decrypt_stream st new ≡ enc.decrypt_stream st reader.bytes)
      → opened enc j c (some (cursor new)) ≡ opened enc j c (some reader)
  opened-rekeyed j none reader new h = refl
  opened-rekeyed j (some c) reader new h = ap (λ d. some (error_aware_reader j d)) (h c)

  -- A header that is replaced by one that decrypts the same.
  replaced-SameBlobs :
      (k : Str) (reader : Stream) (new : Bytes) (s t : inner.State)
      → ends_with suffix k ≡ true
      → view s k ≡ some reader
      → ((st : Stream) → enc.decrypt_stream st new ≡ enc.decrypt_stream st reader.bytes)
      → ((j : Str) → view t j ≡ (if str_eq k j then some (cursor new) else view s j))
      → SameBlobs s t
  replaced-SameBlobs k reader new s t ending old same written j =
      elim (Bool-cases (ends_with suffix j)) [
        | inl e ↦ rw e
        | inr e ↦ elim (Bool-cases (str_eq k j)) [
          | inl q ↦ cc (e, ending, ap (ends_with suffix) ((str_eq_iff k j).0 q))
          | inr q ↦ elim (Bool-cases (str_eq k (j ++ suffix))) [
            | inr r ↦ rw (e, written j, q, written (j ++ suffix), r)
            | inl r ↦
                rw
                  (
                    e,
                    written j,
                    q,
                    written (j ++ suffix),
                    r,
                    sym (ap (view s) ((str_eq_iff k (j ++ suffix)).0 r)),
                    old,
                  )
                  (opened-rekeyed j (view s j) reader new same)
          ]
        ]
      ]

  -- A write of one blob that fails leaves every key as it was.
  abbrev pub IsAtomic : Type 0
  IsAtomic =
      (b : BlobInput) (s t : inner.State) (e : BlobStorageError)
      → inner.put (b ∷ []) s ≡ fails e t
      → (j : Str) → view t j ≡ view s j

  -- A visit with the filter of the headers only calls its visitor, with keys that match: what the
  -- visitor keeps, and what the blobs alone decide, is kept by the visit.
  abbrev pub VisitsHeaders : Type 1
  VisitsHeaders =
      (P : inner.State → Type 0) (w : BlobVisitor inner.State ℕ)
      → ((s t : inner.State) → ((j : Str) → view t j ≡ view s j) → P s → P t)
      → ((k : Str) (m : Option BlobMeta) (n : ℕ) (s : inner.State)
          → ends_with suffix k ≡ true
          → P s
          → P (final (w k m (n, s))).1)
      → (s : inner.State) → P s
      → P (final (inner.visit ℕ (suffix_filter suffix) w (0, s))).1

  module _ (sound : IsSound enc) (reads : ReadsView inner view (λ st. st) inner.get)
      (puts : PutsView inner view) (atomic : IsAtomic) where
    written-SameBlobs :
        (k : Str) (reader : Stream) (new : Bytes) (n : ℕ) (s : inner.State)
        → ends_with suffix k ≡ true
        → view s k ≡ some reader
        → enc.rekey_header reader.bytes s ≡ EncryptionResult.ok (some new)
        → SameBlobs s
            (final (replace_header inner enc k reader.bytes (EncryptionResult.ok (some new)) n s))
    unfolding replace_header with_size
    written-SameBlobs k reader new n s ending old made =
        let input = with_size k (cursor new) (length reader.bytes) in
        elim (Outcome-cases (inner.put (input ∷ []) s)) [
          | inl (r, t, e) ↦ rw e (
              replaced-SameBlobs k reader new s t ending old (sound.rekeyed reader.bytes new s made)
                (puts.stores (input ∷ []) s r t e))
          | inr (b, t, e) ↦ rw e (same_views s t (atomic input s t b e))
        ]

    replace_header-SameBlobs :
        (k : Str) (reader : Stream) (answer : EncryptionResult (Option Bytes)) (n : ℕ)
        (s : inner.State)
        → ends_with suffix k ≡ true
        → view s k ≡ some reader
        → enc.rekey_header reader.bytes s ≡ answer
        → SameBlobs s (final (replace_header inner enc k reader.bytes answer n s))
    unfolding replace_header
    replace_header-SameBlobs k reader (EncryptionResult.ok (some new)) n s ending old made =
        written-SameBlobs k reader new n s ending old made
    replace_header-SameBlobs k reader (EncryptionResult.ok none) n s ending old made = λ j. refl
    replace_header-SameBlobs k reader (EncryptionResult.err e) n s ending old made = λ j. refl

    read_header-ok :
        (k : Str) (reader : Stream) (h : Bytes)
        → read_header k reader ≡ ok h
        → (h ≡ reader.bytes) × (reader.fault ≡ none)
    unfolding read_header
    read_header-ok k reader h q = elim (Option-cases reader.fault) [
      | inl e ↦ let w = rw e at q in (ground arith, e)
      | inr (b, e) ↦ cc (rw e at q)
    ]

    got-view :
        (k : Str) (s t : inner.State) (o : Outcome inner.State Stream)
        → inner.get k s ≡ o
        → final o ≡ t
        → (j : Str) → view t j ≡ view s j
    got-view k s t o e f j = ap (λ u. view u j) (sym f ∙ sym (ap final e)) ∙ reads.keeps k s j

    rekey_one-SameBlobs :
        (k : Str) (n : ℕ) (s : inner.State)
        → ends_with suffix k ≡ true
        → SameBlobs s (final (rekey_one inner enc k n s))
    unfolding rekey_one
    rekey_one-SameBlobs k n s ending = elim (Outcome-cases (inner.get k s)) [
      | inr (b, t, e) ↦ rw e (same_views s t (got-view k s t _ e refl))
      | inl (reader, t, e) ↦
          let kept = got-view k s t _ e refl in
          elim (Result-cases (read_header k reader)) [
            | inr (b, r) ↦ rw (e, match_outcome, r) (same_views s t kept)
            | inl (h, r) ↦
                let (same, whole) = read_header-ok k reader h r in
                rw (e, match_outcome, r, same)
                  λ j.
                    replace_header-SameBlobs k reader (enc.rekey_header reader.bytes t) n t ending
                      (kept k ∙ (reads.found k s reader t e).2 whole) refl j
                    ∙ same_views s t kept j
          ]
    ]

    counted-final :
        (n : ℕ) (o : Outcome inner.State ℕ) → (final (counted inner enc n o)).1 ≡ final o
    counted-final n (returns m t) = refl
    counted-final n (fails e t) = refl

    visited-SameBlobs :
        (k : Str) (m : Option BlobMeta) (n : ℕ) (s : inner.State)
        → ends_with suffix k ≡ true
        → SameBlobs s (final (rekey_visitor inner enc k m (n, s))).1
    unfolding rekey_visitor
    visited-SameBlobs k m n s ending =
        rw (counted-final n (rekey_one inner enc k n s)) (rekey_one-SameBlobs k n s ending)

    settle-final :
        (o : Outcome (ℕ × inner.State) (Unit {0})) → final (settle inner enc o) ≡ (final o).1
    settle-final (returns _ x) = refl
    settle-final (fails e x) = refl

    -- Rekeying changes no blob, whatever happens on the way: with a sound provider, over a store
    -- that keeps the contract of `get` and `put`, leaves every key as it was where a write of one
    -- blob fails (which a `put` of files does not promise), and whose visit with the filter of the
    -- headers does nothing but call its visitor with keys that match, every key of the layer shows
    -- the same stream before and after `rekey`, also when it ends with an error or the provider
    -- refuses a header.
    pub rekey-SameBlobs :
        VisitsHeaders
        → (s : inner.State) (j : Str)
        → decrypted enc suffix view (final (rekey inner enc suffix s)) j
          ≡ decrypted enc suffix view s j
    unfolding rekey
    rekey-SameBlobs visits s j =
        ap (λ t. decrypted enc suffix view t j)
          (settle-final (inner.visit ℕ (suffix_filter suffix) (rekey_visitor inner enc) (0, s)))
        ∙ visits (λ t. SameBlobs s t) (rekey_visitor inner enc)
            (λ t u same h i. same_views t u same i ∙ h i)
            (λ k m n t ending h i. visited-SameBlobs k m n t ending i ∙ h i) s (λ i. refl) j
