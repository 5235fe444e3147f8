-- ===== src/Encrypt/Reads.antt =====
-- `get` and `get_with_metadata` of the encryption layer, against the view of the store behind it.
use xtax.Base.{
  Str, false, none, ◌++◌, ◌≡◌, refl, sym, ap, ◌∙◌, arith, ends_with, Bool-cases, Option-cases, inl,
  inr, ◌⊎◌,
}
use xtax.Error.{BlobStorageError, from_io}
use xtax.Exec.{
  ok, err, Outcome, returns, fails, final, Exec, lift, map_err, continue, ◌>>=◌, ◌>>◌, pure,
  continue-eq-returns,
}
use xtax.Types.{Stream, read_all}
use xtax.Store.{BlobStore}
use xtax.Encrypt.{
  name_missing, error_aware_reader, validate_key_no_header_collision, decrypt_stream,
}
use xtax.Encrypt.Provider.{EncryptionProvider}
use xtax.Prefix.Reads.{map_err-eq-returns}

-- Only `NotFound` is renamed.
name_missing-not_found :
    (k j : Str) (e : BlobStorageError)
    → name_missing k e ≡ BlobStorageError.not_found j
    → (j ≡ k) × ((i : Str) × (e ≡ BlobStorageError.not_found i))
unfolding name_missing
name_missing-not_found k j (BlobStorageError.not_found i) h = (cc, (i, refl))
name_missing-not_found k j _ h = cc

pub collision-cases :
    (suffix k : Str)
    → ((ends_with suffix k ≡ false) × (validate_key_no_header_collision suffix k ≡ ok tt))
      ⊎ ((m : Str) × (validate_key_no_header_collision suffix k
            ≡ err (BlobStorageError.invalid_input m)))
unfolding validate_key_no_header_collision
collision-cases suffix k = elim (Bool-cases (ends_with suffix k)) [
  | inl e ↦ ground arith
  | inr e ↦ inl (e, rw e)
]

module _ (inner : BlobStore) (enc : EncryptionProvider inner.State) (suffix : Str) where
  -- What is read once the ciphertext `c` of a key is there: its header, and no other result.
  pub record Opens {B : Type 0} (stream_of : B → Stream) (k : Str) (c : Stream)
      (m : Exec inner.State B) : Type 0 where
    pub returned :
        (s : inner.State) (b : B) (t : inner.State)
        → m s ≡ returns b t
        → (h : Stream) × (inner.get (k ++ suffix) s ≡ returns h t)
          × (h.fault ≡ none)
          × (stream_of b ≡ error_aware_reader k (enc.decrypt_stream c h.bytes))
    pub absent :
        (s : inner.State) (j : Str) (t : inner.State)
        → m s ≡ fails (BlobStorageError.not_found j) t
        → (j ≡ k)
          × ((i : Str) × (inner.get (k ++ suffix) s ≡ fails (BlobStorageError.not_found i) t))
    pub ended : (s : inner.State) → final (m s) ≡ final (inner.get (k ++ suffix) s)

  -- What `decrypt_stream` makes of the outcome of reading the header.
  abbrev opening : Str → Stream → Outcome inner.State Stream → Outcome inner.State Stream
  opening k c o = continue (map_err (name_missing k) o) λ header_data.
      lift (read_all header_data) >>= λ header.
      pure (error_aware_reader k (enc.decrypt_stream c header))

  opening-returned :
      (k : Str) (c : Stream) (o : Outcome inner.State Stream) (b : Stream) (t : inner.State)
      → opening k c o ≡ returns b t
      → (h : Stream) × (o ≡ returns h t)
        × (h.fault ≡ none)
        × (b ≡ error_aware_reader k (enc.decrypt_stream c h.bytes))
  unfolding read_all
  opening-returned k c (fails e u) b t q = cc
  opening-returned k c (returns h u) b t q = elim (Option-cases h.fault) [
    | inl e ↦ (h, ground arith, e, ground arith)
    | inr (x, e) ↦ ground arith
  ]

  opening-absent :
      (k : Str) (c : Stream) (o : Outcome inner.State Stream) (j : Str) (t : inner.State)
      → opening k c o ≡ fails (BlobStorageError.not_found j) t
      → (j ≡ k) × ((i : Str) × (o ≡ fails (BlobStorageError.not_found i) t))
  unfolding read_all from_io
  opening-absent k c (fails e u) j t q =
      let (named, r) = name_missing-not_found k j e (ground arith) in (named, (r.0, ground arith))
  opening-absent k c (returns h u) j t q = ground arith

  opening-ended :
      (k : Str) (c : Stream) (o : Outcome inner.State Stream) → final (opening k c o) ≡ final o
  unfolding read_all
  opening-ended k c (fails e u) = refl
  opening-ended k c (returns h u) = ground arith

  pub decrypt_stream-Opens :
      (k : Str) (c : Stream) → Opens (λ st. st) k c (decrypt_stream inner enc suffix k c)
  unfolding decrypt_stream
  decrypt_stream-Opens k c = record {
    returned = λ s b t q. opening-returned k c (inner.get (k ++ suffix) s) b t q;
    absent = λ s j t q. opening-absent k c (inner.get (k ++ suffix) s) j t q;
    ended = λ s. opening-ended k c (inner.get (k ++ suffix) s);
  }

  -- What follows the read changes only what is returned beside the stream.
  pub Opens-map :
      {A B : Type 0} {stream_of : A → Stream} (stream_of' : B → Stream) (f : A → B) (k : Str)
      (c : Stream) (m : Exec inner.State A)
      → ((a : A) → stream_of' (f a) ≡ stream_of a)
      → Opens stream_of k c m
      → Opens stream_of' k c (m >>= λ a. pure (f a))
  Opens-map {A} stream_of' f k c m same o = record {
    returned = λ s b t q.
        let (a, u, r, w) = continue-eq-returns (m s) (λ a. pure (f a)) q in
        let (h, x, y, z) = o.returned s a u r in
        let e : f a ≡ b = ground arith in (h, cc, y, ap stream_of' (sym e) ∙ same a ∙ z);
    absent = λ s j t q. o.absent s j t (mapped_absent (m s) q);
    ended = λ s. mapped_ended (m s) ∙ o.ended s;
  }
    where
      mapped_absent :
          (r : Outcome inner.State A) {e : BlobStorageError} {t : inner.State}
          → continue r (λ a. pure (f a)) ≡ fails e t
          → r ≡ fails e t
      mapped_absent (returns a u) q = cc
      mapped_absent (fails e u) q = cc

      mapped_ended : (r : Outcome inner.State A) → final (continue r (λ a. pure (f a))) ≡ final r
      mapped_ended (returns a u) = refl
      mapped_ended (fails e u) = refl

  -- The shape that `get` and `get_with_metadata` share.
  module _ {A B : Type 0} (read : Str → Exec inner.State A)
      (rest : Str → A → Exec inner.State B) where
    abbrev pub open_read : Str → Exec inner.State B
    open_read key = do
      lift (validate_key_no_header_collision suffix key)
      found ← λ s. map_err (name_missing key) (read key s)
      rest key found

    pub open_read-returned :
        (k : Str) (s : inner.State) (b : B) (t : inner.State)
        → open_read k s ≡ returns b t
        → (ends_with suffix k ≡ false)
          × ((a : A) × (u : inner.State) × (read k s ≡ returns a u) × (rest k a u ≡ returns b t))
    open_read-returned k s b t q = elim (collision-cases suffix k) [
      | inr (m, e) ↦ cc (rw (e, lift) at q)
      | inl (free, e) ↦
          let (a, u, r, w) =
            continue-eq-returns (map_err (name_missing k) (read k s)) (rest k)
              (rw (e, lift) at q) in
          (free, (a, u, map_err-eq-returns (name_missing k) (read k s) r, w))
    ]

    missing_in :
        (k : Str) (o : Outcome inner.State A) (j : Str) (t : inner.State)
        → continue (map_err (name_missing k) o) (rest k) ≡ fails (BlobStorageError.not_found j) t
        → ((j ≡ k) × ((i : Str) × (o ≡ fails (BlobStorageError.not_found i) t)))
          ⊎ ((a : A) × (u : inner.State) × (o ≡ returns a u)
              × (rest k a u ≡ fails (BlobStorageError.not_found j) t))
    missing_in k (returns a u) j t q = inr (a, u, refl, q)
    missing_in k (fails e u) j t q =
        let (named, r) = name_missing-not_found k j e (ground arith) in
        inl (named, (r.0, ground arith))

    pub open_read-missing :
        (k : Str) (s : inner.State) (j : Str) (t : inner.State)
        → open_read k s ≡ fails (BlobStorageError.not_found j) t
        → (ends_with suffix k ≡ false)
          × (((j ≡ k) × ((i : Str) × (read k s ≡ fails (BlobStorageError.not_found i) t)))
              ⊎ ((a : A) × (u : inner.State) × (read k s ≡ returns a u)
                  × (rest k a u ≡ fails (BlobStorageError.not_found j) t)))
    open_read-missing k s j t q = elim (collision-cases suffix k) [
      | inr (m, e) ↦ cc (rw (e, lift) at q)
      | inl (free, e) ↦ (free, missing_in k (read k s) j t (rw (e, lift) at q))
    ]

    ended_in :
        (P : inner.State → Type 0) (k : Str) (o : Outcome inner.State A)
        → P (final o)
        → ((a : A) (u : inner.State) → P u → P (final (rest k a u)))
        → P (final (continue (map_err (name_missing k) o) (rest k)))
    ended_in P k (returns a u) h g = g a u h
    ended_in P k (fails e u) h g = h

    -- What holds of the state before, and is kept by both reads, holds after.
    pub open_read-final :
        (P : inner.State → Type 0) (k : Str) (s : inner.State)
        → P s
        → P (final (read k s))
        → ((a : A) (u : inner.State) → P u → P (final (rest k a u)))
        → P (final (open_read k s))
    open_read-final P k s before h g = elim (collision-cases suffix k) [
      | inr (m, e) ↦ rw (e, lift) before
      | inl (free, e) ↦ rw (e, lift) (ended_in P k (read k s) h g)
    ]
