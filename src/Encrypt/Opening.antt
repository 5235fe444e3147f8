-- ===== src/Encrypt/Opening.antt =====
-- The reads of the encryption layer keep the contract.
use xtax.Base.{
  Str, true, false, Option, none, some, is_some, ◌++◌, ◌≡◌, refl, sym, ap, ◌∙◌, arith, ends_with,
  inl, inr,
}
use xtax.Error.{BlobStorageError}
use xtax.Exec.{ok, returns, fails, final, Exec, ◌>>=◌, pure}
use xtax.Types.{Stream}
use xtax.Store.{BlobStore}
use xtax.Store.Contract.{View, ReadsView}
use xtax.Validate.{validate_blob_key}
use xtax.Encrypt.{error_aware_reader, decrypt_stream, get, get_with_metadata}
use xtax.Encrypt.Provider.{EncryptionProvider, IsSound, Decryption}
use xtax.Encrypt.Layer.{encrypted_store}
use xtax.Encrypt.View.{decrypted, opened, is_some-opened, decrypted-same}
use xtax.Encrypt.Reads.{
  Opens, decrypt_stream-Opens, Opens-map, open_read, open_read-returned, open_read-missing,
  open_read-final,
}

-- A stream that ends without an error was decrypted without one.
reader-fault : (k : Str) (d : Decryption) → (error_aware_reader k d).fault ≡ none → d.failure ≡ none
unfolding error_aware_reader
reader-fault k d h = ground arith

module _ (inner : BlobStore) (enc : EncryptionProvider inner.State) (sound : IsSound enc)
    (suffix : Str) (view : inner.State → View)
    (header : ReadsView inner view (λ st. st) inner.get) where
  module _ {A B : Type 0} (stream_of : A → Stream) (stream_of' : B → Stream)
      (read : Str → Exec inner.State A) (rest : Str → A → Exec inner.State B)
      (law : ReadsView inner view stream_of read)
      (opens : (k : Str) (a : A)
        → Opens inner enc suffix stream_of' k (stream_of a) (rest k a)) where
    keeps_all :
        (k : Str) (s : inner.State) (i : Str)
        → view (final (open_read inner enc suffix read rest k s)) i ≡ view s i
    keeps_all k s i =
        open_read-final inner enc suffix read rest (λ t. view t i ≡ view s i) k s refl
          (law.keeps k s i)
          λ a u h. ap (λ t. view t i) ((opens k a).ended u) ∙ header.keeps (k ++ suffix) u i ∙ h

    -- What one successful read tells of the view before it.
    tells :
        (k : Str) (s : inner.State) (a : A) (u : inner.State) (b : B) (t : inner.State)
        → ends_with suffix k ≡ false
        → read k s ≡ returns a u
        → rest k a u ≡ returns b t
        → (is_some (decrypted enc suffix view s k) ≡ true)
          × ((stream_of' b).fault ≡ none → decrypted enc suffix view s k ≡ some (stream_of' b))
    tells k s a u b t free r w =
        let (h, x, whole, y) = (opens k a).returned u b t w in
        let (_, there, holds) = law.found k s a u r in
        let (_, header_there, header_holds) = header.found (k ++ suffix) u h t x in
        let same : view u (k ++ suffix) ≡ view s (k ++ suffix) =
          ap (λ o. view (final o) (k ++ suffix)) (sym r) ∙ law.keeps k s (k ++ suffix) in
        let present : is_some (view s (k ++ suffix)) ≡ true =
          ap is_some (sym same) ∙ header_there in
        let stored : view s (k ++ suffix) ≡ some h = sym same ∙ header_holds whole in
        (
          rw (free, is_some-opened, there) present,
          λ q.
              let d = enc.decrypt_stream (stream_of a) h.bytes in
              let clean : (stream_of a).fault ≡ none =
                sound.reports_faults (stream_of a) h.bytes
                  (reader-fault k d (ap (λ (st : Stream). st.fault) (sym y) ∙ q)) in
              rw (free, holds clean, stored) (ap some (sym y)),
        )

    found :
        (k : Str) (s : inner.State) (b : B) (t : inner.State)
        → open_read inner enc suffix read rest k s ≡ returns b t
        → (validate_blob_key k ≡ ok tt)
          × (is_some (decrypted enc suffix view s k) ≡ true)
          × ((stream_of' b).fault ≡ none → decrypted enc suffix view s k ≡ some (stream_of' b))
    found k s b t q =
        let (free, x) = open_read-returned inner enc suffix read rest k s b t q in
        let (a, u, r, w) = x in
        let (there, holds) = tells k s a u b t free r w in ((law.found k s a u r).0, there, holds)

    opened-none : (k : Str) (c : Option Stream) → opened enc k c none ≡ none
    opened-none k none = refl
    opened-none k (some c) = refl

    missing :
        (k : Str) (s : inner.State) (j : Str) (t : inner.State)
        → open_read inner enc suffix read rest k s ≡ fails (BlobStorageError.not_found j) t
        → (j ≡ k) × (decrypted enc suffix view s k ≡ none)
    missing k s j t q =
        let (free, x) = open_read-missing inner enc suffix read rest k s j t q in
        elim x [
          | inl (named, y) ↦ (named, rw (free, (law.missing k s y.0 t y.1).1))
          | inr (a, u, r, w) ↦
              let (named, y) = (opens k a).absent u j t w in
              let gone = (header.missing (k ++ suffix) u y.0 t y.1).1 in
              let same : view u (k ++ suffix) ≡ view s (k ++ suffix) =
                ap (λ o. view (final o) (k ++ suffix)) (sym r) ∙ law.keeps k s (k ++ suffix) in
              (named, rw (free, sym same ∙ gone) (opened-none k (view s k)))
        ]

    open_read-ReadsView :
        ReadsView
          (encrypted_store inner enc suffix)
          (decrypted enc suffix view)
          stream_of'
          (open_read inner enc suffix read rest)
    open_read-ReadsView = record {
      keeps = λ k s j.
          decrypted-same enc suffix view s _ j (λ _. keeps_all k s j)
            (λ _. keeps_all k s (j ++ suffix));
      found = found;
      missing = missing;
    }

  -- `get` gives back what was encrypted, whole or with an error at its end.
  pub get-ReadsView :
      ReadsView
        (encrypted_store inner enc suffix)
        (decrypted enc suffix view)
        (λ st. st)
        (get inner enc suffix)
  unfolding get
  get-ReadsView =
      open_read-ReadsView (λ st. st) (λ st. st) inner.get (decrypt_stream inner enc suffix) header
        (decrypt_stream-Opens inner enc suffix)

  pub get_with_metadata-ReadsView :
      ReadsView inner view (λ a. a.1) inner.get_with_metadata
      → ReadsView
          (encrypted_store inner enc suffix)
          (decrypted enc suffix view)
          (λ a. a.1)
          (get_with_metadata inner enc suffix)
  unfolding get_with_metadata
  get_with_metadata-ReadsView law =
      open_read-ReadsView (λ a. a.1) (λ a. a.1) inner.get_with_metadata
        (λ key found. decrypt_stream inner enc suffix key found.1 >>= λ decrypted.
          pure (record found.0 { key = key }, decrypted))
        law
        λ k a.
          Opens-map inner enc suffix (λ b. b.1) (λ d. (record a.0 { key = k }, d)) k a.1
            (decrypt_stream inner enc suffix k a.1) (λ _. refl)
            (decrypt_stream-Opens inner enc suffix k a.1)
