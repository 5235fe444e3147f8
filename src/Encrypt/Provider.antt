-- ===== src/Encrypt/Provider.antt =====
-- crates/xtax-encryption/src/lib.rs: the trait `EncryptionProvider`, which other crates implement,
-- as a record of its methods, and what its documentation asks of an implementation.
use xtax.Base.{Option, none, some, ◌≡◌}
use xtax.Error.{EncryptionError}
use xtax.Types.{Bytes, Stream, cursor}

-- How the spawned task that runs `encrypt_stream` ends: with the header, with an error, by a
-- panic, or not before the timeout.
pub data TaskEnd : Type 0 where
  header : Bytes → TaskEnd
  refused : EncryptionError → TaskEnd
  panicked : TaskEnd
  pending : TaskEnd

-- What the task has written to its pipe when the pipe is closed, and how it ends.
pub record Encryption : Type 0 where
  pub ciphertext : Bytes
  pub ending : TaskEnd

pub record Decryption : Type 0 where
  pub plaintext : Bytes
  pub failure : Option EncryptionError

pub data EncryptionResult {ℓ} (A : Type ℓ) : Type ℓ where
  ok : A → EncryptionResult A
  err : EncryptionError → EncryptionResult A

-- Keys and randomness that the provider draws on are part of the state.
pub record EncryptionProvider (S : Type 0) : Type 0 where
  pub encrypt_stream : Stream → S → Encryption
  pub decrypt_stream : Stream → Bytes → Decryption
  pub rekey_header : Bytes → S → EncryptionResult (Option Bytes)

-- A header is returned only for an input that was read to its end, and decrypts what was written;
-- an input that fails is an error; and a new header decrypts what the old one did.
pub record IsSound {S : Type 0} (enc : EncryptionProvider S) : Type 0 where
  pub complete :
      (st : Stream) (s : S) (h : Bytes)
      → (enc.encrypt_stream st s).ending ≡ TaskEnd.header h
      → st.fault ≡ none
  pub round_trip :
      (st : Stream) (s : S) (h : Bytes)
      → (enc.encrypt_stream st s).ending ≡ TaskEnd.header h
      → enc.decrypt_stream (cursor (enc.encrypt_stream st s).ciphertext) h
        ≡ record { plaintext = st.bytes; failure = none }
  pub reports_faults :
      (st : Stream) (h : Bytes) → (enc.decrypt_stream st h).failure ≡ none → st.fault ≡ none
  pub rekeyed :
      (h h' : Bytes) (s : S)
      → enc.rekey_header h s ≡ EncryptionResult.ok (some h')
      → (st : Stream) → enc.decrypt_stream st h' ≡ enc.decrypt_stream st h
