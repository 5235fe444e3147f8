-- ===== src/Encrypt/Rekey.antt =====
-- crates/xtax-blob-storage/src/encrypt/rekey.rs, and `rekey` of encrypt/store.rs.
use xtax.Base.{ℕ, ◌+◌, ◌%◌, ◌^◌, Str, Bool, true, text, Option, none, some, [], ◌∷◌, length}
use xtax.Error.{BlobStorageError, Cause}
use xtax.Exec.{Result, ok, err, Outcome, returns, fails, Exec, match_outcome}
use xtax.Types.{Bytes, Stream, RekeyResult, with_size, cursor}
use xtax.Filter.{suffix_filter}
use xtax.Store.{BlobStore, BlobVisitor}
use xtax.Encrypt.{about_key}
use xtax.Encrypt.Provider.{EncryptionProvider, EncryptionResult}

-- `u64` addition, which wraps in a release build.
unfoldable pub add_u64 : ℕ → ℕ → ℕ
add_u64 a b = (a + b) % 2 ^ 64

-- The copy of the header into memory.
unfoldable pub read_header : Str → Stream → Result Bytes
read_header key st = elim st.fault [
  | none ↦ ok st.bytes
  | some e ↦
      err (
        BlobStorageError.storage (about_key (text "failed to read header ") key)
          (some (Cause.io e)))
]

module _ (inner : BlobStore) (enc : EncryptionProvider inner.State) where
  -- The provider's answer for one header. The size hint is the length of the old header.
  unfoldable pub replace_header :
      Str → Bytes → EncryptionResult (Option Bytes) → ℕ → Exec inner.State ℕ
  unfolding add_u64 with_size
  replace_header key old (EncryptionResult.ok (some new)) rekeyed s =
      match_outcome (inner.put (with_size key (cursor new) (length old) ∷ []) s)
        (λ _ t. returns (add_u64 rekeyed 1) t) (λ _ t. returns rekeyed t)
  replace_header key old (EncryptionResult.ok none) rekeyed s = returns rekeyed s
  replace_header key old (EncryptionResult.err e) rekeyed s = returns rekeyed s

  -- `RekeyVisitor::visit` on its count and the store.
  unfoldable pub rekey_one : Str → ℕ → Exec inner.State ℕ
  unfolding read_header replace_header
  rekey_one key rekeyed s =
      match_outcome (inner.get key s)
        (λ reader t. elim (read_header key reader) [
          | ok header ↦ replace_header key header (enc.rekey_header header t) rekeyed t
          | err e ↦ fails e t
        ])
        (λ _ t. returns rekeyed t)

  -- The visitor goes on after every key; its count is what it keeps.
  abbrev pub counted : ℕ → Outcome inner.State ℕ → Outcome (ℕ × inner.State) Bool
  counted old (returns n t) = returns true (n, t)
  counted old (fails e t) = fails e (old, t)

  unfoldable pub rekey_visitor : BlobVisitor inner.State ℕ
  unfolding rekey_one
  rekey_visitor key _ (rekeyed, s) = counted rekeyed (rekey_one key rekeyed s)

  abbrev pub settle : Outcome (ℕ × inner.State) (Unit {0}) → Outcome inner.State RekeyResult
  settle (returns _ (n, t)) = returns (record { rekeyed_count = n }) t
  settle (fails e (n, t)) = fails e t

  unfoldable pub rekey : Str → Exec inner.State RekeyResult
  unfolding rekey_visitor
  rekey header_suffix s = settle (inner.visit ℕ (suffix_filter header_suffix) rekey_visitor (0, s))
