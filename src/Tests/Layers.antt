-- ===== src/Tests/Layers.antt =====
-- The layers on the store in memory: runs, and the theorems at concrete inputs.
use mathlib.Core.List.{reverse, reverse-reverse}
use mathlib.Core.Option
use xtax.Base.{
  Str, text, true, false, none, some, List, [], ◌∷◌, ◌++◌, ◌≡◌, ◌↔◌, refl, arith, str_eq,
  starts_with, ends_with, has_char, split,
}
use xtax.Error.{EncryptionError}
use xtax.Exec.{ok, returns}
use xtax.Types.{cursor}
use xtax.Filter.{suffix_filter}
use xtax.Store.{BlobVisitor, default_visit}
use xtax.Store.Contract.{IsLawful}
use xtax.Validate.{validate_blob_key}
use xtax.Validate.Components.{IsKeyOf, validate_blob_key-iff-IsKeyOf}
use xtax.Validate.Nested.{validate_blob_key-append}
use xtax.Prefix
use xtax.Prefix.{prefix_store}
use xtax.Prefix.Reads.{logical}
use xtax.Prefix.Lawful.{prefix_store-IsLawful}
use xtax.Prefix.Visiting.{visit-eq-default_visit}
use xtax.Encrypt.Provider.{TaskEnd, EncryptionProvider, EncryptionResult, IsSound}
use xtax.Encrypt.Layer.{encrypted_store}
use xtax.Encrypt.View.{decrypted}
use xtax.Encrypt.Lawful.{encrypted_store-IsLawful}
use xtax.Encrypt
use xtax.Tests.Memory.{Entries, find, memory, memory-IsLawful}

-- A provider that turns the bytes around and numbers its keys.
abbrev pub mirror : (S : Type 0) → EncryptionProvider S
mirror S = record {
  encrypt_stream = λ st s. record {
    ciphertext = reverse st.bytes;
    ending = elim st.fault [
      | none ↦ TaskEnd.header (7 ∷ [])
      | some e ↦ TaskEnd.refused (EncryptionError.io e)
    ];
  };
  decrypt_stream = λ st h. record {
    plaintext = reverse st.bytes;
    failure = Option.map EncryptionError.io st.fault;
  };
  rekey_header = λ h s. EncryptionResult.ok (some (8 ∷ []));
}

pub mirror-IsSound : (S : Type 0) → IsSound (mirror S)
mirror-IsSound S = record {
  complete = λ st s h q. ground arith;
  round_trip = λ st s h q. rw reverse-reverse;
  reports_faults = λ st h q. ground arith;
  rekeyed = λ h h' s q st. refl;
}

abbrev pub app : Str
app = text "my-app/"

-- One object outside the prefix, two inside.
abbrev objects : Entries
objects =
    (text "other/x", cursor (9 ∷ []))
    ∷ (text "my-app/a", cursor (1 ∷ []))
    ∷ (text "my-app/b.log", cursor (2 ∷ []))
    ∷ []

validate_accepts : validate_blob_key (text "a/b.txt") ≡ ok tt
unfolding validate_blob_key text split starts_with ends_with has_char str_eq
validate_accepts = refl

prefix_store-IsLawful_example : IsLawful (prefix_store memory app) (logical app find)
prefix_store-IsLawful_example = prefix_store-IsLawful memory app find memory-IsLawful

encrypted_store-IsLawful_example :
    IsLawful
      (encrypted_store memory (mirror Entries) Encrypt.default_header_suffix)
      (decrypted (mirror Entries) Encrypt.default_header_suffix find)
encrypted_store-IsLawful_example =
    encrypted_store-IsLawful memory (mirror Entries) Encrypt.default_header_suffix find
      (mirror-IsSound Entries) memory-IsLawful

validate_blob_key-iff-IsKeyOf_example :
    (validate_blob_key (text "a/b.txt") ≡ ok tt) ↔ ((cs : List Str) × IsKeyOf cs (text "a/b.txt"))
validate_blob_key-iff-IsKeyOf_example = validate_blob_key-iff-IsKeyOf (text "a/b.txt")

validate_blob_key-append_example :
    (validate_blob_key (text "my-app" ++ b'/' ∷ text "a") ≡ ok tt)
    ↔ ((validate_blob_key (text "my-app") ≡ ok tt) × (validate_blob_key (text "a") ≡ ok tt))
validate_blob_key-append_example = validate_blob_key-append (text "my-app") (text "a")

-- A visitor that collects the keys, and stops at two.
abbrev collector : BlobVisitor Entries (List Str)
collector key meta (seen, s) = elim seen [
  | [] ↦ returns true (key ∷ [], s)
  | k ∷ ks ↦ returns false (key ∷ k ∷ ks, s)
]

visit-eq-default_visit_example :
    Prefix.visit memory app (List Str) (suffix_filter []) collector ([], objects)
    ≡ default_visit (Prefix.list memory app) (List Str) (suffix_filter []) collector ([], objects)
visit-eq-default_visit_example =
    visit-eq-default_visit memory app (List Str) (suffix_filter []) collector ([], objects)
      (λ g w y. refl)
