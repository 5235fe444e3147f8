-- ===== src/Encrypt/View.antt =====
-- What the encryption layer shows of the store behind it, and how keys and headers lie apart.
use mathlib.Core.List.{append_cancel_right}
use xtax.Base.{
  Str, true, false, Option, none, some, is_some, List, [], ◌∷◌, ◌++◌, ◌≡◌, refl, ap, arith, str_eq,
  str_eq_iff, ends_with, ends_with-append, contains, All, Bool-cases, inl, inr, if◌then◌else◌,
}
use xtax.Types.{Stream}
use xtax.Store.Contract.{View}
use xtax.Encrypt.{error_aware_reader, with_headers}
use xtax.Encrypt.Provider.{EncryptionProvider}

module _ (suffix : Str) where
  -- A header's key ends with the suffix, and a data key does not.
  pub header-ne-key : (k j : Str) → ends_with suffix j ≡ false → str_eq (k ++ suffix) j ≡ false
  header-ne-key k j h = elim (Bool-cases (str_eq (k ++ suffix) j)) [
    | inr e ↦ e
    | inl e ↦
        cc (h, ends_with-append suffix k, ap (ends_with suffix) ((str_eq_iff (k ++ suffix) j).0 e))
  ]

  pub key-ne-header : (k j : Str) → ends_with suffix k ≡ false → str_eq k (j ++ suffix) ≡ false
  key-ne-header k j h = elim (Bool-cases (str_eq k (j ++ suffix))) [
    | inr e ↦ e
    | inl e ↦
        cc (h, ends_with-append suffix j, ap (ends_with suffix) ((str_eq_iff k (j ++ suffix)).0 e))
  ]

  pub key-ne-ending :
      (k j : Str) → ends_with suffix k ≡ false → ends_with suffix j ≡ true → str_eq k j ≡ false
  key-ne-ending k j h g = elim (Bool-cases (str_eq k j)) [
    | inr e ↦ e
    | inl e ↦ cc (h, g, ap (ends_with suffix) ((str_eq_iff k j).0 e))
  ]

  pub header-eq-header : (k j : Str) → str_eq (k ++ suffix) (j ++ suffix) ≡ str_eq k j
  header-eq-header k j = ground (
    arith,
    str_eq_iff (k ++ suffix) (j ++ suffix),
    str_eq_iff k j,
    append_cancel_right k j suffix,
    λ (e : k ≡ j). ap (λ i. i ++ suffix) e,
  )

  -- No text of the list ends with the suffix.
  abbrev pub NoCollision : List Str → Type 0
  NoCollision ks = All (λ k. ends_with suffix k ≡ false) ks

  pub with_headers-key :
      (ks : List Str) (j : Str)
      → ends_with suffix j ≡ false
      → contains (with_headers suffix ks) j ≡ contains ks j
  unfolding contains with_headers
  with_headers-key [] j h = refl
  with_headers-key (k ∷ ks) j h = rw (header-ne-key k j h, with_headers-key ks j h)

  pub with_headers-header :
      (ks : List Str) (j : Str)
      → NoCollision ks
      → contains (with_headers suffix ks) (j ++ suffix) ≡ contains ks j
  unfolding contains with_headers
  with_headers-header [] j h = refl
  with_headers-header (k ∷ ks) j h =
      rw (key-ne-header k j h.0, header-eq-header, with_headers-header ks j h.1)

module _ {S : Type 0} (enc : EncryptionProvider S) where
  -- What a ciphertext and a header show: the decrypted stream.
  abbrev pub opened : Str → Option Stream → Option Stream → Option Stream
  opened key (some ciphertext) (some header) =
      some (error_aware_reader key (enc.decrypt_stream ciphertext header.bytes))
  opened key _ _ = none

  -- The view through the layer: no header, no ciphertext, and no blob that lacks its header.
  abbrev pub decrypted {ℓ} : {A : Type ℓ} → Str → (A → View) → A → View
  decrypted suffix view s key =
      if ends_with suffix key then none else opened key (view s key) (view s (key ++ suffix))

  pub is_some-opened :
      (key : Str) (c h : Option Stream)
      → is_some (opened key c h) ≡ (if is_some c then is_some h else false)
  is_some-opened key none h = refl
  is_some-opened key (some c) none = refl
  is_some-opened key (some c) (some h) = refl

  -- A step that leaves a key and its header alone leaves its blob alone.
  pub decrypted-same {ℓ} :
      {A : Type ℓ} (suffix : Str) (view : A → View) (s t : A) (j : Str)
      → (ends_with suffix j ≡ false → view t j ≡ view s j)
      → (ends_with suffix j ≡ false → view t (j ++ suffix) ≡ view s (j ++ suffix))
      → decrypted suffix view t j ≡ decrypted suffix view s j
  decrypted-same suffix view s t j h g = elim (Bool-cases (ends_with suffix j)) [
    | inl e ↦ rw e
    | inr e ↦ rw (e, h e, g e)
  ]
