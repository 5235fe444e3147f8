-- ===== src/Encrypt/Listing.antt =====
-- `exists` and `list` of the encryption layer keep the contract.
use xtax.Base.{
  Str, Bool, true, false, not, none, is_some, List, [], ◌∷◌, ◌++◌, ◌≡◌, refl, sym, ap, ◌∙◌, arith,
  contains, contains-filter_by, ends_with, ends_with-append, filter_by, filter_by-IsSorted,
  IsSorted, Bool-cases, inl, inr, ◌&&◌, if◌then◌else◌,
}
use mathlib.Core.List.{append-nil}
use xtax.Exec.{returns, final, lift, ◌>>=◌, pure, continue-eq-returns, continue-final}
use xtax.Filter.{ListFilter, suffix_filter}
use xtax.Store.{BlobStore}
use xtax.Store.Contract.{View, ExistsView, ListsView}
use xtax.Encrypt.{exists, with_header_only, list}
use xtax.Encrypt.Provider.{EncryptionProvider}
use xtax.Encrypt.Layer.{encrypted_store}
use xtax.Encrypt.View.{is_some-opened, decrypted, decrypted-same}
use xtax.Encrypt.Reads.{collision-cases}

ends_with-nil : (k : Str) → ends_with [] k ≡ true
ends_with-nil k = ap (ends_with []) (sym (append-nil k)) ∙ ends_with-append [] k

module _ (inner : BlobStore) (enc : EncryptionProvider inner.State) (suffix : Str)
    (view : inner.State → View) (law : ExistsView inner view) where
  present :
      (k : Str) (s : inner.State)
      → ends_with suffix k ≡ false
      → is_some (decrypted enc suffix view s k)
        ≡ (is_some (view s k) && is_some (view s (k ++ suffix)))
  present k s free = rw (free, is_some-opened) (ground arith)

  exists-keeps_all :
      (k : Str) (s : inner.State) (i : Str)
      → view (final (exists inner enc suffix k s)) i ≡ view s i
  unfolding exists
  exists-keeps_all k s i = elim (collision-cases suffix k) [
    | inr (m, e) ↦ rw (e, lift)
    | inl (free, e) ↦
        rw (e, lift)
          (continue-final (λ t. view t i ≡ view s i) (inner.exists k s) _ (law.keeps k s i)
            λ b u h. elim (Bool-cases b) [
              | inl q ↦ rw q (law.keeps (k ++ suffix) u i ∙ h)
              | inr q ↦ rw q h
            ])
  ]

  kept_by_exists :
      (k : Str) (s : inner.State) {b : Bool} {u : inner.State} (i : Str)
      → inner.exists k s ≡ returns b u
      → view u i ≡ view s i
  kept_by_exists k s i x = ap (λ o. view (final o) i) (sym x) ∙ law.keeps k s i

  both_tell :
      (k : Str) (s : inner.State) (b' : Bool) (u : inner.State) (b : Bool) (t : inner.State)
      → inner.exists k s ≡ returns b' u
      → (if b' then inner.exists (k ++ suffix) else pure false) u ≡ returns b t
      → b ≡ (is_some (view s k) && is_some (view s (k ++ suffix)))
  both_tell k s false u b t x y = ground (arith, law.tells k s false u x)
  both_tell k s true u b t x y = ground (
    arith,
    law.tells k s true u x,
    law.tells (k ++ suffix) u b t y,
    ap is_some (kept_by_exists k s (k ++ suffix) x),
  )

  exists-tells :
      (k : Str) (s : inner.State) (b : Bool) (t : inner.State)
      → exists inner enc suffix k s ≡ returns b t
      → b ≡ is_some (decrypted enc suffix view s k)
  unfolding exists
  exists-tells k s b t q = elim (collision-cases suffix k) [
    | inr (m, e) ↦ cc (rw (e, lift) at q)
    | inl (free, e) ↦
        let (b', u, x, y) = continue-eq-returns (inner.exists k s) _ (rw (e, lift) at q) in
        both_tell k s b' u b t x y ∙ sym (present k s free)
  ]

  pub exists-ExistsView : ExistsView (encrypted_store inner enc suffix) (decrypted enc suffix view)
  exists-ExistsView = record {
    keeps = λ k s j.
        decrypted-same enc suffix view s _ j (λ _. exists-keeps_all k s j)
          (λ _. exists-keeps_all k s (j ++ suffix));
    tells = exists-tells;
  }

  -- The loop drops exactly the keys without a header.
  abbrev has_header : inner.State → Str → Bool
  has_header s k = is_some (view s (k ++ suffix))

  with_header_only-filter :
      (ks js : List Str) (s u t : inner.State)
      → ((i : Str) → view u i ≡ view s i)
      → with_header_only inner enc suffix ks u ≡ returns js t
      → js ≡ filter_by (has_header s) ks
  unfolding with_header_only
  with_header_only-filter [] js s u t same q = ground arith
  with_header_only-filter (k ∷ ks) js s u t same q =
      let (b, v, x, y) =
        continue-eq-returns (inner.exists (k ++ suffix) u)
          (λ b.
            with_header_only inner enc suffix ks >>= λ rest. pure (if b then k ∷ rest else rest))
          q in
      let (rest, w, z, z') =
        continue-eq-returns (with_header_only inner enc suffix ks v)
          (λ rest. pure (if b then k ∷ rest else rest)) y in
      let ih =
        with_header_only-filter ks rest s v w (λ i. kept_by_exists (k ++ suffix) u i x ∙ same i)
          z in
      ground (arith, ih, law.tells (k ++ suffix) u b v x, ap is_some (same (k ++ suffix)), z')

  with_header_only-keeps :
      (ks : List Str) (s : inner.State) (i : Str)
      → view (final (with_header_only inner enc suffix ks s)) i ≡ view s i
  unfolding with_header_only
  with_header_only-keeps [] s i = refl
  with_header_only-keeps (k ∷ ks) s i =
      continue-final (λ t. view t i ≡ view s i) (inner.exists (k ++ suffix) s) _
        (law.keeps (k ++ suffix) s i)
        λ b u h.
          continue-final (λ t. view t i ≡ view s i) (with_header_only inner enc suffix ks u) _
            (with_header_only-keeps ks u i ∙ h) (λ _ _ h'. h')

  module _ (lists : ListsView inner view) where
    list-keeps_all :
        (f : ListFilter) (s : inner.State) (i : Str)
        → view (final (list inner enc suffix f s)) i ≡ view s i
    unfolding list
    list-keeps_all f s i =
        continue-final (λ t. view t i ≡ view s i) (inner.list (suffix_filter []) s) _
          (lists.keeps (suffix_filter []) s i) λ ks u h. with_header_only-keeps _ u i ∙ h

    -- The listing is the inner one, filtered three times.
    list-filters :
        (f : ListFilter) (s : inner.State) (ks : List Str) (t : inner.State)
        → list inner enc suffix f s ≡ returns ks t
        → (all : List Str) × (u : inner.State) × (inner.list (suffix_filter []) s ≡ returns all u)
          × (ks
              ≡ filter_by (has_header s) (
                  filter_by
                    (λ k. f.matches k none)
                    (filter_by (λ k. not (ends_with suffix k)) all)))
    unfolding list
    list-filters f s ks t q =
        let (all, u, x, y) = continue-eq-returns (inner.list (suffix_filter []) s) _ q in
        (
          all,
          u,
          x,
          with_header_only-filter _ ks s u t
              (λ i. ap (λ o. view (final o) i) (sym x) ∙ lists.keeps (suffix_filter []) s i) y,
        )

    list-exact :
        (f : ListFilter) (s : inner.State) (ks : List Str) (t : inner.State)
        → list inner enc suffix f s ≡ returns ks t
        → (k : Str) → contains ks k ≡ (is_some (decrypted enc suffix view s k) && f.matches k none)
    list-exact f s ks t q k =
        let (all, u, x, e) = list-filters f s ks t q in
        let data_keys = filter_by (λ j. not (ends_with suffix j)) all in
        let matching = filter_by (λ j. f.matches j none) data_keys in
        ap (λ js. contains js k) e
        ∙ contains-filter_by (has_header s) matching k
        ∙ ground (
          arith,
          contains-filter_by (λ j. f.matches j none) data_keys k,
          contains-filter_by (λ j. not (ends_with suffix j)) all k,
          lists.exact (suffix_filter []) s all u tt x k,
          ends_with-nil k,
          present k s,
        )

    list-IsSorted :
        (f : ListFilter) (s : inner.State) (ks : List Str) (t : inner.State)
        → list inner enc suffix f s ≡ returns ks t
        → IsSorted ks
    list-IsSorted f s ks t q =
        let (all, u, x, e) = list-filters f s ks t q in
        rw e (
          filter_by-IsSorted (has_header s) _ (
            filter_by-IsSorted (λ k. f.matches k none) _
              (filter_by-IsSorted (λ k. not (ends_with suffix k)) all
                (lists.sorted (suffix_filter []) s all u x))))

    pub list-ListsView : ListsView (encrypted_store inner enc suffix) (decrypted enc suffix view)
    list-ListsView = record {
      keeps = λ f s j.
          decrypted-same enc suffix view s _ j (λ _. list-keeps_all f s j)
            (λ _. list-keeps_all f s (j ++ suffix));
      exact = λ f s ks t _ q k. list-exact f s ks t q k;
      sorted = list-IsSorted;
    }
