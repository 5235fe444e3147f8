-- ===== src/Fs/Wanted.antt =====
-- crates/xtax-blob-storage/src/fs/store.rs: what a listing may return, on any file system.
use mathlib.Core.Path.{subst}
use xtax.Fs.Contents.{Answer-cases}
use xtax.Base.{
  ℕ, zero, suc, Str, Bool, true, Option, none, some, List, [], ◌∷◌, ◌++◌, map, ◌≡◌, refl, sym, ap,
  ◌∙◌, ◌⊎◌, inl, inr, arith, Bool-cases, str_eq, str_eq_sound, contains, contains-append, IsSorted,
  Option-cases,
}
use xtax.Base.Sort.{sort_keys, sort_keys-IsSorted, contains-sort_keys}
use xtax.Error.{from_io}
use xtax.Exec.{
  Outcome, returns, fails, final, Exec, continue-final, beside, Outcome-cases, Result-cases,
}
use xtax.Types.{BlobMeta}
use xtax.Filter.{ListFilter}
use xtax.Store.{BlobVisitor}
use xtax.Encrypt.Layer.{sort_metas}
use xtax.Fs.Disk.{Disk, path_is_file, path_is_dir, try_io}
use xtax.Fs.Files.{ensure_root, meta_of_file}
use xtax.Fs.Lists.{keys-sort_metas, map-append}
use xtax.Fs.Hint.{strip_base, prefix_subdir}
use xtax.Fs.Walk.{
  Next, stop, next, dir_exists, visit_file, visit_entry, walk, walk_from_hint, push_key, push_meta,
  file_metadata, list, list_with_metadata, visit, visit_key,
}

Next-cases : (n : Next) → (n ≡ stop) ⊎ ((more : List Str) × (n ≡ next more))
Next-cases stop = inl refl
Next-cases (next more) = inr (more, refl)

module _ (debug : Str → Str) (is_utf8 : Str → Bool) (root : Str) (disk : Disk)
    (filter : ListFilter) where
  -- Keys that a listing may give.
  abbrev pub Wanted : Str → Type 0
  Wanted key = (is_utf8 key ≡ true) × (filter.matches key none ≡ true)

  -- What the files that match do with the value, the walk does with it.
  module _ {V : Type 0} (on_file : Str → Str → Exec (V × disk.State) Bool) (Q : V → Type 0)
      (keeps : (path key : Str) (x : V × disk.State)
        → Wanted key
        → Q x.0
        → Q (final (on_file path key x)).0) where
    abbrev P : V × disk.State → Type 0
    P x = Q x.0

    beside-keeps : {A : Type 0} (v : V) (o : Outcome disk.State A) → Q v → P (final (beside v o))
    beside-keeps v (returns a s) h = h
    beside-keeps v (fails e s) h = h

    visit_file-keeps :
        (path : Str) (dirs : List Str) (relative : Option Str) (x : V × disk.State)
        → P x
        → P (final (visit_file debug is_utf8 root disk filter on_file path dirs relative x))
    visit_file-keeps path dirs none x h = h
    visit_file-keeps path dirs (some key) x h = elim (Bool-cases (is_utf8 key)) [
      | inr q ↦ rw (visit_file, q) h
      | inl q ↦ elim (Bool-cases (filter.matches key none)) [
        | inr m ↦ rw (visit_file, q, m) h
        | inl m ↦
            rw (visit_file, q, m)
              (continue-final P (on_file path key x) _ (keeps path key x (q, m) h) (λ more u g. g))
      ]
    ]

    visit_entry-keeps :
        (path : Str) (dirs : List Str) (v : V) (s : disk.State)
        → Q v
        → P (final (visit_entry debug is_utf8 root disk filter on_file path dirs (v, s)))
    visit_entry-keeps path dirs v s h =
        continue-final P (beside v (path_is_file disk path s)) _ (beside-keeps v _ h) λ is_file u g.
          elim (Bool-cases is_file) [
            | inl e ↦ rw e (visit_file-keeps path dirs (strip_base root path) u g)
            | inr e ↦ rw e (
                continue-final P (beside u.0 (path_is_dir disk path u.1)) _ (beside-keeps u.0 _ g)
                  (λ is_dir w k. k))
          ]

    walk-keeps :
        (fuel : ℕ) (dir : Option disk.Dir) (dirs : List Str) (v : V) (s : disk.State)
        → Q v
        → P (final (walk debug is_utf8 root disk filter on_file fuel dir dirs (v, s)))
    unfolding walk
    walk-keeps zero dir dirs v s h = h
    walk-keeps (suc fuel) none [] v s h = h
    walk-keeps (suc fuel) none (path ∷ dirs) v s h =
        continue-final P (beside v (dir_exists debug is_utf8 root disk path s)) _
          (beside-keeps v _ h)
          λ there u g. elim (Bool-cases there) [
            | inr e ↦ rw e (walk-keeps fuel none dirs u.0 u.1 g)
            | inl e ↦ rw e (
                continue-final P (beside u.0 (try_io from_io (disk.read_dir path u.1))) _
                  (beside-keeps u.0 _ g) (λ dir w k. walk-keeps fuel (some dir) dirs w.0 w.1 k))
          ]
    walk-keeps (suc fuel) (some dir) dirs v s h =
        continue-final P (beside v (try_io from_io (disk.next_entry dir s))) _ (beside-keeps v _ h)
          λ given u g. elim (Option-cases given) [
            | inl e ↦ rw e (walk-keeps fuel none dirs u.0 u.1 g)
            | inr ((path, rest), e) ↦ rw e (
                continue-final P (visit_entry debug is_utf8 root disk filter on_file path dirs u) _
                  (visit_entry-keeps path dirs u.0 u.1 g)
                  λ n w k. elim (Next-cases n) [
                    | inl q ↦ rw q k
                    | inr (more, q) ↦ rw q (walk-keeps fuel (some rest) more w.0 w.1 k)
                  ])
          ]

    walk_from_hint-keeps :
        (fuel : ℕ) (v : V) (s : disk.State)
        → Q v
        → P (final (walk_from_hint debug is_utf8 root disk filter on_file fuel (v, s)))
    unfolding walk_from_hint
    walk_from_hint-keeps fuel v s h =
        continue-final P (beside v (ensure_root debug root disk s)) _ (beside-keeps v _ h) λ _ u g.
          elim (Result-cases (prefix_subdir root filter)) [
            | inl (start, e) ↦ rw e (walk-keeps fuel none (start ∷ []) u.0 u.1 g)
            | inr (x, e) ↦ rw e g
          ]

  -- Every key of a collection is one that a listing may give.
  abbrev pub AllWanted : List Str → Type 0
  AllWanted keys = (k : Str) → contains keys k ≡ true → Wanted k

  none-AllWanted : AllWanted []
  unfolding contains
  none-AllWanted k c = absurd (ground (arith, c))

  pushed-AllWanted :
      (keys : List Str) (key : Str) → Wanted key → AllWanted keys → AllWanted (keys ++ (key ∷ []))
  unfolding contains
  pushed-AllWanted keys key w h k c = elim (Bool-cases (contains keys k)) [
    | inl e ↦ h k e
    | inr e ↦
        let same : str_eq key k ≡ true = ground (arith, contains-append keys (key ∷ []) k, c) in
        subst Wanted (str_eq_sound key k same) w
  ]

  sorted-AllWanted : (ks keys : List Str) → sort_keys ks ≡ keys → AllWanted ks → AllWanted keys
  sorted-AllWanted ks keys same h k c =
      h k (sym (contains-sort_keys ks k) ∙ ap (λ l. contains l k) same ∙ c)

  push_meta-keeps :
      (path key : Str) (x : List BlobMeta × disk.State)
      → Wanted key
      → AllWanted (map (λ m. m.key) x.0)
      → AllWanted (map (λ m. m.key) (final (push_meta debug is_utf8 root disk path key x)).0)
  push_meta-keeps path key x w h = elim (Answer-cases (disk.metadata path x.1)) [
    | inr (e, t, q) ↦ rw (q, push_meta, file_metadata) h
    | inl (m, t, q) ↦
        rw
          (
            q,
            push_meta,
            file_metadata,
            map-append (λ (n : BlobMeta). n.key) x.0 (meta_of_file key m ∷ []),
          )
          (pushed-AllWanted (map (λ n. n.key) x.0) key w h)
  ]

  -- On any file system, and with any fuel: the keys that `list` returns are sorted, and every one of
  -- them is UTF-8 and matches the filter.
  pub list-Wanted :
      (fuel : ℕ) (s t : disk.State) (keys : List Str)
      → list debug is_utf8 root disk fuel filter s ≡ returns keys t
      → IsSorted keys × AllWanted keys
  unfolding list
  list-Wanted fuel s t keys q =
      let push = push_key debug is_utf8 root disk in
      let kept =
        walk_from_hint-keeps push AllWanted (λ path key x w h. pushed-AllWanted x.0 key w h) fuel []
          s none-AllWanted in
      elim (Outcome-cases (walk_from_hint debug is_utf8 root disk filter push fuel ([], s))) [
        | inr (e, x, w) ↦ cc (rw w at q)
        | inl (u, x, w) ↦
            let same : sort_keys x.0 ≡ keys = cc (rw w at q) in
            (
              subst IsSorted same (sort_keys-IsSorted x.0),
              sorted-AllWanted x.0 keys same (rw w at kept),
            )
      ]

  -- On any file system, and with any fuel: the keys of the metadata that `list_with_metadata`
  -- returns are sorted, and every one of them is UTF-8 and matches the filter.
  pub list_with_metadata-Wanted :
      (fuel : ℕ) (s t : disk.State) (metas : List BlobMeta)
      → list_with_metadata debug is_utf8 root disk fuel filter s ≡ returns metas t
      → IsSorted (map (λ m. m.key) metas) × AllWanted (map (λ m. m.key) metas)
  unfolding list_with_metadata
  list_with_metadata-Wanted fuel s t metas q =
      let push = push_meta debug is_utf8 root disk in
      let kept =
        walk_from_hint-keeps push (λ ms. AllWanted (map (λ m. m.key) ms)) push_meta-keeps fuel [] s
          none-AllWanted in
      elim (Outcome-cases (walk_from_hint debug is_utf8 root disk filter push fuel ([], s))) [
        | inr (e, x, w) ↦ cc (rw w at q)
        | inl (u, x, w) ↦
            let same : sort_metas x.0 ≡ metas = cc (rw w at q) in
            let keys = sym (keys-sort_metas x.0) ∙ ap (map (λ (m : BlobMeta). m.key)) same in
            (
              subst IsSorted keys (sort_keys-IsSorted (map (λ m. m.key) x.0)),
              sorted-AllWanted (map (λ m. m.key) x.0) (map (λ m. m.key) metas) keys (rw w at kept),
            )
      ]

  file_metadata-keeps :
      {V : Type 0} (Q : V → Type 0) (path key : Str) (x : V × disk.State)
      → Q x.0
      → Q (final (file_metadata debug is_utf8 root disk path key x)).0
  file_metadata-keeps Q path key x g = elim (Answer-cases (disk.metadata path x.1)) [
    | inr (e, t, q) ↦ rw (q, file_metadata) g
    | inl (m, t, q) ↦ rw (q, file_metadata) g
  ]

  -- On any file system, and with any fuel: for a visitor that takes note of no other key than the
  -- one that it is called with, every key that it has noted at the end of a visit, also of one that
  -- it stops or that ends with an error, is UTF-8 and matches the filter.
  pub visit-Wanted :
      (V : Type 0) (names : V → List Str) (visitor : BlobVisitor disk.State V) (fuel : ℕ) (v : V)
      (s : disk.State)
      → ((k : Str) (m : Option BlobMeta) (x : V × disk.State) (j : Str)
          → contains (names (final (visitor k m x)).0) j ≡ true
          → (contains (names x.0) j ≡ true) ⊎ (j ≡ k))
      → names v ≡ []
      → (k : Str)
      → contains (names (final (visit debug is_utf8 root disk fuel V filter visitor (v, s))).0) k
        ≡ true
      → Wanted k
  unfolding visit
  visit-Wanted V names visitor fuel v s notes empty =
      walk_from_hint-keeps (visit_key debug is_utf8 root disk V visitor) (λ u. AllWanted (names u))
        (λ path key x w g.
          continue-final (λ y. AllWanted (names y.0))
            (file_metadata debug is_utf8 root disk path key x) _
            (file_metadata-keeps (λ u. AllWanted (names u)) path key x g)
            λ m u h j c. elim (notes key (some m) u j c) [
              | inl old ↦ h j old
              | inr same ↦ subst Wanted (sym same) w
            ])
        fuel v s (subst AllWanted (sym empty) none-AllWanted)
