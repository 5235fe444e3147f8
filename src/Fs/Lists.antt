-- ===== src/Fs/Lists.antt =====
-- The listings of the file-system store, over a tree that can be read.
use xtax.Base.{
  ℕ, ◌<◌, Str, Bool, true, none, some, List, [], ◌∷◌, ◌++◌, ◌≡◌, refl, sym, ap, ◌∙◌, arith, map,
  str_le, Bool-cases, inl, inr, occurrences, IsSorted,
}
use xtax.Base.Sort.{insert_key, sort_keys, sort_keys-IsSorted, occurrences-sort_keys}
use xtax.Exec.{ok, returns, Exec}
use xtax.Types.{BlobMeta}
use xtax.Encrypt.Layer.{insert_meta, sort_metas}
use xtax.Filter.{ListFilter}
use xtax.Fs.Disk.{Disk}
use xtax.Fs.Hint.{strip_base, prefix_subdir}
use xtax.Fs.Files.{ensure_root, meta_of_file}
use xtax.Store.{BlobVisitor}
use xtax.Fs.Walk.{visit_key, visit, push_key, push_meta, walk_from_hint, list, list_with_metadata}
use xtax.Fs.Tree.{World, Entries, directory, regular, rounds_at, tally_at, Looks, Answers}
use xtax.Fs.Looking.{there}
use xtax.Fs.Entering.{Notes}
use xtax.Fs.Walking.{walk-Walked}

keys-insert_meta :
    (m : BlobMeta) (ms : List BlobMeta)
    → map (λ x. x.key) (insert_meta m ms) ≡ insert_key m.key (map (λ x. x.key) ms)
unfolding insert_meta insert_key
keys-insert_meta m [] = refl
keys-insert_meta m (n ∷ ns) = elim (Bool-cases (str_le m.key n.key)) [
  | inl q ↦ rw q refl
  | inr q ↦ rw q (ap (λ r. n.key ∷ r) (keys-insert_meta m ns))
]

-- Sorting metadata sorts the keys.
pub keys-sort_metas :
    (ms : List BlobMeta) → map (λ x. x.key) (sort_metas ms) ≡ sort_keys (map (λ x. x.key) ms)
unfolding sort_metas sort_keys
keys-sort_metas [] = refl
keys-sort_metas (m ∷ ms) =
    keys-insert_meta m (sort_metas ms) ∙ ap (insert_key m.key) (keys-sort_metas ms)

pub map-append {ℓ κ} :
    {A : Type ℓ} {B : Type κ} (f : A → B) (xs ys : List A) → map f (xs ++ ys) ≡ map f xs ++ map f ys
map-append f [] ys = refl
map-append f (x ∷ xs) ys = ap (λ r. f x ∷ r) (map-append f xs ys)

-- A listing of a whole tree: sorted, each key as often as there are files with it below `start`.
pub record Listed (root : Str) (filter : ListFilter) (world : World) (start : Str) (keys : List Str)
    : Type 0 where
  pub sorted : IsSorted keys
  pub exact : (k : Str) → occurrences keys k ≡ tally_at root filter k start (world start)

module _ (debug : Str → Str) (is_utf8 : Str → Bool) (root : Str) (disk : Disk)
    (world : disk.State → World) (place : disk.Dir → Str) (left : disk.State → disk.Dir → Entries)
    (law : Looks disk world place left) (reach : Str → Type 0)
    (answers : Answers disk world place reach)
    (readable : (path key : Str)
      → reach path
      → strip_base root path ≡ some key
      → is_utf8 key ≡ true) where
  notes_key :
      (f : ListFilter)
      → Notes debug is_utf8 root disk world place left law reach answers readable f
          (λ keys. keys)
          (push_key debug is_utf8 root disk)
  notes_key f path key v s r w = (v ++ (key ∷ []), s, refl, refl, (refl, refl))

  notes_meta :
      (f : ListFilter)
      → Notes debug is_utf8 root disk world place left law reach answers readable f
          (map (λ m. m.key))
          (push_meta debug is_utf8 root disk)
  notes_meta f path key v s rp w =
      let (m, t, e, d, r, same) =
        there disk world place left law reach answers path s regular rp w in
      (
        v ++ (meta_of_file key m ∷ []),
        t,
        rw e refl,
        map-append (λ x. x.key) v (meta_of_file key m ∷ []),
        same,
      )

  -- The walk of a listing, from the directory that the hint gives.
  from_start :
      {V : Type 0} (f : ListFilter) (names : V → List Str)
      (on_file : Str → Str → Exec (V × disk.State) Bool)
      → Notes debug is_utf8 root disk world place left law reach answers readable f names on_file
      → (fuel : ℕ) (v : V) (s : disk.State) (start : Str) (top : Entries) → names v ≡ []
      → reach root
      → reach start
      → world s root ≡ some (directory top)
      → prefix_subdir root f ≡ ok start
      → rounds_at (world s start) < fuel
      → (u : V) × (t : disk.State) × (walk_from_hint debug is_utf8 root disk f on_file fuel (v, s)
          ≡ returns tt (u, t))
        × ((k : Str) → occurrences (names u) k ≡ tally_at root f k start (world s start))
        × (world t ≡ world s)
  unfolding walk_from_hint ensure_root
  from_start f names on_file notes fuel v s start top empty r0 r1 w hint enough =
      let (m, x, e, d, r, same) =
        there disk world place left law reach answers root s (directory top) r0 w in
      let run =
        walk-Walked debug is_utf8 root disk world place left law reach answers readable f names
          on_file notes fuel none (start ∷ []) v x tt (r1, tt)
          (omega (arith, ap (λ z. rounds_at (z start)) same.0)) in
      (
        run.value,
        run.state,
        rw (e, walk_from_hint, ensure_root, d, hint) run.returned,
        λ k.
            run.found k
            ∙ omega (
              arith,
              ap (λ l. occurrences l k) empty,
              ap (λ z. tally_at root f k start (z start)) same.0,
            ),
        run.unchanged ∙ same.0,
      )

  -- Where the root and the directory of the hint, with all that is below them, can be read (every
  -- call on them is answered, and what is missing there is reported as not found), the keys there
  -- are UTF-8, and nobody changes the tree, `list` returns, with as much fuel as there are
  -- directories and entries below the directory of the hint (each directory counts twice): the keys
  -- are sorted, each stands as often as there are files below that directory whose path gives it
  -- and that match, and nothing has changed.
  pub list-Listed :
      (f : ListFilter) (fuel : ℕ) (s : disk.State) (start : Str) (top : Entries)
      → reach root
      → reach start
      → world s root ≡ some (directory top)
      → prefix_subdir root f ≡ ok start
      → rounds_at (world s start) < fuel
      → (keys : List Str) × (t : disk.State) × (list debug is_utf8 root disk fuel f s
          ≡ returns keys t)
        × Listed root f (world s) start keys
        × (world t ≡ world s)
  unfolding list
  list-Listed f fuel s start top r0 r1 w hint enough =
      let (u, t, e, found, same) =
        from_start f (λ keys. keys) (push_key debug is_utf8 root disk) (notes_key f) fuel [] s start
          top refl r0 r1 w hint enough in
      (
        sort_keys u,
        t,
        rw e refl,
        record { sorted = sort_keys-IsSorted u; exact = λ k. occurrences-sort_keys u k ∙ found k },
        same,
      )

  -- Under the conditions of `list`, that the root and the directory of the hint can be read with all
  -- that is below them, that the keys there are UTF-8, and that nobody changes the tree,
  -- `list_with_metadata` returns with as much fuel; the keys of its metadata are sorted, each stands
  -- as often as there are files below that directory whose path gives it and that match, and
  -- nothing has changed.
  pub list_with_metadata-Listed :
      (f : ListFilter) (fuel : ℕ) (s : disk.State) (start : Str) (top : Entries)
      → reach root
      → reach start
      → world s root ≡ some (directory top)
      → prefix_subdir root f ≡ ok start
      → rounds_at (world s start) < fuel
      → (metas : List BlobMeta) × (t : disk.State) × (list_with_metadata debug is_utf8 root disk
            fuel f s
          ≡ returns metas t)
        × Listed root f (world s) start (map (λ m. m.key) metas)
        × (world t ≡ world s)
  unfolding list_with_metadata
  list_with_metadata-Listed f fuel s start top r0 r1 w hint enough =
      let (u, t, e, found, same) =
        from_start f (map (λ m. m.key)) (push_meta debug is_utf8 root disk) (notes_meta f) fuel [] s
          start top refl r0 r1 w hint enough in
      (
        sort_metas u,
        t,
        rw e refl,
        rw (keys-sort_metas u) (record {
          sorted = sort_keys-IsSorted (map (λ m. m.key) u);
          exact = λ k. occurrences-sort_keys (map (λ m. m.key) u) k ∙ found k;
        }),
        same,
      )

  -- A visitor that takes note of each key, goes on, and leaves the store alone.
  abbrev pub TakesNote : (V : Type 0) → (V → List Str) → BlobVisitor disk.State V → Type 0
  TakesNote V names visitor =
      (k : Str) (m : BlobMeta) (v : V) (s : disk.State)
      → (u : V) × (visitor k (some m) (v, s) ≡ returns true (u, s))
        × (names u ≡ names v ++ (k ∷ []))

  notes_visit :
      (V : Type 0) (f : ListFilter) (names : V → List Str) (visitor : BlobVisitor disk.State V)
      → TakesNote V names visitor
      → Notes debug is_utf8 root disk world place left law reach answers readable f names
          (visit_key debug is_utf8 root disk V visitor)
  notes_visit V f names visitor notes path key v s rp w =
      let (m, t, e, d, r, same) =
        there disk world place left law reach answers path s regular rp w in
      let (u, q, n) = notes key (meta_of_file key m) v t in (u, t, rw (e, q) refl, n, same)

  -- Under the conditions of `list`, that the root and the directory of the hint can be read with all
  -- that is below them, that the keys there are UTF-8, and that nobody changes the tree, `visit`
  -- returns, with fuel as for `list`, and calls a visitor that goes on and leaves the store alone
  -- with the keys of `list`, with each as often.
  pub visit-list :
      (V : Type 0) (names : V → List Str) (visitor : BlobVisitor disk.State V) (f : ListFilter)
      (fuel : ℕ) (v : V) (s : disk.State) (start : Str) (top : Entries)
      → TakesNote V names visitor
      → names v ≡ []
      → reach root
      → reach start
      → world s root ≡ some (directory top)
      → prefix_subdir root f ≡ ok start
      → rounds_at (world s start) < fuel
      → (u : V) × (t : disk.State) × (keys : List Str) × (t' : disk.State) × (visit debug is_utf8
            root disk fuel V f visitor
            (v, s)
          ≡ returns tt (u, t))
        × (list debug is_utf8 root disk fuel f s ≡ returns keys t')
        × ((k : Str) → occurrences (names u) k ≡ occurrences keys k)
  unfolding visit
  visit-list V names visitor f fuel v s start top notes empty r0 r1 w hint enough =
      let (u, t, e, found, same) =
        from_start f names (visit_key debug is_utf8 root disk V visitor)
          (notes_visit V f names visitor notes) fuel v s start top empty r0 r1 w hint enough in
      let (keys, t', e', listed, same') = list-Listed f fuel s start top r0 r1 w hint enough in
      (u, t, keys, t', e, e', λ k. found k ∙ sym (listed.exact k))
