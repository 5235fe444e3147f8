-- ===== src/Fs/Looking.antt =====
-- The calls that look at a tree of files, where something is there.
use xtax.Base.{
  ◌+◌, Str, false, Option, none, some, List, [], ◌∷◌, ◌++◌, ◌≡◌, refl, sym, ap, ◌∙◌, ◌⊎◌, inl, inr,
  arith,
}
use xtax.Exec.{returns}
use xtax.Filter.{ListFilter}
use xtax.Fs.Disk.{Disk, Answer, done, Metadata, path_is_file, path_is_dir}
use xtax.Fs.Contents.{after}
use xtax.Fs.Tree.{
  Node, regular, directory, special, Entries, World, is_regular, is_directory, tally_at, tally_all,
  rounds_at, rounds_all, Looks, Answers,
}

module _ (root : Str) (filter : ListFilter) (k : Str) (world : World) where
  pub tally_all-append :
      (ps qs : List Str)
      → tally_all root filter k world (ps ++ qs)
        ≡ tally_all root filter k world ps + tally_all root filter k world qs
  tally_all-append [] qs = omega arith
  tally_all-append (p ∷ ps) qs = omega (arith, tally_all-append ps qs)

pub rounds_all-append :
    (world : World) (ps qs : List Str)
    → rounds_all world (ps ++ qs) ≡ rounds_all world ps + rounds_all world qs
rounds_all-append world [] qs = omega arith
rounds_all-append world (p ∷ ps) qs = omega (arith, rounds_all-append world ps qs)

-- A directory, or nothing to walk.
pub directory-cases :
    (o : Option Node)
    → ((entries : Entries) × (o ≡ some (directory entries)))
      ⊎ ((is_directory o ≡ false)
          × (rounds_at o ≡ 1)
          × ((root : Str) (filter : ListFilter) (k path : Str) → tally_at root filter k path o ≡ 0))
directory-cases none = inr (refl, refl, λ root filter k path. refl)
directory-cases (some regular) = inr (refl, refl, λ root filter k path. refl)
directory-cases (some (directory entries)) = inl (entries, refl)
directory-cases (some special) = inr (refl, refl, λ root filter k path. refl)

module _ (disk : Disk) (world : disk.State → World) (place : disk.Dir → Str)
    (left : disk.State → disk.Dir → Entries) (law : Looks disk world place left) where
  -- A call that looks at the tree leaves it, and the open directories, as they were.
  abbrev pub Same : disk.State → disk.State → Type 0
  Same s t = (world t ≡ world s) × (left t ≡ left s)

  pub after_metadata :
      (path : Str) (s : disk.State) (r : Answer disk.State Metadata)
      → disk.metadata path s ≡ r
      → Same s (after r)
  after_metadata path s r e = rw (sym e) (law.metadata_world path s, law.metadata_left path s)

  module _ (reach : Str → Type 0) (answers : Answers disk world place reach) where
    -- The metadata of something that is there.
    pub there :
        (path : Str) (s : disk.State) (node : Node)
        → reach path
        → world s path ≡ some node
        → (m : Metadata) × (t : disk.State) × (disk.metadata path s ≡ done m t)
          × (m.is_dir ≡ is_directory (some node))
          × (m.is_file ≡ is_regular (some node))
          × Same s t
    there path s node r w = elim (answers.metadata path s r) [
      | inl (m, t, e) ↦
          let h = law.metadata_done path s t m e in
          (m, t, e, h.0 ∙ ap is_directory w, h.1 ∙ ap is_regular w, after_metadata path s _ e)
      | inr (x, t, e, q) ↦ cc (sym w ∙ law.metadata_failed path s t x e q)
    ]

    pub is_file_there :
        (path : Str) (s : disk.State) (node : Node)
        → reach path
        → world s path ≡ some node
        → (t : disk.State) × (path_is_file disk path s ≡ returns (is_regular (some node)) t)
          × Same s t
    unfolding path_is_file
    is_file_there path s node r w =
        let (m, t, e, d, f, same) = there path s node r w in (t, rw (e, path_is_file, f) refl, same)

    pub is_dir_there :
        (path : Str) (s : disk.State) (node : Node)
        → reach path
        → world s path ≡ some node
        → (t : disk.State) × (path_is_dir disk path s ≡ returns (is_directory (some node)) t)
          × Same s t
    unfolding path_is_dir
    is_dir_there path s node r w =
        let (m, t, e, d, f, same) = there path s node r w in (t, rw (e, path_is_dir, d) refl, same)
