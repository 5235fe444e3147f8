-- ===== src/Fs/Walking.antt =====
-- crates/xtax-blob-storage/src/fs/store.rs: what the walk finds in a tree that can be read.
use xtax.Base.{
  All, ℕ, zero, suc, ◌+◌, ◌<◌, Str, Bool, true, Option, none, some, List, [], ◌∷◌, ◌≡◌, refl, sym,
  ap, ◌∙◌, inl, inr, arith, occurrences, Option-cases,
}
use xtax.Exec.{returns, Exec}
use xtax.Filter.{ListFilter}
use xtax.Fs.Disk.{Disk, Answer, done, Metadata}
use xtax.Fs.Contents.{after}
use xtax.Fs.Walk.{walk}
use xtax.Fs.Hint.{strip_base}
use xtax.Fs.Tree.{
  Within, directory, Entries, entry, World, is_directory, Leads, tally_node, tally, tally_at,
  tally_all, rounds, rounds_at, rounds_all, Looks, Answers,
}
use xtax.Fs.Looking.{after_metadata, directory-cases}
use xtax.Fs.Entering.{Notes, enter}

module _ (debug : Str → Str) (is_utf8 : Str → Bool) (root : Str) (disk : Disk)
    (world : disk.State → World) (place : disk.Dir → Str) (left : disk.State → disk.Dir → Entries)
    (law : Looks disk world place left) (reach : Str → Type 0)
    (answers : Answers disk world place reach)
    (readable : (path key : Str)
      → reach path
      → strip_base root path ≡ some key
      → is_utf8 key ≡ true)
    (filter : ListFilter) {V : Type 0} (names : V → List Str)
    (on_file : Str → Str → Exec (V × disk.State) Bool) where
  module _
      (notes : Notes debug is_utf8 root disk world place left law reach answers readable filter
        names on_file) where
    -- What a walk has still to look at.
    abbrev pub open_tally : Str → disk.State → Option disk.Dir → ℕ
    open_tally k s none = 0
    open_tally k s (some dir) = tally root filter k (place dir) (left s dir)

    abbrev pub open_rounds : disk.State → Option disk.Dir → ℕ
    open_rounds s none = 0
    open_rounds s (some dir) = suc (rounds (left s dir))

    -- A directory that is open, and what it has still to give.
    pub record Opened (s : disk.State) (dir : disk.Dir) : Type 0 where
      pub leads : Leads (world s) (place dir) (left s dir)
      pub placed : reach (place dir)
      pub within : Within reach (place dir) (left s dir)

    abbrev pub Open : disk.State → Option disk.Dir → Type 0
    Open s none = Unit
    Open s (some dir) = Opened s dir

    -- A walk from here returns, and has found all there is.
    pub record Walked (fuel : ℕ) (current : Option disk.Dir) (dirs : List Str) (v : V)
        (s : disk.State) : Type 0 where
      pub value : V
      pub state : disk.State
      pub returned :
          walk debug is_utf8 root disk filter on_file fuel current dirs (v, s)
          ≡ returns tt (value, state)
      pub found :
          (k : Str)
          → occurrences (names value) k
            ≡ occurrences (names v) k
              + open_tally k s current
              + tally_all root filter k (world s) dirs
      pub unchanged : world state ≡ world s

    -- The rest of a walk, after a step.
    then_walk :
        (fuel : ℕ) (cur cur' : Option disk.Dir) (dirs dirs' : List Str) (v v' : V)
        (s s' : disk.State)
        → world s' ≡ world s
        → walk debug is_utf8 root disk filter on_file (suc fuel) cur dirs (v, s)
          ≡ walk debug is_utf8 root disk filter on_file fuel cur' dirs' (v', s')
        → ((k : Str)
            → occurrences (names v') k
                + open_tally k s' cur'
                + tally_all root filter k (world s') dirs'
              ≡ occurrences (names v) k
                + open_tally k s cur
                + tally_all root filter k (world s) dirs)
        → Walked fuel cur' dirs' v' s'
        → Walked (suc fuel) cur dirs v s
    then_walk fuel cur cur' dirs dirs' v v' s s' same step balance w = record {
      value = w.value;
      state = w.state;
      returned = step ∙ w.returned;
      found = λ k. w.found k ∙ balance k;
      unchanged = w.unchanged ∙ same;
    }

    abbrev pub Goes : ℕ → Type 0
    Goes fuel =
        (cur : Option disk.Dir) (dirs : List Str) (v : V) (s : disk.State)
        → Open s cur
        → All reach dirs
        → open_rounds s cur + rounds_all (world s) dirs < fuel
        → Walked fuel cur dirs v s

    -- A path that waits and is no directory.
    skip_path :
        (fuel : ℕ)
        → Goes fuel
        → (path : Str) (dirs : List Str) (v : V) (s t : disk.State) → All reach dirs
        → rounds_at (world s path) + rounds_all (world s) dirs < suc fuel
        → ((k : Str) → tally_at root filter k path (world s path) ≡ 0)
        → rounds_at (world s path) ≡ 1
        → world t ≡ world s
        → walk debug is_utf8 root disk filter on_file (suc fuel) none (path ∷ dirs) (v, s)
          ≡ walk debug is_utf8 root disk filter on_file fuel none dirs (v, t)
        → Walked (suc fuel) none (path ∷ dirs) v s
    skip_path fuel go path dirs v s t rs enough empty one same step =
        then_walk fuel none none (path ∷ dirs) dirs v v s t same step
          (λ k. omega (arith, empty k, ap (λ z. tally_all root filter k z dirs) same))
          (go none dirs v t tt rs (omega (arith, one, ap (λ z. rounds_all z dirs) same)))

    -- A directory that waits.
    open_path :
        (fuel : ℕ)
        → Goes fuel
        → (path : Str) (dirs : List Str) (v : V) (s t : disk.State) (m : Metadata)
          (entries : Entries)
        → reach path
        → All reach dirs
        → rounds_at (world s path) + rounds_all (world s) dirs < suc fuel
        → world s path ≡ some (directory entries)
        → disk.metadata path s ≡ done m t
        → Walked (suc fuel) none (path ∷ dirs) v s
    unfolding walk
    open_path fuel go path dirs v s t m entries r rs enough w e =
        let kept = after_metadata disk world place left law path s _ e in
        let is_dir : m.is_dir ≡ true = (law.metadata_done path s t m e).0 ∙ ap is_directory w in
        let w' = ap (λ (z : World). z path) kept.0 ∙ w in
        let (dir, u, g) = answers.read_dir path t entries r w' in
        let opened = law.read_done path t u dir entries g w' in
        let same : world u ≡ world s =
          ap (λ (x : Answer disk.State disk.Dir). world (after x)) (sym g)
          ∙ law.read_world path t
          ∙ kept.0 in
        then_walk fuel none (some dir) (path ∷ dirs) dirs v v s u same
          (rw (e, walk, is_dir, g) refl)
          (λ k. omega (
            arith,
            ap (λ z. tally_all root filter k z dirs) same,
            ap (tally_at root filter k path) w,
            ap (λ p. tally root filter k p (left u dir)) opened.0,
            ap (tally root filter k path) opened.1,
          ))
          (go (some dir) dirs v u
            (record {
              leads =
                  rw (opened.0, opened.1)
                    (law.leads u path entries (ap (λ (z : World). z path) same ∙ w));
              placed = rw opened.0 r;
              within = rw (opened.0, opened.1) (answers.within path s entries r w);
            })
            rs
            (omega (arith, ap rounds_at w, ap rounds opened.1, ap (λ z. rounds_all z dirs) same)))

    -- A directory that has given all its entries.
    close_directory :
        (fuel : ℕ)
        → Goes fuel
        → (dir : disk.Dir) (dirs : List Str) (v : V) (s t : disk.State) → All reach dirs
        → suc (rounds (left s dir)) + rounds_all (world s) dirs < suc fuel
        → world t ≡ world s
        → disk.next_entry dir s ≡ done none t
        → Walked (suc fuel) (some dir) dirs v s
    unfolding walk
    close_directory fuel go dir dirs v s t rs enough same e =
        let empty = law.next_none dir s t e in
        then_walk fuel (some dir) none dirs dirs v v s t same (rw (e, walk) refl)
          (λ k. omega (
            arith,
            ap (λ z. tally_all root filter k z dirs) same,
            ap (tally root filter k (place dir)) empty,
          ))
          (go none dirs v t tt rs (omega (arith, ap (λ z. rounds_all z dirs) same)))

    -- An entry of the directory that is open.
    next_in_directory :
        (fuel : ℕ)
        → Goes fuel
        → (dir rest : disk.Dir) (path : Str) (dirs : List Str) (v : V) (s t : disk.State)
        → Opened s dir
        → All reach dirs
        → suc (rounds (left s dir)) + rounds_all (world s) dirs < suc fuel
        → world t ≡ world s
        → disk.next_entry dir s ≡ done (some (path, rest)) t
        → Walked (suc fuel) (some dir) dirs v s
    unfolding walk
    next_in_directory fuel go dir rest path dirs v s t o rs enough same e =
        let (name, node, l, at, stay) = law.next_some dir rest s t path e in
        let led : Leads (world s) (place dir) (entry name node (left t rest)) = rw l at o.leads in
        let inside : Within reach (place dir) (entry name node (left t rest)) = rw l at o.within in
        let w : world t path ≡ some node =
          ap (λ (z : World). z path) same ∙ ap (world s) at ∙ led.0 in
        let n =
          enter debug is_utf8 root disk world place left law reach answers readable filter names
            on_file notes path node dirs v t (rw at inside.0) w in
        let here : world n.state ≡ world s = n.same.0 ∙ same in
        let same_left : left n.state rest ≡ left t rest = ap (λ z. z rest) n.same.1 in
        then_walk fuel (some dir) (some rest) dirs n.more v n.value s n.state here
          (rw (e, walk, n.goes) refl)
          (λ k. omega (
            arith,
            n.found k,
            ap (λ z. tally_all root filter k z dirs) same,
            ap (λ z. tally_all root filter k z n.more) here,
            ap (λ z. tally_all root filter k z n.more) same,
            ap (tally root filter k (place dir)) l,
            ap (λ p. tally root filter k p (left n.state rest)) stay,
            ap (tally root filter k (place dir)) same_left,
            ap (λ p. tally_node root filter k p node) at,
          ))
          (go (some rest) n.more n.value n.state
            (record {
              leads = rw (here, stay, same_left) led.1;
              placed = rw stay o.placed;
              within = rw (stay, same_left) inside.1;
            })
            (n.reached rs)
            (omega (
              arith,
              n.enough,
              ap rounds l,
              ap rounds same_left,
              ap (λ z. rounds_all z dirs) same,
              ap (λ z. rounds_all z n.more) here,
              ap (λ z. rounds_all z n.more) same,
            )))

    pub walk-Walked : (fuel : ℕ) → Goes fuel
    unfolding walk
    walk-Walked zero cur dirs v s led rs enough = absurd (omega arith)
    walk-Walked (suc fuel) none [] v s led rs enough = record {
      value = v;
      state = s;
      returned = refl;
      found = λ k. omega arith;
      unchanged = refl;
    }
    walk-Walked (suc fuel) none (path ∷ dirs) v s led rs enough =
        elim (directory-cases (world s path)) [
          | inl (entries, w) ↦ elim (answers.metadata path s rs.0) [
            | inl (m, t, e) ↦
                open_path fuel (walk-Walked fuel) path dirs v s t m entries rs.0 rs.1 (omega arith)
                  w e
            | inr (x, t, e, q) ↦ cc (sym w ∙ law.metadata_failed path s t x e q)
          ]
          | inr (plain, one, empty) ↦ elim (answers.metadata path s rs.0) [
            | inl (m, t, e) ↦
                skip_path fuel (walk-Walked fuel) path dirs v s t rs.1 (omega arith)
                  (λ k. empty root filter k path) one
                  (after_metadata disk world place left law path s _ e).0
                  (rw (e, walk, (law.metadata_done path s t m e).0 ∙ plain) refl)
            | inr (x, t, e, q) ↦
                skip_path fuel (walk-Walked fuel) path dirs v s t rs.1 (omega arith)
                  (λ k. empty root filter k path) one
                  (after_metadata disk world place left law path s _ e).0 (rw (e, walk, q) refl)
          ]
        ]
    walk-Walked (suc fuel) (some dir) dirs v s led rs enough =
        let (o, t, e) = answers.next_entry dir s led.placed in
        let same : world t ≡ world s =
          ap (λ (x : Answer disk.State (Option (Str × disk.Dir))). world (after x)) (sym e)
          ∙ law.next_world dir s in
        elim (Option-cases o) [
          | inl q ↦
              close_directory fuel (walk-Walked fuel) dir dirs v s t rs enough same
                (e ∙ ap (λ x. done x t) q)
          | inr (a, q) ↦
              next_in_directory fuel (walk-Walked fuel) dir a.1 a.0 dirs v s t led rs enough same
                (e ∙ ap (λ x. done x t) q)
        ]
