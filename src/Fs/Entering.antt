-- ===== src/Fs/Entering.antt =====
-- What an entry of a directory adds to a walk.
use xtax.Base.{
  All, ◌+◌, ◌≤◌, Str, Bool, true, Option, none, some, List, [], ◌∷◌, ◌++◌, ◌≡◌, refl, ap, ◌∙◌, inl,
  inr, arith, occurrences, occurrences-append, Bool-cases,
}
use xtax.Exec.{returns, Exec}
use xtax.Filter.{ListFilter}
use xtax.Fs.Disk.{Disk}
use xtax.Fs.Hint.{strip_base}
use xtax.Fs.Walk.{next, visit_file, visit_entry}
use xtax.Fs.Tree.{
  Node, regular, directory, special, Entries, World, if_wanted, one_if, tally_node, tally_at,
  tally_all, rounds_node, rounds_at, rounds_all, Looks, Answers,
}
use xtax.Fs.Looking.{Same, tally_all-append, rounds_all-append, is_file_there, is_dir_there}

All-append : (P : Str → Type 0) (xs ys : List Str) → All P xs → All P ys → All P (xs ++ ys)
All-append P [] ys h g = g
All-append P (x ∷ xs) ys h g = (h.0, All-append P xs ys h.1 g)

module _ (debug : Str → Str) (is_utf8 : Str → Bool) (root : Str) (disk : Disk)
    (world : disk.State → World) (place : disk.Dir → Str) (left : disk.State → disk.Dir → Entries)
    (law : Looks disk world place left) (reach : Str → Type 0)
    (answers : Answers disk world place reach)
    (readable : (path key : Str)
      → reach path
      → strip_base root path ≡ some key
      → is_utf8 key ≡ true)
    (filter : ListFilter) {V : Type 0} (names : V → List Str)
    (on_file : Str → Str → Exec (V × disk.State) Bool) where
  abbrev Kept : disk.State → disk.State → Type 0
  Kept s t = Same disk world place left law s t

  -- The file is noted, and nothing else.
  abbrev pub Notes : Type 0
  Notes =
      (path key : Str) (v : V) (s : disk.State)
      → reach path
      → world s path ≡ some regular
      → (u : V) × (t : disk.State) × (on_file path key (v, s) ≡ returns true (u, t))
        × (names u ≡ names v ++ (key ∷ []))
        × Kept s t

  -- What an entry adds to the value and to the directories that wait.
  pub record Entered (path : Str) (node : Node) (dirs : List Str) (v : V) (s : disk.State)
      : Type 0 where
    pub more : List Str
    pub value : V
    pub state : disk.State
    pub goes :
        visit_entry debug is_utf8 root disk filter on_file path dirs (v, s)
        ≡ returns (next more) (value, state)
    pub found :
        (k : Str)
        → occurrences (names value) k + tally_all root filter k (world s) more
          ≡ occurrences (names v) k
            + tally_all root filter k (world s) dirs
            + tally_node root filter k path node
    pub same : Kept s state
    pub reached : All reach dirs → All reach more
    pub enough : rounds_all (world s) more ≤ rounds_all (world s) dirs + rounds_node node

  module _ (notes : Notes) where
    noted :
        (path : Str) (o : Option Str) (dirs : List Str) (v : V) (s : disk.State)
        → reach path
        → strip_base root path ≡ o
        → world s path ≡ some regular
        → (u : V) × (t : disk.State) × (visit_file debug is_utf8 root disk filter on_file path dirs
              o
              (v, s)
            ≡ returns (next dirs) (u, t))
          × ((k : Str)
              → occurrences (names u) k ≡ occurrences (names v) k + one_if (if_wanted filter o) k)
          × Kept s t
    noted path none dirs v s r b w = (v, s, refl, λ k. omega arith, (refl, refl))
    noted path (some key) dirs v s r b w = elim (Bool-cases (filter.matches key none)) [
      | inr m ↦ (
        v,
        s,
        rw (readable path key r b, visit_file, m) refl,
        λ k. rw m (omega arith),
        (refl, refl),
      )
      | inl m ↦
          let (u, t, e, n, same) = notes path key v s r w in
          (
            u,
            t,
            rw (readable path key r b, visit_file, m, e) refl,
            λ k. rw m (ap (λ l. occurrences l k) n ∙ occurrences-append (names v) (key ∷ []) k),
            same,
          )
    ]

    pub enter :
        (path : Str) (node : Node) (dirs : List Str) (v : V) (s : disk.State)
        → reach path
        → world s path ≡ some node
        → Entered path node dirs v s
    enter path regular dirs v s r w =
        let (t, e, kept) =
          is_file_there disk world place left law reach answers path s regular r w in
        let (u, x, g, n, same) =
          noted path (strip_base root path) dirs v t r refl
            (ap (λ (z : World). z path) kept.0 ∙ w) in
        record {
          more = dirs;
          value = u;
          state = x;
          goes = rw (e, visit_entry) g;
          found = λ k. omega (arith, n k);
          same = (same.0 ∙ kept.0, same.1 ∙ kept.1);
          reached = λ h. h;
          enough = omega arith;
        }
    enter path (directory entries) dirs v s r w =
        let (t, e, kept) =
          is_file_there disk world place left law reach answers path s (directory entries) r w in
        let (x, g, same) =
          is_dir_there disk world place left law reach answers path t (directory entries) r
            (ap (λ (z : World). z path) kept.0 ∙ w) in
        record {
          more = dirs ++ (path ∷ []);
          value = v;
          state = x;
          goes = rw (e, g) refl;
          found = λ k. omega (
            arith,
            tally_all-append root filter k (world s) dirs (path ∷ []),
            ap (tally_at root filter k path) w,
          );
          same = (same.0 ∙ kept.0, same.1 ∙ kept.1);
          reached = λ h. All-append reach dirs (path ∷ []) h (r, tt);
          enough = omega (arith, rounds_all-append (world s) dirs (path ∷ []), ap rounds_at w);
        }
    enter path special dirs v s r w =
        let (t, e, kept) =
          is_file_there disk world place left law reach answers path s special r w in
        let (x, g, same) =
          is_dir_there disk world place left law reach answers path t special r
            (ap (λ (z : World). z path) kept.0 ∙ w) in
        record {
          more = dirs;
          value = v;
          state = x;
          goes = rw (e, g) refl;
          found = λ k. omega arith;
          same = (same.0 ∙ kept.0, same.1 ∙ kept.1);
          reached = λ h. h;
          enough = omega arith;
        }
