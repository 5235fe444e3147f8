-- ===== src/Tests/Trees.antt =====
-- A small tree of files that can only be read, and the listings of the store on it.
use xtax.Base.{
  Bool, not, is_some, occurrences, ◌++◌, ◌∷◌, ◌<◌, Str, true, text, Option, none, some, List, [],
  ◌≡◌, refl, sym, ap, ◌∙◌, ◌⊎◌, inl, inr, arith, str_eq, str_eq_sound, starts_with, ends_with,
  split, has_char, map, if◌then◌else◌, Bool-cases,
}
use xtax.Error.{IoError, IoErrorKind}
use xtax.Exec.{ok, returns}
use xtax.Types.{BlobMeta}
use xtax.Filter.{ListFilter, prefix_filter}
use xtax.Fs.{join_path}
use xtax.Fs.Disk.{Disk, Answer, done, failed, Metadata}
use xtax.Fs.Hint.{prefix_subdir, validate_prefix_hint, check_hint, hinted_dir}
use xtax.Store.{BlobVisitor}
use xtax.Fs.Walk.{visit, list, list_with_metadata}
use xtax.Fs.Hint.{strip_base, strip_pieces, skip}
use xtax.Validate.Components.{join}
use xtax.Fs.Tree.{
  Within, Node, regular, directory, Entries, no_entries, entry, World, is_regular, is_directory,
  Leads, rounds_at, Looks, Answers,
}
use xtax.Fs.Lists.{Listed, visit-list, list-Listed, list_with_metadata-Listed}

abbrev pub root : Str
root = text "/d/"

abbrev sub : Entries
sub = entry (text "c") regular no_entries

abbrev top : Entries
top = entry (text "a") regular (entry (text "b") (directory sub) no_entries)

-- The directory `b` can be named with a separator at the end.
abbrev here : World
here path =
    if str_eq path (text "/d/")
    then some (directory top)
    else if str_eq path (text "/d/a")
    then some regular
    else if str_eq path (text "/d/b")
    then some (directory sub)
    else if str_eq path (text "/d/b/")
    then some (directory sub)
    else if str_eq path (text "/d/b/c")
    then some regular
    else none

pub record Handle : Type 0 where
  base : Str
  rest : Entries

abbrev missing : IoError
missing = record { kind = IoErrorKind.not_found; description = [] }

-- What the system says of a path below a regular file.
abbrev not_a_directory : IoError
not_a_directory = record { kind = IoErrorKind.other; description = text "not a directory" }

abbrev stat : Str → Option Node → Answer (Unit {0}) Metadata
stat path none = failed (if starts_with (text "/d/a/") path then not_a_directory else missing) tt
stat path (some node) =
    done
      (record {
        is_dir = is_directory (some node);
        is_file = is_regular (some node);
        len = 0;
        modified = none;
      })
      tt

abbrev entries_of : Option Node → Entries
entries_of (some (directory entries)) = entries
entries_of _ = no_entries

abbrev step : Handle → Entries → Option (Str × Handle)
step h no_entries = none
step h (entry name node more) = some (join_path h.base name, record { base = h.base; rest = more })

abbrev read_at : Str → Unit {0} → Answer (Unit {0}) Handle
read_at path s = done (record { base = path; rest = entries_of (here path) }) s

abbrev answer : Option (Str × Handle) → Unit {0} → Answer (Unit {0}) (Option (Str × Handle))
answer o s = done o s

abbrev pub tree_disk : Disk
tree_disk = record {
  State = Unit {0};
  File = Unit {0};
  Dir = Handle;
  metadata = λ path s. stat path (here path);
  create_dir_all = λ path s. failed missing s;
  create = λ path s. failed missing s;
  copy = λ content file s. failed missing s;
  flush = λ file s. failed missing s;
  open_file = λ path s. failed missing s;
  remove_file = λ path s. failed missing s;
  read_dir = λ path s. read_at path s;
  next_entry = λ h s. answer (step h h.rest) s;
}

root-Leads : Leads here (text "/d/") top
unfolding text join_path str_eq ends_with starts_with
root-Leads = (refl, (refl, tt))

sub-Leads : Leads here (text "/d/b") sub
unfolding text join_path str_eq ends_with starts_with
sub-Leads = (refl, tt)

sub_closed-Leads : Leads here (text "/d/b/") sub
unfolding text join_path str_eq ends_with starts_with
sub_closed-Leads = (refl, tt)

directory_inj : (a b : Entries) → some (directory a) ≡ some (directory b) → a ≡ b
directory_inj a b e = cc

at_path :
    (path q : Str) (es fs : Entries)
    → str_eq path q ≡ true
    → Leads here q es
    → es ≡ fs
    → Leads here path fs
at_path path q es fs e h same = rw (str_eq_sound path q e, sym same) h

here-Leads : (path : Str) (es : Entries) → here path ≡ some (directory es) → Leads here path es
here-Leads path es w = elim (Bool-cases (str_eq path (text "/d/"))) [
  | inl e ↦ at_path path (text "/d/") top es e root-Leads (directory_inj _ _ (rw e at w))
  | inr e ↦ elim (Bool-cases (str_eq path (text "/d/a"))) [
    | inl f ↦ cc (rw (e, f) at w)
    | inr f ↦ elim (Bool-cases (str_eq path (text "/d/b"))) [
      | inl g ↦
          at_path path (text "/d/b") sub es g sub-Leads (directory_inj _ _ (rw (e, f, g) at w))
      | inr g ↦ elim (Bool-cases (str_eq path (text "/d/b/"))) [
        | inl h ↦
            at_path path (text "/d/b/") sub es h sub_closed-Leads
              (directory_inj _ _ (rw (e, f, g, h) at w))
        | inr h ↦ elim (Bool-cases (str_eq path (text "/d/b/c"))) [
          | inl i ↦ cc (rw (e, f, g, h, i) at w)
          | inr i ↦ cc (rw (e, f, g, h, i) at w)
        ]
      ]
    ]
  ]
]

step-some :
    (h r : Handle) (es : Entries) (path : Str)
    → step h es ≡ some (path, r)
    → (name : Str) × (node : Node) × (es ≡ entry name node r.rest)
      × (path ≡ join_path h.base name)
      × (r.base ≡ h.base)
step-some h r no_entries path e = cc
step-some h r (entry name node more) path e = (name, node, cc, cc, cc)

step-none : (h : Handle) (es : Entries) → step h es ≡ none → es ≡ no_entries
step-none h no_entries e = refl
step-none h (entry name node more) e = cc

stat-done :
    (path : Str) (o : Option Node) (t : Unit {0}) (m : Metadata)
    → stat path o ≡ done m t
    → (m.is_dir ≡ is_directory o) × (m.is_file ≡ is_regular o)
stat-done path none t m e = cc
stat-done path (some node) t m e = (cc, cc)

stat-failed :
    (path : Str) (o : Option Node) (t : Unit {0}) (x : IoError)
    → stat path o ≡ failed x t
    → o ≡ none
stat-failed path none t x e = refl
stat-failed path (some node) t x e = cc

-- The paths that can be read are those where something is.
abbrev Reach : Str → Type 0
Reach path = is_some (here path) ≡ true

stat-answers :
    (path : Str) (o : Option Node)
    → is_some o ≡ true
    → ((m : Metadata) × (t : Unit {0}) × (stat path o ≡ done m t))
      ⊎ ((e : IoError) × (t : Unit {0}) × (stat path o ≡ failed e t)
          × (e.kind ≡ IoErrorKind.not_found))
stat-answers path none h = cc
stat-answers path (some node) h = inl (_, tt, refl)

Leads-Within : (path : Str) (es : Entries) → Leads here path es → Within Reach path es
Leads-Within path no_entries h = tt
Leads-Within path (entry name node rest) h = (ap is_some h.0, Leads-Within path rest h.1)

read-done :
    (path : Str) (s t : Unit {0}) (dir : Handle)
    → read_at path s ≡ done dir t
    → (dir.base ≡ path) × (dir.rest ≡ entries_of (here path))
read-done path s t dir e = (cc, cc)

next-done : (o p : Option (Str × Handle)) (s t : Unit {0}) → answer o s ≡ done p t → o ≡ p
next-done o p s t e = cc

tree_disk-Looks : Looks tree_disk (λ s. here) (λ h. h.base) (λ s h. h.rest)
tree_disk-Looks = record {
  leads = λ s path es w. here-Leads path es w;
  metadata_world = λ path s. refl;
  metadata_left = λ path s. refl;
  metadata_done = λ path s t m e. stat-done path (here path) t m e;
  metadata_failed = λ path s t x e q. stat-failed path (here path) t x e;
  read_world = λ path s. refl;
  read_done =
      λ path s t dir es e w. let h = read-done path s t dir e in (h.0, h.1 ∙ ap entries_of w);
  next_world = λ dir s. refl;
  next_none = λ dir s t e. step-none dir dir.rest (next-done _ _ s t e);
  next_some = λ dir r s t path e. step-some dir r dir.rest path (next-done _ _ s t e);
}

tree_disk-Answers : Answers tree_disk (λ s. here) (λ h. h.base) Reach
tree_disk-Answers = record {
  within = λ path s es r w. Leads-Within path es (here-Leads path es w);
  metadata = λ path s r. stat-answers path (here path) r;
  read_dir = λ path s es r w. (_, s, refl);
  next_entry = λ dir s r. (_, s, refl);
}

-- A byte that no UTF-8 text has.
abbrev pub is_utf8 : Str → Bool
is_utf8 key = not (has_char 255 key)

key_is_utf8 :
    (path q key lit : Str)
    → str_eq path q ≡ true
    → strip_base root q ≡ some lit
    → is_utf8 lit ≡ true
    → strip_base root path ≡ some key
    → is_utf8 key ≡ true
key_is_utf8 path q key lit e given h f =
    let same : some lit ≡ some key =
      sym given ∙ ap (strip_base root) (sym (str_eq_sound path q e)) ∙ f in
    let named : lit ≡ key = cc in ap is_utf8 (sym named) ∙ h

keys_are_utf8 : (path key : Str) → Reach path → strip_base root path ≡ some key → is_utf8 key ≡ true
unfolding text str_eq has_char strip_base strip_pieces skip split starts_with join
keys_are_utf8 path key r f = elim (Bool-cases (str_eq path (text "/d/"))) [
  | inl e ↦ key_is_utf8 path (text "/d/") key [] e refl refl f
  | inr e ↦ elim (Bool-cases (str_eq path (text "/d/a"))) [
    | inl g ↦ key_is_utf8 path (text "/d/a") key (text "a") g refl refl f
    | inr g ↦ elim (Bool-cases (str_eq path (text "/d/b"))) [
      | inl h ↦ key_is_utf8 path (text "/d/b") key (text "b") h refl refl f
      | inr h ↦ elim (Bool-cases (str_eq path (text "/d/b/"))) [
        | inl i ↦ key_is_utf8 path (text "/d/b/") key (text "b/") i refl refl f
        | inr i ↦ elim (Bool-cases (str_eq path (text "/d/b/c"))) [
          | inl j ↦ key_is_utf8 path (text "/d/b/c") key (text "b/c") j refl refl f
          | inr j ↦ cc (rw (e, g, h, i, j) at r)
        ]
      ]
    ]
  ]
]

-- The files whose keys start with `b/`.
abbrev pub below_b : ListFilter
below_b = prefix_filter (text "b/")

hinted : prefix_subdir root below_b ≡ ok (text "/d/b/")
unfolding prefix_subdir validate_prefix_hint check_hint hinted_dir text join_path str_eq ends_with
    starts_with split has_char
hinted = refl

there : here root ≡ some (directory top)
unfolding text str_eq
there = refl

there_root : Reach root
unfolding text str_eq
there_root = refl

there_start : Reach (text "/d/b/")
unfolding text str_eq
there_start = refl

enough : rounds_at (here (text "/d/b/")) < 9
unfolding text str_eq
enough = omega arith

list-Listed_example :
    (keys : List Str) × (t : Unit {0}) × (list (λ p. p) is_utf8 root tree_disk 9 below_b tt
      ≡ returns keys t)
    × Listed root below_b here (text "/d/b/") keys
    × (here ≡ here)
list-Listed_example =
    list-Listed (λ p. p) is_utf8 root tree_disk (λ s. here) (λ h. h.base) (λ s h. h.rest)
      tree_disk-Looks Reach tree_disk-Answers keys_are_utf8 below_b 9 tt (text "/d/b/") top
      there_root there_start there hinted enough

list_with_metadata-Listed_example :
    (metas : List BlobMeta) × (t : Unit {0}) × (list_with_metadata
        (λ p. p)
        is_utf8
        root
        tree_disk
        9
        below_b
        tt
      ≡ returns metas t)
    × Listed root below_b here (text "/d/b/") (map (λ m. m.key) metas)
    × (here ≡ here)
list_with_metadata-Listed_example =
    list_with_metadata-Listed (λ p. p) is_utf8 root tree_disk (λ s. here) (λ h. h.base)
      (λ s h. h.rest) tree_disk-Looks Reach tree_disk-Answers keys_are_utf8 below_b 9 tt
      (text "/d/b/") top there_root there_start there hinted enough

-- A visitor that collects the keys.
abbrev pub collector : BlobVisitor (Unit {0}) (List Str)
collector key meta (seen, s) = returns true (seen ++ (key ∷ []), s)

visit-list_example :
    (seen : List Str) × (t : Unit {0}) × (keys : List Str) × (t' : Unit {0}) × (visit
        (λ p. p)
        is_utf8
        root
        tree_disk
        9
        (List Str)
        below_b
        collector
        ([], tt)
      ≡ returns tt (seen, t))
    × (list (λ p. p) is_utf8 root tree_disk 9 below_b tt ≡ returns keys t')
    × ((k : Str) → occurrences seen k ≡ occurrences keys k)
visit-list_example =
    visit-list (λ p. p) is_utf8 root tree_disk (λ s. here) (λ h. h.base) (λ s h. h.rest)
      tree_disk-Looks Reach tree_disk-Answers keys_are_utf8 (List Str) (λ seen. seen) collector
      below_b 9 [] tt (text "/d/b/") top (λ k m seen s. (seen ++ (k ∷ []), refl, refl)) refl
      there_root there_start there hinted enough
