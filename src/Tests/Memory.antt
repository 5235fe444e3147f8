-- ===== src/Tests/Memory.antt =====
-- A store in memory, to run the layers on and to meet the hypotheses of the theorems with.
use xtax.Base.{
  Str, Option, none, some, is_some, List, [], ◌∷◌, map, ◌≡◌, refl, sym, ap, ◌∙◌, arith, str_eq,
  str_eq_iff, contains, contains-filter_by, filter_by, filter_by-IsSorted, inl, inr, ◌⊎◌,
  if◌then◌else◌,
}
use xtax.Base.Sort.{sort_keys, sort_keys-IsSorted, contains-sort_keys}
use xtax.Error.{BlobStorageError, BatchError}
use xtax.Validate.Nested.{validate_blob_key-err}
use xtax.Exec.{ok, returns, fails, Exec, lift, ◌>>◌, Result-cases, continue-eq-returns}
use xtax.Types.{Stream, BlobInput, PutResult, multiple, for_key}
use xtax.Filter.{ListFilter}
use xtax.Store.{BlobStore, default_visit, default_get_with_metadata, default_list_with_metadata}
use xtax.Store.Batches.{validate_all-cases, write_all_other}
use xtax.Store.Contract.{
  View, IsLawful, ReadsView, PutsView, DeletesView, write_all, keys_of, validate_all,
}
use xtax.Validate.{validate_blob_key}

-- The newest entry of a key comes first.
abbrev pub Entries : Type 0
Entries = List (Str × Stream)

unfoldable pub find : Entries → View
find [] k = none
find ((j, st) ∷ s) k = if str_eq j k then some st else find s k

unfoldable pub keys_in : Entries → List Str
keys_in [] = []
keys_in ((j, _) ∷ s) = j ∷ keys_in s

unfoldable pub push_all : List BlobInput → Entries → Entries
push_all [] s = s
push_all (b ∷ bs) s = push_all bs ((b.key, b.content) ∷ s)

unfoldable pub drop_all : List Str → Entries → Entries
drop_all ks [] = []
drop_all ks ((j, st) ∷ s) =
    let rest = drop_all ks s in if contains ks j then rest else (j, st) ∷ rest

unfoldable pub looked_up : Str → Option Stream → Exec Entries Stream
looked_up k none s = fails (BlobStorageError.not_found k) s
looked_up k (some st) s = returns st s

unfoldable pub read : Str → Exec Entries Stream
read k = do lift (validate_blob_key k); λ s. looked_up k (find s k) s

unfoldable pub store_all : List BlobInput → Exec Entries PutResult
store_all bs = do
  lift (validate_all (keys_of bs))
  λ s. returns (multiple (map (λ b. for_key 0 b.key) bs)) (push_all bs s)

unfoldable pub remove_all : List Str → Exec Entries (Unit {0})
remove_all ks = do lift (validate_all ks); λ s. returns tt (drop_all ks s)

pub listed : ListFilter → Exec Entries (List Str)
listed f s = returns (filter_by (λ k. f.matches k none) (sort_keys (keys_in s))) s

abbrev pub memory : BlobStore
memory = record {
  State = Entries;
  put = store_all;
  get = read;
  delete = remove_all;
  list = listed;
  exists = λ k s. returns (is_some (find s k)) s;
  get_with_metadata = default_get_with_metadata (λ _. 0) read;
  visit = default_visit listed;
  list_with_metadata = default_list_with_metadata (λ _. 0) listed;
}

pub contains-keys_in : (s : Entries) (k : Str) → contains (keys_in s) k ≡ is_some (find s k)
unfolding contains keys_in find
contains-keys_in [] k = refl
contains-keys_in ((j, st) ∷ s) k = ground (arith, contains-keys_in s k)

find-push_all :
    (bs : List BlobInput) (s : Entries) (j : Str) → find (push_all bs s) j ≡ write_all bs (find s) j
unfolding find push_all
find-push_all [] s j = refl
find-push_all (b ∷ bs) s j = find-push_all bs ((b.key, b.content) ∷ s) j

pub find-drop_all :
    (ks : List Str) (s : Entries) (j : Str)
    → find (drop_all ks s) j ≡ (if contains ks j then none else find s j)
unfolding find drop_all
find-drop_all ks [] j = ground arith
find-drop_all ks ((i, st) ∷ s) j =
    ground (arith, find-drop_all ks s j, str_eq_iff i j, λ (e : i ≡ j). ap (contains ks) e)

keys_of-metas :
    (bs : List BlobInput) → map (λ m. m.key) (map (λ b. for_key 0 b.key) bs) ≡ keys_of bs
unfolding for_key
keys_of-metas [] = refl
keys_of-metas (b ∷ bs) = ap (λ ks. b.key ∷ ks) (keys_of-metas bs)

memory_puts : PutsView memory find
unfolding store_all multiple
memory_puts = record {
  stores = λ bs s r t q j. elim (validate_all-cases (keys_of bs)) [
    | inr (m, e) ↦ cc (rw (e, lift) at q)
    | inl (us, e) ↦
        let w = rw (e, lift) at q in
        let same : t ≡ push_all bs s = ground arith in
        ap (λ u. find u j) same ∙ find-push_all bs s j
  ];
  reports = λ bs s r t q. elim (validate_all-cases (keys_of bs)) [
    | inr (m, e) ↦ cc (rw (e, lift) at q)
    | inl (us, e) ↦
        let w = rw (e, lift) at q in
        let same : r ≡ multiple (map (λ b. for_key 0 b.key) bs) = ground arith in
        ap (λ (x : PutResult). map (λ m. m.key) x.blobs) same ∙ keys_of-metas bs
  ];
  rejects = λ bs s e h. elim (validate_all-cases (keys_of bs)) [
    | inr (m, e') ↦ (m, rw (e', lift))
    | inl (us, e') ↦ cc (h, e')
  ];
  others = λ bs s j h. elim (validate_all-cases (keys_of bs)) [
    | inr (m, e) ↦ rw (e, lift)
    | inl (us, e) ↦ rw (e, lift) (find-push_all bs s j ∙ write_all_other bs (find s) j h)
  ];
}

never_batch :
    (ks : List Str) (s t : Entries) (b : BatchError)
    → remove_all ks s ≡ fails (BlobStorageError.batch b) t
    → ⊥
unfolding remove_all
never_batch ks s t b q = elim (validate_all-cases ks) [
  | inr (m, e) ↦ cc (rw (e, lift) at q)
  | inl (us, e) ↦ cc (rw (e, lift) at q)
]

memory_deletes : DeletesView memory find
unfolding remove_all
memory_deletes = record {
  gone = λ ks s t q j h. elim (validate_all-cases ks) [
    | inr (m, e) ↦ cc (rw (e, lift) at q)
    | inl (us, e) ↦
        let w = rw (e, lift) at q in
        let same : t ≡ drop_all ks s = ground arith in
        ap (λ u. find u j) same ∙ find-drop_all ks s j ∙ rw h
  ];
  succeeded_gone = λ ks s t b q. absurd (never_batch ks s t b q);
  accounted = λ ks s t b q. absurd (never_batch ks s t b q);
  others = λ ks s j h. elim (validate_all-cases ks) [
    | inr (m, e) ↦ rw (e, lift)
    | inl (us, e) ↦ rw (e, lift) (find-drop_all ks s j ∙ rw h)
  ];
}

reads_find :
    (k : Str) (s : Entries)
    → (read k s ≡ looked_up k (find s k) s) × (validate_blob_key k ≡ ok tt)
      ⊎ ((m : Str) × (read k s ≡ fails (BlobStorageError.invalid_input m) s))
unfolding read
reads_find k s = elim (Result-cases (validate_blob_key k)) [
  | inr (x, e) ↦ let (m, q) = validate_blob_key-err k x e in inr (m, ground (arith, q))
  | inl (u, e) ↦ inl (rw e, e)
]

memory_reads : ReadsView memory find (λ st. st) read
unfolding looked_up
memory_reads = record {
  keeps = λ k s j. ground (arith, reads_find k s);
  found = λ k s a t q. ground (arith, reads_find k s);
  missing = λ k s j t q. ground (arith, reads_find k s);
}

pub memory-IsLawful : IsLawful memory find
unfolding listed default_get_with_metadata
memory-IsLawful = record {
  get = memory_reads;
  get_with_metadata = record {
    keeps = λ k s j. ground (arith, memory_reads.keeps k s j);
    found = λ k s a t q.
        let (st, u, x, y) = continue-eq-returns (read k s) _ q in
        let (v, there, holds) = memory_reads.found k s st u x in
        let same : a.1 ≡ st = ground arith in
        (v, there, λ h. holds (ap (λ (z : Stream). z.fault) (sym same) ∙ h) ∙ ap some (sym same));
    missing = λ k s j t q. memory_reads.missing k s j t (ground arith);
  };
  exists = record { keeps = λ k s j. refl; tells = λ k s b t q. ground arith };
  put = memory_puts;
  delete = memory_deletes;
  list = record {
    keeps = λ f s j. refl;
    exact = λ f s ks t _ q k.
        let same : ks ≡ filter_by (λ j. f.matches j none) (sort_keys (keys_in s)) = ground arith in
        ap (λ js. contains js k) same
        ∙ contains-filter_by (λ j. f.matches j none) (sort_keys (keys_in s)) k
        ∙ rw (contains-sort_keys, contains-keys_in);
    sorted = λ f s ks t q.
        let same : ks ≡ filter_by (λ j. f.matches j none) (sort_keys (keys_in s)) = ground arith in
        rw same (filter_by-IsSorted _ _ (sort_keys-IsSorted (keys_in s)));
  };
}

-- A write that fails has written nothing.
pub memory_atomic :
    (bs : List BlobInput) (s t : Entries) (e : BlobStorageError)
    → store_all bs s ≡ fails e t
    → (j : Str) → find t j ≡ find s j
unfolding store_all
memory_atomic bs s t e q j = elim (validate_all-cases (keys_of bs)) [
  | inr (m, h) ↦
      let w = rw (h, lift) at q in let same : s ≡ t = ground arith in ap (λ u. find u j) (sym same)
  | inl (us, h) ↦ cc (rw (h, lift) at q)
]
