-- ===== src/Store/Contract.antt =====
-- What crates/xtax-blob-storage/src/blob_store.rs and docs promise of every `BlobStore`, against
-- an abstract view of the state: which stream each key holds.
use mathlib.Core.Path.{fun_ext}
use xtax.Base.{
  Str, Bool, true, false, Option, none, some, is_some, List, [], ◌∷◌, map, ap, ◌≡◌, ◌&&◌, ◌⊎◌,
  str_eq, contains, IsSorted, if◌then◌else◌,
}
use xtax.Error.{BlobStorageError, KeyError, BatchError}
use xtax.Exec.{Exec, Result, ok, err, Outcome, returns, fails, final, try_map}
use xtax.Types.{BlobMeta, Stream, BlobInput, PutResult}
use xtax.Filter.{ListFilter, IsHinted}
use xtax.Store.{BlobStore, BlobVisitor, go_on}
use xtax.Validate.{validate_blob_key}

abbrev pub View : Type 0
View = Str → Option Stream

-- The blobs of a batch, written in order.
abbrev pub write_all : List BlobInput → View → View
write_all [] view = view
write_all (b ∷ bs) view = write_all bs (λ j. if str_eq b.key j then some b.content else view j)

pub write_all_same :
    (bs : List BlobInput) (v w : View) (j : Str)
    → ((i : Str) → v i ≡ w i)
    → write_all bs v j ≡ write_all bs w j
write_all_same bs v w j h = ap (λ u. write_all bs u j) (fun_ext h)

abbrev pub keys_of : List BlobInput → List Str
keys_of = map (λ b. b.key)

abbrev pub failed_keys : List KeyError → List Str
failed_keys = map (λ e. e.key)

-- The validation of a batch, as the trait describes it: all keys before any write.
unfoldable pub validate_all : List Str → Result (List (Unit {0}))
validate_all = try_map validate_blob_key

-- A visit that goes through blobs with their metadata.
abbrev pub visit_entries :
    {V S : Type 0} → BlobVisitor S V → List (Str × BlobMeta) → Exec (V × S) (Unit {0})
visit_entries w [] x = returns tt x
visit_entries w ((k, m) ∷ es) x = go_on (w k (some m) x) (visit_entries w es)

module _ (S : BlobStore) (view : S.State → View) where
  -- A read that succeeds has a valid key and returns the stream of the key, unless it failed on
  -- the way; a read that reports `NotFound` names the key that was asked for, which is absent.
  pub record ReadsView {A : Type 0} (stream_of : A → Stream)
      (read : Str → S.State → Outcome S.State A) : Type 0 where
    pub keeps : (k : Str) (s : S.State) (j : Str) → view (final (read k s)) j ≡ view s j
    pub found :
        (k : Str) (s : S.State) (a : A) (t : S.State)
        → read k s ≡ returns a t
        → (validate_blob_key k ≡ ok tt)
          × (is_some (view s k) ≡ true)
          × ((stream_of a).fault ≡ none → view s k ≡ some (stream_of a))
    pub missing :
        (k : Str) (s : S.State) (j : Str) (t : S.State)
        → read k s ≡ fails (BlobStorageError.not_found j) t
        → (j ≡ k) × (view s k ≡ none)

  pub record ExistsView : Type 0 where
    pub keeps : (k : Str) (s : S.State) (j : Str) → view (final (S.exists k s)) j ≡ view s j
    pub tells :
        (k : Str) (s : S.State) (b : Bool) (t : S.State)
        → S.exists k s ≡ returns b t
        → b ≡ is_some (view s k)

  -- A batch that succeeds is written in order and reported key by key; one with an invalid key
  -- changes nothing; and no batch, failing or not, touches another key.
  pub record PutsView : Type 0 where
    pub stores :
        (bs : List BlobInput) (s : S.State) (r : PutResult) (t : S.State)
        → S.put bs s ≡ returns r t
        → (j : Str) → view t j ≡ write_all bs (view s) j
    pub reports :
        (bs : List BlobInput) (s : S.State) (r : PutResult) (t : S.State)
        → S.put bs s ≡ returns r t
        → map (λ m. m.key) r.blobs ≡ keys_of bs
    pub rejects :
        (bs : List BlobInput) (s : S.State) (e : BlobStorageError)
        → validate_all (keys_of bs) ≡ err e
        → (m : Str) × (S.put bs s ≡ fails (BlobStorageError.invalid_input m) s)
    pub others :
        (bs : List BlobInput) (s : S.State) (j : Str)
        → contains (keys_of bs) j ≡ false
        → view (final (S.put bs s)) j ≡ view s j

  -- A batch that succeeds leaves none of its keys; a batch error says of every key whether it is
  -- gone or failed; and no other key is touched.
  pub record DeletesView : Type 0 where
    pub gone :
        (ks : List Str) (s t : S.State)
        → S.delete ks s ≡ returns tt t
        → (j : Str) → contains ks j ≡ true
        → view t j ≡ none
    pub succeeded_gone :
        (ks : List Str) (s t : S.State) (b : BatchError)
        → S.delete ks s ≡ fails (BlobStorageError.batch b) t
        → (j : Str) → contains b.succeeded j ≡ true
        → (contains ks j ≡ true) × (view t j ≡ none)
    pub accounted :
        (ks : List Str) (s t : S.State) (b : BatchError)
        → S.delete ks s ≡ fails (BlobStorageError.batch b) t
        → (j : Str) → contains ks j ≡ true
        → (contains b.succeeded j ≡ true) ⊎ (contains (failed_keys b.errors) j ≡ true)
    pub others :
        (ks : List Str) (s : S.State) (j : Str)
        → contains ks j ≡ false
        → view (final (S.delete ks s)) j ≡ view s j

  -- A listing holds exactly the keys that are there and match, in order.
  pub record ListsView : Type 0 where
    pub keeps : (f : ListFilter) (s : S.State) (j : Str) → view (final (S.list f s)) j ≡ view s j
    pub exact :
        (f : ListFilter) (s : S.State) (ks : List Str) (t : S.State)
        → IsHinted f
        → S.list f s ≡ returns ks t
        → (k : Str) → contains ks k ≡ (is_some (view s k) && f.matches k none)
    pub sorted :
        (f : ListFilter) (s : S.State) (ks : List Str) (t : S.State)
        → S.list f s ≡ returns ks t
        → IsSorted ks

  pub record IsLawful : Type 0 where
    pub get : ReadsView (λ st. st) S.get
    pub get_with_metadata : ReadsView (λ a. a.1) S.get_with_metadata
    pub exists : ExistsView
    pub put : PutsView
    pub delete : DeletesView
    pub list : ListsView
