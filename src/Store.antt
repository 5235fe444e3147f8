-- ===== src/Store.antt =====
-- crates/xtax-blob-storage/src/blob_store.rs and visitor.rs: the trait `BlobStore` as a record of
-- methods over a state, and the methods that have a default.
pub mod Contract
pub mod Batches
pub mod Deleted
pub mod Written
use xtax.Base.{Str, Bool, true, false, Option, none, some, List, [], ◌∷◌, map}
use xtax.Error.{BlobStorageError}
use xtax.Exec.{Outcome, returns, fails, Exec, continue, ◌>>=◌, beside}
use xtax.Types.{Stream, Timestamp, BlobInput, BlobMeta, PutResult, for_key}
use xtax.Filter.{ListFilter}

-- A visitor keeps a value of `V` between the calls, and may call the store while it is visited.
abbrev pub BlobVisitor : Type 0 → Type 0 → Type 0
BlobVisitor S V = Str → Option BlobMeta → Exec (V × S) Bool

pub record BlobStore : Type 1 where
  pub State : Type 0
  pub put : List BlobInput → Exec State PutResult
  pub get : Str → Exec State Stream
  pub delete : List Str → Exec State (Unit {0})
  pub list : ListFilter → Exec State (List Str)
  pub exists : Str → Exec State Bool
  pub get_with_metadata : Str → Exec State (BlobMeta × Stream)
  pub visit : (V : Type 0) → ListFilter → BlobVisitor State V → Exec (V × State) (Unit {0})
  pub list_with_metadata : ListFilter → Exec State (List BlobMeta)

-- The loop of the default `visit`: on until the visitor says stop, or fails.
-- What the loop does with the answer of the visitor.
abbrev pub go_on : {X : Type 0} → Outcome X Bool → Exec X (Unit {0}) → Outcome X (Unit {0})
go_on (returns true y) rest = rest y
go_on (returns false y) rest = returns tt y
go_on (fails e y) rest = fails e y

unfoldable pub for_each : {X : Type 0} → (Str → Exec X Bool) → List Str → Exec X (Unit {0})
for_each visitor [] x = returns tt x
for_each visitor (key ∷ keys) x = go_on (visitor key x) (for_each visitor keys)

-- The clock is read at the state in which it is asked.
module _ {S : Type 0} (now : S → Timestamp) where
  unfoldable pub default_get_with_metadata :
      (Str → Exec S Stream) → Str → Exec S (BlobMeta × Stream)
  default_get_with_metadata get key s =
      continue (get key s) λ reader t. returns (for_key (now t) key, reader) t

  unfoldable pub default_list_with_metadata :
      (ListFilter → Exec S (List Str)) → ListFilter → Exec S (List BlobMeta)
  default_list_with_metadata list filter s =
      continue (list filter s) λ keys t. returns (map (for_key (now t)) keys) t

unfoldable pub default_visit :
    {S : Type 0}
    → (ListFilter → Exec S (List Str))
    → (V : Type 0) → ListFilter
    → BlobVisitor S V
    → Exec (V × S) (Unit {0})
default_visit list V filter visitor (v, s) =
    continue (beside v (list filter s)) λ keys x. for_each (λ key. visitor key none) keys x
