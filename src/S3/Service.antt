-- ===== src/S3/Service.antt =====
-- What the documentation of S3 says of the requests, against a view of a bucket: the objects under
-- their keys, and the parts of the uploads that are not complete.
use xtax.Base.{
  Str, Bool, true, false, Option, none, some, is_some, List, [], ◌∷◌, ◌++◌, map, concat, contains,
  ◌≡◌, ◌∙◌, ◌⊎◌, ◌||◌, ◌&&◌, starts_with, str_eq, text, if◌then◌else◌, ℕ,
}
use xtax.Types.{Bytes, Stream, cursor}
use xtax.Store.Contract.{View}
use xtax.S3.{
  Client, answered, refused, reply_state, CompletedPart, GetObjectOutput, DeleteObjectsOutput,
  ObjectError, Object, ListOutput, is_not_found,
}
use xtax.S3.Listing.{or_default}
use xtax.S3.Deletion.{get_or, deleted_keys}

pub record Part : Type 0 where
  pub completed : CompletedPart
  pub body : Bytes

-- The answer to `UploadPart` names the part.
abbrev pub named_part : Option Str → ℕ → Bytes → Part
named_part tag n body = record {
  completed = record { e_tag = elim tag [ none ↦ [] | some t ↦ t ]; part_number = n };
  body = body;
}

abbrev pub as_stream : Option Bytes → Option Stream
as_stream none = none
as_stream (some bytes) = some (cursor bytes)

-- The keys of the errors of a response, and of those that say that the key was missing.
abbrev pub error_keys : List ObjectError → List Str
error_keys es = map (λ e. get_or e.key (text "unknown")) es

abbrev pub is_missing : ObjectError → Bool
is_missing e =
    let code = get_or e.code (text "Unknown") in
    str_eq code (text "NoSuchKey") || str_eq code (text "NotFound")

abbrev pub missing_keys : List ObjectError → List Str
missing_keys [] = []
missing_keys (e ∷ es) =
    let rest = missing_keys es in
    if is_missing e then get_or e.key (text "unknown") ∷ rest else rest

abbrev pub object_keys : List Object → List Str
object_keys [] = []
object_keys (o ∷ os) = elim o.key [ none ↦ object_keys os | some k ↦ k ∷ object_keys os ]

-- The objects behind a page.
abbrev pub after_page : ListOutput → (Option Str → List Object) → List Object
after_page o rest = elim o.next_continuation_token [ none ↦ [] | some next ↦ rest (some next) ]

module _ (client : Client) (objects : client.State → Str → Option Bytes)
    (parts : client.State → Str → List Part) where
  abbrev pub Keeps : client.State → client.State → Type 0
  Keeps s t = (j : Str) → objects t j ≡ objects s j

  pub Keeps_trans : (s t u : client.State) → Keeps s t → Keeps t u → Keeps s u
  Keeps_trans s t u h g j = g j ∙ h j

  -- The bucket after a write of one object.
  abbrev pub Writes : Str → Bytes → client.State → client.State → Type 0
  Writes k content s t =
      (j : Str) → objects t j ≡ (if str_eq k j then some content else objects s j)

  -- Uploads: an object appears only when it is complete, and then at once.
  pub record Uploads : Type 0 where
    pub put_stored :
        (k : Str) (b : Bytes) (s t : client.State) (tag : Option Str)
        → client.put_object k b s ≡ answered tag t
        → Writes k b s t
    pub put_refused :
        (k : Str) (b : Bytes) (s t : client.State) (c : Option Str)
        → client.put_object k b s ≡ refused c t
        → Keeps s t
    pub started :
        (k id : Str) (s t : client.State)
        → client.create_multipart_upload k s ≡ answered (some id) t
        → parts t id ≡ []
    pub create_kept :
        (k : Str) (s : client.State) → Keeps s (reply_state (client.create_multipart_upload k s))
    pub added :
        (k id : Str) (n : ℕ) (b : Bytes) (s t : client.State) (tag : Option Str)
        → client.upload_part k id n b s ≡ answered tag t
        → parts t id ≡ parts s id ++ (named_part tag n b ∷ [])
    pub upload_kept :
        (k id : Str) (n : ℕ) (b : Bytes) (s : client.State)
        → Keeps s (reply_state (client.upload_part k id n b s))
    pub abort_kept :
        (k id : Str) (s : client.State)
        → Keeps s (reply_state (client.abort_multipart_upload k id s))
    pub complete_stored :
        (k id : Str) (cs : List CompletedPart) (s t : client.State) (tag : Option Str)
        → client.complete_multipart_upload k id cs s ≡ answered tag t
        → cs ≡ map (λ p. p.completed) (parts s id)
        → Writes k (concat (map (λ p. p.body) (parts s id))) s t
    pub complete_refused :
        (k id : Str) (cs : List CompletedPart) (s t : client.State) (c : Option Str)
        → client.complete_multipart_upload k id cs s ≡ refused c t
        → Keeps s t

  pub record Downloads : Type 0 where
    pub get_found :
        (k : Str) (s t : client.State) (o : GetObjectOutput)
        → client.get_object k s ≡ answered o t
        → is_some (objects s k) ≡ true
    pub get_body :
        (k : Str) (s t : client.State) (o : GetObjectOutput)
        → client.get_object k s ≡ answered o t
        → o.body.fault ≡ none
        → objects s k ≡ some o.body.bytes
    pub get_missing :
        (k : Str) (s t : client.State) (c : Option Str)
        → client.get_object k s ≡ refused c t
        → is_not_found c ≡ true
        → objects s k ≡ none
    pub get_kept : (k : Str) (s : client.State) → Keeps s (reply_state (client.get_object k s))
    pub head_found :
        (k : Str) (s t : client.State) (u : Unit {0})
        → client.head_object k s ≡ answered u t
        → is_some (objects s k) ≡ true
    pub head_missing :
        (k : Str) (s t : client.State) (c : Option Str)
        → client.head_object k s ≡ refused c t
        → is_not_found c ≡ true
        → objects s k ≡ none
    pub head_kept : (k : Str) (s : client.State) → Keeps s (reply_state (client.head_object k s))

  -- A response to `DeleteObjects` speaks of every key of the request, and of no other.
  pub record Deletes : Type 0 where
    pub reported :
        (ks : List Str) (s t : client.State) (r : DeleteObjectsOutput)
        → client.delete_objects ks s ≡ answered r t
        → (j : Str) → contains ks j ≡ true
        → (contains (deleted_keys r.deleted) j ≡ true) ⊎ (contains (error_keys r.errors) j ≡ true)
    pub deleted_gone :
        (ks : List Str) (s t : client.State) (r : DeleteObjectsOutput)
        → client.delete_objects ks s ≡ answered r t
        → (j : Str) → contains (deleted_keys r.deleted) j ≡ true
        → (contains ks j ≡ true) × (objects t j ≡ none)
    pub missing_gone :
        (ks : List Str) (s t : client.State) (r : DeleteObjectsOutput)
        → client.delete_objects ks s ≡ answered r t
        → (j : Str) → contains (missing_keys r.errors) j ≡ true
        → (contains ks j ≡ true) × (objects t j ≡ none)
    pub delete_none :
        (ks : List Str) (s : client.State) (j : Str)
        → objects s j ≡ none
        → objects (reply_state (client.delete_objects ks s)) j ≡ none
    pub delete_others :
        (ks : List Str) (s : client.State) (j : Str)
        → contains ks j ≡ false
        → objects (reply_state (client.delete_objects ks s)) j ≡ objects s j

  -- A listing enumerates the keys with the prefix, page after page: `remaining` are the objects
  -- from a token on.
  pub record Lists (remaining : client.State → Option Str → Option Str → List Object) : Type 0 where
    pub page :
        (p token : Option Str) (s t : client.State) (o : ListOutput)
        → client.list_objects_v2 p token s ≡ answered o t
        → remaining s p token ≡ o.contents ++ after_page o (remaining t p)
    pub enumerates :
        (p : Option Str) (s : client.State) (k : Str)
        → contains (object_keys (remaining s p none)) k
          ≡ (is_some (objects s k) && starts_with (or_default p []) k)
    pub list_kept :
        (p token : Option Str) (s : client.State)
        → Keeps s (reply_state (client.list_objects_v2 p token s))

  -- The view of the bucket as that of a store.
  abbrev pub bucket_view : client.State → View
  bucket_view s k = as_stream (objects s k)
