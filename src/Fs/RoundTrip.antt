-- ===== src/Fs/RoundTrip.antt =====
-- What the file-system store gives back.
use xtax.Base.{
  ◌++◌, ◌⊎◌, inl, inr, Str, Bool, true, none, some, is_some, Option, [], ◌∷◌, ◌≡◌, refl, ap, ◌∙◌,
  str_eq_refl,
}
use xtax.Exec.{returns}
use xtax.Types.{Bytes, Stream, BlobInput, PutResult}
use xtax.Fs.{normalise_root}
use xtax.Fs.Disk.{Disk}
use xtax.Fs.Contents.{disk_view, Writes}
use xtax.Fs.Files.{put, get, exists}
use xtax.Fs.Finds.{Finds, Refused}
use xtax.Fs.Puts.{put-PutsView}
use xtax.Fs.Reads.{get-FindsBlob, exists-TellsBlob}

-- Over a file system that keeps its documentation, `exists` that answers after a `put` of one blob
-- says that it is there, unless the metadata of its path is refused for another reason than that
-- there is nothing; and a `get` that succeeds then, and whose stream does not break, gives the
-- stream that was put.
pub get_after_put :
    (debug : Str → Str) (given : Str) (disk : Disk) (files : disk.State → Str → Option Bytes)
    (key_of : disk.File → Str) (pending : disk.State → disk.File → Bytes)
    → Writes disk (normalise_root given) files key_of pending
    → Finds disk (normalise_root given) files
    → (blob : BlobInput) (s t u w : disk.State) (r : PutResult) (there : Bool) (st : Stream)
    → put debug (normalise_root given) disk (blob ∷ []) s ≡ returns r t
    → exists debug (normalise_root given) disk blob.key t ≡ returns there w
    → get debug (normalise_root given) disk blob.key t ≡ returns st u
    → st.fault ≡ none
    → ((there ≡ true) ⊎ Refused disk (normalise_root given ++ blob.key) t) × (st ≡ blob.content)
get_after_put debug given disk files key_of pending writes finds blob s t u w r there st p e g
      whole =
    let puts = put-PutsView debug (λ path. true) given disk 0 files key_of pending writes in
    let now : disk_view disk (normalise_root given) files t blob.key ≡ some blob.content =
      puts.stores (blob ∷ []) s r t p blob.key ∙ rw (str_eq_refl blob.key) refl in
    let asks = exists-TellsBlob debug given disk files finds in
    let reads = (get-FindsBlob debug given disk files finds).0 in
    (
      elim (asks.tells blob.key t there w e) [ inl h ↦ inl (h ∙ ap is_some now) | inr h ↦ inr h.1 ],
      (reads.found blob.key t st u g).1 blob.content now whole,
    )
