-- ===== src/Tests/Cleaning.antt =====
-- The cleanup on a store in memory that visits its blobs with their metadata.
use xtax.Base.{
  ◌%◌, ◌^◌, ◌≤◌, max, leb, arith, true, Str, text, false, none, List, [], ◌∷◌, length, contains,
  str_eq, starts_with, ends_with, has_char, split, ◌≡◌, refl, if◌then◌else◌,
}
use xtax.Exec.{Outcome, Exec, returns, final, try_map}
use xtax.Types.{BlobMeta, CleanupResult, cursor}
use xtax.Store.{BlobStore}
use xtax.Store.Contract.{visit_entries, DeletesView, validate_all}
use xtax.Validate.{validate_blob_key}
use xtax.Cleanup.{CleanupPredicate, cleanup, cleanup_visitor, flush}
use xtax.Cleanup.Batches.{cleanup_same}
use xtax.Cleanup.Progress.{picked}
use xtax.Cleanup.Correct.{cleanup-view, cleanup-count, cleanup-spares}
use xtax.Tests.Memory.{Entries, find, memory, memory-IsLawful, remove_all, drop_all}

dated : Entries → List (Str × BlobMeta)
dated [] = []
dated ((k, st) ∷ s) =
    (k, record { key = k; stored_size = length st.bytes; modified_at = 5; etag = none }) ∷ dated s

abbrev shelf : BlobStore
shelf = record memory { visit = λ V f w x. visit_entries w (dated x.1) x }

shelf-DeletesView : DeletesView shelf find
shelf-DeletesView = record {
  gone = λ ks s t e j h. memory-IsLawful.delete.gone ks s t e j h;
  succeeded_gone = λ ks s t b e j h. memory-IsLawful.delete.succeeded_gone ks s t b e j h;
  accounted = λ ks s t b e j h. memory-IsLawful.delete.accounted ks s t b e j h;
  others = λ ks s j h. memory-IsLawful.delete.others ks s j h;
}

abbrev temporary : CleanupPredicate
temporary key meta = starts_with (text "tmp-") key

abbrev cluttered : Entries
cluttered =
    (text "tmp-1", cursor (1 ∷ [])) ∷ (text "a", cursor (2 ∷ [])) ∷ (text "tmp-2", cursor []) ∷ []

-- A batch of one and a batch left over.
abbrev swept : Outcome Entries CleanupResult
swept = cleanup shelf (λ _. 0) temporary 2 cluttered

abbrev clean : Entries
clean = (text "a", cursor (2 ∷ [])) ∷ []

cleanup_runs : swept ≡ returns (record { deleted_count = 2 }) clean
unfolding cleanup cleanup_visitor flush remove_all drop_all validate_all try_map validate_blob_key
    split starts_with ends_with has_char str_eq contains text dated
cleanup_runs = refl

cleanup-view_example : find clean (text "tmp-1") ≡ (
    if contains (picked temporary (dated cluttered)) (text "tmp-1")
    then none
    else find cluttered (text "tmp-1"))
cleanup-view_example =
    cleanup-view shelf find shelf-DeletesView cluttered (λ _. 0) temporary 2 (dated cluttered)
      (λ w v. refl) (record { deleted_count = 2 }) clean cleanup_runs (text "tmp-1")

cleanup-count_example : 2 ≡ length (picked temporary (dated cluttered)) % 2 ^ 64
cleanup-count_example =
    cleanup-count shelf find shelf-DeletesView cluttered (λ _. 0) temporary 2 (dated cluttered)
      (λ w v. refl) (record { deleted_count = 2 }) clean cleanup_runs

keeps_a : contains (picked temporary (dated cluttered)) (text "a") ≡ false
unfolding contains text dated starts_with str_eq
keeps_a = refl

cleanup-spares_example :
    find (final (cleanup shelf (λ _. 0) temporary 2 cluttered)) (text "a")
    ≡ find cluttered (text "a")
cleanup-spares_example =
    cleanup-spares shelf find shelf-DeletesView cluttered (λ _. 0) temporary 2 (dated cluttered)
      (λ w v. refl) (text "a") keeps_a

-- Deletions that lose everything when they are given more than two keys.
abbrev fragile : List Str → Exec Entries (Unit {0})
fragile ks s = if leb (length ks) 2 then shelf.delete ks s else returns tt []

fragile_same :
    (ks : List Str) (s : Entries) → length ks ≤ max 1 2 → fragile ks s ≡ shelf.delete ks s
fragile_same ks s h = let fits : leb (length ks) 2 ≡ true = ground arith in rw fits refl

cleanup_same_example :
    cleanup (record shelf { delete = λ ks s. fragile ks s }) (λ _. 0) temporary 2 cluttered
    ≡ cleanup shelf (λ _. 0) temporary 2 cluttered
cleanup_same_example =
    cleanup_same shelf (λ _. 0) temporary 2 fragile (λ ks s _ h. fragile_same ks s h)
      (dated cluttered) cluttered (λ w v. refl)
