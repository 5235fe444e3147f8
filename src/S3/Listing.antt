-- ===== src/S3/Listing.antt =====
-- crates/xtax-blob-storage/src/s3/store.rs, the three listings, page by page. The number of pages
-- is the service's; the loops run on fuel for the pages.
use xtax.Base.{
  ℕ, zero, suc, Str, Bool, true, false, text, Option, none, some, List, [], ◌∷◌, ◌++◌, is_empty,
  if◌then◌else◌,
}
use xtax.Base.Sort.{sort_keys}
use xtax.Exec.{returns, fails, Exec, pure, ◌>>=◌, beside, continue}
use xtax.Types.{BlobMeta}
use xtax.Filter.{ListFilter}
use xtax.Store.{BlobVisitor}
use xtax.Encrypt.Layer.{sort_metas}
use xtax.S3.{Client, Object, ListOutput, map_refused, request_error}
use xtax.S3.Multipart.{stuck}

-- The prefix of the requests: the hint, unless it is empty.
abbrev pub request_prefix : Option Str → Option Str
request_prefix none = none
request_prefix (some hint) = if is_empty hint then none else some hint

abbrev pub or_default : {A : Type 0} → Option A → A → A
or_default none other = other
or_default (some a) other = a

-- `unwrap_or_default` of a time gives the epoch.
abbrev pub object_meta : Str → Object → BlobMeta
object_meta key o = record {
  key = key;
  stored_size = or_default o.size 0;
  modified_at = or_default o.last_modified 0;
  etag = o.e_tag;
}

-- The objects of a page that match.
unfoldable pub page_keys : ListFilter → List Object → List Str
page_keys filter [] = []
page_keys filter (o ∷ os) = elim o.key [
  | none ↦ page_keys filter os
  | some key ↦ elim (filter.matches key none) [
    | true ↦ key ∷ page_keys filter os
    | false ↦ page_keys filter os
  ]
]

unfoldable pub page_metas : ListFilter → List Object → List BlobMeta
page_metas filter [] = []
page_metas filter (o ∷ os) = elim o.key [
  | none ↦ page_metas filter os
  | some key ↦ elim (filter.matches key none) [
    | true ↦ object_meta key o ∷ page_metas filter os
    | false ↦ page_metas filter os
  ]
]

-- The loop over one page: whether to go on.
unfoldable pub visit_page :
    {X : Type 0} → ListFilter → (Str → Option BlobMeta → Exec X Bool) → List Object → Exec X Bool
visit_page filter visitor [] x = returns true x
visit_page filter visitor (o ∷ os) x = elim o.key [
  | none ↦ visit_page filter visitor os x
  | some key ↦ elim (filter.matches key none) [
    | false ↦ visit_page filter visitor os x
    | true ↦ elim (visitor key (some (object_meta key o)) x) [
      | returns true y ↦ visit_page filter visitor os y
      | returns false y ↦ returns false y
      | fails e y ↦ fails e y
    ]
  ]
]

module _ (bucket : Str) (client : Client) where
  unfoldable pub fetch_page : ListFilter → Option Str → Exec client.State ListOutput
  unfolding request_error
  fetch_page filter token s =
      map_refused (request_error bucket (text "S3 list failed"))
        (client.list_objects_v2 (request_prefix filter.prefix_hint) token s)

  -- The listings collect from every page, until there is no token.
  unfoldable pub collect_pages :
      {A : Type 0}
      → (List Object → List A)
      → ListFilter
      → ℕ
      → Option Str
      → List A
      → Exec client.State (List A)
  unfolding fetch_page
  collect_pages pick filter zero token found s = fails stuck s
  collect_pages pick filter (suc fuel) token found s =
      continue (fetch_page filter token s) λ page t. elim page.next_continuation_token [
        | none ↦ returns (found ++ pick page.contents) t
        | some next ↦ collect_pages pick filter fuel (some next) (found ++ pick page.contents) t
      ]

  unfoldable pub list : ℕ → ListFilter → Exec client.State (List Str)
  unfolding collect_pages page_keys
  list fuel filter = do
    keys ← collect_pages (page_keys filter) filter fuel none []
    pure (sort_keys keys)

  unfoldable pub list_with_metadata : ℕ → ListFilter → Exec client.State (List BlobMeta)
  unfolding collect_pages page_metas
  list_with_metadata fuel filter = do
    metas ← collect_pages (page_metas filter) filter fuel none []
    pure (sort_metas metas)

  -- A visit goes on to the next page after the whole page was visited.
  unfoldable pub visit_pages :
      (V : Type 0)
      → ListFilter
      → BlobVisitor client.State V
      → ℕ
      → Option Str
      → Exec (V × client.State) (Unit {0})
  unfolding fetch_page visit_page
  visit_pages V filter visitor zero token (v, s) = fails stuck (v, s)
  visit_pages V filter visitor (suc fuel) token (v, s) =
      continue (beside v (fetch_page filter token s)) λ page x.
        elim (visit_page filter visitor page.contents x) [
          | returns true y ↦ elim page.next_continuation_token [
            | none ↦ returns tt y
            | some next ↦ visit_pages V filter visitor fuel (some next) y
          ]
          | returns false y ↦ returns tt y
          | fails e y ↦ fails e y
        ]

  abbrev pub visit :
      ℕ
      → (V : Type 0) → ListFilter
      → BlobVisitor client.State V
      → Exec (V × client.State) (Unit {0})
  visit fuel V filter visitor = visit_pages V filter visitor fuel none
