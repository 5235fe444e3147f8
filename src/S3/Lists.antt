-- ===== src/S3/Lists.antt =====
-- `list` of the S3 backend against the contract of `BlobStore`.
use mathlib.Core.List.{append-nil, append_assoc}
use xtax.Base.{
  ℕ, zero, suc, Str, Bool, true, false, Option, none, some, is_some, List, [], ◌∷◌, ◌++◌, ◌≡◌, refl,
  sym, ap, ◌∙◌, arith, inl, inr, ◌&&◌, ◌||◌, str_eq, str_eq_iff, starts_with, contains, is_empty,
  Bool-cases, Option-cases,
}
use xtax.Base.Sort.{sort_keys, sort_keys-IsSorted, contains-sort_keys}
use xtax.Exec.{Outcome, returns, fails, final, Exec, continue, pure}
use xtax.Types.{Bytes, Timestamp}
use xtax.Filter.{ListFilter, IsHinted, HintHolds}
use xtax.Store.Contract.{ListsView}
use xtax.S3.{Client, Reply, reply_state, Object, ListOutput}
use xtax.S3.Listing.{or_default, request_prefix, page_keys, fetch_page, collect_pages, list}
use xtax.S3.Service.{Part, Keeps, Keeps_trans, Lists, object_keys, bucket_view, as_stream}
use xtax.S3.Upload.{Reply-cases}
use xtax.S3.Store.{s3_store}

page_keys-append :
    (f : ListFilter) (xs ys : List Object)
    → page_keys f (xs ++ ys) ≡ page_keys f xs ++ page_keys f ys
unfolding page_keys
page_keys-append f [] ys = refl
page_keys-append f (o ∷ xs) ys = elim (Option-cases o.key) [
  | inl e ↦ rw (e, page_keys) (page_keys-append f xs ys)
  | inr (k, e) ↦ elim (Bool-cases (f.matches k none)) [
    | inl q ↦ rw (e, q, page_keys) (ap (λ ks. k ∷ ks) (page_keys-append f xs ys))
    | inr q ↦ rw (e, q, page_keys) (page_keys-append f xs ys)
  ]
]

matched_key :
    (f : ListFilter) (k j : Str)
    → f.matches k none ≡ true
    → (c d : Bool) → c ≡ (d && f.matches j none)
    → (str_eq k j || c) ≡ ((str_eq k j || d) && f.matches j none)
matched_key f k j q c d h = elim (Bool-cases (str_eq k j)) [
  | inl e ↦ rw e (sym q ∙ ap (λ i. f.matches i none) ((str_eq_iff k j).0 e))
  | inr e ↦ rw e h
]

other_key :
    (f : ListFilter) (k j : Str)
    → f.matches k none ≡ false
    → (c d : Bool) → c ≡ (d && f.matches j none)
    → c ≡ ((str_eq k j || d) && f.matches j none)
other_key f k j q c d h = elim (Bool-cases (str_eq k j)) [
  | inl e ↦
      let no : f.matches j none ≡ false =
        ap (λ i. f.matches i none) (sym ((str_eq_iff k j).0 e)) ∙ q in
      ground (arith, no, h)
  | inr e ↦ rw e h
]

contains-page_keys :
    (f : ListFilter) (os : List Object) (j : Str)
    → contains (page_keys f os) j ≡ (contains (object_keys os) j && f.matches j none)
unfolding page_keys contains
contains-page_keys f [] j = refl
contains-page_keys f (o ∷ os) j = elim (Option-cases o.key) [
  | inl e ↦ rw (e, page_keys) (contains-page_keys f os j)
  | inr (k, e) ↦ elim (Bool-cases (f.matches k none)) [
    | inl q ↦ rw (e, q, page_keys) (matched_key f k j q _ _ (contains-page_keys f os j))
    | inr q ↦ rw (e, q, page_keys) (other_key f k j q _ _ (contains-page_keys f os j))
  ]
]

hint_prefix :
    (f : ListFilter) (h : Option Str) (k : Str)
    → HintHolds f h
    → f.matches k none ≡ true
    → starts_with (or_default (request_prefix h) []) k ≡ true
unfolding starts_with
hint_prefix f none k holds m = refl
hint_prefix f (some hint) k holds m = elim (Bool-cases (is_empty hint)) [
  | inl q ↦ rw q refl
  | inr q ↦ rw q (holds k none m)
]

known_same : (o : Option Bytes) → is_some (as_stream o) ≡ is_some o
known_same none = refl
known_same (some b) = refl

matched_prefix : (a b m : Bool) → (m ≡ true → b ≡ true) → ((a && b) && m) ≡ (a && m)
matched_prefix a true true h = ground arith
matched_prefix a false true h = cc (h refl)
matched_prefix a b false h = ground arith

module _ (bucket : Str) (part_size fuel : ℕ) (client : Client) (now : client.State → Timestamp)
    (objects : client.State → Str → Option Bytes) (parts : client.State → Str → List Part)
    (remaining : client.State → Option Str → Option Str → List Object)
    (law : Lists client objects parts remaining) (f : ListFilter) where
  -- A collection that returns has every object that remained.
  abbrev Collected : client.State → Option Str → List Str → Outcome client.State (List Str) → Type 0
  Collected s token found (returns ks t) =
      (ks ≡ found ++ page_keys f (remaining s (request_prefix f.prefix_hint) token))
      × Keeps client objects parts s t
  Collected s token found (fails e t) = Keeps client objects parts s t

  page_kept :
      (token : Option Str) (s : client.State) (r : Reply client.State ListOutput)
      → client.list_objects_v2 (request_prefix f.prefix_hint) token s ≡ r
      → Keeps client objects parts s (reply_state r)
  page_kept token s r e j =
      ap (λ (x : Reply client.State ListOutput). objects (reply_state x) j) (sym e)
      ∙ law.list_kept (request_prefix f.prefix_hint) token s j

  next-Collected :
      (s t : client.State) (token next : Option Str) (found : List Str) (contents : List Object)
      → remaining s (request_prefix f.prefix_hint) token
        ≡ contents ++ remaining t (request_prefix f.prefix_hint) next
      → Keeps client objects parts s t
      → (o : Outcome client.State (List Str)) → Collected t next (found ++ page_keys f contents) o
      → Collected s token found o
  next-Collected s t token next found contents e k (returns ks u) h = (
    h.0
        ∙ append_assoc found (page_keys f contents)
            (page_keys f (remaining t (request_prefix f.prefix_hint) next))
        ∙ ap (λ r. found ++ r)
            (sym (
              ap (page_keys f) e
              ∙ page_keys-append f contents (remaining t (request_prefix f.prefix_hint) next))),
    Keeps_trans client objects parts s t u k h.1,
  )
  next-Collected s t token next found contents e k (fails b u) h =
      Keeps_trans client objects parts s t u k h

  collect_pages-Collected :
      (n : ℕ) (token : Option Str) (found : List Str) (s : client.State)
      → Collected s token found (collect_pages bucket client (page_keys f) f n token found s)
  unfolding collect_pages fetch_page
  collect_pages-Collected zero token found s = λ j. refl
  collect_pages-Collected (suc n) token found s =
      elim (Reply-cases (client.list_objects_v2 (request_prefix f.prefix_hint) token s)) [
        | inr (c, t, e) ↦ rw (e, collect_pages, fetch_page) (page_kept token s _ e)
        | inl (o, t, e) ↦ elim (Option-cases o.next_continuation_token) [
          | inl q ↦
              rw (e, q, collect_pages, fetch_page)
                (
                  ap (λ r. found ++ page_keys f r)
                      (sym (append-nil o.contents)
                        ∙ sym (rw q at (law.page (request_prefix f.prefix_hint) token s t o e))),
                  page_kept token s _ e,
                )
          | inr (next, q) ↦
              rw (e, q, collect_pages, fetch_page)
                (next-Collected s t token (some next) found o.contents
                  (rw q at (law.page (request_prefix f.prefix_hint) token s t o e))
                  (page_kept token s _ e) _
                  (collect_pages-Collected n (some next) (found ++ page_keys f o.contents) t))
        ]
      ]

  abbrev s3_list : Exec client.State (List Str)
  s3_list = list bucket client fuel f

  abbrev Listed : client.State → Outcome client.State (List Str) → Type 0
  Listed s (returns ks t) =
      (ks ≡ sort_keys (page_keys f (remaining s (request_prefix f.prefix_hint) none)))
      × Keeps client objects parts s t
  Listed s (fails e t) = Keeps client objects parts s t

  sorted-Listed :
      (s : client.State) (o : Outcome client.State (List Str))
      → Collected s none [] o
      → Listed s (continue o (λ keys. pure (sort_keys keys)))
  sorted-Listed s (returns ks t) h = (ap sort_keys h.0, h.1)
  sorted-Listed s (fails e t) h = h

  list-Listed : (s : client.State) → Listed s (s3_list s)
  unfolding list
  list-Listed s = sorted-Listed s _ (collect_pages-Collected fuel none [] s)

  Listed-final :
      (s : client.State) (o : Outcome client.State (List Str))
      → Listed s o
      → Keeps client objects parts s (final o)
  Listed-final s (returns ks t) h = h.1
  Listed-final s (fails e t) h = h

  listed_keys :
      (s t : client.State) (ks : List Str)
      → s3_list s ≡ returns ks t
      → ks ≡ sort_keys (page_keys f (remaining s (request_prefix f.prefix_hint) none))
  listed_keys s t ks q = let h = list-Listed s in (rw q at h).0

  list-exact :
      (s t : client.State) (ks : List Str)
      → IsHinted f
      → s3_list s ≡ returns ks t
      → (k : Str)
      → contains ks k ≡ (is_some (bucket_view client objects parts s k) && f.matches k none)
  list-exact s t ks hinted q k =
      ap (λ r. contains r k) (listed_keys s t ks q)
      ∙ contains-sort_keys (page_keys f (remaining s (request_prefix f.prefix_hint) none)) k
      ∙ contains-page_keys f (remaining s (request_prefix f.prefix_hint) none) k
      ∙ ap (λ b. b && f.matches k none) (law.enumerates (request_prefix f.prefix_hint) s k)
      ∙ matched_prefix (is_some (objects s k)) _ (f.matches k none)
          (hint_prefix f f.prefix_hint k hinted)
      ∙ ap (λ b. b && f.matches k none) (sym (known_same (objects s k)))

module _ (bucket : Str) (part_size fuel : ℕ) (client : Client) (now : client.State → Timestamp)
    (objects : client.State → Str → Option Bytes) (parts : client.State → Str → List Part)
    (remaining : client.State → Option Str → Option Str → List Object)
    (law : Lists client objects parts remaining) where
  -- `list` of the S3 backend keeps the contract, over any number of pages.
  pub list-ListsView :
      ListsView (s3_store bucket part_size fuel client now) (bucket_view client objects parts)
  list-ListsView = record {
    keeps = λ f s j. ap as_stream (
        Listed-final bucket part_size fuel client now objects parts remaining law f s _
          (list-Listed bucket part_size fuel client now objects parts remaining law f s) j);
    exact = λ f s ks t hinted q.
        list-exact bucket part_size fuel client now objects parts remaining law f s t ks hinted q;
    sorted = λ f s ks t q.
        rw (listed_keys bucket part_size fuel client now objects parts remaining law f s t ks q)
          (sort_keys-IsSorted (page_keys f (remaining s (request_prefix f.prefix_hint) none)));
  }
