-- ===== src/S3/Writes.antt =====
-- What `put` of the S3 backend leaves in the bucket.
use xtax.Base.{
  ℕ, suc, ◌%◌, ◌^◌, ◌<◌, Str, Option, none, some, List, [], ◌++◌, map, concat, concat-chunks,
  length, ◌≡◌, refl, sym, ap, ◌∙◌, arith, inl, inr,
}
use xtax.Exec.{Outcome, returns, fails, continue}
use xtax.Types.{Bytes, Stream, Timestamp, BlobMeta, cursor}
use xtax.S3.{Client, Reply, reply_state, put_object}
use xtax.S3.Multipart.{Parts, no_parts, start_multipart, complete_multipart, upload_multipart}
use xtax.S3.Service.{Part, Keeps, Keeps_trans, Writes, Uploads}
use xtax.S3.Upload.{Reply-cases, Sends, Sent, upload_parts-Sends}

module _ (bucket : Str) (client : Client) (now : client.State → Timestamp)
    (objects : client.State → Str → Option Bytes) (parts : client.State → Str → List Part)
    (law : Uploads client objects parts) where
  -- The blob is there whole, or nothing has changed.
  pub record Stored (k : Str) (content : Stream) (s : client.State) (m : BlobMeta)
      (t : client.State) : Type 0 where
    pub key : m.key ≡ k
    pub size : m.stored_size ≡ length content.bytes % 2 ^ 64
    pub whole : content.fault ≡ none
    pub written : Writes client objects parts k content.bytes s t

  abbrev pub Stores : Str → Stream → client.State → Outcome client.State BlobMeta → Type 0
  Stores k content s (returns m t) = Stored k content s m t
  Stores k content s (fails e t) = Keeps client objects parts s t

  pub put_object-Stores :
      (k : Str) (bytes : Bytes) (s : client.State)
      → length bytes < 2 ^ 64
      → Stores k (cursor bytes) s (put_object bucket client now k bytes s)
  unfolding put_object
  put_object-Stores k bytes s small = elim (Reply-cases (client.put_object k bytes s)) [
    | inr (c, t, e) ↦ rw (e, put_object) (law.put_refused k bytes s t c e)
    | inl (tag, t, e) ↦
        rw (e, put_object)
          (record {
            key = refl;
            size = omega arith;
            whole = refl;
            written = law.put_stored k bytes s t tag e;
          })
  ]

  module _ (part_size : ℕ) (pos : 0 < part_size) (key id : Str) (reader : Stream) where
    complete-Stores :
        (s t : client.State) (q : Parts)
        → parts s id ≡ []
        → Sent bucket client now objects parts law part_size key id
            (suc (length reader.bytes))
            no_parts
            reader
            s
            q
            t
        → Stores key reader s (complete_multipart bucket client now key id q t)
    unfolding complete_multipart
    complete-Stores s t q empty sent =
        let all_sent : parts t id ≡ sent.more = sent.appended ∙ ap (λ ps. ps ++ sent.more) empty in
        let same_bytes : concat (map (λ p. p.body) (parts t id)) ≡ reader.bytes =
          ap (λ ps. concat (map (λ p. p.body) ps)) all_sent
          ∙ ap concat sent.bodies
          ∙ concat-chunks part_size (suc (length reader.bytes)) reader.bytes pos (omega arith) in
        elim (Reply-cases (client.complete_multipart_upload key id q.completed t)) [
          | inr (c, u, e) ↦
              rw (e, complete_multipart)
                (Keeps_trans client objects parts s t u sent.kept
                  (law.complete_refused key id q.completed t u c e))
          | inl (tag, u, e) ↦
              rw (e, complete_multipart)
                (record {
                  key = refl;
                  size = omega (arith, sent.total);
                  whole = sent.whole;
                  written = λ j.
                      law.complete_stored key id q.completed t u tag e
                        (sent.completed ∙ sym (ap (map (λ p. p.completed)) all_sent)) j
                      ∙ rw (same_bytes, sent.kept j) refl;
                })
        ]

    uploaded-Stores :
        (s : client.State) (o : Outcome client.State Parts)
        → parts s id ≡ []
        → Sends bucket client now objects parts law part_size key id
            (suc (length reader.bytes))
            no_parts
            reader
            s
            o
        → Stores key reader s (continue o (complete_multipart bucket client now key id))
    uploaded-Stores s (returns q t) empty sent = complete-Stores s t q empty sent
    uploaded-Stores s (fails e t) empty kept = kept

    after_start :
        (s t : client.State) (o : Outcome client.State BlobMeta)
        → Keeps client objects parts s t
        → Stores key reader t o
        → Stores key reader s o
    after_start s t (returns m u) h st = record {
      key = st.key;
      size = st.size;
      whole = st.whole;
      written = λ j. st.written j ∙ rw (h j) refl;
    }
    after_start s t (fails e u) h st = Keeps_trans client objects parts s t u h st

  created_kept :
      (k : Str) (s t : client.State) (r : Reply client.State (Option Str))
      → client.create_multipart_upload k s ≡ r
      → reply_state r ≡ t
      → Keeps client objects parts s t
  created_kept k s t r e f j =
      ap (λ u. objects u j) (sym f)
      ∙ ap (λ (x : Reply client.State (Option Str)). objects (reply_state x) j) (sym e)
      ∙ law.create_kept k s j

  -- A multipart upload that succeeds has put the whole stream under the key, and one that fails,
  -- at any step, has changed no object.
  pub upload_multipart-Stores :
      (part_size : ℕ) (key : Str) (reader : Stream) (s : client.State)
      → 0 < part_size
      → Stores key reader s (upload_multipart bucket client now part_size key reader s)
  unfolding upload_multipart start_multipart
  upload_multipart-Stores part_size key reader s pos =
      elim (Reply-cases (client.create_multipart_upload key s)) [
        | inr (c, t, e) ↦ rw (e, upload_multipart, start_multipart) (created_kept key s t _ e refl)
        | inl (none, t, e) ↦
            rw (e, upload_multipart, start_multipart) (created_kept key s t _ e refl)
        | inl (some id, t, e) ↦
            rw (e, upload_multipart, start_multipart)
              (after_start part_size pos key id reader s t _ (created_kept key s t _ e refl) (
                uploaded-Stores part_size pos key id reader t _ (law.started key id s t e) (
                  upload_parts-Sends bucket client now objects parts law part_size key id
                    (suc (length reader.bytes)) no_parts reader t pos (omega arith))))
      ]
