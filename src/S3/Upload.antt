-- ===== src/S3/Upload.antt =====
-- What `upload_parts` sends: the blob cut into parts, in order.
use mathlib.Core.List.{append-nil, append_assoc}
use xtax.Base.{
  ℕ, zero, suc, ◌+◌, ◌%◌, ◌^◌, ◌<◌, ltb, Str, true, false, Option, none, some, List, [], ◌∷◌, ◌++◌,
  map, chunks, take, drop, take-append-drop, length, take_all, is_empty, ◌≡◌, refl, sym, ap, ◌∙◌,
  arith, ◌⊎◌, inl, inr, text, length-append, Bool-cases, Option-cases,
}
use xtax.Error.{BlobStorageError, IoError, Cause}
use xtax.Encrypt.{about_key}
use xtax.Exec.{ok, err, Outcome, returns, fails}
use xtax.Types.{Bytes, Stream, Timestamp}
use xtax.S3.{Client, Reply, answered, refused, reply_state}
use xtax.S3.Multipart.{Parts, add_part, read_part, after_part, upload_parts}
use xtax.S3.Service.{Part, named_part, Keeps, Keeps_trans, Uploads}

pub Reply-cases :
    {S A : Type 0} (r : Reply S A)
    → ((a : A) × (s : S) × (r ≡ answered a s)) ⊎ ((c : Option Str) × (s : S) × (r ≡ refused c s))
Reply-cases (answered a s) = inl (a, s, refl)
Reply-cases (refused c s) = inr (c, s, refl)

abbrev read_error : Str → IoError → BlobStorageError
read_error key e =
    BlobStorageError.storage (about_key (text "failed to read blob data for key ") key)
      (some (Cause.io e))

pub read_part-cases :
    (key : Str) (n : ℕ) (reader : Stream)
    → ((read_part key n reader ≡ ok (take n reader.bytes))
        × (length reader.bytes < n → reader.fault ≡ none))
      ⊎ ((e : BlobStorageError) × (read_part key n reader ≡ err e))
unfolding read_part
read_part-cases key n reader = elim (Bool-cases (ltb (length reader.bytes) n)) [
  | inr q ↦ inl (rw q refl, λ h. ground arith)
  | inl q ↦ elim (Option-cases reader.fault) [
    | inl e ↦ inl (rw (q, e) (ap ok (sym (take_all n reader.bytes (ground arith)))), λ h. e)
    | inr (b, e) ↦ inr (read_error key b, rw (q, e) refl)
  ]
]

pub empty_take : (n : ℕ) (bytes : Bytes) → 0 < n → is_empty (take n bytes) ≡ true → bytes ≡ []
empty_take zero bytes h e = absurd (omega arith)
empty_take (suc n) [] h e = refl
empty_take (suc n) (b ∷ bytes) h e = cc

chunks_step :
    (n fuel : ℕ) (bytes : Bytes)
    → is_empty (take n bytes) ≡ false
    → chunks n (suc fuel) bytes ≡ take n bytes ∷ chunks n fuel (drop n bytes)
unfolding chunks
chunks_step zero fuel [] h = cc
chunks_step (suc n) fuel [] h = cc
chunks_step n fuel (b ∷ bytes) h = refl

module _ (bucket : Str) (client : Client) (now : client.State → Timestamp)
    (objects : client.State → Str → Option Bytes) (parts : client.State → Str → List Part)
    (law : Uploads client objects parts) (part_size : ℕ) (key id : Str) where
  -- A loop that returns has read the whole stream and sent it in parts.
  pub record Sent (fuel : ℕ) (p : Parts) (reader : Stream) (s : client.State) (q : Parts)
      (t : client.State) : Type 0 where
    pub more : List Part
    pub appended : parts t id ≡ parts s id ++ more
    pub completed : q.completed ≡ p.completed ++ map (λ m. m.completed) more
    pub bodies : map (λ m. m.body) more ≡ chunks part_size fuel reader.bytes
    pub total : q.total_size ≡ (p.total_size + length reader.bytes) % 2 ^ 64
    pub whole : reader.fault ≡ none
    pub kept : Keeps client objects parts s t

  -- However it ends, no object has changed.
  abbrev pub Sends : ℕ → Parts → Stream → client.State → Outcome client.State Parts → Type 0
  Sends fuel p reader s (returns q t) = Sent fuel p reader s q t
  Sends fuel p reader s (fails e t) = Keeps client objects parts s t

  kept_by :
      {A : Type 0} (s t : client.State) (r : Reply client.State A)
      → Keeps client objects parts s (reply_state r)
      → reply_state r ≡ t
      → Keeps client objects parts s t
  kept_by s t r h e j = sym (ap (λ u. objects u j) e) ∙ h j

  all_read :
      (fuel : ℕ) (p : Parts) (reader : Stream) (s : client.State)
      → reader.bytes ≡ []
      → reader.fault ≡ none
      → p.total_size < 2 ^ 64
      → Sent (suc fuel) p reader s p s
  unfolding chunks
  all_read fuel p reader s e f h = record {
    more = [];
    appended = sym (append-nil (parts s id));
    completed = sym (append-nil p.completed);
    bodies = rw e refl;
    total = rw e (omega arith);
    whole = f;
    kept = λ j. refl;
  }

  part_kept :
      (p : Parts) (reader : Stream) (s t : client.State) (r : Reply client.State (Option Str))
      → client.upload_part key id p.part_number (take part_size reader.bytes) s ≡ r
      → reply_state r ≡ t
      → Keeps client objects parts s t
  part_kept p reader s t r e f =
      kept_by s t r
        (λ j.
          ap (λ (x : Reply client.State (Option Str)). objects (reply_state x) j) (sym e)
          ∙ law.upload_kept key id p.part_number (take part_size reader.bytes) s j)
        f

  part_sent :
      (fuel : ℕ) (p : Parts) (reader : Stream) (tag : Option Str) (s t : client.State)
      → 0 < part_size
      → is_empty (take part_size reader.bytes) ≡ false
      → client.upload_part key id p.part_number (take part_size reader.bytes) s ≡ answered tag t
      → (o : Outcome client.State Parts)
      → Sends fuel
          (add_part tag (length (take part_size reader.bytes)) p)
          (after_part part_size reader)
          t
          o
      → Sends (suc fuel) p reader s o
  part_sent fuel p reader tag s t pos full e (fails b u) h =
      Keeps_trans client objects parts s t u (part_kept p reader s t _ e refl) h
  part_sent fuel p reader tag s t pos full e (returns q u) h = record {
    more = named_part tag p.part_number (take part_size reader.bytes) ∷ h.more;
    appended =
        h.appended
        ∙ ap (λ ps. ps ++ h.more)
            (law.added key id p.part_number (take part_size reader.bytes) s t tag e)
        ∙ append_assoc (parts s id)
            (named_part tag p.part_number (take part_size reader.bytes) ∷ []) h.more;
    completed =
        h.completed
        ∙ append_assoc p.completed
            ((named_part tag p.part_number (take part_size reader.bytes)).completed ∷ [])
            (map (λ m. m.completed) h.more);
    bodies =
        ap (λ r. take part_size reader.bytes ∷ r) h.bodies
        ∙ sym (chunks_step part_size fuel reader.bytes full);
    total = omega (
      arith,
      h.total,
      ap length (take-append-drop part_size reader.bytes),
      length-append (take part_size reader.bytes) (drop part_size reader.bytes),
    );
    whole = h.whole;
    kept = Keeps_trans client objects parts s t u (part_kept p reader s t _ e refl) h.kept;
  }

  -- For parts of one byte or more and a total that fits 64 bits, over a service that behaves as the
  -- documentation of uploads says: where the loop of the parts returns, it has read the whole
  -- stream, the parts that the service got are its chunks in order, and the list of the parts and
  -- the total (modulo 2 ^ 64) are those of the chunks. However it ends, no object has changed.
  pub upload_parts-Sends :
      (fuel : ℕ) (p : Parts) (reader : Stream) (s : client.State)
      → 0 < part_size
      → p.total_size < 2 ^ 64
      → Sends fuel p reader s (upload_parts bucket client now part_size fuel key id p reader s)
  unfolding upload_parts
  upload_parts-Sends zero p reader s pos fits = λ j. refl
  upload_parts-Sends (suc fuel) p reader s pos fits = elim (read_part-cases key part_size reader) [
    | inr (e, r) ↦ rw (r, upload_parts) (law.abort_kept key id s)
    | inl (r, clean) ↦ elim (Bool-cases (is_empty (take part_size reader.bytes))) [
      | inl z ↦
          let none_left = empty_take part_size reader.bytes pos z in
          rw (r, z, upload_parts)
            (all_read fuel p reader s none_left (clean (omega (arith, ap length none_left))) fits)
      | inr full ↦
          elim (Reply-cases
            (client.upload_part key id p.part_number (take part_size reader.bytes) s)) [
              | inr (c, t, e) ↦
                  rw (r, full, e, upload_parts)
                    (Keeps_trans client objects parts s t
                      (reply_state (client.abort_multipart_upload key id t))
                      (part_kept p reader s t _ e refl) (law.abort_kept key id t))
              | inl (tag, t, e) ↦
                  rw (r, full, e, upload_parts)
                    (part_sent fuel p reader tag s t pos full e _ (
                      upload_parts-Sends fuel
                        (add_part tag (length (take part_size reader.bytes)) p)
                        (after_part part_size reader) t pos (omega arith)))
            ]
    ]
  ]
