-- ===== src/S3/Termination.antt =====
-- The loop of the parts ends, where the service answers.
use xtax.Base.{
  ℕ, zero, suc, ◌<◌, ltb, take_all, Str, false, none, some, List, [], ◌∷◌, take, drop, length,
  length-drop, is_empty, ◌≡◌, refl, sym, ap, arith, inl, inr, Bool-cases,
}
use xtax.Exec.{ok, Outcome, returns, continue}
use xtax.Types.{Bytes, Stream, Timestamp}
use xtax.S3.{Client, Reply, CompletedPart, answered}
use xtax.S3.Multipart.{
  Parts, no_parts, add_part, read_part, after_part, upload_parts, start_multipart,
  complete_multipart, upload_multipart,
}

abbrev pub Returns : {S A : Type 0} → Outcome S A → Type 0
Returns {S} {A} o = (a : A) × (s : S) × (o ≡ returns a s)

abbrev pub Answers : {S A : Type 0} → (S → Reply S A) → Type 0
Answers {S} {A} call = (s : S) → (a : A) × (t : S) × (call s ≡ answered a t)

nonempty : (n : ℕ) (bytes : Bytes) → is_empty (take n bytes) ≡ false → 0 < length bytes
nonempty zero bytes h = cc
nonempty (suc n) [] h = cc
nonempty (suc n) (b ∷ bytes) h = omega arith

shorter :
    (n : ℕ) (rest : Stream) (fuel : ℕ)
    → 0 < n
    → is_empty (take n rest.bytes) ≡ false
    → length rest.bytes < suc fuel
    → length (drop n rest.bytes) < fuel
shorter n rest fuel pos full enough =
    omega (arith, length-drop n rest.bytes, nonempty n rest.bytes full)

module _ (bucket : Str) (client : Client) (now : client.State → Timestamp) (key : Str)
    (reader : Stream) where
  read_whole :
      (part_size : ℕ) (rest : Stream)
      → rest.fault ≡ none
      → read_part key part_size rest ≡ ok (take part_size rest.bytes)
  unfolding read_part
  read_whole part_size rest f = elim (Bool-cases (ltb (length rest.bytes) part_size)) [
    | inl q ↦ rw (q, f, read_part) (ap ok (sym (take_all part_size rest.bytes (ground arith))))
    | inr q ↦ rw (q, read_part) refl
  ]

  upload_parts-Returns :
      (part_size fuel : ℕ) (id : Str) (p : Parts) (rest : Stream) (s : client.State)
      → 0 < part_size
      → length rest.bytes < fuel
      → rest.fault ≡ none
      → ((n : ℕ) (b : Bytes) → Answers (client.upload_part key id n b))
      → Returns (upload_parts bucket client now part_size fuel key id p rest s)
  unfolding upload_parts
  upload_parts-Returns part_size zero id p rest s pos enough f answers = absurd (omega arith)
  upload_parts-Returns part_size (suc fuel) id p rest s pos enough f answers =
      let r = read_whole part_size rest f in
      elim (Bool-cases (is_empty (take part_size rest.bytes))) [
        | inl z ↦ (p, s, rw (r, z, upload_parts) refl)
        | inr full ↦
            let (tag, t, e) = answers p.part_number (take part_size rest.bytes) s in
            let (q, u, g) =
              upload_parts-Returns part_size fuel id
                (add_part tag (length (take part_size rest.bytes)) p) (after_part part_size rest) t
                pos (shorter part_size rest fuel pos full enough) f answers in
            (q, u, rw (r, full, e, upload_parts) g)
      ]

  finish-Returns :
      (part_size : ℕ) (id : Str) (o : Outcome client.State Parts)
      → Returns o
      → ((cs : List CompletedPart) → Answers (client.complete_multipart_upload key id cs))
      → Returns (continue o (complete_multipart bucket client now key id))
  unfolding complete_multipart
  finish-Returns part_size id o (p, s, e) answers =
      let (tag, t, g) = answers p.completed s in
      (
        record { key = key; stored_size = p.total_size; modified_at = now t; etag = tag },
        t,
        rw (e, complete_multipart, g) refl,
      )

  -- A multipart upload of a stream that can be read to its end, with parts of one byte or more,
  -- returns if the service gives the upload an id and answers the other requests.
  pub upload_multipart-Returns :
      (part_size : ℕ) (s : client.State)
      → 0 < part_size
      → reader.fault ≡ none
      → ((u : client.State)
          → (id : Str) × (t : client.State) × (client.create_multipart_upload key u
              ≡ answered (some id) t))
      → ((id : Str) (n : ℕ) (b : Bytes) → Answers (client.upload_part key id n b))
      → ((id : Str) (cs : List CompletedPart)
          → Answers (client.complete_multipart_upload key id cs))
      → Returns (upload_multipart bucket client now part_size key reader s)
  unfolding upload_multipart start_multipart
  upload_multipart-Returns part_size s pos whole creates uploads completes =
      let (id, t, e) = creates s in
      let r =
        finish-Returns part_size id _
          (upload_parts-Returns part_size (suc (length reader.bytes)) id no_parts reader t pos
            (omega arith) whole (uploads id))
          (completes id) in
      (r.0, r.1, rw (e, upload_multipart, start_multipart) r.2)
