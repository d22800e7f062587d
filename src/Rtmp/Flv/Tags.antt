-- ===== src/Rtmp/Flv/Tags.antt =====
-- A demuxer written from the FLV format, and that it reads what the code writes.
use mathlib.Core.List.{append-nil, append_assoc}
use irl_universal_ingest.Prelude.{
  ℕ, zero, suc, ◌+◌, ◌*◌, ◌/◌, ◌%◌, ◌<◌, ◌^◌, ◌≡◌, refl, ap, sym, ◌∙◌, List, [], ◌∷◌, ◌++◌, Option,
  none, some, ◌==◌, nat_eq, text_eq, if◌then◌else◌, Text, length, take, drop, take-append,
  drop-append, All, arith, nat_beq_iff, text_beq,
}
use irl_universal_ingest.Rtmp.Flv.{
  flv_header, be24, be32, tag_header, write_flv_header, write_flv_tag, and_then,
}

pub record Tag : Type 0 where
  pub type : ℕ
  pub timestamp : ℕ
  pub payload : Text

-- A byte, a uint32 and a size of 24 bits.
abbrev pub InRange : Tag → Type 0
InRange t = (t.type < 256) × (t.timestamp < 2 ^ 32) × (length t.payload < 2 ^ 24)

-- The header's 13 bytes and the tags, in this order, until a write fails.
module _ {W E : Type 0} (write : Text → W → W × Option E) where
  unfoldable pub write_tags : List Tag → W → W × Option E
  write_tags [] w = (w, none)
  write_tags (t ∷ ts) w =
      and_then (write_flv_tag write t.type t.timestamp t.payload w) (λ w1. write_tags ts w1)

  unfoldable pub write_stream : List Tag → W → W × Option E
  write_stream ts w = and_then (write_flv_header write w) (λ w1. write_tags ts w1)

-- A buffer takes every write.
abbrev pub write_buffer : Text → Text → Text × Option ℕ
write_buffer b w = (w ++ b, none)

-- The payload and the size of the whole tag after it.
pub read_payload : ℕ → ℕ → ℕ → Text → Option (Tag × Text)
read_payload type timestamp size rest = elim (drop size rest) [
  | (p3 ∷ p2 ∷ p1 ∷ p0 ∷ more) ↦
      if p3 * 2 ^ 24 + p2 * 2 ^ 16 + p1 * 2 ^ 8 + p0 == size + 11
      then some (record { type = type; timestamp = timestamp; payload = take size rest }, more)
      else none
  | _ ↦ none
]

pub read_tag : Text → Option (Tag × Text)
unfolding read_payload
read_tag (t ∷ n2 ∷ n1 ∷ n0 ∷ s2 ∷ s1 ∷ s0 ∷ s3 ∷ i2 ∷ i1 ∷ i0 ∷ rest) =
    read_payload t (s3 * 2 ^ 24 + s2 * 2 ^ 16 + s1 * 2 ^ 8 + s0) (n2 * 2 ^ 16 + n1 * 2 ^ 8 + n0)
      rest
read_tag _ = none

pub read_tags : ℕ → Text → Option (List Tag × Text)
unfolding read_tag
read_tags zero s = some ([], s)
read_tags (suc n) s = elim (read_tag s) [
  | none ↦ none
  | some (t, rest) ↦ elim (read_tags n rest) [ none ↦ none | some (ts, more) ↦ some (t ∷ ts, more) ]
]

pub read_stream : ℕ → Text → Option (List Tag × Text)
unfolding read_tags
read_stream n s = if take 13 s == flv_header then read_tags n (drop 13 s) else none

abbrev tag_bytes : Tag → Text
tag_bytes t =
    tag_header t.type t.timestamp (length t.payload) ++ (t.payload ++ be32 (length t.payload + 11))

be24_value :
    (n : ℕ) → n < 2 ^ 24 → n / 2 ^ 16 % 256 * 2 ^ 16 + n / 2 ^ 8 % 256 * 2 ^ 8 + n % 256 ≡ n
be24_value n h = omega arith

be32_value :
    (n : ℕ)
    → n < 2 ^ 32
    → n / 2 ^ 24 % 256 * 2 ^ 24 + n / 2 ^ 16 % 256 * 2 ^ 16 + n / 2 ^ 8 % 256 * 2 ^ 8 + n % 256 ≡ n
be32_value n h = omega arith

write_flv_tag-buffer :
    (t : Tag) (w : Text)
    → InRange t
    → write_flv_tag write_buffer t.type t.timestamp t.payload w ≡ (w ++ tag_bytes t, none)
unfolding write_flv_tag
write_flv_tag-buffer t w r =
    let short : length t.payload % 2 ^ 32 ≡ length t.payload = omega (arith, r.2) in
    let small : (length t.payload + 11) % 2 ^ 32 ≡ length t.payload + 11 = omega (arith, r.2) in
    let h = tag_header t.type t.timestamp (length t.payload) in
    let end = be32 (length t.payload + 11) in
    rw (short, small)
      (ap (λ v. (v, none))
        (append_assoc (w ++ h) t.payload end ∙ append_assoc w h (t.payload ++ end)))

read_payload-bytes :
    (t : Tag) (rest : Text)
    → InRange t
    → read_payload t.type t.timestamp
        (length t.payload)
        (t.payload ++ (be32 (length t.payload + 11) ++ rest))
      ≡ some (t, rest)
unfolding read_payload be32 be24
read_payload-bytes t rest r =
    let b = be32 (length t.payload + 11) ++ rest in
    rw
      (
        read_payload,
        drop-append t.payload b,
        take-append t.payload b,
        be32_value (length t.payload + 11) (omega (arith, r.2)),
        (nat_beq_iff (length t.payload + 11) (length t.payload + 11)).1 refl,
      )
      refl

read_tag-bytes :
    (t : Tag) (rest : Text) → InRange t → read_tag (tag_bytes t ++ rest) ≡ some (t, rest)
unfolding read_tag tag_header be24
read_tag-bytes t rest r =
    rw (append_assoc, be24_value (length t.payload) r.2, be32_value t.timestamp r.1)
      (read_payload-bytes t rest r)

abbrev all_bytes : List Tag → Text
all_bytes [] = []
all_bytes (t ∷ ts) = tag_bytes t ++ all_bytes ts

write_tags-buffer :
    (ts : List Tag) (w : Text)
    → All InRange ts
    → write_tags write_buffer ts w ≡ (w ++ all_bytes ts, none)
unfolding write_tags
write_tags-buffer [] w r = ap (λ v. (v, none)) (sym (append-nil w))
write_tags-buffer (t ∷ ts) w r =
    rw (write_flv_tag-buffer t w r.0, write_tags-buffer ts (w ++ tag_bytes t) r.1, append_assoc)
      refl

read_tags-bytes :
    (ts : List Tag) → All InRange ts → read_tags (length ts) (all_bytes ts) ≡ some (ts, [])
unfolding read_tags
read_tags-bytes [] r = refl
read_tags-bytes (t ∷ ts) r =
    rw (read_tags, read_tag-bytes t (all_bytes ts) r.0, read_tags-bytes ts r.1) refl

-- A stream of tags with a type of one byte, a timestamp of 32 bits and a payload below 2 ^ 24 bytes,
-- written to a buffer, is written without an error, and the demuxer reads the same tags in the same
-- order back, with nothing left over.
pub write_stream-read :
    (ts : List Tag)
    → All InRange ts
    → let (s, e) = write_stream write_buffer ts [] in
      (e ≡ none) × (read_stream (length ts) s ≡ some (ts, []))
unfolding write_stream write_flv_header read_stream text_beq
write_stream-read ts r = rw (write_tags-buffer ts flv_header r) (refl, read_tags-bytes ts r)
