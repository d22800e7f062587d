-- ===== src/Rtmp/Flv/Messages.antt =====
-- The bodies of the standard messages, read back by the FLV format.
use irl_universal_ingest.Prelude.{
  ℕ, ◌+◌, ◌*◌, ◌/◌, ◌%◌, ◌<◌, ◌^◌, ◌≡◌, refl, Bool, true, false, ◌&&◌, [], ◌∷◌, ◌++◌, bit_or,
  Option, none, some, ◌==◌, nat_eq, nat_beq, if◌then◌else◌, Text, arith, inl, inr, Bool-cases,
  all_below, all_below_sound,
}
use irl_universal_ingest.Rtmp.Flv.{
  Codes, Marshalled, bytes, body, to_ms, be24, Video, Audio, video_data, encode_video_to_flv,
  audio_data, audio_flags, encode_audio_to_flv,
}

-- The fields of a video body: frame type and codec share the first byte.
pub record VideoBody : Type 0 where
  pub is_key_frame : Bool
  pub codec : ℕ
  pub packet_type : ℕ
  pub composition_ms : ℕ
  pub content : Text

pub read_video : Text → Option VideoBody
read_video (b ∷ t ∷ c2 ∷ c1 ∷ c0 ∷ rest) = some (record {
  is_key_frame = b / 16 == 1;
  codec = b % 16;
  packet_type = t;
  composition_ms = c2 * 2 ^ 16 + c1 * 2 ^ 8 + c0;
  content = rest;
})
read_video _ = none

pub record AudioBody : Type 0 where
  pub codec : ℕ
  pub rate : ℕ
  pub depth : ℕ
  pub is_stereo : Bool
  pub packet_type : Option ℕ
  pub content : Text

-- A body of the codec `aac` has a packet type.
pub read_audio : ℕ → Text → Option AudioBody
read_audio aac (b ∷ rest) =
    let make : Option ℕ → Text → AudioBody = λ t d. record {
      codec = b / 16;
      rate = b / 4 % 4;
      depth = b / 2 % 2;
      is_stereo = b % 2 == 1;
      packet_type = t;
      content = d;
    } in
    if b / 16 == aac
    then elim rest [ [] ↦ none | t ∷ d ↦ some (make (some t) d) ]
    else some (make none rest)
read_audio aac [] = none

-- bit_or on disjoint bits is a sum.
abbrev video_ok : ℕ → Bool
video_ok c = bit_or 16 c == 16 + c && bit_or 32 c == 32 + c

video_byte :
    (key : Bool) (c : ℕ)
    → c < 16
    → let b = bit_or (if key then 16 else 32) c in (nat_beq (b / 16) 1 ≡ key) × (b % 16 ≡ c)
unfolding all_below
video_byte true c h = ground (arith, all_below_sound 16 video_ok c refl h)
video_byte false c h = ground (arith, all_below_sound 16 video_ok c refl h)

be24_low : (n : ℕ) → n / 2 ^ 16 % 256 * 2 ^ 16 + n / 2 ^ 8 % 256 * 2 ^ 8 + n % 256 ≡ n % 2 ^ 24
be24_low n = omega arith

abbrev joined : ℕ → ℕ → ℕ → ℕ
joined c r d = bit_or (bit_or (c * 16 % 256) (r * 4 % 256)) (d * 2 % 256)

abbrev audio_ok : ℕ → ℕ → ℕ → Bool
audio_ok c r d =
    joined c r d == c * 16 + r * 4 + d * 2 && bit_or (joined c r d) 1 == c * 16 + r * 4 + d * 2 + 1

joined_sum :
    (c r d : ℕ)
    → c < 16
    → r < 4
    → d < 2
    → (joined c r d ≡ c * 16 + r * 4 + d * 2)
      × (bit_or (joined c r d) 1 ≡ c * 16 + r * 4 + d * 2 + 1)
unfolding all_below
joined_sum c r d hc hr hd =
    let rows = all_below_sound 16 (λ x. all_below 4 (λ y. all_below 2 (audio_ok x y))) c refl hc in
    let row = all_below_sound 4 (λ y. all_below 2 (audio_ok c y)) r rows hr in
    let cell = all_below_sound 2 (audio_ok c r) d row hd in ground arith

module _ {B E : Type 0} (k : Codes) (marshal : B → Marshalled E) where
  -- Whatever bytes are chosen for a video message, its body gives back the key frame flag, the codec,
  -- the type, the low 24 bits of the composition time in milliseconds and those bytes; the codec is a
  -- number of four bits. The body carries the decoding time as its timestamp.
  pub encode_video_to_flv-read :
      (v : Video B) (d : Text)
      → v.codec < 16
      → video_data k marshal v ≡ bytes d
      → (s : Text) × (encode_video_to_flv k marshal v ≡ body s (to_ms v.dts))
        × (read_video s
            ≡ some (record {
              is_key_frame = v.is_key_frame;
              codec = v.codec;
              packet_type = v.type;
              composition_ms = to_ms v.pts_delta % 2 ^ 24;
              content = d;
            }))
  unfolding encode_video_to_flv read_video be24
  encode_video_to_flv-read v d h e =
      let (key, low) = video_byte v.is_key_frame v.codec h in
      let first = bit_or (if v.is_key_frame then 16 else 32) v.codec in
      (
        first ∷ v.type ∷ (be24 (to_ms v.pts_delta) ++ d),
        rw e refl,
        rw (key, low, be24_low (to_ms v.pts_delta)) refl,
      )

  audio_byte :
      (a : Audio B)
      → a.codec < 16
      → a.rate < 4
      → a.depth < 2
      → let b = audio_flags k marshal a in
        (b / 16 ≡ a.codec)
        × (b / 4 % 4 ≡ a.rate)
        × (b / 2 % 2 ≡ a.depth)
        × (nat_beq (b % 2) 1 ≡ a.is_stereo)
  unfolding audio_flags
  audio_byte a hc hr hd =
      let (plain, stereo) = joined_sum a.codec a.rate a.depth hc hr hd in ground arith

  -- Whatever bytes are chosen for an audio message, its body gives back the codec, the rate, the depth
  -- and the channels, the AAC packet type if the codec is AAC, and those bytes; codec, rate and depth
  -- are numbers of four, two and one bits. The body carries the decoding time as its timestamp.
  pub encode_audio_to_flv-read :
      (a : Audio B) (d : Text)
      → a.codec < 16
      → a.rate < 4
      → a.depth < 2
      → audio_data k marshal a ≡ bytes d
      → (s : Text) × (encode_audio_to_flv k marshal a ≡ body s (to_ms a.dts))
        × (read_audio k.mpeg4_audio s
            ≡ some (record {
              codec = a.codec;
              rate = a.rate;
              depth = a.depth;
              is_stereo = a.is_stereo;
              packet_type = if a.codec == k.mpeg4_audio then some a.aac_type else none;
              content = d;
            }))
  unfolding encode_audio_to_flv read_audio
  encode_audio_to_flv-read a d hc hr hd e =
      let (codec, rate, depth, stereo) = audio_byte a hc hr hd in
      let b = audio_flags k marshal a in
      elim (Bool-cases (a.codec == k.mpeg4_audio)) [
        | inl aac ↦
            (b ∷ a.aac_type ∷ d, rw (e, aac) refl, rw (codec, rate, depth, stereo, aac) refl)
        | inr other ↦ (b ∷ d, rw (e, other) refl, rw (codec, rate, depth, stereo, other) refl)
      ]
