-- ===== src/Rtmp/Flv.antt =====
-- internal/ingest/rtmp/flv.go: the FLV stream that the relay's ffmpeg reads on its stdin. A byte is
-- a number below 256. The messages are those of gortmplib, whose numbers for codecs and types are
-- the record `Codes`; the marshalling of a configuration is an argument.
pub mod Tags
pub mod Messages
mod Tests
use irl_universal_ingest.Prelude.{
  ℕ, ◌+◌, ◌*◌, ◌/◌, ◌%◌, ◌^◌, bit_or, Bool, true, false, ◌&&◌, ◌||◌, List, [], ◌∷◌, ◌++◌, Option,
  none, some, ℤ, quot, to_uint32, ◌==◌, nat_eq, if◌then◌else◌, Text, length,
}
use irl_universal_ingest.Go.Strings.{codes}
use irl_universal_ingest.Backoff.{millisecond}

abbrev pub tag_type_audio : ℕ
tag_type_audio = 8

abbrev pub tag_type_video : ℕ
tag_type_video = 9

abbrev pub tag_type_script : ℕ
tag_type_script = 18

abbrev pub flv_header : Text
flv_header =
    codes "FLV" ++ (0x01 ∷ 0x05 ∷ 0x00 ∷ 0x00 ∷ 0x00 ∷ 0x09 ∷ 0x00 ∷ 0x00 ∷ 0x00 ∷ 0x00 ∷ [])

-- byte(n >> 16), byte(n >> 8), byte(n).
unfoldable pub be24 : ℕ → Text
be24 n = n / 2 ^ 16 % 256 ∷ n / 2 ^ 8 % 256 ∷ n % 256 ∷ []

-- binary.BigEndian.PutUint32, which writeFourCC calls.
unfoldable pub be32 : ℕ → Text
unfolding be24
be32 n = n / 2 ^ 24 % 256 ∷ be24 n

unfoldable pub tag_header : ℕ → ℕ → ℕ → Text
unfolding be24
tag_header tag_type timestamp data_size =
    tag_type ∷ (be24 data_size ++ (be24 timestamp ++ (timestamp / 2 ^ 24 % 256 ∷ 0 ∷ 0 ∷ 0 ∷ [])))

-- if err != nil { return err }
abbrev pub and_then : {W E : Type 0} → W × Option E → (W → W × Option E) → W × Option E
and_then (w, some e) next = (w, some e)
and_then (w, none) next = next w

-- A writer is a state W with a Write that answers nil or an error.
module _ {W E : Type 0} (write : Text → W → W × Option E) where
  unfoldable pub write_flv_header : W → W × Option E
  write_flv_header w = write flv_header w

  -- dataSize is a uint32, and so is the previous tag size.
  unfoldable pub write_flv_tag : ℕ → ℕ → Text → W → W × Option E
  unfolding tag_header be32
  write_flv_tag tag_type timestamp payload w =
      let data_size = length payload % 2 ^ 32 in
      and_then (write (tag_header tag_type timestamp data_size) w)
        (λ w1. and_then (write payload w1) (λ w2. write (be32 ((data_size + 11) % 2 ^ 32)) w2))

pub record Codes : Type 0 where
  pub h264 : ℕ
  pub h265 : ℕ
  pub mpeg4_audio : ℕ
  pub video_type_config : ℕ
  pub video_type_au : ℕ
  pub video_ex_sequence_start : ℕ
  pub video_ex_coded_frames : ℕ
  pub aac_type_config : ℕ
  pub audio_ex_sequence_start : ℕ
  pub audio_ex_coded_frames : ℕ
  pub avc : ℕ
  pub hevc : ℕ
  pub av1 : ℕ
  pub vp9 : ℕ
  pub opus : ℕ
  pub flac : ℕ
  pub mp4a : ℕ

-- What a marshaller answers.
pub data Marshalled (E : Type 0) : Type 0 where
  bytes : Text → Marshalled E
  refused : E → Marshalled E

-- The body and the timestamp of a tag, or the marshaller's error.
pub data Encoded (E : Type 0) : Type 0 where
  body : Text → ℕ → Encoded E
  err : E → Encoded E

abbrev pub with_data : {E : Type 0} → Marshalled E → (Text → Encoded E) → Encoded E
with_data (refused e) make = err e
with_data (bytes d) make = make d

-- uint32(d / time.Millisecond)
abbrev pub to_ms : ℤ → ℕ
to_ms d = to_uint32 (quot d millisecond)

-- A configuration is a B; `none` is nil.
pub record Video (B : Type 0) : Type 0 where
  pub codec : ℕ
  pub is_key_frame : Bool
  pub type : ℕ
  pub dts : ℤ
  pub pts_delta : ℤ
  pub au : Text
  pub avc_config : Option B
  pub hevc_config : Option B

pub record VideoExSequenceStart (B : Type 0) : Type 0 where
  pub four_cc : ℕ
  pub av1_config : Option B
  pub vp9_config : Option B
  pub hevc_config : Option B
  pub avc_config : Option B

pub record VideoExCodedFrames : Type 0 where
  pub four_cc : ℕ
  pub dts : ℤ
  pub pts_delta : ℤ
  pub payload : Text

pub record Audio (B : Type 0) : Type 0 where
  pub codec : ℕ
  pub rate : ℕ
  pub depth : ℕ
  pub is_stereo : Bool
  pub aac_type : ℕ
  pub dts : ℤ
  pub au : Text
  pub aac_config : Option B

pub record AudioExSequenceStart (B : Type 0) : Type 0 where
  pub four_cc : ℕ
  pub opus_config : Option B
  pub flac_config : Option B
  pub aac_config : Option B

pub record AudioExCodedFrames : Type 0 where
  pub four_cc : ℕ
  pub dts : ℤ
  pub payload : Text

module _ {B E : Type 0} (k : Codes) (marshal : B → Marshalled E) where
  -- marshalMP4; the audio configurations are tested for nil by their callers.
  unfoldable pub marshal_config : Option B → Marshalled E
  marshal_config none = bytes []
  marshal_config (some b) = marshal b

  unfoldable pub video_data : Video B → Marshalled E
  unfolding marshal_config
  video_data v =
      if v.type == k.video_type_config
      then (if v.codec == k.h264
          then marshal_config v.avc_config
          else if v.codec == k.h265
          then marshal_config v.hevc_config
          else bytes [])
      else if v.type == k.video_type_au
      then bytes v.au
      else bytes []

  unfoldable pub encode_video_to_flv : Video B → Encoded E
  unfolding video_data be24
  encode_video_to_flv v = with_data (video_data v) (λ d.
      body
        (bit_or (if v.is_key_frame then 16 else 32) v.codec
          ∷ v.type
          ∷ (be24 (to_ms v.pts_delta) ++ d))
        (to_ms v.dts))

  unfoldable pub video_config : VideoExSequenceStart B → Marshalled E
  unfolding marshal_config
  video_config v =
      if v.four_cc == k.av1
      then marshal_config v.av1_config
      else if v.four_cc == k.vp9
      then marshal_config v.vp9_config
      else if v.four_cc == k.hevc
      then marshal_config v.hevc_config
      else if v.four_cc == k.avc
      then marshal_config v.avc_config
      else bytes []

  unfoldable pub encode_video_ex_sequence_start : VideoExSequenceStart B → Encoded E
  unfolding video_config be32
  encode_video_ex_sequence_start v =
      with_data (video_config v)
        (λ d. body (bit_or 128 k.video_ex_sequence_start ∷ (be32 v.four_cc ++ d)) 0)

  unfoldable pub encode_video_ex_coded_frames : VideoExCodedFrames → Encoded E
  unfolding be24 be32
  encode_video_ex_coded_frames v =
      body
        (bit_or 128 k.video_ex_coded_frames
          ∷ (be32 v.four_cc
              ++ (if v.four_cc == k.avc || v.four_cc == k.hevc
                  then be24 (to_ms v.pts_delta) ++ v.payload
                  else v.payload)))
        (to_ms v.dts)

  unfoldable pub audio_data : Audio B → Marshalled E
  unfolding marshal_config
  audio_data a =
      if a.codec == k.mpeg4_audio && a.aac_type == k.aac_type_config
      then marshal_config a.aac_config
      else bytes a.au

  -- A shift of a byte drops the bits above it.
  unfoldable pub audio_flags : Audio B → ℕ
  audio_flags a =
      let flags = bit_or (bit_or (a.codec * 16 % 256) (a.rate * 4 % 256)) (a.depth * 2 % 256) in
      if a.is_stereo then bit_or flags 1 else flags

  unfoldable pub encode_audio_to_flv : Audio B → Encoded E
  unfolding audio_data audio_flags
  encode_audio_to_flv a = with_data (audio_data a) (λ d.
      body (if a.codec == k.mpeg4_audio then audio_flags a ∷ a.aac_type ∷ d else audio_flags a ∷ d)
        (to_ms a.dts))

  unfoldable pub audio_config : AudioExSequenceStart B → Marshalled E
  unfolding marshal_config
  audio_config a =
      if a.four_cc == k.opus
      then marshal_config a.opus_config
      else if a.four_cc == k.flac
      then marshal_config a.flac_config
      else if a.four_cc == k.mp4a
      then marshal_config a.aac_config
      else bytes []

  unfoldable pub encode_audio_ex_sequence_start : AudioExSequenceStart B → Encoded E
  unfolding audio_config be32
  encode_audio_ex_sequence_start a =
      with_data (audio_config a)
        (λ d. body (bit_or 144 k.audio_ex_sequence_start ∷ (be32 a.four_cc ++ d)) 0)

  unfoldable pub encode_audio_ex_coded_frames : AudioExCodedFrames → Encoded E
  unfolding be32
  encode_audio_ex_coded_frames a =
      body (bit_or 144 k.audio_ex_coded_frames ∷ (be32 a.four_cc ++ a.payload)) (to_ms a.dts)

  -- The payload of a data message is a B.
  unfoldable pub encode_data_amf0_to_flv : B → Encoded E
  encode_data_amf0_to_flv payload = with_data (marshal payload) (λ d. body d 0)
