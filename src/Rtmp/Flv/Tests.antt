-- ===== src/Rtmp/Flv/Tests.antt =====
-- Tags and messages of a short stream.
use irl_universal_ingest.Prelude.{
  ℕ, ◌≡◌, ◌%◌, ◌^◌, refl, arith, true, List, [], ◌∷◌, none, some, pos, Text, All, ◌==◌, nat_eq,
  if◌then◌else◌,
}
use irl_universal_ingest.Rtmp.Numbers.{numbers}
use irl_universal_ingest.Rtmp.Flv.{
  Marshalled, bytes, body, to_ms, Video, Audio, tag_type_video, tag_type_audio, video_data,
  audio_data, encode_video_to_flv, encode_audio_to_flv,
}
use irl_universal_ingest.Rtmp.Flv.Tags.{
  Tag, InRange, write_stream, write_buffer, read_stream, write_stream-read,
}
use irl_universal_ingest.Rtmp.Flv.Messages.{
  read_video, read_audio, encode_video_to_flv-read, encode_audio_to_flv-read,
}

abbrev picture : Tag
picture = record { type = tag_type_video; timestamp = 33; payload = 0x17 ∷ 1 ∷ 0 ∷ 0 ∷ 0 ∷ [] }

abbrev sound : Tag
sound = record { type = tag_type_audio; timestamp = 16_777_216; payload = 0xaf ∷ 1 ∷ [] }

abbrev clip : List Tag
clip = picture ∷ sound ∷ []

clip-InRange : All InRange clip
clip-InRange =
    ((omega arith, omega arith, omega arith), ((omega arith, omega arith, omega arith), tt))

write_stream-read_example :
    let (s, e) = write_stream write_buffer clip [] in
    (e ≡ none) × (read_stream 2 s ≡ some (clip, []))
write_stream-read_example = write_stream-read clip clip-InRange

abbrev same : Text → Marshalled ℕ
same b = bytes b

abbrev frame : Video Text
frame = record {
  codec = 7;
  is_key_frame = true;
  type = 1;
  dts = pos 40_000_000;
  pts_delta = pos 80_000_000;
  au = 0x65 ∷ 0x88 ∷ [];
  avc_config = none;
  hevc_config = none;
}

frame_data : video_data numbers same frame ≡ bytes (0x65 ∷ 0x88 ∷ [])
unfolding video_data
frame_data = refl

encode_video_to_flv-read_example :
    (s : Text) × (encode_video_to_flv numbers same frame ≡ body s (to_ms (pos 40_000_000)))
    × (read_video s
        ≡ some (record {
          is_key_frame = true;
          codec = 7;
          packet_type = 1;
          composition_ms = to_ms (pos 80_000_000) % 2 ^ 24;
          content = 0x65 ∷ 0x88 ∷ [];
        }))
encode_video_to_flv-read_example =
    encode_video_to_flv-read numbers same frame (0x65 ∷ 0x88 ∷ []) (omega arith) frame_data

abbrev aac : Audio Text
aac = record {
  codec = 10;
  rate = 3;
  depth = 1;
  is_stereo = true;
  aac_type = 1;
  dts = pos 40_000_000;
  au = 0x21 ∷ [];
  aac_config = none;
}

aac_data : audio_data numbers same aac ≡ bytes (0x21 ∷ [])
unfolding audio_data
aac_data = refl

encode_audio_to_flv-read_example :
    (s : Text) × (encode_audio_to_flv numbers same aac ≡ body s (to_ms (pos 40_000_000)))
    × (read_audio 10 s
        ≡ some (record {
          codec = 10;
          rate = 3;
          depth = 1;
          is_stereo = true;
          packet_type = if aac.codec == numbers.mpeg4_audio then some aac.aac_type else none;
          content = 0x21 ∷ [];
        }))
encode_audio_to_flv-read_example =
    encode_audio_to_flv-read numbers same aac (0x21 ∷ []) (omega arith) (omega arith) (omega arith)
      aac_data
