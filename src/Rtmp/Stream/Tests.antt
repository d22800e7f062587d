-- ===== src/Rtmp/Stream/Tests.antt =====
-- The loop on a short stream: the frames before the key frame are not written.
use irl_universal_ingest.Prelude.{
  ℕ, ◌+◌, ◌*◌, ◌<◌, ◌^◌, ◌≡◌, refl, arith, true, false, List, [], ◌∷◌, none, some, pos, Text, All,
  length,
}
use irl_universal_ingest.Go.Clock.{Time}
use irl_universal_ingest.Backoff.{second}
use irl_universal_ingest.Rtmp.Numbers.{numbers}
use irl_universal_ingest.Rtmp.Flv.{Marshalled, bytes, Video, write_flv_header, encode_video_to_flv}
use irl_universal_ingest.Rtmp.Flv.Tags.{InRange, write_buffer, read_stream}
use irl_universal_ingest.Rtmp.Stream.{Message, video, stream_to_relay}
use irl_universal_ingest.Rtmp.Stream.Gate.{passed, reads, messages, tags_of, stream_to_relay-read}
use irl_universal_ingest.Rtmp.Stream.Bytes.{counter, encoded_bytes, stream_to_relay-counts}

abbrev marshal : Text → Marshalled ℕ
marshal b = bytes b

abbrev picture : Video Text
picture = record {
  codec = 7;
  is_key_frame = true;
  type = 1;
  dts = pos 33_000_000;
  pts_delta = pos 0;
  au = 1 ∷ 2 ∷ [];
  avc_config = none;
  hevc_config = none;
}

abbrev stream : List (Time × Message Text)
stream =
    (1 * second, video (record picture { is_key_frame = false }))
    ∷ (2 * second, video picture)
    ∷ (3 * second, video (record picture { is_key_frame = false }))
    ∷ []

count : length (passed numbers marshal false (messages stream)) ≡ 2
unfolding passed encode_video_to_flv
count = refl

stream-InRange : All InRange (passed numbers marshal false (messages stream))
unfolding passed encode_video_to_flv
stream-InRange = ground arith

stream_to_relay-read_example :
    let tags = passed numbers marshal false (messages stream) in
    read_stream
      (length tags)
      (stream_to_relay write_buffer numbers marshal counter 0
        (reads stream)
        (write_flv_header write_buffer []).0
        0
        (4 * second)).sink
    ≡ some (tags, [])
stream_to_relay-read_example =
    stream_to_relay-read numbers marshal counter stream 0 0 (4 * second) stream-InRange

fits : 5 + encoded_bytes numbers marshal (messages stream) < 2 ^ 64
unfolding encoded_bytes tags_of encode_video_to_flv
fits = omega arith

stream_to_relay-counts_example :
    (stream_to_relay write_buffer numbers marshal counter 0 (reads stream) [] 5 (4 * second)).meter
    ≡ 5 + encoded_bytes numbers marshal (messages stream)
stream_to_relay-counts_example =
    stream_to_relay-counts numbers marshal stream 5 [] 0 (4 * second) fits
