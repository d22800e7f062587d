-- ===== src/Rtmp/Stream/Bytes.antt =====
-- That the loop reports every encoded byte to the manager, by the flushes and the deferred one.
use irl_universal_ingest.Prelude.{
  ℕ, ◌+◌, ◌^◌, ◌<◌, ◌≡◌, refl, Bool, true, false, List, [], ◌∷◌, Text, length, arith, nat_eq,
}
use irl_universal_ingest.Go.Clock.{Time}
use irl_universal_ingest.Rtmp.Flv.{
  Codes, Marshalled, Encoded, body, err, encode_video_to_flv, encode_video_ex_sequence_start,
  encode_video_ex_coded_frames, encode_audio_to_flv, encode_audio_ex_sequence_start,
  encode_audio_ex_coded_frames, encode_data_amf0_to_flv, tag_type_audio, tag_type_video,
  tag_type_script,
}
use irl_universal_ingest.Rtmp.Flv.Tags.{Tag, write_buffer}
use irl_universal_ingest.Rtmp.Stream.{
  Meter, Message, video, video_ex_sequence_start, video_ex_coded_frames, audio,
  audio_ex_sequence_start, audio_ex_coded_frames, data_amf0, other, State, flush_if_due, relay_tag,
  on_message, loop, stream_to_relay, finish,
}
use irl_universal_ingest.Rtmp.Stream.Gate.{
  reads, messages, tags_of, tag_of_encoded, loop_nil, loop_got,
}

-- A manager that only counts the bytes.
abbrev pub counter : Meter ℕ
counter = record { add_bytes = λ now n total. total + n; touch = λ now total. total }

abbrev pub size : List Tag → ℕ
size [] = 0
size (t ∷ ts) = length t.payload + size ts

module _ {B E : Type 0} (k : Codes) (marshal : B → Marshalled E) where
  -- The bytes of the messages that can be encoded, those that wait for a key frame with them.
  unfoldable pub encoded_bytes : List (Message B) → ℕ
  encoded_bytes [] = 0
  encoded_bytes (m ∷ ms) = size (tags_of k marshal m) + encoded_bytes ms

  relay_tag-pending :
      (type : ℕ) (enc : Encoded E) (gate : Bool → Bool × Bool) (s : State Text ℕ)
      → s.pending_bytes + size (tag_of_encoded type enc) < 2 ^ 64
      → let t = (relay_tag write_buffer k marshal type enc gate s).0 in
        (t.pending_bytes ≡ s.pending_bytes + size (tag_of_encoded type enc)) × (t.meter ≡ s.meter)
  unfolding relay_tag
  relay_tag-pending type (err e) gate s fits = (ground arith, refl)
  relay_tag-pending type (body payload ts) gate s fits = (ground arith, ground arith)

  on_message-pending :
      (m : Message B) (s : State Text ℕ)
      → s.pending_bytes + size (tags_of k marshal m) < 2 ^ 64
      → let t = (on_message write_buffer k marshal m s).0 in
        (t.pending_bytes ≡ s.pending_bytes + size (tags_of k marshal m)) × (t.meter ≡ s.meter)
  unfolding on_message tags_of
  on_message-pending (video m) s fits =
      relay_tag-pending tag_type_video (encode_video_to_flv k marshal m) _ s fits
  on_message-pending (video_ex_sequence_start m) s fits =
      relay_tag-pending tag_type_video (encode_video_ex_sequence_start k marshal m) _ s fits
  on_message-pending (video_ex_coded_frames m) s fits =
      relay_tag-pending tag_type_video (encode_video_ex_coded_frames k marshal m) _
        (record s { has_received_key_frame = true }) fits
  on_message-pending (audio m) s fits =
      relay_tag-pending tag_type_audio (encode_audio_to_flv k marshal m) _ s fits
  on_message-pending (audio_ex_sequence_start m) s fits =
      relay_tag-pending tag_type_audio (encode_audio_ex_sequence_start k marshal m) _ s fits
  on_message-pending (audio_ex_coded_frames m) s fits =
      relay_tag-pending tag_type_audio (encode_audio_ex_coded_frames k marshal m) _ s fits
  on_message-pending (data_amf0 b) s fits =
      relay_tag-pending tag_type_script (encode_data_amf0_to_flv k marshal b) _ s fits
  on_message-pending other s fits = (omega arith, refl)

  flush-total :
      (now : Time) (s : State Text ℕ)
      → let t = flush_if_due counter now s in
        (t.meter + t.pending_bytes ≡ s.meter + s.pending_bytes)
  unfolding flush_if_due
  flush-total now s = ground arith

  finish-total :
      (now : Time) (s : State Text ℕ) → (finish counter now s).meter ≡ s.meter + s.pending_bytes
  unfolding finish
  finish-total now s = ground arith

  loop-total :
      (ms : List (Time × Message B)) (s : State Text ℕ)
      → s.meter + s.pending_bytes + encoded_bytes (messages ms) < 2 ^ 64
      → let t = loop write_buffer k marshal counter (reads ms) s in
        t.meter + t.pending_bytes ≡ s.meter + s.pending_bytes + encoded_bytes (messages ms)
  unfolding encoded_bytes
  loop-total [] s fits = rw (loop_nil k marshal counter s) (omega arith)
  loop-total ((now, m) ∷ ms) s fits =
      let f = flush_if_due counter now s in
      let t = (on_message write_buffer k marshal m f).0 in
      let kept = flush-total now s in
      let (pending, meter) = on_message-pending m f (omega arith) in
      rw (loop_got k marshal counter now m (reads ms) s, loop-total ms t (omega arith))
        (omega arith)

  -- When the loop has read its messages and returned, the manager's count has grown by exactly the
  -- bytes of the messages that can be encoded, those of the frames that were not written with them,
  -- if the count stays below 2 ^ 64.
  pub stream_to_relay-counts :
      (ms : List (Time × Message B)) (total : ℕ) (w : Text) (start end : Time)
      → total + encoded_bytes (messages ms) < 2 ^ 64
      → (stream_to_relay write_buffer k marshal counter start (reads ms) w total end).meter
        ≡ total + encoded_bytes (messages ms)
  unfolding stream_to_relay
  stream_to_relay-counts ms total w start end fits =
      let s : State Text ℕ = record {
        sink = w;
        meter = total;
        has_received_key_frame = false;
        pending_bytes = 0;
        last_flush = start;
      } in
      rw
        (
          finish-total end (loop write_buffer k marshal counter (reads ms) s),
          loop-total ms s (omega arith),
        )
        (omega arith)
