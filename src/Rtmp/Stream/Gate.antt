-- ===== src/Rtmp/Stream/Gate.antt =====
-- Which tags reach the relay: a reference that classifies the messages, and that the loop writes the
-- tags of the reference.
use irl_universal_ingest.Prelude.{
  ℕ, ◌≡◌, refl, Bool, true, false, ◌||◌, ◌&&◌, not, List, [], ◌∷◌, ◌++◌, some, nat_eq, ◌==◌,
  if◌then◌else◌, Text, length, arith, All,
}
use irl_universal_ingest.Go.Clock.{Time}
use irl_universal_ingest.Rtmp.Flv.{
  Codes, Marshalled, Encoded, body, err, tag_type_audio, tag_type_video, tag_type_script,
  write_flv_tag, write_flv_header, encode_video_to_flv, encode_video_ex_sequence_start,
  encode_video_ex_coded_frames, encode_audio_to_flv, encode_audio_ex_sequence_start,
  encode_audio_ex_coded_frames, encode_data_amf0_to_flv,
}
use irl_universal_ingest.Rtmp.Flv.Tags.{
  Tag, InRange, write_tags, write_stream, write_buffer, read_stream, write_stream-read,
}
use irl_universal_ingest.Rtmp.Stream.{
  Meter, Message, video, video_ex_sequence_start, video_ex_coded_frames, audio,
  audio_ex_sequence_start, audio_ex_coded_frames, data_amf0, other, Read, got, State, flush_if_due,
  relay_tag, on_message, loop, always, after_key, stream_to_relay, finish,
}

abbrev pub tag_of_encoded : {E : Type 0} → ℕ → Encoded E → List Tag
tag_of_encoded type (err e) = []
tag_of_encoded type (body payload ts) =
    record { type = type; timestamp = ts; payload = payload } ∷ []

abbrev pub is_body : {E : Type 0} → Encoded E → Bool
is_body (err e) = false
is_body (body payload ts) = true

module _ {B E : Type 0} (k : Codes) (marshal : B → Marshalled E) where
  -- The tag of a message, if it can be encoded.
  unfoldable pub tags_of : Message B → List Tag
  tags_of (video m) = tag_of_encoded tag_type_video (encode_video_to_flv k marshal m)
  tags_of (video_ex_sequence_start m) =
      tag_of_encoded tag_type_video (encode_video_ex_sequence_start k marshal m)
  tags_of (video_ex_coded_frames m) =
      tag_of_encoded tag_type_video (encode_video_ex_coded_frames k marshal m)
  tags_of (audio m) = tag_of_encoded tag_type_audio (encode_audio_to_flv k marshal m)
  tags_of (audio_ex_sequence_start m) =
      tag_of_encoded tag_type_audio (encode_audio_ex_sequence_start k marshal m)
  tags_of (audio_ex_coded_frames m) =
      tag_of_encoded tag_type_audio (encode_audio_ex_coded_frames k marshal m)
  tags_of (data_amf0 b) = tag_of_encoded tag_type_script (encode_data_amf0_to_flv k marshal b)
  tags_of other = []

  -- A message that has to wait: a legacy video frame, enhanced coded video or audio, and legacy audio
  -- whose AAC type is not that of a configuration. The code compares the AAC type whatever the codec,
  -- so that audio of another codec whose AAC type has the value of the configuration does not wait.
  pub waits : Message B → Bool
  waits (video m) = m.type == k.video_type_au
  waits (video_ex_coded_frames m) = true
  waits (audio m) = not (m.aac_type == k.aac_type_config)
  waits (audio_ex_coded_frames m) = true
  waits _ = false

  -- A message that ends the wait: a legacy key frame that can be encoded, or any enhanced coded video
  -- frame, key frame or not, whether or not it can be encoded.
  pub ends_wait : Message B → Bool
  ends_wait (video m) =
      m.type == k.video_type_au && m.is_key_frame && is_body (encode_video_to_flv k marshal m)
  ends_wait (video_ex_coded_frames m) = true
  ends_wait _ = false

  -- The tags that pass: all of them, but those of the messages that have to wait and come before the
  -- first one that ends the wait.
  unfoldable pub passed : Bool → List (Message B) → List Tag
  unfolding tags_of waits ends_wait
  passed seen [] = []
  passed seen (m ∷ ms) =
      let now_seen = seen || ends_wait m in
      (if waits m && not now_seen then [] else tags_of m) ++ passed now_seen ms

abbrev pub reads : {B : Type 0} → List (Time × Message B) → List (Read B)
reads [] = []
reads ((now, m) ∷ ms) = got now m ∷ reads ms

abbrev pub messages : {B : Type 0} → List (Time × Message B) → List (Message B)
messages [] = []
messages ((now, m) ∷ ms) = m ∷ messages ms

write_none : (w : Text) → (write_tags write_buffer [] w).0 ≡ w
unfolding write_tags
write_none w = refl

write_tags-append :
    (ts us : List Tag) (w : Text)
    → (write_tags write_buffer (ts ++ us) w).0
      ≡ (write_tags write_buffer us (write_tags write_buffer ts w).0).0
unfolding write_tags write_flv_tag
write_tags-append [] us w = refl
write_tags-append (t ∷ ts) us w =
    write_tags-append ts us (write_flv_tag write_buffer t.type t.timestamp t.payload w).0

opened :
    (ts : List Tag)
    → All InRange ts
    → read_stream (length ts) (write_tags write_buffer ts (write_flv_header write_buffer []).0).0
      ≡ some (ts, [])
unfolding write_stream write_flv_header
opened ts fits = (write_stream-read ts fits).1

module _ {B E M : Type 0} (k : Codes) (marshal : B → Marshalled E) where
  relay_tag-passed :
      (type : ℕ) (enc : Encoded E) (gate : Bool → Bool × Bool) (s : State Text M)
      → let (t, goes_on) = relay_tag write_buffer k marshal type enc gate s in
        let (passes, seen) = gate s.has_received_key_frame in
        (goes_on ≡ true)
        × (t.has_received_key_frame ≡ (if is_body enc then seen else s.has_received_key_frame))
        × (t.sink
            ≡ (write_tags write_buffer (if passes then tag_of_encoded type enc else []) s.sink).0)
  unfolding relay_tag write_tags write_flv_tag
  relay_tag-passed type (err e) gate s = (refl, refl, ground arith)
  relay_tag-passed type (body payload ts) gate s = (ground arith, ground arith, ground arith)

  -- What one message writes, and the gate after it.
  on_message-passed :
      (m : Message B) (s : State Text M)
      → let (t, goes_on) = on_message write_buffer k marshal m s in
        let seen = s.has_received_key_frame in
        (goes_on ≡ true)
        × (t.has_received_key_frame ≡ (seen || ends_wait k marshal m))
        × (t.sink
            ≡ (write_tags write_buffer
                (if waits k marshal m && not (seen || ends_wait k marshal m)
                  then []
                  else tags_of k marshal m)
                s.sink).0)
  unfolding on_message tags_of waits ends_wait
  on_message-passed (video m) s = ground (
    arith,
    relay_tag-passed tag_type_video (encode_video_to_flv k marshal m)
        (λ seen.
          if m.type == k.video_type_au
          then (seen || m.is_key_frame, seen || m.is_key_frame)
          else (true, seen))
        s,
  )
  on_message-passed (video_ex_sequence_start m) s =
      ground (
        arith,
        relay_tag-passed tag_type_video (encode_video_ex_sequence_start k marshal m) always s,
      )
  on_message-passed (video_ex_coded_frames m) s = ground (
    arith,
    relay_tag-passed tag_type_video (encode_video_ex_coded_frames k marshal m) always
        (record s { has_received_key_frame = true }),
  )
  on_message-passed (audio m) s = ground (
    arith,
    relay_tag-passed tag_type_audio (encode_audio_to_flv k marshal m)
        (λ seen. (seen || m.aac_type == k.aac_type_config, seen)) s,
  )
  on_message-passed (audio_ex_sequence_start m) s =
      ground (
        arith,
        relay_tag-passed tag_type_audio (encode_audio_ex_sequence_start k marshal m) always s,
      )
  on_message-passed (audio_ex_coded_frames m) s = ground (
    arith,
    relay_tag-passed tag_type_audio (encode_audio_ex_coded_frames k marshal m) after_key s,
  )
  on_message-passed (data_amf0 b) s =
      ground
        (arith, relay_tag-passed tag_type_script (encode_data_amf0_to_flv k marshal b) always s)
  on_message-passed other s = ground (arith, write_none s.sink)

  flush-sink :
      (meter : Meter M) (now : Time) (s : State Text M)
      → ((flush_if_due meter now s).sink ≡ s.sink)
        × ((flush_if_due meter now s).has_received_key_frame ≡ s.has_received_key_frame)
  unfolding flush_if_due
  flush-sink meter now s = ground arith

  pub loop_got :
      (meter : Meter M) (now : Time) (m : Message B) (rs : List (Read B)) (s : State Text M)
      → loop write_buffer k marshal meter (got now m ∷ rs) s
        ≡ loop write_buffer k marshal meter rs
            (on_message write_buffer k marshal m (flush_if_due meter now s)).0
  unfolding loop
  loop_got meter now m rs s = rw (loop, (on_message-passed m (flush_if_due meter now s)).0) refl

  pub loop_nil : (meter : Meter M) (s : State Text M) → loop write_buffer k marshal meter [] s ≡ s
  unfolding loop
  loop_nil meter s = refl

  loop-passed :
      (meter : Meter M) (ms : List (Time × Message B)) (s : State Text M)
      → (loop write_buffer k marshal meter (reads ms) s).sink
        ≡ (write_tags write_buffer
            (passed k marshal s.has_received_key_frame (messages ms))
            s.sink).0
  unfolding passed
  loop-passed meter [] s = rw (loop_nil meter s, write_none s.sink) refl
  loop-passed meter ((now, m) ∷ ms) s =
      let f = flush_if_due meter now s in
      let t = (on_message write_buffer k marshal m f).0 in
      let (_, seen, sink) = on_message-passed m f in
      let (same_sink, same_seen) = flush-sink meter now s in
      rw
        (
          loop_got meter now m (reads ms) s,
          loop-passed meter ms t,
          seen,
          sink,
          same_sink,
          same_seen,
          write_tags-append,
        )
        refl

  stream-sink :
      (meter : Meter M) (ms : List (Time × Message B)) (m : M) (w : Text) (start end : Time)
      → (stream_to_relay write_buffer k marshal meter start (reads ms) w m end).sink
        ≡ (write_tags write_buffer (passed k marshal false (messages ms)) w).0
  unfolding stream_to_relay finish
  stream-sink meter ms m w start end = loop-passed meter ms (record {
    sink = w;
    meter = m;
    has_received_key_frame = false;
    pending_bytes = 0;
    last_flush = start;
  })

  -- After the header, the loop writes to a pipe that takes every write. If the tags of the messages
  -- that pass fit the format, then a demuxer reads these tags from the pipe, in order and with
  -- nothing left over: those of all the messages that can be encoded, less the messages that have to
  -- wait and come before the end of the wait. Legacy video of type AU, enhanced coded frames and audio
  -- whose AAC type is not that of a configuration have to wait; the wait ends with the first legacy
  -- key frame that can be encoded or the first enhanced coded video frame, key frame or not.
  pub stream_to_relay-read :
      (meter : Meter M) (ms : List (Time × Message B)) (m : M) (start end : Time)
      → All InRange (passed k marshal false (messages ms))
      → let tags = passed k marshal false (messages ms) in
        let header = (write_flv_header write_buffer []).0 in
        read_stream
          (length tags)
          (stream_to_relay write_buffer k marshal meter start (reads ms) header m end).sink
        ≡ some (tags, [])
  stream_to_relay-read meter ms m start end fits =
      rw (stream-sink meter ms m (write_flv_header write_buffer []).0 start end)
        (opened (passed k marshal false (messages ms)) fits)
