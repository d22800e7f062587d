-- ===== src/Rtmp/Stream.antt =====
-- internal/ingest/rtmp/server.go: streamToRelay, which turns messages into FLV tags. The pipe is a
-- writer with a state W. The manager is behind an interface M, since the loop only counts bytes and
-- reports activity; a clock reading is part of what is read.
pub mod Gate
pub mod Bytes
pub mod Keeps
mod Tests
use irl_universal_ingest.Prelude.{
  ℕ, ◌+◌, ◌^◌, ◌%◌, Bool, true, false, ◌||◌, not, List, [], ◌∷◌, Option, none, some, ltb, nat_eq,
  ◌==◌, if◌then◌else◌, Text, length,
}
use irl_universal_ingest.Go.Clock.{Time, since}
use irl_universal_ingest.Backoff.{second}
use irl_universal_ingest.Rtmp.Flv.{
  Codes, Marshalled, Encoded, body, err, Video, VideoExSequenceStart, VideoExCodedFrames, Audio,
  AudioExSequenceStart, AudioExCodedFrames, tag_type_audio, tag_type_video, tag_type_script,
  write_flv_tag, encode_video_to_flv, encode_video_ex_sequence_start, encode_video_ex_coded_frames,
  encode_audio_to_flv, encode_audio_ex_sequence_start, encode_audio_ex_coded_frames,
  encode_data_amf0_to_flv,
}

-- What the loop calls of the manager.
pub record Meter (M : Type 0) : Type 0 where
  pub add_bytes : Time → ℕ → M → M
  pub touch : Time → M → M

-- The messages of gortmplib that the switch names, and any other.
pub data Message (B : Type 0) : Type 0 where
  video : Video B → Message B
  video_ex_sequence_start : VideoExSequenceStart B → Message B
  video_ex_coded_frames : VideoExCodedFrames → Message B
  audio : Audio B → Message B
  audio_ex_sequence_start : AudioExSequenceStart B → Message B
  audio_ex_coded_frames : AudioExCodedFrames → Message B
  data_amf0 : B → Message B
  other : Message B

-- A round of the loop: the context is done, the read fails, or it gives a message at a time.
pub data Read (B : Type 0) : Type 0 where
  done : Read B
  failed : Read B
  got : Time → Message B → Read B

pub record State (W M : Type 0) : Type 0 where
  pub sink : W
  pub meter : M
  pub has_received_key_frame : Bool
  pub pending_bytes : ℕ
  pub last_flush : Time

-- The gates on the first key frame: whether a message passes, and whether the key frame is seen.
abbrev pub always : Bool → Bool × Bool
always seen = (true, seen)

abbrev pub after_key : Bool → Bool × Bool
after_key seen = (seen, seen)

abbrev pub flush_pending : {M : Type 0} → Meter M → Time → ℕ → M → M
flush_pending meter now n m = if ltb 0 n then meter.add_bytes now n m else m

module _ {W M : Type 0} (meter : Meter M) where
  unfoldable pub flush_if_due : Time → State W M → State W M
  flush_if_due now s = if ltb (since now s.last_flush) second then s else record s {
    meter = meter.touch now (flush_pending meter now s.pending_bytes s.meter);
    pending_bytes = 0;
    last_flush = now;
  }

  -- The deferred AddBytes.
  unfoldable pub finish : Time → State W M → State W M
  finish now s = record s { meter = flush_pending meter now s.pending_bytes s.meter }

module _ {W B E X M : Type 0} (write : Text → W → W × Option X) (k : Codes)
    (marshal : B → Marshalled E) where
  -- A tag is written: whether the loop goes on.
  unfoldable pub write_tag : ℕ → ℕ → Text → State W M → State W M × Bool
  write_tag tag_type ts payload s =
      let (w, failure) = write_flv_tag write tag_type ts payload s.sink in
      (record s { sink = w }, elim failure [ none ↦ true | some _ ↦ false ])

  -- A message is encoded and counted; an error of the encoder skips it. `passes` is the gate on the
  -- first key frame.
  unfoldable pub relay_tag : ℕ → Encoded E → (Bool → Bool × Bool) → State W M → State W M × Bool
  unfolding write_tag
  relay_tag tag_type (err e) gate s = (s, true)
  relay_tag tag_type (body payload ts) gate s =
      let (passes, seen) = gate s.has_received_key_frame in
      let counted = record s {
        pending_bytes = (s.pending_bytes + length payload) % 2 ^ 64;
        has_received_key_frame = seen;
      } in
      if passes then write_tag tag_type ts payload counted else (counted, true)

  unfoldable pub on_message : Message B → State W M → State W M × Bool
  unfolding relay_tag
  on_message (video m) s =
      relay_tag tag_type_video (encode_video_to_flv k marshal m)
        (λ seen.
          if m.type == k.video_type_au
          then (seen || m.is_key_frame, seen || m.is_key_frame)
          else (true, seen))
        s
  on_message (video_ex_sequence_start m) s =
      relay_tag tag_type_video (encode_video_ex_sequence_start k marshal m) always s
  on_message (video_ex_coded_frames m) s =
      relay_tag tag_type_video (encode_video_ex_coded_frames k marshal m) always
        (record s { has_received_key_frame = true })
  on_message (audio m) s =
      relay_tag tag_type_audio (encode_audio_to_flv k marshal m)
        (λ seen. (seen || m.aac_type == k.aac_type_config, seen)) s
  on_message (audio_ex_sequence_start m) s =
      relay_tag tag_type_audio (encode_audio_ex_sequence_start k marshal m) always s
  on_message (audio_ex_coded_frames m) s =
      relay_tag tag_type_audio (encode_audio_ex_coded_frames k marshal m) after_key s
  on_message (data_amf0 payload) s =
      relay_tag tag_type_script (encode_data_amf0_to_flv k marshal payload) always s
  on_message other s = (s, true)

  module _ (meter : Meter M) where
    unfoldable pub loop : List (Read B) → State W M → State W M
    unfolding on_message flush_if_due
    loop [] s = s
    loop (done ∷ rs) s = s
    loop (failed ∷ rs) s = s
    loop (got now m ∷ rs) s =
        let (s', goes_on) = on_message m (flush_if_due meter now s) in
        if goes_on then loop rs s' else s'

    unfoldable pub stream_to_relay : Time → List (Read B) → W → M → Time → State W M
    unfolding loop finish
    stream_to_relay start rs w m end = finish meter end (
        loop rs (record {
          sink = w;
          meter = m;
          has_received_key_frame = false;
          pending_bytes = 0;
          last_flush = start;
        }))
