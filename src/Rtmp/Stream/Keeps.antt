-- ===== src/Rtmp/Stream/Keeps.antt =====
-- The loop changes the manager by its two calls only: what both of them keep, the loop keeps.
use irl_universal_ingest.Prelude.{
  ℕ, ◌≡◌, refl, Bool, true, List, [], ◌∷◌, Option, Text, ltb, Bool-cases, inl, inr, nat_eq,
}
use irl_universal_ingest.Go.Clock.{Time, since}
use irl_universal_ingest.Backoff.{second}
use irl_universal_ingest.Rtmp.Flv.{
  Codes, Marshalled, Encoded, body, err, encode_video_to_flv, encode_video_ex_sequence_start,
  encode_video_ex_coded_frames, encode_audio_to_flv, encode_audio_ex_sequence_start,
  encode_audio_ex_coded_frames, encode_data_amf0_to_flv, tag_type_audio, tag_type_video,
  tag_type_script,
}
use irl_universal_ingest.Rtmp.Stream.{
  Meter, Message, video, video_ex_sequence_start, video_ex_coded_frames, audio,
  audio_ex_sequence_start, audio_ex_coded_frames, data_amf0, other, Read, got, done, failed, State,
  flush_if_due, flush_pending, finish, write_tag, relay_tag, on_message, loop, stream_to_relay,
}

module _ {W B E X M : Type 0} (write : Text → W → W × Option X) (k : Codes)
    (marshal : B → Marshalled E) where
  relay_tag-meter :
      (type : ℕ) (enc : Encoded E) (gate : Bool → Bool × Bool) (s : State W M)
      → (relay_tag write k marshal type enc gate s).0.meter ≡ s.meter
  unfolding relay_tag write_tag
  relay_tag-meter type (err e) gate s = refl
  relay_tag-meter type (body payload ts) gate s =
      elim (Bool-cases (gate s.has_received_key_frame).0) [
        | inl e ↦ rw (relay_tag, e) refl
        | inr e ↦ rw (relay_tag, e) refl
      ]

  on_message-meter :
      (m : Message B) (s : State W M) → (on_message write k marshal m s).0.meter ≡ s.meter
  unfolding on_message
  on_message-meter (video m) s =
      relay_tag-meter tag_type_video (encode_video_to_flv k marshal m) _ s
  on_message-meter (video_ex_sequence_start m) s =
      relay_tag-meter tag_type_video (encode_video_ex_sequence_start k marshal m) _ s
  on_message-meter (video_ex_coded_frames m) s =
      relay_tag-meter tag_type_video (encode_video_ex_coded_frames k marshal m) _
        (record s { has_received_key_frame = true })
  on_message-meter (audio m) s =
      relay_tag-meter tag_type_audio (encode_audio_to_flv k marshal m) _ s
  on_message-meter (audio_ex_sequence_start m) s =
      relay_tag-meter tag_type_audio (encode_audio_ex_sequence_start k marshal m) _ s
  on_message-meter (audio_ex_coded_frames m) s =
      relay_tag-meter tag_type_audio (encode_audio_ex_coded_frames k marshal m) _ s
  on_message-meter (data_amf0 b) s =
      relay_tag-meter tag_type_script (encode_data_amf0_to_flv k marshal b) _ s
  on_message-meter other s = refl

  module _ (meter : Meter M) (P : M → Type 0)
      (adds : (now : Time) (n : ℕ) (m : M) → P m → P (meter.add_bytes now n m))
      (touches : (now : Time) (m : M) → P m → P (meter.touch now m)) where
    flush_pending-keeps : (now : Time) (n : ℕ) (m : M) → P m → P (flush_pending meter now n m)
    flush_pending-keeps now n m p = elim (Bool-cases (ltb 0 n)) [
      | inl e ↦ rw e (adds now n m p)
      | inr e ↦ rw e p
    ]

    flush_if_due-keeps :
        (now : Time) (s : State W M) → P s.meter → P (flush_if_due meter now s).meter
    unfolding flush_if_due
    flush_if_due-keeps now s p = elim (Bool-cases (ltb (since now s.last_flush) second)) [
      | inl e ↦ rw (flush_if_due, e) p
      | inr e ↦
          rw (flush_if_due, e)
            (touches now (flush_pending meter now s.pending_bytes s.meter)
              (flush_pending-keeps now s.pending_bytes s.meter p))
    ]

    loop-keeps :
        (rs : List (Read B)) (s : State W M) → P s.meter → P (loop write k marshal meter rs s).meter
    unfolding loop
    loop-keeps [] s p = p
    loop-keeps (done ∷ rs) s p = p
    loop-keeps (failed ∷ rs) s p = p
    loop-keeps (got now m ∷ rs) s p =
        let f = flush_if_due meter now s in
        let t = (on_message write k marshal m f).0 in
        let q : P t.meter = rw (on_message-meter m f) (flush_if_due-keeps now s p) in
        elim (Bool-cases (on_message write k marshal m f).1) [
          | inl e ↦ rw (loop, e) (loop-keeps rs t q)
          | inr e ↦ rw (loop, e) q
        ]

    pub stream_to_relay-keeps :
        (start : Time) (rs : List (Read B)) (w : W) (m : M) (end : Time)
        → P m
        → P (stream_to_relay write k marshal meter start rs w m end).meter
    unfolding stream_to_relay finish
    stream_to_relay-keeps start rs w m end p = flush_pending-keeps end _ _ (loop-keeps rs _ p)
