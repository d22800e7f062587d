-- ===== src/Rtmp/Numbers.antt =====
-- The numbers of the FLV format for the tests, with 1 and 0 for a frame and its configuration.
use irl_universal_ingest.Rtmp.Flv.{Codes}

abbrev pub numbers : Codes
numbers = record {
  h264 = 7;
  h265 = 12;
  mpeg4_audio = 10;
  video_type_config = 0;
  video_type_au = 1;
  video_ex_sequence_start = 0;
  video_ex_coded_frames = 1;
  aac_type_config = 0;
  audio_ex_sequence_start = 0;
  audio_ex_coded_frames = 1;
  avc = 0x61766331;
  hevc = 0x68766331;
  av1 = 0x61763031;
  vp9 = 0x76703039;
  opus = 0x4f707573;
  flac = 0x664c6143;
  mp4a = 0x6d703461;
}
