-- ===== src/Serdes/Config.antt =====
-- Sender and receiver configurations in driver/rpc_serdes.cpp.
use mathlib.Core.Option
use roc_vad.Prelude.{Option, none, some}
use roc_vad.Result.{Result, ok, ◌>>=◌, map_result}
use roc_vad.Defs.{
  DevicePacketEncoding, DeviceSenderConfig, DeviceReceiverConfig, default_sender_config,
  default_receiver_config,
}
use roc_vad.Message.{RvPacketEncoding, RvSenderConfig, RvReceiverConfig}
use roc_vad.Serdes.Basic
use roc_vad.Serdes.Basic.{TimeUtil, or_kept, convert_or_kept, to_u64, to_i64}
use roc_vad.Serdes.Endpoint.{packet_encoding_from_rpc, packet_encoding_to_rpc}

-- An encoding that may be absent.
unfoldable pub optional_encoding_from_rpc :
    Option RvPacketEncoding → Result (Option DevicePacketEncoding)
optional_encoding_from_rpc none = ok none
optional_encoding_from_rpc (some in_encoding) = do
  encoding ← packet_encoding_from_rpc in_encoding
  ok (some encoding)

unfoldable pub optional_encoding_to_rpc :
    Option DevicePacketEncoding → Result (Option RvPacketEncoding)
optional_encoding_to_rpc none = ok none
optional_encoding_to_rpc (some in_encoding) = do
  encoding ← packet_encoding_to_rpc in_encoding
  ok (some encoding)

module _ {D : Type 0} (time : TimeUtil D) where
  open time use {duration_to_nanoseconds, nanoseconds_to_duration}

  unfoldable pub sender_config_from_rpc : RvSenderConfig D → Result DeviceSenderConfig
  sender_config_from_rpc c = do
    let out = default_sender_config
    packet_encoding ← optional_encoding_from_rpc c.packet_encoding
    fec_encoding ← convert_or_kept Basic.fec_encoding_from_rpc c.fec_encoding out.fec_encoding
    tuner_backend ←
        convert_or_kept Basic.latency_tuner_backend_from_rpc c.latency_tuner_backend
          out.latency_tuner_backend
    tuner_profile ←
        convert_or_kept Basic.latency_tuner_profile_from_rpc c.latency_tuner_profile
          out.latency_tuner_profile
    backend ←
        convert_or_kept Basic.resampler_backend_from_rpc c.resampler_backend out.resampler_backend
    profile ←
        convert_or_kept Basic.resampler_profile_from_rpc c.resampler_profile out.resampler_profile
    ok (record {
      packet_encoding = packet_encoding;
      packet_length_ns =
          or_kept (Option.map (λ d. to_u64 (duration_to_nanoseconds d)) c.packet_length)
            out.packet_length_ns;
      fec_encoding = fec_encoding;
      fec_block_source_packets = or_kept c.fec_block_source_packets out.fec_block_source_packets;
      fec_block_repair_packets = or_kept c.fec_block_repair_packets out.fec_block_repair_packets;
      latency_tuner_backend = tuner_backend;
      latency_tuner_profile = tuner_profile;
      resampler_backend = backend;
      resampler_profile = profile;
      target_latency_ns =
          or_kept (Option.map duration_to_nanoseconds c.target_latency) out.target_latency_ns;
      latency_tolerance_ns =
          or_kept (Option.map duration_to_nanoseconds c.latency_tolerance) out.latency_tolerance_ns;
      max_packet_size = or_kept c.max_packet_size out.max_packet_size;
    })

  unfoldable pub sender_config_to_rpc : DeviceSenderConfig → Result (RvSenderConfig D)
  sender_config_to_rpc c = do
    packet_encoding ← optional_encoding_to_rpc c.packet_encoding
    fec_encoding ← Basic.fec_encoding_to_rpc c.fec_encoding
    tuner_backend ← Basic.latency_tuner_backend_to_rpc c.latency_tuner_backend
    tuner_profile ← Basic.latency_tuner_profile_to_rpc c.latency_tuner_profile
    backend ← Basic.resampler_backend_to_rpc c.resampler_backend
    profile ← Basic.resampler_profile_to_rpc c.resampler_profile
    ok (record {
      packet_encoding = packet_encoding;
      packet_length = some (nanoseconds_to_duration (to_i64 c.packet_length_ns));
      fec_encoding = some fec_encoding;
      fec_block_source_packets = some c.fec_block_source_packets;
      fec_block_repair_packets = some c.fec_block_repair_packets;
      latency_tuner_backend = some tuner_backend;
      latency_tuner_profile = some tuner_profile;
      resampler_backend = some backend;
      resampler_profile = some profile;
      target_latency = some (nanoseconds_to_duration c.target_latency_ns);
      latency_tolerance = some (nanoseconds_to_duration c.latency_tolerance_ns);
      max_packet_size = some c.max_packet_size;
    })

  unfoldable pub receiver_config_from_rpc : RvReceiverConfig D → Result DeviceReceiverConfig
  receiver_config_from_rpc c = do
    let out = default_receiver_config
    packet_encodings ← map_result packet_encoding_from_rpc c.packet_encodings
    tuner_backend ←
        convert_or_kept Basic.latency_tuner_backend_from_rpc c.latency_tuner_backend
          out.latency_tuner_backend
    tuner_profile ←
        convert_or_kept Basic.latency_tuner_profile_from_rpc c.latency_tuner_profile
          out.latency_tuner_profile
    backend ←
        convert_or_kept Basic.resampler_backend_from_rpc c.resampler_backend out.resampler_backend
    profile ←
        convert_or_kept Basic.resampler_profile_from_rpc c.resampler_profile out.resampler_profile
    ok (record {
      packet_encodings = packet_encodings;
      latency_tuner_backend = tuner_backend;
      latency_tuner_profile = tuner_profile;
      resampler_backend = backend;
      resampler_profile = profile;
      target_latency_ns =
          or_kept (Option.map duration_to_nanoseconds c.target_latency) out.target_latency_ns;
      latency_tolerance_ns =
          or_kept (Option.map duration_to_nanoseconds c.latency_tolerance) out.latency_tolerance_ns;
      no_playback_timeout_ns =
          or_kept (Option.map duration_to_nanoseconds c.no_playback_timeout)
            out.no_playback_timeout_ns;
      choppy_playback_timeout_ns =
          or_kept (Option.map duration_to_nanoseconds c.choppy_playback_timeout)
            out.choppy_playback_timeout_ns;
      max_packet_size = or_kept c.max_packet_size out.max_packet_size;
    })

  unfoldable pub receiver_config_to_rpc : DeviceReceiverConfig → Result (RvReceiverConfig D)
  receiver_config_to_rpc c = do
    packet_encodings ← map_result packet_encoding_to_rpc c.packet_encodings
    tuner_backend ← Basic.latency_tuner_backend_to_rpc c.latency_tuner_backend
    tuner_profile ← Basic.latency_tuner_profile_to_rpc c.latency_tuner_profile
    backend ← Basic.resampler_backend_to_rpc c.resampler_backend
    profile ← Basic.resampler_profile_to_rpc c.resampler_profile
    ok (record {
      packet_encodings = packet_encodings;
      latency_tuner_backend = some tuner_backend;
      latency_tuner_profile = some tuner_profile;
      resampler_backend = some backend;
      resampler_profile = some profile;
      target_latency = some (nanoseconds_to_duration c.target_latency_ns);
      latency_tolerance = some (nanoseconds_to_duration c.latency_tolerance_ns);
      no_playback_timeout = some (nanoseconds_to_duration c.no_playback_timeout_ns);
      choppy_playback_timeout = some (nanoseconds_to_duration c.choppy_playback_timeout_ns);
      max_packet_size = some c.max_packet_size;
    })
