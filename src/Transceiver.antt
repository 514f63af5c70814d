-- ===== src/Transceiver.antt =====
-- driver/transceiver.hpp, driver/sender.cpp and driver/receiver.cpp, over the functions of roc's C
-- library, which are the parameter `roc`. Errors of closing functions are only logged.
mod Tests
pub mod Laws
pub mod Frames
use Prim.Native.String.{String}
use roc_vad.Prelude.{
  ℕ, ◌≡◌, refl, Bool, true, false, List, [], ◌∷◌, Option, none, some, arith, if◌then◌else◌,
}
use roc_vad.Prelude.Int.{ℤ}
use roc_vad.Result.{Exception, Result, ok, throw, invalid_argument, runtime_error}
use roc_vad.Exec.{Exec, ◌>>=◌, ◌>>◌, and_then, return, each}
use roc_vad.EnumMap.Settings.{
  RocInterface, RocFecEncoding, RocLatencyTunerBackend, RocLatencyTunerProfile, RocResamplerBackend,
  RocResamplerProfile,
}
use roc_vad.EnumMap.SampleFormat.{RocSubformat}
use roc_vad.Defs.{
  RocFormat, MediaEncoding, DevicePacketEncoding, DeviceLocalEncoding, DeviceSenderConfig,
  DeviceReceiverConfig, DeviceEndpointInfo,
}
use roc_vad.Serdes.Endpoint.{is_multitrack}

-- `roc_clock_source`, as far as it is named here.
pub data RocClockSource : Type 0 where
  external : RocClockSource

-- `roc_sender_config` and `roc_receiver_config`, the fields that are set.
pub record SenderSetup : Type 0 where
  pub frame_encoding : MediaEncoding
  pub packet_encoding : ℕ
  pub packet_length : ℕ
  pub fec_encoding : RocFecEncoding
  pub fec_block_source_packets : ℕ
  pub fec_block_repair_packets : ℕ
  pub clock_source : RocClockSource
  pub latency_tuner_backend : RocLatencyTunerBackend
  pub latency_tuner_profile : RocLatencyTunerProfile
  pub resampler_backend : RocResamplerBackend
  pub resampler_profile : RocResamplerProfile
  pub target_latency : ℤ
  pub latency_tolerance : ℤ

pub record ReceiverSetup : Type 0 where
  pub frame_encoding : MediaEncoding
  pub clock_source : RocClockSource
  pub latency_tuner_backend : RocLatencyTunerBackend
  pub latency_tuner_profile : RocLatencyTunerProfile
  pub resampler_backend : RocResamplerBackend
  pub resampler_profile : RocResamplerProfile
  pub target_latency : ℤ
  pub latency_tolerance : ℤ
  pub no_playback_timeout : ℤ
  pub choppy_playback_timeout : ℤ

-- The functions of roc/context.h, roc/sender.h, roc/receiver.h and roc/endpoint.h that the driver
-- calls, on the state `W` of the library. A handle is a number; `none` and `false` stand for an error.
pub record Roc (W : Type 0) : Type 0 where
  pub avp_l16_stereo : ℕ
  pub context_open : ℕ → W → Option ℕ × W
  pub context_close : ℕ → W → W
  pub context_register_encoding : ℕ → DevicePacketEncoding → W → Bool × W
  pub sender_open : ℕ → SenderSetup → W → Option ℕ × W
  pub sender_close : ℕ → W → W
  pub sender_connect : ℕ → ℕ → RocInterface → ℕ → W → Bool × W
  pub receiver_open : ℕ → ReceiverSetup → W → Option ℕ × W
  pub receiver_close : ℕ → W → W
  pub receiver_bind : ℕ → ℕ → RocInterface → ℕ → W → Bool × W
  pub endpoint_allocate : W → Option ℕ × W
  pub endpoint_set_uri : ℕ → String → W → Bool × W
  pub endpoint_deallocate : ℕ → W → W

-- A sender or a receiver: its context and its handle.
pub data Transceiver : Type 0 where
  sender receiver : ℕ → ℕ → Transceiver

-- `if ((err = f(...)) < 0) throw e;`, for a call with a handle and for one without.
abbrev pub opened : {W : Type 0} → Exception → Option ℕ × W → Result ℕ × W
opened e (none, w) = (throw e, w)
opened e (some handle, w) = (ok handle, w)

abbrev pub succeeded : {W : Type 0} → Exception → Bool × W → Result (Unit {0}) × W
succeeded e (false, w) = (throw e, w)
succeeded e (true, w) = (ok tt, w)

abbrev pub done : {W : Type 0} → W → Result (Unit {0}) × W
done w = (ok tt, w)

abbrev pub frame_encoding : DeviceLocalEncoding → MediaEncoding
frame_encoding e = record {
  format = RocFormat.pcm;
  subformat = RocSubformat.pcm_float32;
  rate = e.sample_rate;
  channels = e.channel_layout;
  tracks = if is_multitrack e.channel_layout then e.channel_count else 0;
}

module _ {W : Type 0} (roc : Roc W) where
  abbrev pub sender_setup : DeviceLocalEncoding → DeviceSenderConfig → ℕ → SenderSetup
  sender_setup e c packet_encoding = record {
    frame_encoding = frame_encoding e;
    packet_encoding = packet_encoding;
    packet_length = c.packet_length_ns;
    fec_encoding = c.fec_encoding;
    fec_block_source_packets = c.fec_block_source_packets;
    fec_block_repair_packets = c.fec_block_repair_packets;
    clock_source = RocClockSource.external;
    latency_tuner_backend = c.latency_tuner_backend;
    latency_tuner_profile = c.latency_tuner_profile;
    resampler_backend = c.resampler_backend;
    resampler_profile = c.resampler_profile;
    target_latency = c.target_latency_ns;
    latency_tolerance = c.latency_tolerance_ns;
  }

  abbrev pub receiver_setup : DeviceLocalEncoding → DeviceReceiverConfig → ReceiverSetup
  receiver_setup e c = record {
    frame_encoding = frame_encoding e;
    clock_source = RocClockSource.external;
    latency_tuner_backend = c.latency_tuner_backend;
    latency_tuner_profile = c.latency_tuner_profile;
    resampler_backend = c.resampler_backend;
    resampler_profile = c.resampler_profile;
    target_latency = c.target_latency_ns;
    latency_tolerance = c.latency_tolerance_ns;
    no_playback_timeout = c.no_playback_timeout_ns;
    choppy_playback_timeout = c.choppy_playback_timeout_ns;
  }

  -- `roc_context_register_encoding`, where it is called.
  abbrev pub register_encoding : ℕ → DevicePacketEncoding → Exec W (Unit {0})
  register_encoding context encoding w =
      succeeded invalid_argument (roc.context_register_encoding context encoding w)

  -- The packet encoding of a sender: its own, registered first, or the default.
  unfoldable pub choose_encoding : ℕ → Option DevicePacketEncoding → Exec W ℕ
  choose_encoding context none = return roc.avp_l16_stereo
  choose_encoding context (some encoding) = do
    register_encoding context encoding
    return encoding.id

  unfoldable pub open_sender : DeviceLocalEncoding → DeviceSenderConfig → Exec W Transceiver
  open_sender e c = do
    context ← λ w. opened runtime_error (roc.context_open c.max_packet_size w)
    packet_encoding ← choose_encoding context c.packet_encoding
    handle ←
        λ w. opened invalid_argument (roc.sender_open context (sender_setup e c packet_encoding) w)
    return (Transceiver.sender context handle)

  unfoldable pub open_receiver : DeviceLocalEncoding → DeviceReceiverConfig → Exec W Transceiver
  open_receiver e c = do
    context ← λ w. opened runtime_error (roc.context_open c.max_packet_size w)
    each (register_encoding context) c.packet_encodings
    handle ← λ w. opened invalid_argument (roc.receiver_open context (receiver_setup e c) w)
    return (Transceiver.receiver context handle)

  -- The destructors.
  unfoldable pub close : Transceiver → W → W
  close (Transceiver.sender context handle) w =
      roc.context_close context (roc.sender_close handle w)
  close (Transceiver.receiver context handle) w =
      roc.context_close context (roc.receiver_close handle w)

  -- An endpoint with the given URI, passed to `use`. Where a call fails, it is not deallocated.
  unfoldable pub with_endpoint : String → (ℕ → W → Bool × W) → Exec W (Unit {0})
  with_endpoint uri use_endpoint = do
    endpoint ← λ w. opened runtime_error (roc.endpoint_allocate w)
    λ w. succeeded invalid_argument (roc.endpoint_set_uri endpoint uri w)
    λ w. succeeded invalid_argument (use_endpoint endpoint w)
    λ w. done (roc.endpoint_deallocate endpoint w)

  unfoldable pub bind : Transceiver → DeviceEndpointInfo → Exec W (Unit {0})
  bind (Transceiver.sender context handle) info w = (throw invalid_argument, w)
  bind (Transceiver.receiver context handle) info w =
      with_endpoint info.uri (roc.receiver_bind handle info.slot info.interface) w

  unfoldable pub connect : Transceiver → DeviceEndpointInfo → Exec W (Unit {0})
  connect (Transceiver.sender context handle) info w =
      with_endpoint info.uri (roc.sender_connect handle info.slot info.interface) w
  connect (Transceiver.receiver context handle) info w = (throw invalid_argument, w)
