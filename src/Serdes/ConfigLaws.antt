-- ===== src/Serdes/ConfigLaws.antt =====
-- Sender and receiver configurations come back from the protocol as they went.
use roc_vad.Prelude.{ℕ, ◌≤◌, ◌<◌, ◌^◌, ◌≡◌, refl, All, Option, none, some, arith}
use roc_vad.Prelude.Int.{ℤ, pos_part, neg_part}
use roc_vad.Result.{ok, >>=-eq-ok, map_result, map_result_round}
use roc_vad.Defs.{DevicePacketEncoding, DeviceSenderConfig, DeviceReceiverConfig}
use roc_vad.Message.{RvPacketEncoding, RvSenderConfig, RvReceiverConfig}
use roc_vad.Serdes.Basic
use roc_vad.Serdes.Basic.{TimeUtil, to_u64, to_i64}
use roc_vad.Serdes.Endpoint.{packet_encoding_from_rpc, packet_encoding_to_rpc}
use roc_vad.Serdes.Config.{
  optional_encoding_from_rpc, optional_encoding_to_rpc, sender_config_from_rpc,
  sender_config_to_rpc, receiver_config_from_rpc, receiver_config_to_rpc,
}
use roc_vad.Serdes.EnumLaws
use roc_vad.Serdes.EndpointLaws.{IsSendable, packet_encoding_round}

pub record IsInt64 (n : ℤ) : Type 0 where
  pub high : pos_part n < 2 ^ 63
  pub low : neg_part n ≤ 2 ^ 63

-- `TimeUtil` keeps every number of nanoseconds of 64 bits: a `Duration` spans 10,000 years, and such
-- a number under 300.
pub record IsLossless {D : Type 0} (time : TimeUtil D) : Type 0 where
  pub nanoseconds :
      (n : ℤ) → IsInt64 n → time.duration_to_nanoseconds (time.nanoseconds_to_duration n) ≡ n

to_u64-to_i64 : (n : ℕ) → n < 2 ^ 64 → to_u64 (to_i64 n) ≡ n
to_u64-to_i64 n h = ground arith

to_i64-IsInt64 : (n : ℕ) → n < 2 ^ 64 → IsInt64 (to_i64 n)
to_i64-IsInt64 n h = ground arith

pub record IsSendableSender (c : DeviceSenderConfig) : Type 0 where
  pub encoding : (e : DevicePacketEncoding) → c.packet_encoding ≡ some e → IsSendable e
  pub packet_length : c.packet_length_ns < 2 ^ 64
  pub target : IsInt64 c.target_latency_ns
  pub tolerance : IsInt64 c.latency_tolerance_ns

pub record IsSendableReceiver (c : DeviceReceiverConfig) : Type 0 where
  pub encodings : All IsSendable c.packet_encodings
  pub target : IsInt64 c.target_latency_ns
  pub tolerance : IsInt64 c.latency_tolerance_ns
  pub no_playback : IsInt64 c.no_playback_timeout_ns
  pub choppy_playback : IsInt64 c.choppy_playback_timeout_ns

optional_encoding_round :
    (e : Option DevicePacketEncoding) (m : Option RvPacketEncoding)
    → ((x : DevicePacketEncoding) → e ≡ some x → IsSendable x)
    → optional_encoding_to_rpc e ≡ ok m
    → optional_encoding_from_rpc m ≡ ok e
unfolding optional_encoding_to_rpc optional_encoding_from_rpc
optional_encoding_round none m v h = ground arith
optional_encoding_round (some x) none v h = ground arith
optional_encoding_round (some x) (some y) v h = ground (arith, packet_encoding_round x y (v x refl))

module _ {D : Type 0} (time : TimeUtil D) (lossless : IsLossless time) where
  pub sender_config_round :
      (c : DeviceSenderConfig) (m : RvSenderConfig D)
      → IsSendableSender c
      → sender_config_to_rpc time c ≡ ok m
      → sender_config_from_rpc time m ≡ ok c
  unfolding sender_config_to_rpc sender_config_from_rpc
  sender_config_round c m v h =
      let (encoding, e1, h) = >>=-eq-ok (optional_encoding_to_rpc c.packet_encoding) _ h in
      let (fec, e2, h) = >>=-eq-ok (Basic.fec_encoding_to_rpc c.fec_encoding) _ h in
      let (backend, e3, h) =
        >>=-eq-ok (Basic.latency_tuner_backend_to_rpc c.latency_tuner_backend) _ h in
      let (profile, e4, h) =
        >>=-eq-ok (Basic.latency_tuner_profile_to_rpc c.latency_tuner_profile) _ h in
      let (resampler, e5, h) = >>=-eq-ok (Basic.resampler_backend_to_rpc c.resampler_backend) _ h in
      let (quality, e6, h) = >>=-eq-ok (Basic.resampler_profile_to_rpc c.resampler_profile) _ h in
      ground (
        arith,
        optional_encoding_round c.packet_encoding encoding v.encoding e1,
        EnumLaws.fec_encoding_round c.fec_encoding fec e2,
        EnumLaws.latency_tuner_backend_round c.latency_tuner_backend backend e3,
        EnumLaws.latency_tuner_profile_round c.latency_tuner_profile profile e4,
        EnumLaws.resampler_backend_round c.resampler_backend resampler e5,
        EnumLaws.resampler_profile_round c.resampler_profile quality e6,
        lossless.nanoseconds c.target_latency_ns v.target,
        lossless.nanoseconds c.latency_tolerance_ns v.tolerance,
        lossless.nanoseconds (to_i64 c.packet_length_ns)
            (to_i64-IsInt64 c.packet_length_ns v.packet_length),
        to_u64-to_i64 c.packet_length_ns v.packet_length,
      )

  pub receiver_config_round :
      (c : DeviceReceiverConfig) (m : RvReceiverConfig D)
      → IsSendableReceiver c
      → receiver_config_to_rpc time c ≡ ok m
      → receiver_config_from_rpc time m ≡ ok c
  unfolding receiver_config_to_rpc receiver_config_from_rpc
  receiver_config_round c m v h =
      let (encodings, e1, h) =
        >>=-eq-ok (map_result packet_encoding_to_rpc c.packet_encodings) _ h in
      let (backend, e3, h) =
        >>=-eq-ok (Basic.latency_tuner_backend_to_rpc c.latency_tuner_backend) _ h in
      let (profile, e4, h) =
        >>=-eq-ok (Basic.latency_tuner_profile_to_rpc c.latency_tuner_profile) _ h in
      let (resampler, e5, h) = >>=-eq-ok (Basic.resampler_backend_to_rpc c.resampler_backend) _ h in
      let (quality, e6, h) = >>=-eq-ok (Basic.resampler_profile_to_rpc c.resampler_profile) _ h in
      ground (
        arith,
        map_result_round packet_encoding_to_rpc packet_encoding_from_rpc IsSendable
            packet_encoding_round c.packet_encodings encodings v.encodings e1,
        EnumLaws.latency_tuner_backend_round c.latency_tuner_backend backend e3,
        EnumLaws.latency_tuner_profile_round c.latency_tuner_profile profile e4,
        EnumLaws.resampler_backend_round c.resampler_backend resampler e5,
        EnumLaws.resampler_profile_round c.resampler_profile quality e6,
        lossless.nanoseconds c.target_latency_ns v.target,
        lossless.nanoseconds c.latency_tolerance_ns v.tolerance,
        lossless.nanoseconds c.no_playback_timeout_ns v.no_playback,
        lossless.nanoseconds c.choppy_playback_timeout_ns v.choppy_playback,
      )
