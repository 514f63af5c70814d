-- ===== src/Tool/AddSender.antt =====
-- tool/cmd_device_add_sender.cpp: `device add sender`.
use Prim.Native.String.{String}
use roc_vad.Prelude.{ℕ, Option, none, some}
use roc_vad.Prelude.Maybe.{◌>>=◌}
use roc_vad.EnumMap.Lookup.{parse_enum}
use roc_vad.EnumMap.Settings.{
  channel_layout_map, fec_encoding_map, resampler_backend_map, resampler_profile_map,
  latency_tuner_backend_map, latency_tuner_profile_map,
}
use roc_vad.EnumMap.SampleFormat.{sample_format_map}
use roc_vad.Message.{
  RvPacketEncoding, RvSenderConfig, RvDeviceType, NetworkConfig, RvDeviceInfo, blank_sender_config,
}
use roc_vad.Serdes.Basic.{TimeUtil, or_kept}
use roc_vad.Parse.{Text}
use roc_vad.Tool.{Remote, connect, if_connected}
use roc_vad.Tool.Build.{
  set, set_parsed, set_tracks, parse_duration_message, blank_packet_encoding, DeviceOptions,
  EncodingOptions, build_device,
}

-- The members of `CmdDeviceAddSender`, with those on the device and on the packet encoding apart.
pub record SenderOptions : Type 0 where
  pub device : DeviceOptions
  pub packet_length : Option Text
  pub max_packet_size : Option ℕ
  pub encoding : EncodingOptions
  pub fec_encoding : Option String
  pub fec_block_source_packets : Option ℕ
  pub fec_block_repair_packets : Option ℕ
  pub resampler_backend : Option String
  pub resampler_profile : Option String
  pub latency_tuner_backend : Option String
  pub latency_tuner_profile : Option String
  pub target_latency : Option Text
  pub latency_tolerance : Option Text

module _ {D : Type 0} where
  -- `sender_config()`, which is blank until a field is set, and a change of `mutable_sender_config()`.
  abbrev pub sender_config : NetworkConfig D → RvSenderConfig D
  sender_config (NetworkConfig.sender_config c) = c
  sender_config _ = blank_sender_config D

  abbrev pub edit :
      {A : Type 0}
      → (A → RvSenderConfig D → RvSenderConfig D)
      → A
      → NetworkConfig D
      → NetworkConfig D
  edit change a n = NetworkConfig.sender_config (change a (sender_config n))

  -- The same for its `packet_encoding()`.
  abbrev pub packet_encoding : NetworkConfig D → RvPacketEncoding
  packet_encoding n = or_kept (sender_config n).packet_encoding blank_packet_encoding

  abbrev pub edit_encoding :
      {A : Type 0}
      → (A → RvPacketEncoding → RvPacketEncoding)
      → A
      → NetworkConfig D
      → NetworkConfig D
  edit_encoding change a n =
      edit (λ e c. record c { packet_encoding = some e }) (change a (packet_encoding n)) n

  -- The options on the packet encoding.
  unfoldable pub build_encoding : EncodingOptions → NetworkConfig D → Option (NetworkConfig D)
  build_encoding o n = do
    n ← set o.packet_encoding_id (edit_encoding (λ i e. record e { encoding_id = i })) n
    n ← set o.packet_encoding_rate (edit_encoding (λ r e. record e { sample_rate = r })) n
    n ←
        set_parsed (parse_enum sample_format_map) o.packet_encoding_format
          (edit_encoding (λ f e. record e { sample_format = f })) n
    n ←
        set_parsed (parse_enum channel_layout_map) o.packet_encoding_chans
          (edit_encoding (λ l e. record e { channel_layout = l })) n
    set_tracks (packet_encoding n).channel_layout o.packet_encoding_tracks
        (edit_encoding (λ t e. record e { track_count = some t })) n

  -- The options on error correction, the resampler and the latency tuner.
  unfoldable pub build_tuning : SenderOptions → NetworkConfig D → Option (NetworkConfig D)
  build_tuning o n = do
    n ←
        set_parsed (parse_enum fec_encoding_map) o.fec_encoding
          (edit (λ v c. record c { fec_encoding = some v })) n
    n ←
        set o.fec_block_source_packets
          (edit (λ v c. record c { fec_block_source_packets = some v })) n
    n ←
        set o.fec_block_repair_packets
          (edit (λ v c. record c { fec_block_repair_packets = some v })) n
    n ←
        set_parsed (parse_enum resampler_backend_map) o.resampler_backend
          (edit (λ v c. record c { resampler_backend = some v })) n
    n ←
        set_parsed (parse_enum resampler_profile_map) o.resampler_profile
          (edit (λ v c. record c { resampler_profile = some v })) n
    n ←
        set_parsed (parse_enum latency_tuner_backend_map) o.latency_tuner_backend
          (edit (λ v c. record c { latency_tuner_backend = some v })) n
    set_parsed (parse_enum latency_tuner_profile_map) o.latency_tuner_profile
        (edit (λ v c. record c { latency_tuner_profile = some v })) n

  module _ (time : TimeUtil D) where
    -- The options on the packets.
    unfoldable pub build_packets : SenderOptions → NetworkConfig D → Option (NetworkConfig D)
    build_packets o n = do
      n ←
          set_parsed (parse_duration_message time) o.packet_length
            (edit (λ d c. record c { packet_length = some d })) n
      set o.max_packet_size (edit (λ s c. record c { max_packet_size = some s })) n

    unfoldable pub build_latency : SenderOptions → NetworkConfig D → Option (NetworkConfig D)
    build_latency o n = do
      n ←
          set_parsed (parse_duration_message time) o.target_latency
            (edit (λ d c. record c { target_latency = some d })) n
      set_parsed (parse_duration_message time) o.latency_tolerance
          (edit (λ d c. record c { latency_tolerance = some d })) n

    -- The request, where no option is refused.
    unfoldable pub build_sender : SenderOptions → Option (RvDeviceInfo D)
    build_sender o = do
      request ← build_device time RvDeviceType.sender o.device
      n ← build_packets o request.network_config
      n ← build_encoding o.encoding n
      n ← build_tuning o n
      n ← build_latency o n
      some (record request { network_config = n })

    -- `execute`: the response that is printed, where it returns `true`.
    unfoldable pub add_sender :
        {W : Type 0} → Remote W D → SenderOptions → W → Option (RvDeviceInfo D) × W
    add_sender remote o w = if_connected (connect remote w) (λ v. elim (build_sender o) [
      | none ↦ (none, v)
      | some request ↦ remote.add_device request v
    ])
