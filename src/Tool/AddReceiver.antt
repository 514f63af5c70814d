-- ===== src/Tool/AddReceiver.antt =====
-- tool/cmd_device_add_receiver.cpp: `device add receiver`.
use Prim.Native.String.{String}
use roc_vad.Prelude.{ℕ, Bool, true, false, ◌||◌, [], ◌∷◌, ◌++◌, Option, none, some, if◌then◌else◌}
use roc_vad.Prelude.Maybe.{◌>>=◌}
use roc_vad.EnumMap.Lookup.{parse_enum}
use roc_vad.EnumMap.Settings.{
  channel_layout_map, resampler_backend_map, resampler_profile_map, latency_tuner_backend_map,
  latency_tuner_profile_map,
}
use roc_vad.EnumMap.SampleFormat.{sample_format_map}
use roc_vad.Message.{
  RvPacketEncoding, RvReceiverConfig, RvDeviceType, NetworkConfig, RvDeviceInfo,
  blank_receiver_config,
}
use roc_vad.Serdes.Basic.{TimeUtil}
use roc_vad.Parse.{Text}
use roc_vad.Tool.{Remote, connect, if_connected}
use roc_vad.Tool.Build.{
  set, set_parsed, set_tracks, parse_duration_message, blank_packet_encoding, DeviceOptions,
  EncodingOptions, build_device,
}

-- The members of `CmdDeviceAddReceiver`, with those on the device and on the packet encoding apart.
pub record ReceiverOptions : Type 0 where
  pub device : DeviceOptions
  pub max_packet_size : Option ℕ
  pub encoding : EncodingOptions
  pub resampler_backend : Option String
  pub resampler_profile : Option String
  pub latency_tuner_backend : Option String
  pub latency_tuner_profile : Option String
  pub target_latency : Option Text
  pub latency_tolerance : Option Text
  pub no_playback_timeout : Option Text
  pub choppy_playback_timeout : Option Text

abbrev pub is_given : {A : Type 0} → Option A → Bool
is_given none = false
is_given (some a) = true

-- Whether the request holds a packet encoding.
abbrev pub has_encoding : EncodingOptions → Bool
has_encoding o =
    is_given o.packet_encoding_id
    || is_given o.packet_encoding_rate
    || is_given o.packet_encoding_format
    || is_given o.packet_encoding_chans
    || is_given o.packet_encoding_tracks

unfoldable pub build_packet_encoding : EncodingOptions → Option RvPacketEncoding
build_packet_encoding o = do
  e ← set o.packet_encoding_id (λ i e. record e { encoding_id = i }) blank_packet_encoding
  e ← set o.packet_encoding_rate (λ r e. record e { sample_rate = r }) e
  e ←
      set_parsed (parse_enum sample_format_map) o.packet_encoding_format
        (λ f e. record e { sample_format = f }) e
  e ←
      set_parsed (parse_enum channel_layout_map) o.packet_encoding_chans
        (λ l e. record e { channel_layout = l }) e
  set_tracks e.channel_layout o.packet_encoding_tracks (λ t e. record e { track_count = some t }) e

module _ {D : Type 0} where
  -- A change of `mutable_receiver_config()`.
  abbrev pub receiver_config : NetworkConfig D → RvReceiverConfig D
  receiver_config (NetworkConfig.receiver_config c) = c
  receiver_config _ = blank_receiver_config D

  abbrev pub edit :
      {A : Type 0}
      → (A → RvReceiverConfig D → RvReceiverConfig D)
      → A
      → NetworkConfig D
      → NetworkConfig D
  edit change a n = NetworkConfig.receiver_config (change a (receiver_config n))

  -- The packet encoding. The maximum packet size is set here, where there is an encoding.
  unfoldable pub build_encoding : ReceiverOptions → NetworkConfig D → Option (NetworkConfig D)
  build_encoding o n =
      if has_encoding o.encoding
      then (do
        n ← set o.max_packet_size (edit (λ s c. record c { max_packet_size = some s })) n
        e ← build_packet_encoding o.encoding
        some (edit (λ e c. record c { packet_encodings = c.packet_encodings ++ e ∷ [] }) e n))
      else some n

  unfoldable pub build_tuning : ReceiverOptions → NetworkConfig D → Option (NetworkConfig D)
  build_tuning o n = do
    n ←
        set_parsed (parse_enum resampler_backend_map) o.resampler_backend
          (edit (λ v c. record c { resampler_backend = some v })) n
    n ←
        set_parsed (parse_enum resampler_profile_map) o.resampler_profile
          (edit (λ v c. record c { resampler_profile = some v })) n
    n ←
        set_parsed (parse_enum latency_tuner_backend_map) o.latency_tuner_backend
          (edit (λ v c. record c { latency_tuner_backend = some v })) n
    set_parsed (parse_enum latency_tuner_profile_map) o.latency_tuner_profile
        (edit (λ v c. record c { latency_tuner_profile = some v })) n

  module _ (time : TimeUtil D) where
    -- The options on latency and on timeouts.
    unfoldable pub build_latency : ReceiverOptions → NetworkConfig D → Option (NetworkConfig D)
    build_latency o n = do
      n ←
          set_parsed (parse_duration_message time) o.target_latency
            (edit (λ d c. record c { target_latency = some d })) n
      n ←
          set_parsed (parse_duration_message time) o.latency_tolerance
            (edit (λ d c. record c { latency_tolerance = some d })) n
      n ←
          set_parsed (parse_duration_message time) o.no_playback_timeout
            (edit (λ d c. record c { no_playback_timeout = some d })) n
      set_parsed (parse_duration_message time) o.choppy_playback_timeout
          (edit (λ d c. record c { choppy_playback_timeout = some d })) n

    -- The request, where no option is refused.
    unfoldable pub build_receiver : ReceiverOptions → Option (RvDeviceInfo D)
    build_receiver o = do
      request ← build_device time RvDeviceType.receiver o.device
      n ← build_encoding o request.network_config
      n ← build_tuning o n
      n ← build_latency o n
      some (record request { network_config = n })

    -- `execute`: the response that is printed, where it returns `true`.
    unfoldable pub add_receiver :
        {W : Type 0} → Remote W D → ReceiverOptions → W → Option (RvDeviceInfo D) × W
    add_receiver remote o w = if_connected (connect remote w) (λ v. elim (build_receiver o) [
      | none ↦ (none, v)
      | some request ↦ remote.add_device request v
    ])
