-- ===== src/Tool/Build.antt =====
-- What `device add sender` and `device add receiver` share: the fields of a request that an option
-- sets as it is, or from a text that is parsed; and the part of the request on the device itself. A
-- text that is read byte by byte is a `Text`. `none` is a `return false` before the request is sent.
use Prim.Native.String.{String}
use mathlib.Core.Option
use roc_vad.Prelude.{ℕ, Bool, not, [], Option, none, some}
use roc_vad.Prelude.Maybe.{◌>>=◌}
use roc_vad.EnumMap.Lookup.{parse_enum}
use roc_vad.EnumMap.Settings.{RvChannelLayout, channel_layout_map}
use roc_vad.EnumMap.SampleFormat.{RvSampleFormat}
use roc_vad.Message.{RvPacketEncoding, RvDeviceEncoding, RvDeviceType, NetworkConfig, RvDeviceInfo}
use roc_vad.Serdes.Basic.{TimeUtil}
use roc_vad.Prelude.Int.{ℤ}
use roc_vad.Parse.{
  Text, DurationResult, valid_duration, refused_duration, undefined_product, parse_duration,
}

-- `if (option) { message.set_x(*option); }`
abbrev pub set : {M A : Type 0} → Option A → (A → M → M) → M → Option M
set none setter m = some m
set (some a) setter m = some (setter a m)

-- The same, for an option whose text is parsed first.
abbrev pub set_parsed : {M A C : Type 0} → (A → Option C) → Option A → (C → M → M) → M → Option M
set_parsed parse none setter m = some m
set_parsed parse (some a) setter m = elim (parse a) [ none ↦ none | some c ↦ some (setter c m) ]

-- The track count belongs to the layout `multitrack`, and to no other.
abbrev pub set_tracks : {M : Type 0} → RvChannelLayout → Option ℕ → (ℕ → M → M) → M → Option M
set_tracks RvChannelLayout.multitrack none setter m = none
set_tracks RvChannelLayout.multitrack (some n) setter m = some (setter n m)
set_tracks _ none setter m = some m
set_tracks _ (some n) setter m = none

-- A layout that is not set reads as the first one of the protocol.
abbrev pub layout_or_mono : Option RvChannelLayout → RvChannelLayout
layout_or_mono none = RvChannelLayout.mono
layout_or_mono (some layout) = layout

abbrev nanoseconds_of : DurationResult → Option ℤ
nanoseconds_of (valid_duration n) = some n
nanoseconds_of refused_duration = none
nanoseconds_of undefined_product = none

-- The second `parse_duration` of tool/parse.cpp. `none` is a refusal or undefined behaviour: in either
-- case nothing is said of a request.
unfoldable pub parse_duration_message : {D : Type 0} → TimeUtil D → Text → Option D
parse_duration_message time str =
    Option.map time.nanoseconds_to_duration (nanoseconds_of (parse_duration str))

abbrev pub blank_packet_encoding : RvPacketEncoding
blank_packet_encoding = record {
  encoding_id = 0;
  sample_rate = 0;
  sample_format = RvSampleFormat.pcm_sint16;
  channel_layout = RvChannelLayout.mono;
  track_count = none;
}

-- The options on the device.
pub record DeviceOptions : Type 0 where
  pub device_uid : Option String
  pub device_name : Option String
  pub device_disabled : Option Bool
  pub device_encoding_rate : Option ℕ
  pub device_encoding_chans : Option String
  pub device_encoding_tracks : Option ℕ
  pub device_encoding_buffer : Option Text

-- The options on a packet encoding.
pub record EncodingOptions : Type 0 where
  pub packet_encoding_id : Option ℕ
  pub packet_encoding_rate : Option ℕ
  pub packet_encoding_format : Option String
  pub packet_encoding_chans : Option String
  pub packet_encoding_tracks : Option ℕ

module _ {D : Type 0} (time : TimeUtil D) where
  abbrev blank_device_encoding : RvDeviceEncoding D
  blank_device_encoding = record {
    sample_rate = none;
    channel_layout = none;
    track_count = none;
    buffer_length = none;
  }

  unfoldable pub build_device_encoding : DeviceOptions → Option (RvDeviceEncoding D)
  build_device_encoding o = do
    e ← set o.device_encoding_rate (λ n e. record e { sample_rate = some n }) blank_device_encoding
    e ←
        set_parsed (parse_enum channel_layout_map) o.device_encoding_chans
          (λ layout e. record e { channel_layout = some layout }) e
    e ←
        set_tracks (layout_or_mono e.channel_layout) o.device_encoding_tracks
          (λ n e. record e { track_count = some n }) e
    set_parsed (parse_duration_message time) o.device_encoding_buffer
        (λ d e. record e { buffer_length = some d }) e

  -- The request, but for the network configuration.
  unfoldable pub build_device : RvDeviceType → DeviceOptions → Option (RvDeviceInfo D)
  build_device type o = do
    encoding ← build_device_encoding o
    some (record {
      type = type;
      index = none;
      uid = o.device_uid;
      name = o.device_name;
      enabled = Option.map not o.device_disabled;
      device_encoding = encoding;
      network_config = NetworkConfig.unset;
      local_endpoints = [];
      remote_endpoints = [];
    })
