-- ===== src/Tool/Tests.antt =====
-- Runs of the commands of tool/.
use Prim.Native.String.{String}
use roc_vad.Prelude.{
  ℕ, suc, ◌∷◌, Bool, ◌&&◌, ltb, if◌then◌else◌, ◌≡◌, refl, true, false, [], Option, some, none,
}
use roc_vad.Prelude.Int.{ℤ}
use roc_vad.Result.{ok}
use roc_vad.EnumMap.Lookup.{parse_enum}
use roc_vad.EnumMap.Settings
use roc_vad.Message.{
  RvDeviceType, RvDeviceInfo, NetworkConfig, RvDeviceSelector, RvEndpointInfo, RvEndpointRequest,
  blank_sender_config,
}
use roc_vad.Parse.{Text}
use roc_vad.Serdes.Samples.{clock}
use roc_vad.Device.Samples.{device}
use roc_vad.Manager
use roc_vad.Manager.Samples.{host, one_device, one_device-IsConsistent, found_by_uid}
use roc_vad.Service.{RvDriverInfo, key_of}
use roc_vad.Tool.Build.{
  DeviceOptions, EncodingOptions, build_device_encoding, build_device, layout_or_mono,
  blank_packet_encoding,
}
use roc_vad.Tool.AddSender.{
  SenderOptions, packet_encoding, build_packets, build_encoding, build_tuning, build_latency,
  build_sender,
}
use roc_vad.Tool.AddReceiver.{ReceiverOptions, build_receiver}
use roc_vad.Tool.Select.{SelectOptions, selector, enable_device, disable_device}
use roc_vad.Tool.{Remote, connect}
use roc_vad.Tool.Endpoints.{EndpointOptions, send_endpoints, bind_device}
use roc_vad.EnumMap.Settings.{RvInterface}
use roc_vad.Tool.Requests.{tracks_match, is_sender_network}
use roc_vad.Tool.Sent.{build_sender-Fits}
use roc_vad.Tool.Driver.{driver, build_receiver_drops, enable_device-get_device}

abbrev device_options : DeviceOptions
device_options = record {
  device_uid = none;
  device_name = some "desk";
  device_disabled = some true;
  device_encoding_rate = some 48000;
  device_encoding_chans = some "multitrack";
  device_encoding_tracks = some 8;
  device_encoding_buffer = none;
}

abbrev no_encoding : EncodingOptions
no_encoding = record {
  packet_encoding_id = none;
  packet_encoding_rate = none;
  packet_encoding_format = none;
  packet_encoding_chans = none;
  packet_encoding_tracks = none;
}

abbrev sender_options : SenderOptions
sender_options = record {
  device = device_options;
  packet_length = none;
  max_packet_size = some 1024;
  encoding = record no_encoding {
    packet_encoding_id = some 100;
    packet_encoding_chans = some "stereo";
  };
  fec_encoding = none;
  fec_block_source_packets = none;
  fec_block_repair_packets = none;
  resampler_backend = none;
  resampler_profile = none;
  latency_tuner_backend = none;
  latency_tuner_profile = none;
  target_latency = none;
  latency_tolerance = none;
}

abbrev sender_request : RvDeviceInfo ℤ
sender_request = record {
  type = RvDeviceType.sender;
  index = none;
  uid = none;
  name = some "desk";
  enabled = some false;
  device_encoding = record {
    sample_rate = some 48000;
    channel_layout = some Settings.RvChannelLayout.multitrack;
    track_count = some 8;
    buffer_length = none;
  };
  network_config = NetworkConfig.sender_config (record (blank_sender_config ℤ) {
    max_packet_size = some 1024;
    packet_encoding = some (record blank_packet_encoding {
      encoding_id = 100;
      channel_layout = Settings.RvChannelLayout.stereo;
    });
  });
  local_endpoints = [];
  remote_endpoints = [];
}

sender_built : build_sender clock sender_options ≡ some sender_request
unfolding build_sender build_device build_device_encoding build_packets build_encoding build_tuning
    build_latency parse_enum
sender_built = refl

build_sender-Fits_example :
    (sender_request.type ≡ RvDeviceType.sender)
    × (sender_request.index ≡ none)
    × (is_sender_network sender_request.network_config ≡ true)
    × (tracks_match
          (layout_or_mono sender_request.device_encoding.channel_layout)
          sender_request.device_encoding.track_count
        ≡ true)
    × (tracks_match
          (packet_encoding sender_request.network_config).channel_layout
          (packet_encoding sender_request.network_config).track_count
        ≡ true)
build_sender-Fits_example = build_sender-Fits clock sender_options sender_request sender_built

abbrev receiver_options : ReceiverOptions
receiver_options = record {
  device = device_options;
  max_packet_size = some 1024;
  encoding = no_encoding;
  resampler_backend = none;
  resampler_profile = none;
  latency_tuner_backend = none;
  latency_tuner_profile = none;
  target_latency = none;
  latency_tolerance = none;
  no_playback_timeout = none;
  choppy_playback_timeout = none;
}

build_receiver_drops_example :
    build_receiver clock receiver_options
    ≡ build_receiver clock (record receiver_options { max_packet_size = none })
build_receiver_drops_example = build_receiver_drops clock receiver_options refl

abbrev by_own_uid : SelectOptions
by_own_uid = record { use_uid = true; index_or_uid = "0a-1b" }

abbrev no_bytes : String → Text
no_bytes text = []

-- A driver that counts the requests for endpoints: it accepts the first to bind, and each to connect.
abbrev count_each : Bool → RvEndpointRequest → ℕ → Option RvEndpointInfo × ℕ
count_each refuses request w = (if refuses && ltb 0 w then none else some request.endpoint, suc w)

abbrev counting : Remote ℕ ℤ
counting = record {
  create_channel = λ w. (true, w);
  new_stub = λ w. (true, w);
  ping = λ w. (true, w);
  driver_info = λ w. (none, w);
  get_all_devices = λ w. (none, w);
  get_device = λ device w. (none, w);
  add_device = λ device w. (none, w);
  delete_device = λ device w. (false, w);
  toggle_device = λ request w. (false, w);
  bind = count_each true;
  connect = count_each false;
}

abbrev endpoint_options : EndpointOptions
endpoint_options = record {
  device = by_own_uid;
  slot = some 1;
  source_endpoint = some "rtp+rs8m://0.0.0.0:10001";
  repair_endpoint = some "rs8m://0.0.0.0:10002";
  control_endpoint = some "rtcp://0.0.0.0:10003";
}

abbrev source : RvEndpointInfo
source = record {
  slot = some 1;
  interface = RvInterface.audio_source;
  uri = "rtp+rs8m://0.0.0.0:10001";
}

-- The third request to bind is not sent.
bind_stops : bind_device no_bytes counting endpoint_options 0 ≡ ((false, source ∷ []), 2)
unfolding bind_device selector connect send_endpoints
bind_stops = refl

abbrev build : RvDriverInfo
build = record { version = "v0.0.3"; commit = "abcdef0" }

enable_device-get_device_example :
    let selected = key_of (RvDeviceSelector.by_uid "0a-1b") in
    ((Manager.get_device host selected
        (enable_device no_bytes (driver host build) by_own_uid one_device).1).0
      ≡ ok (record device.info { enabled = true }))
    × ((Manager.get_device host selected
          (disable_device no_bytes (driver host build) by_own_uid one_device).1).0
        ≡ ok (record device.info { enabled = false }))
unfolding selector key_of
enable_device-get_device_example =
    enable_device-get_device host build no_bytes by_own_uid (RvDeviceSelector.by_uid "0a-1b")
      device.info one_device one_device-IsConsistent refl found_by_uid
