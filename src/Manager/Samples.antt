-- ===== src/Manager/Samples.antt =====
-- A manager with one device, for the runs of driver/device_manager.cpp. The libraries count HAL devices,
-- and the storage is always empty.
use roc_vad.Prelude.{ℕ, ◌≡◌, refl, ap, true, List, [], ◌∷◌, some, none, length, arith}
use roc_vad.Prelude.Int.{ℤ, pos}
use roc_vad.Result.{ok}
use roc_vad.Message.{RvDeviceInfo, RvDeviceType, NetworkConfig}
use roc_vad.EnumMap.Lookup.{enum_to_rpc, enum_from_rpc}
use roc_vad.EnumMap.Settings
use roc_vad.Serdes.Basic
use roc_vad.Serdes.Samples.{clock}
use roc_vad.Serdes.Config.{sender_config_to_rpc, optional_encoding_to_rpc}
use roc_vad.Serdes.Endpoint.{
  endpoint_info_to_rpc, endpoint_info_from_rpc, tracks_from_rpc, tracks_to_rpc,
}
use roc_vad.Serdes.Device.{
  device_info_from_rpc, network_from_rpc, unless_bad, local_encoding_from_rpc, sample_rate_from_rpc,
  device_info_to_rpc, device_list_to_rpc, local_encoding_to_rpc, network_to_rpc, type_to_rpc,
}
use roc_vad.Index.{is_free, create as create_allocator, acquire, set_free, grown, resize}
use roc_vad.Transceiver.{open_sender, choose_encoding, connect, with_endpoint}
use roc_vad.Device
use roc_vad.Device.{
  construct, take_device_index, device_channels, start, bind_all, sort_endpoints, insert_endpoint,
}
use roc_vad.Device.Samples.{platform, wanted, device, five_free}
use roc_vad.Storage.{Storage, load_devices, save_devices}
use roc_vad.Manager.{
  Host, Manager, by_uid, pointer_of, find_key, put, infos, save, blank, create, add_each,
  make_device, get_device, add_device,
}
use roc_vad.Manager.Commands.{
  Command, add, toggle, delete, history, AllAllowed, get_device-add_device, run-create-Reach,
}
use roc_vad.Manager.Consistent.{IsConsistent}

abbrev pub no_storage : Storage ℕ ℤ (List (RvDeviceInfo ℤ))
no_storage = record {
  read_bytes = λ w. none;
  write_bytes = λ bytes w. (true, w);
  size = λ bytes. length bytes;
  serialize = λ msg. msg;
  parse_from_array = λ bytes. some bytes;
}

abbrev pub host : Host ℕ ℕ ℤ (List (RvDeviceInfo ℤ))
host = record { platform = platform; storage = no_storage; time = clock; default_slot = 0 }

abbrev pub empty : Manager ℕ ℕ
empty = blank host 0 0

abbrev pub commands : List Command
commands = add wanted ∷ toggle (by_uid "0a-1b") true ∷ delete (by_uid "0a-1b") ∷ []

pub commands_allowed : AllAllowed host (history host 0 commands) empty
unfolding load_devices
commands_allowed = ((5, omega arith, five_free, omega arith, λ e. refl), (tt, (tt, tt)))

-- The manager with the device.
abbrev pub one_device : Manager ℕ ℕ
one_device = (add_device host wanted empty).1

pub one_device-IsConsistent : IsConsistent one_device
unfolding load_devices create add_each
one_device-IsConsistent =
    (run-create-Reach host 0 0 (add wanted ∷ [])
      ((5, omega arith, five_free, omega arith, λ e. refl), tt)).0

pub device_added : (add_device host wanted empty).0 ≡ ok device.info
unfolding add_device make_device find_key put infos save save_devices device_list_to_rpc
    device_info_to_rpc local_encoding_to_rpc network_to_rpc sender_config_to_rpc
    optional_encoding_to_rpc tracks_to_rpc endpoint_info_to_rpc type_to_rpc enum_to_rpc
    Basic.channel_layout_to_rpc Basic.interface_to_rpc Basic.fec_encoding_to_rpc
    Basic.latency_tuner_backend_to_rpc Basic.latency_tuner_profile_to_rpc
    Basic.resampler_backend_to_rpc Basic.resampler_profile_to_rpc Settings.RocChannelLayout-discrete
    Settings.RocInterface-discrete Settings.RocFecEncoding-discrete
    Settings.RocLatencyTunerBackend-discrete Settings.RocLatencyTunerProfile-discrete
    Settings.RocResamplerBackend-discrete Settings.RocResamplerProfile-discrete construct
    take_device_index acquire is_free create_allocator set_free grown resize device_channels start
    open_sender choose_encoding bind_all sort_endpoints insert_endpoint connect with_endpoint
    Device.toggle
device_added = refl

pub found_by_uid : (get_device host (by_uid "0a-1b") one_device).0 ≡ ok device.info
found_by_uid = ap (λ p. p.0) (get_device-add_device host wanted device.info empty device_added).1

pub unknown_uid : pointer_of host (by_uid "ff") one_device ≡ none
unfolding add_device make_device find_key put infos save save_devices device_list_to_rpc
    device_info_to_rpc local_encoding_to_rpc network_to_rpc sender_config_to_rpc
    optional_encoding_to_rpc tracks_to_rpc endpoint_info_to_rpc type_to_rpc enum_to_rpc
    Basic.channel_layout_to_rpc Basic.interface_to_rpc Basic.fec_encoding_to_rpc
    Basic.latency_tuner_backend_to_rpc Basic.latency_tuner_profile_to_rpc
    Basic.resampler_backend_to_rpc Basic.resampler_profile_to_rpc Settings.RocChannelLayout-discrete
    Settings.RocInterface-discrete Settings.RocFecEncoding-discrete
    Settings.RocLatencyTunerBackend-discrete Settings.RocLatencyTunerProfile-discrete
    Settings.RocResamplerBackend-discrete Settings.RocResamplerProfile-discrete construct
    take_device_index acquire is_free create_allocator set_free grown resize device_channels start
    open_sender choose_encoding bind_all sort_endpoints insert_endpoint connect with_endpoint
    Device.toggle
unknown_uid = refl

-- The request for the device, and the reply.
abbrev pub request : RvDeviceInfo ℤ
request = record {
  type = RvDeviceType.sender;
  index = some 5;
  uid = none;
  name = some "desk";
  enabled = none;
  device_encoding = record {
    sample_rate = none;
    channel_layout = none;
    track_count = none;
    buffer_length = none;
  };
  network_config = NetworkConfig.unset;
  local_endpoints = [];
  remote_endpoints =
      record {
        slot = none;
        interface = Settings.RvInterface.audio_source;
        uri = "rtp://10.0.0.1:5000";
      }
      ∷ [];
}

pub wanted_read : device_info_from_rpc clock 0 request ≡ ok wanted
unfolding device_info_from_rpc network_from_rpc unless_bad local_encoding_from_rpc
    sample_rate_from_rpc tracks_from_rpc endpoint_info_from_rpc enum_from_rpc
    Basic.interface_from_rpc Settings.RvInterface-discrete
wanted_read = refl

abbrev pub device_message : RvDeviceInfo ℤ
device_message = record {
  type = RvDeviceType.sender;
  index = some 5;
  uid = some "0a-1b";
  name = some "desk";
  enabled = some true;
  device_encoding = record {
    sample_rate = some 44100;
    channel_layout = some Settings.RvChannelLayout.stereo;
    track_count = none;
    buffer_length = some (pos 60_000_000);
  };
  network_config = NetworkConfig.sender_config (record {
    packet_encoding = none;
    packet_length = some (pos 0);
    fec_encoding = some Settings.RvFecEncoding.rs8m;
    fec_block_source_packets = some 0;
    fec_block_repair_packets = some 0;
    latency_tuner_backend = some Settings.RvLatencyTunerBackend.default;
    latency_tuner_profile = some Settings.RvLatencyTunerProfile.default;
    resampler_backend = some Settings.RvResamplerBackend.default;
    resampler_profile = some Settings.RvResamplerProfile.default;
    target_latency = some (pos 0);
    latency_tolerance = some (pos 0);
    max_packet_size = some 0;
  });
  local_endpoints = [];
  remote_endpoints =
      record {
        slot = some 0;
        interface = Settings.RvInterface.audio_source;
        uri = "rtp://10.0.0.1:5000";
      }
      ∷ [];
}

pub message_written : device_info_to_rpc clock device.info ≡ ok device_message
unfolding device_info_to_rpc local_encoding_to_rpc network_to_rpc sender_config_to_rpc
    optional_encoding_to_rpc tracks_to_rpc endpoint_info_to_rpc type_to_rpc enum_to_rpc
    Basic.channel_layout_to_rpc Basic.interface_to_rpc Basic.fec_encoding_to_rpc
    Basic.latency_tuner_backend_to_rpc Basic.latency_tuner_profile_to_rpc
    Basic.resampler_backend_to_rpc Basic.resampler_profile_to_rpc Settings.RocChannelLayout-discrete
    Settings.RocInterface-discrete Settings.RocFecEncoding-discrete
    Settings.RocLatencyTunerBackend-discrete Settings.RocLatencyTunerProfile-discrete
    Settings.RocResamplerBackend-discrete Settings.RocResamplerProfile-discrete
message_written = refl
