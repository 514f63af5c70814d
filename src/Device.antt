-- ===== src/Device.antt =====
-- driver/device.cpp: a virtual device with its index, its transceiver and its object in the HAL.
-- The model reads an empty `sender_config` or `receiver_config`, which `*` leaves undefined, as the
-- default one. Endpoints that the order of `sort_endpoints_` does not tell apart stay as they came.
mod Taken
pub mod Laws
pub mod Order
pub mod Buffer
pub mod Samples
mod Tests
use Prim.Native.String.{String}
use roc_vad.Prelude.{
  ℕ, ◌≡◌, refl, Bool, true, false, not, ◌&&◌, ◌||◌, List, [], ◌∷◌, ◌++◌, Option, none, some, ltb,
  ◌==◌, if◌then◌else◌, arith,
}
use roc_vad.Prelude.Int.{ℤ, pos, negsuc}
use roc_vad.Result.{Exception, Result, ok, throw, invalid_argument}
use roc_vad.Exec.{Exec, ◌>>=◌, ◌>>◌, and_then, lift, return, each}
use roc_vad.EnumMap.Settings.{RocChannelLayout, RocInterface}
use roc_vad.Defs.{
  DeviceType, DeviceLocalEncoding, DeviceEndpointInfo, DeviceInfo, DeviceSenderConfig,
  DeviceReceiverConfig, default_sender_config, default_receiver_config, is_empty,
}
use roc_vad.Serdes.Endpoint.{is_multitrack}
use roc_vad.Index.{Allocator, allocate_and_acquire, acquire, release}
use roc_vad.Transceiver.{
  Roc, Transceiver, open_sender, open_receiver, close, bind as bind_transceiver,
  connect as connect_transceiver,
}

-- `UidGenerator`, as the device uses it: `generate` once it has returned.
pub record UidSource (U : Type 0) : Type 0 where
  pub generate_uid : U → String × U
  pub filled : (u : U) → is_empty (generate_uid u).0 ≡ false

-- The parameters of the HAL device and its stream that depend on the device.
pub record HalParams : Type 0 where
  pub name : String
  pub device_uid : String
  pub sample_rate : ℕ
  pub channel_count : ℕ
  pub zero_time_stamp_period : ℕ
  pub is_output : Bool

-- libASPL: `create_device` makes the HAL device with its stream and its controls.
pub record Hal (W : Type 0) : Type 0 where
  pub create_device : HalParams → W → ℕ × W
  pub has_device : ℕ → W → Bool
  pub add_device : ℕ → W → W
  pub remove_device : ℕ → W → W

-- What the device calls: roc, libASPL, the identifiers, `std::round(ns / 1e9 * rate)` on floating
-- point numbers, `fmt::format` of a device name, and the values of `roc_interface`.
pub record Platform (W U : Type 0) : Type 0 where
  pub roc : Roc W
  pub hal : Hal W
  pub source : UidSource U
  pub round_samples : ℕ → ℕ → ℕ
  pub default_name : ℕ → String
  pub interface_value : RocInterface → ℕ

-- What the device shares with the others: the index allocator, the generator, and `outside`, the
-- state of the two libraries.
pub record Shared (W U : Type 0) : Type 0 where
  pub index_allocator : Allocator
  pub uid_generator : U
  pub outside : W

pub record Device : Type 0 where
  pub info : DeviceInfo
  pub net_transceiver : Transceiver
  pub hal_device : ℕ

abbrev pub compute_channel_count : RocChannelLayout → Result ℕ
compute_channel_count RocChannelLayout.mono = ok 1
compute_channel_count RocChannelLayout.stereo = ok 2
compute_channel_count _ = throw invalid_argument

-- The channel count of the constructor: that of the message where the layout is multi-track.
unfoldable pub device_channels : DeviceLocalEncoding → Result ℕ
device_channels e =
    if not (is_multitrack e.channel_layout)
    then compute_channel_count e.channel_layout
    else ok e.channel_count

abbrev pub compute_buffer_samples : (ℕ → ℕ → ℕ) → ℤ → ℕ → Result ℕ
compute_buffer_samples round_samples (negsuc n) sample_rate = throw invalid_argument
compute_buffer_samples round_samples (pos n) sample_rate =
    if n == 0 then throw invalid_argument else ok (round_samples n sample_rate)

-- The index of a new device.
unfoldable pub take_device_index : ℕ → Allocator → Result ℕ × Allocator
take_device_index index a =
    let (fresh, b) = allocate_and_acquire a in
    if index == 0
    then (ok fresh, b)
    else elim (acquire a index) [ none ↦ (throw invalid_argument, a) | some b ↦ (ok index, b) ]

module _ {W U : Type 0} (platform : Platform W U) where
  open platform use {roc, hal, source, round_samples, default_name, interface_value}

  abbrev S : Type 0
  S = Shared W U

  -- A computation on the libraries alone.
  abbrev pub outside : {A : Type 0} → Exec W A → Exec S A
  outside step s = let (r, w) = step s.outside in (r, record s { outside = w })

  abbrev pub take_index : ℕ → Exec S ℕ
  take_index index s =
      let (r, a) = take_device_index index s.index_allocator in
      (r, record s { index_allocator = a })

  abbrev pub choose_uid : String → Exec S String
  choose_uid uid s =
      let (fresh, u) = source.generate_uid s.uid_generator in
      if is_empty uid then (ok fresh, record s { uid_generator = u }) else (ok uid, s)

  abbrev pub deref : {A : Type 0} → A → Option A → A
  deref undefined none = undefined
  deref undefined (some a) = a

  abbrev pub open_transceiver : DeviceInfo → Exec W Transceiver
  open_transceiver i = elim i.type [
    | DeviceType.sender ↦
        open_sender roc i.device_encoding (deref default_sender_config i.sender_config)
    | DeviceType.receiver ↦
        open_receiver roc i.device_encoding (deref default_receiver_config i.receiver_config)
  ]

  abbrev pub hal_params : DeviceInfo → HalParams
  hal_params i = record {
    name = i.name;
    device_uid = i.uid;
    sample_rate = i.device_encoding.sample_rate;
    channel_count = i.device_encoding.channel_count;
    zero_time_stamp_period = i.device_encoding.buffer_samples;
    is_output = elim i.type [ DeviceType.sender ↦ true | DeviceType.receiver ↦ false ];
  }

  -- The order of `sort_endpoints_`, and the sort.
  unfoldable pub goes_before : DeviceEndpointInfo → DeviceEndpointInfo → Bool
  goes_before a b =
      if not (a.slot == b.slot)
      then ltb a.slot b.slot
      else ltb (interface_value a.interface) (interface_value b.interface)

  unfoldable pub insert_endpoint :
      DeviceEndpointInfo → List DeviceEndpointInfo → List DeviceEndpointInfo
  insert_endpoint e [] = e ∷ []
  insert_endpoint e (x ∷ xs) =
      let rest = insert_endpoint e xs in if goes_before x e then x ∷ rest else e ∷ x ∷ xs

  unfoldable pub sort_endpoints : List DeviceEndpointInfo → List DeviceEndpointInfo
  sort_endpoints [] = []
  sort_endpoints (e ∷ es) = insert_endpoint e (sort_endpoints es)

  abbrev pub with_sorted : DeviceInfo → DeviceInfo
  with_sorted i = record i {
    local_endpoints = sort_endpoints i.local_endpoints;
    remote_endpoints = sort_endpoints i.remote_endpoints;
  }

  -- `toggle`, on a device and the libraries.
  unfoldable pub toggle : Device → Bool → W → Device × W
  toggle d enabled w =
      let changed = record d { info = record d.info { enabled = enabled } } in
      (
        changed,
        (if enabled
            then (if not (hal.has_device d.hal_device w) then hal.add_device d.hal_device w else w)
            else (if hal.has_device d.hal_device w then hal.remove_device d.hal_device w else w)),
      )

  -- An exception in the constructor destroys what was made: it closes the transceiver.
  abbrev pub close_on_throw : Transceiver → Result (Unit {0}) × W → Result (Unit {0}) × W
  close_on_throw t (ok u, w) = (ok u, w)
  close_on_throw t (throw e, w) = (throw e, close roc t w)

  -- The endpoints of a new device: the local ones are bound, then the remote ones connected.
  unfoldable pub bind_all : Transceiver → DeviceInfo → Exec W (Unit {0})
  bind_all t i w = close_on_throw t (
      and_then (each (bind_transceiver roc t) i.local_endpoints w)
        (λ _. each (connect_transceiver roc t) i.remote_endpoints))

  -- The part of the constructor after the index is taken and the description is complete.
  unfoldable pub start : DeviceInfo → Exec W Device
  start i = do
    t ← open_transceiver i
    hal_device ← λ w. let (h, v) = hal.create_device (hal_params i) w in (ok h, v)
    bind_all t (with_sorted i)
    λ w.
        let (d, v) =
          toggle (record { info = with_sorted i; net_transceiver = t; hal_device = hal_device })
            i.enabled w in
        (ok d, v)

  unfoldable pub construct : DeviceInfo → Exec S Device
  construct i = do
    index ← take_index i.index
    uid ← choose_uid i.uid
    channel_count ← lift (device_channels i.device_encoding)
    buffer_samples ← lift (
        compute_buffer_samples round_samples i.device_encoding.buffer_length_ns
          i.device_encoding.sample_rate)
    outside (
        start (record i {
          index = index;
          uid = uid;
          name = if is_empty i.name then default_name index else i.name;
          device_encoding = record i.device_encoding {
            channel_count = channel_count;
            buffer_samples = buffer_samples;
          };
        }))

  -- The destructor: the device is disabled, its index is released, and its transceiver is closed.
  unfoldable pub destroy : Device → S → S
  destroy d s =
      let (off, w) = toggle d false s.outside in
      let freed =
        if not (d.info.index == 0)
        then release s.index_allocator d.info.index
        else s.index_allocator in
      record s { index_allocator = freed; outside = close roc d.net_transceiver w }

  unfoldable pub bind : Device → DeviceEndpointInfo → W → Result Device × W
  bind d e w = and_then (bind_transceiver roc d.net_transceiver e w) (λ _. return (record d {
    info = with_sorted (record d.info { local_endpoints = d.info.local_endpoints ++ e ∷ [] });
  }))

  unfoldable pub connect : Device → DeviceEndpointInfo → W → Result Device × W
  connect d e w = and_then (connect_transceiver roc d.net_transceiver e w) (λ _. return (record d {
    info = with_sorted (record d.info { remote_endpoints = d.info.remote_endpoints ++ e ∷ [] });
  }))
