-- ===== src/Driver.antt =====
-- driver/driver.cpp, and how driver/device_manager.hpp lets the device manager be destroyed. The
-- plugin is made, initialized by the HAL once, serves requests and is destroyed. `none` stands for
-- undefined behaviour: a call on an object that was destroyed before.
pub mod Destroy
pub mod Laws
mod Tests
use roc_vad.Prelude.{
  ℕ, zero, suc, ◌-◌, Bool, true, false, List, [], ◌∷◌, Option, none, some, ◌==◌, if◌then◌else◌,
}
use roc_vad.Prelude.Maybe.{◌>>=◌}
use roc_vad.Index.{Allocator, release}
use roc_vad.Transceiver.{close}
use roc_vad.Device.{Device, toggle}
use roc_vad.Manager.{Host, Manager, create}

-- The members of `DeviceManager` that its destruction concerns.
pub data Member : Type 0 where
  device_by_index device_by_uid index_allocator uid_generator device_storage : Member

-- The reverse of the order in which they are declared.
abbrev pub destruction : List Member
destruction =
    device_storage ∷ uid_generator ∷ index_allocator ∷ device_by_uid ∷ device_by_index ∷ []

-- A manager that is being destroyed: its allocator as long as it lives, how many of the two maps live,
-- and the entries that lead to the device objects.
pub record Teardown (W : Type 0) : Type 0 where
  pub allocator : Option Allocator
  pub maps : ℕ
  pub entries : List (ℕ × ℕ)
  pub heap : ℕ → Option Device
  pub outside : W

-- `if (info_.index != 0) index_allocator_.release(info_.index);` of `Device::~Device`.
unfoldable pub release_index : ℕ → Option Allocator → Option (Option Allocator)
release_index zero a = some a
release_index (suc k) none = none
release_index (suc k) (some a) = some (some (release a (suc k)))

module _ {W U D B : Type 0} (host : Host W U D B) where
  -- `Device::~Device`
  unfoldable pub destroy_device : Device → Teardown W → Option (Teardown W)
  destroy_device d t =
      let (off, w) = toggle host.platform d false t.outside in
      release_index d.info.index t.allocator >>= λ a.
      some (record t { allocator = a; outside = close host.platform.roc d.net_transceiver w })

  -- The last reference to each object is dropped.
  unfoldable pub destroy_objects : List (ℕ × ℕ) → Teardown W → Option (Teardown W)
  destroy_objects [] t = some t
  destroy_objects ((i, p) ∷ rest) t = elim (t.heap p) [
    | none ↦ destroy_objects rest t
    | some d ↦ destroy_device d t >>= destroy_objects rest
  ]

  -- An object lives as long as one of the maps holds it.
  unfoldable pub drop_map : Teardown W → Option (Teardown W)
  drop_map t =
      if t.maps == 1
      then destroy_objects t.entries (record t { maps = 0 })
      else some (record t { maps = t.maps - 1 })

  unfoldable pub destroy_member : Member → Teardown W → Option (Teardown W)
  destroy_member device_by_index t = drop_map t
  destroy_member device_by_uid t = drop_map t
  destroy_member index_allocator t = some (record t { allocator = none })
  destroy_member uid_generator t = some t
  destroy_member device_storage t = some t

  unfoldable pub destroy_members : List Member → Teardown W → Option (Teardown W)
  destroy_members [] t = some t
  destroy_members (x ∷ xs) t = destroy_member x t >>= destroy_members xs

  -- The destructor of `DeviceManager`, for an order of destruction.
  unfoldable pub destroy_manager : List Member → Manager W U → Option (Teardown W)
  destroy_manager order m = destroy_members order (record {
    allocator = some m.shared.index_allocator;
    maps = 2;
    entries = m.device_by_index;
    heap = m.heap;
    outside = m.shared.outside;
  })

-- The plugin: whether roc logs to it, the device manager, whether there is a service for it, and
-- whether the RPC server runs; and `outside`, which the manager holds once there is one.
pub record Driver (W U : Type 0) : Type 0 where
  pub log_handler : Bool
  pub device_manager : Option (Manager W U)
  pub driver_service : Bool
  pub rpc_server : Bool
  pub outside : W

module _ {W U D B : Type 0} (host : Host W U D B) where
  -- `Driver::Driver`
  unfoldable pub create_driver : W → Driver W U
  create_driver w = record {
    log_handler = true;
    device_manager = none;
    driver_service = false;
    rpc_server = false;
    outside = w;
  }

  -- `Driver::OnInitialize`; `u` is the new generator of identifiers, and `started` is whether
  -- `BuildAndStart` gives a server, which is not checked.
  unfoldable pub on_initialize : U → Bool → Driver W U → Driver W U
  on_initialize u started d = record d {
    device_manager = some (create host u d.outside);
    driver_service = true;
    rpc_server = started;
  }

  -- The manager goes with the last reference, after the service.
  unfoldable pub drop_manager : Option (Manager W U) → W → Option W
  drop_manager none w = some w
  drop_manager (some m) w = destroy_manager host destruction m >>= λ t. some t.outside

  -- The plugin after its destructor.
  abbrev pub gone : W → Driver W U
  gone w = record {
    log_handler = false;
    device_manager = none;
    driver_service = false;
    rpc_server = false;
    outside = w;
  }

  -- `Driver::~Driver`: the server is shut down, then the service and the manager go, then roc logs no more.
  unfoldable pub destroy_driver : Driver W U → Option (Driver W U)
  destroy_driver d = drop_manager d.device_manager d.outside >>= λ w. some (gone w)
