-- ===== src/Manager.antt =====
-- driver/device_manager.cpp: the table of devices. Its two maps share the device objects, which are
-- kept in `heap` at their pointers; an object that no map holds any more is destroyed and leaves the
-- heap. Each operation runs under the mutex, so that it is one step. The operations that take an
-- index or a UID take a `Key`. The assertions are no steps of the model.
pub mod Lookup
pub mod Consistent
pub mod Table
pub mod View
pub mod Refine
pub mod Allot
pub mod Commands
pub mod Queries
pub mod Growth
pub mod Restart
pub mod Samples
mod Tests
use Prim.Native.String.{String}
use text.Mathlib.Text.{◌==◌ as str_eq}
use roc_vad.Prelude.{
  ℕ, suc, Bool, true, false, not, ◌&&◌, List, [], ◌∷◌, Option, none, some, ltb, ◌==◌, if◌then◌else◌,
}
use roc_vad.Result.{Result, ok, throw, invalid_argument, other_exception}
use roc_vad.Exec.{Exec, and_then}
use roc_vad.Defs.{DeviceEndpointInfo, DeviceInfo, is_empty}
use roc_vad.Serdes.Basic.{TimeUtil}
use roc_vad.Index.{Allocator}
use roc_vad.Index
use roc_vad.Device.{Platform, Shared, Device, construct, destroy}
use roc_vad.Device
use roc_vad.Storage.{Storage, load_devices, save_devices}

-- What the manager runs on.
pub record Host (W U D B : Type 0) : Type 0 where
  pub platform : Platform W U
  pub storage : Storage W D B
  pub time : TimeUtil D
  pub default_slot : ℕ

-- `device_by_index_` is a `std::map` and `device_by_uid_` a `std::unordered_map`; both lead to a
-- pointer into `heap`, whose free places begin at `next`.
pub record Manager (W U : Type 0) : Type 0 where
  pub device_by_index : List (ℕ × ℕ)
  pub device_by_uid : String → Option ℕ
  pub heap : ℕ → Option Device
  pub next : ℕ
  pub shared : Shared W U

-- How a device is named in a request.
pub data Key : Type 0 where
  by_index : ℕ → Key
  by_uid : String → Key

-- `find`, `operator[]` and `erase` of a `std::map`, whose entries stand in the order of the keys.
unfoldable pub find_key : ℕ → List (ℕ × ℕ) → Option ℕ
find_key k [] = none
find_key k ((j, p) ∷ m) = if j == k then some p else find_key k m

unfoldable pub put : ℕ → ℕ → List (ℕ × ℕ) → List (ℕ × ℕ)
put k p [] = (k, p) ∷ []
put k p ((j, q) ∷ m) =
    let rest = put k p m in
    if ltb k j then (k, p) ∷ (j, q) ∷ m else (if j == k then (k, p) ∷ m else (j, q) ∷ rest)

unfoldable pub erase : ℕ → List (ℕ × ℕ) → List (ℕ × ℕ)
erase k [] = []
erase k ((j, p) ∷ m) = let rest = erase k m in if j == k then rest else (j, p) ∷ rest

abbrev pub is_some {ℓ} : {A : Type ℓ} → Option A → Bool
is_some none = false
is_some (some a) = true

-- The descriptions of the devices, in the order of `device_by_index_`.
unfoldable pub infos : (ℕ → Option Device) → List (ℕ × ℕ) → List DeviceInfo
infos heap [] = []
infos heap ((i, p) ∷ m) =
    let rest = infos heap m in elim (heap p) [ none ↦ rest | some d ↦ d.info ∷ rest ]

module _ {W U : Type 0} where
  -- A changed device object.
  abbrev pub store : ℕ → Device → Manager W U → Manager W U
  store p d m = record m { heap = λ q. if q == p then some d else m.heap q }

  -- A new object that both maps lead to.
  abbrev pub insert : Device → Manager W U → Manager W U
  insert d m = record m {
    device_by_index = put d.info.index m.next m.device_by_index;
    device_by_uid = λ u. if str_eq u d.info.uid then some m.next else m.device_by_uid u;
    heap = λ q. if q == m.next then some d else m.heap q;
    next = suc m.next;
  }

  -- `erase` on both maps; the object lives on.
  abbrev pub forget : Device → Manager W U → Manager W U
  forget d m = record m {
    device_by_index = erase d.info.index m.device_by_index;
    device_by_uid = λ u. if str_eq u d.info.uid then none else m.device_by_uid u;
  }

module _ {W U D B : Type 0} (host : Host W U D B) where
  abbrev M : Type 0
  M = Manager W U

  abbrev pub with_outside : M → W → M
  with_outside m w = record m { shared = record m.shared { outside = w } }

  -- `get_all_devices`
  abbrev pub get_all_devices : M → List DeviceInfo
  get_all_devices m = infos m.heap m.device_by_index

  -- `save_devices_`
  unfoldable pub save : Exec M (Unit {0})
  save m =
      let (r, w) =
        save_devices host.storage host.time host.default_slot (get_all_devices m)
          m.shared.outside in
      (r, with_outside m w)

  abbrev pub pointer_of : Key → M → Option ℕ
  pointer_of (by_index i) m = find_key i m.device_by_index
  pointer_of (by_uid u) m = m.device_by_uid u

  -- `find_device_`. `other_exception` stands for the null pointer that its assertion rules out.
  abbrev pub deref : Option ℕ → Exec M (ℕ × Device)
  deref none m = (throw invalid_argument, m)
  deref (some p) m = elim (m.heap p) [ none ↦ (throw other_exception, m) | some d ↦ (ok (p, d), m) ]

  abbrev pub find_device : Key → Exec M (ℕ × Device)
  find_device key m = deref (pointer_of key m) m

  unfoldable pub get_device : Key → Exec M DeviceInfo
  get_device key m = and_then (find_device key m) (λ (p, d) n. (ok d.info, n))

  -- The last `shared_ptr` goes out of scope.
  abbrev pub drop_object : ℕ → Device → M → M
  drop_object p d m = record m {
    heap = λ q. if q == p then none else m.heap q;
    shared = destroy host.platform d m.shared;
  }

  unfoldable pub make_device : DeviceInfo → Exec M Device
  make_device info m =
      let (r, s) = construct host.platform info m.shared in (r, record m { shared = s })

  unfoldable pub add_device : DeviceInfo → Exec M DeviceInfo
  add_device info m =
      if not (info.index == 0) && is_some (find_key info.index m.device_by_index)
      then (throw invalid_argument, m)
      else (if not (is_empty info.uid) && is_some (m.device_by_uid info.uid)
          then (throw invalid_argument, m)
          else and_then (make_device info m)
              (λ d n. and_then (save (insert d n)) (λ _ k. (ok d.info, k))))

  unfoldable pub delete_device : Key → Exec M (Unit {0})
  delete_device key m =
      and_then (find_device key m)
        (λ (p, d) n. let (r, k) = save (forget d n) in (r, drop_object p d k))

  unfoldable pub toggle_device : Key → Bool → Exec M (Unit {0})
  toggle_device key enabled m = and_then (find_device key m) (λ (p, d) n.
      let (changed, w) = Device.toggle host.platform d enabled n.shared.outside in
      save (store p changed (with_outside n w)))

  -- `bind` and `connect` differ in what the device does.
  abbrev pub change_endpoints :
      (Device → DeviceEndpointInfo → W → Result Device × W)
      → Key
      → DeviceEndpointInfo
      → Exec M DeviceEndpointInfo
  change_endpoints change key endpoint m = and_then (find_device key m) (λ (p, d) n.
      let (r, w) = change d endpoint n.shared.outside in
      and_then (r, with_outside n w)
        (λ changed k. and_then (save (store p changed k)) (λ _ l. (ok endpoint, l))))

  unfoldable pub bind_device : Key → DeviceEndpointInfo → Exec M DeviceEndpointInfo
  bind_device = change_endpoints (Device.bind host.platform)

  unfoldable pub connect_device : Key → DeviceEndpointInfo → Exec M DeviceEndpointInfo
  connect_device = change_endpoints (Device.connect host.platform)

  -- `load_devices_` adds each stored device, and goes on where one is refused.
  unfoldable pub add_each : List DeviceInfo → M → M
  add_each [] m = m
  add_each (info ∷ rest) m = add_each rest (add_device info m).1

  abbrev pub blank : U → W → M
  blank u w = record {
    device_by_index = [];
    device_by_uid = λ uid. none;
    heap = λ p. none;
    next = 0;
    shared = record { index_allocator = Index.create; uid_generator = u; outside = w };
  }

  -- The constructor, with the generator and the libraries as they are.
  unfoldable pub create : U → W → M
  create u w = add_each (load_devices host.storage host.time host.default_slot w) (blank u w)
