-- ===== src/Manager/Table.antt =====
-- What driver/device_manager.cpp promises: a table of devices by index, and what the others may see
-- of its changes.
use roc_vad.Prelude.{ℕ, ◌≡◌, ◌≢◌, Option, none, some, ◌==◌, if◌then◌else◌}
use roc_vad.Defs.{DeviceInfo}

abbrev pub Table : Type 0
Table = ℕ → Option DeviceInfo

-- One change of the table: a device with an index and a UID that are not in use is added, a device is
-- deleted, or it changes and keeps its index and its UID; or the table stays as it is.
pub data Step (t u : Table) : Type 0 where
  unchanged : ((j : ℕ) → u j ≡ t j) → Step t u
  added :
      (n : ℕ) (i : DeviceInfo)
      → i.index ≡ n
      → t n ≡ none
      → ((j : ℕ) (k : DeviceInfo) → t j ≡ some k → k.uid ≢ i.uid)
      → ((j : ℕ) → u j ≡ (if n == j then some i else t j))
      → Step t u
  deleted :
      (n : ℕ) (i : DeviceInfo)
      → t n ≡ some i
      → ((j : ℕ) → u j ≡ (if n == j then none else t j))
      → Step t u
  changed :
      (n : ℕ) (i k : DeviceInfo)
      → t n ≡ some i
      → k.index ≡ i.index
      → k.uid ≡ i.uid
      → ((j : ℕ) → u j ≡ (if n == j then some k else t j))
      → Step t u

-- Any number of changes.
pub data Reach : Table → Table → Type 0 where
  here : (t : Table) → Reach t t
  next : {t u v : Table} → Step t u → Reach u v → Reach t v
