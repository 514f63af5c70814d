-- ===== src/Transceiver/Laws.antt =====
-- What driver/sender.cpp and driver/receiver.cpp do with endpoints of roc.
use roc_vad.Prelude.{ℕ, suc, ◌-◌, ◌≡◌, ◌⊎◌, none, some}
use Prim.Native.String.{String}
use roc_vad.Result.{Result, ok, throw, invalid_argument, runtime_error}
use roc_vad.EnumMap.Settings.{RocInterface}
use roc_vad.Transceiver.{Roc, Transceiver}

-- `count` tells how many endpoints are allocated, as roc/endpoint.h has it.
pub record CountsEndpoints {W : Type 0} (roc : Roc W) (count : W → ℕ) : Type 0 where
  pub allocated :
      (w : W)
      → count (roc.endpoint_allocate w).1
        ≡ elim (roc.endpoint_allocate w).0 [ some h ↦ suc (count w) | none ↦ count w ]
  pub uri_kept : (h : ℕ) (uri : String) (w : W) → count (roc.endpoint_set_uri h uri w).1 ≡ count w
  pub connect_kept :
      (s slot : ℕ) (i : RocInterface) (h : ℕ) (w : W)
      → count (roc.sender_connect s slot i h w).1 ≡ count w
  pub bind_kept :
      (r slot : ℕ) (i : RocInterface) (h : ℕ) (w : W)
      → count (roc.receiver_bind r slot i h w).1 ≡ count w
  pub deallocated : (h : ℕ) (w : W) → count (roc.endpoint_deallocate h w) ≡ count w - 1

module _ {W : Type 0} (roc : Roc W) (count : W → ℕ) (counts : CountsEndpoints roc count) where
  -- The endpoint is given back on success; it is lost where its URI or its use is refused.
  abbrev pub Balanced : Result (Unit {0}) × W → W → Type 0
  Balanced (r, v) w =
      ((r ≡ ok tt) × (count v ≡ count w))
      ⊎ (((r ≡ throw runtime_error) × (count v ≡ count w))
          ⊎ ((r ≡ throw invalid_argument) × (count v ≡ suc (count w))))
