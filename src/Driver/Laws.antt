-- ===== src/Driver/Laws.antt =====
-- The life cycle of driver/driver.cpp.
use roc_vad.Prelude.{ℕ, ◌≡◌, ◌≢◌, ◌⊎◌, Bool, true, false, List, [], Option, none, some}
use roc_vad.Manager.{Host, Manager, blank}
use roc_vad.Manager.Consistent.{IsConsistent}
use roc_vad.Manager.Commands.{Command, perform, Allowed, AllAllowed, history}
use roc_vad.Driver.{Driver, on_initialize}

module _ {W U D B : Type 0} (host : Host W U D B) where
  -- What the manager of a plugin still holds.
  abbrev pub entries_of : Option (Manager W U) → List (ℕ × ℕ)
  entries_of none = []
  entries_of (some m) = m.device_by_index

  -- A request on the manager that the service holds; there is none with a null pointer.
  abbrev pub serve_request : Command → Option (Manager W U) → Driver W U → Option (Driver W U)
  serve_request c none d = none
  serve_request c (some m) d = some (record d { device_manager = some (perform host c m) })

  abbrev pub AllowedFor : Command → Option (Manager W U) → Type 0
  AllowedFor c none = Unit
  AllowedFor c (some m) = Allowed host c m

  -- The life of a plugin: the HAL initializes it once, and from then on the server passes requests to
  -- the manager.
  pub data Step (d : Driver W U) : Driver W U → Type 0 where
    initialize :
        (u : U) (started : Bool)
        → d.device_manager ≡ none
        → AllAllowed host (history host d.outside []) (blank host u d.outside)
        → Step d (on_initialize host u started d)
    serve :
        {e : Driver W U} (c : Command)
        → d.rpc_server ≡ true
        → serve_request c d.device_manager d ≡ some e
        → AllowedFor c d.device_manager
        → Step d e

  pub data Life (d : Driver W U) : Driver W U → Type 0 where
    start : Life d d
    then_step : {e f : Driver W U} → Life d e → Step e f → Life d f

  -- The server runs only with a service, and the service only with a manager, which is consistent.
  abbrev pub IsWiredTo : Option (Manager W U) → Driver W U → Type 0
  IsWiredTo none d = (d.driver_service ≡ false) × (d.rpc_server ≡ false)
  IsWiredTo (some m) d = IsConsistent m

  abbrev pub IsWired : Driver W U → Type 0
  IsWired d = IsWiredTo d.device_manager d

  -- A request finds a manager, and it is consistent; or the server does not run.
  abbrev pub IsServing : Command → Driver W U → Type 0
  IsServing c d =
      (d.rpc_server ≡ false) ⊎ ((e : Driver W U) × (serve_request c d.device_manager d ≡ some e))

  -- The destructor returns, or it meets an object that is destroyed.
  abbrev pub IsDestroyed : List (ℕ × ℕ) → Option (Driver W U) → Type 0
  IsDestroyed entries r =
      ((entries ≡ []) × (e : Driver W U) × (r ≡ some e)) ⊎ ((entries ≢ []) × (r ≡ none))
