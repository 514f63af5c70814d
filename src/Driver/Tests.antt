-- ===== src/Driver/Tests.antt =====
-- The life of a plugin with one stored device, and its end.
use roc_vad.Prelude.{true, ℕ, some}
use roc_vad.Driver.{Driver, create_driver, on_initialize}
use roc_vad.Manager.{Manager}
use roc_vad.Manager.Samples.{host, one_device}

abbrev plugin : Driver ℕ ℕ
plugin = record (on_initialize host 0 true (create_driver host 0)) {
  device_manager = some one_device;
}
