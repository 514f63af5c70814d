-- ===== src/EnumMap/Tests.antt =====
-- Searches in the tables of common/enum_map.cpp.
use roc_vad.Prelude.{◌≡◌, refl}
use roc_vad.Result.{ok}
use roc_vad.EnumMap.Lookup.{enum_from_rpc, enum_to_rpc}
use roc_vad.EnumMap.Settings.{
  RvInterface, RocInterface, interface_map, RvInterface-discrete, RocInterface-discrete,
}

repair_written :
    enum_to_rpc RocInterface-discrete interface_map RocInterface.audio_repair
    ≡ ok RvInterface.audio_repair
unfolding enum_to_rpc RocInterface-discrete
repair_written = refl

repair_read :
    enum_from_rpc RvInterface-discrete interface_map RvInterface.audio_repair
    ≡ ok RocInterface.audio_repair
unfolding enum_from_rpc RvInterface-discrete
repair_read = refl
