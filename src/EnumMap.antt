-- ===== src/EnumMap.antt =====
-- common/enum_map.hpp and common/enum_map.cpp, with the searches that read the tables.
pub mod Lookup
pub mod Settings
pub mod SampleFormat
pub mod Laws
pub mod Tables
mod Tests
