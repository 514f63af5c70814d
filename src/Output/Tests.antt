-- ===== src/Output/Tests.antt =====
-- Runs of tool/format.cpp and tool/print.cpp.
use Prim.Native.Char.{code}
use Prim.Native.String.{String, ◌++◌}
use roc_vad.Prelude.{ℕ, ◌+◌, ◌/◌, ◌≡◌, ◌⊎◌, refl, Bool, List, [], ◌∷◌, some, none, ◌==◌}
use roc_vad.Prelude.Int.{ℤ, pos, negsuc}
use roc_vad.Result.{throw, invalid_argument}
use roc_vad.EnumMap.Lookup.{enum_from_rpc, parse_enum}
use roc_vad.EnumMap.Settings.{
  RvInterface, interface_map, RvInterface-discrete, RocInterface-discrete,
}
use roc_vad.EnumMap.Tables.{interface_map-one_to_one}
use roc_vad.Message.{RvEndpointInfo}
use roc_vad.Parse.{Text}
use roc_vad.Serdes.Samples.{clock}
use roc_vad.Output.{
  Arg, num, str, quotient, println, Format, choose_unit, unit_of, to_string, format_size,
  format_nanoseconds, format_enum,
}
use roc_vad.Output.FormatLaws.{magnitude, parse_enum-format_enum}
use roc_vad.Output.Endpoints.{
  interface_number, collect, sort_slots, print_slots, print_slot, add_endpoint, push_back,
  insert_sorted, sort_slot, print_endpoint_list,
}
use roc_vad.Output.Entries.{Entry}

abbrev codes : String → Text
codes String.[] = []
codes (String.◌∷◌ c s) = code c ∷ codes s

-- Whole numbers alone are printed in full.
abbrev signed_text : ℤ → ℕ → String
signed_text (pos n) m = to_string (n / m)
signed_text (negsuc n) m = "-" ++ to_string ((n + 1) / m)

abbrev plain_format : String → List Arg → String
plain_format text (quotient n m ∷ str s ∷ []) = signed_text n m ++ s
plain_format text (num n ∷ []) = "unknown (" ++ to_string n ++ ")"
plain_format text args = text

abbrev absolute : ℤ → ℤ
absolute n = pos (magnitude n)

abbrev fmt : Format ℤ
fmt = record { format = plain_format; time = clock; unset_duration = pos 0; abs = absolute }

size_run : format_size 1200 ≡ "1200"
unfolding format_size to_string
size_run = refl

duration_run : format_nanoseconds fmt (pos 90_000_000_000) ≡ "1m"
unfolding format_nanoseconds unit_of choose_unit to_string
duration_run = refl

parse_enum-format_enum_example :
    (parse_enum interface_map (
        format_enum fmt RvInterface-discrete interface_number interface_map
          RvInterface.audio_repair)
      ≡ some RvInterface.audio_repair)
    ⊎ ((enum_from_rpc RvInterface-discrete interface_map RvInterface.audio_repair
          ≡ throw invalid_argument)
        × (format_enum fmt RvInterface-discrete interface_number interface_map
              RvInterface.audio_repair
            ≡ fmt.format "unknown ({})" (num (interface_number RvInterface.audio_repair) ∷ [])))
parse_enum-format_enum_example =
    parse_enum-format_enum fmt RvInterface-discrete RocInterface-discrete interface_number
      interface_map RvInterface.audio_repair interface_map-one_to_one

abbrev endpoints : List RvEndpointInfo
endpoints =
    record { slot = some 2; interface = RvInterface.audio_repair; uri = "rs8m://host:2" }
    ∷ record { slot = none; interface = RvInterface.audio_control; uri = "rtcp://host:3" }
    ∷ record { slot = some 2; interface = RvInterface.audio_source; uri = "rtp+rs8m://host:1" }
    ∷ []

endpoints_run :
    print_endpoint_list fmt endpoints
    ≡ println "    slot {}:" (num 0 ∷ [])
      ∷ println "      {:<14} {}" (str "audioctl:" ∷ str "rtcp://host:3" ∷ [])
      ∷ println "" []
      ∷ println "    slot {}:" (num 2 ∷ [])
      ∷ println "      {:<14} {}" (str "audiosrc:" ∷ str "rtp+rs8m://host:1" ∷ [])
      ∷ println "      {:<14} {}" (str "audiorpr:" ∷ str "rs8m://host:2" ∷ [])
      ∷ []
unfolding print_endpoint_list collect sort_slots print_slots print_slot add_endpoint push_back
    insert_sorted sort_slot interface_number format_enum RvInterface-discrete
endpoints_run = refl

abbrev in_slot_2 : Entry → Bool
in_slot_2 (slot, endpoint) = slot == 2
