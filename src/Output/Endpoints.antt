-- ===== src/Output/Endpoints.antt =====
-- The endpoints of a device in tool/print.cpp. The table by slot is a `std::map`, here the list of its
-- entries in the order of the slots. `std::sort` leaves endpoints of one interface in any order;
-- here they stay as they came.
use Prim.Native.String.{String, ◌++◌}
use roc_vad.Prelude.{ℕ, Bool, true, false, List, [], ◌∷◌, ltb, ◌==◌, if◌then◌else◌}
use roc_vad.EnumMap.Settings.{RvInterface, interface_map, RvInterface-discrete}
use roc_vad.Message.{RvEndpointInfo}
use roc_vad.Serdes.Basic.{or_kept}
use roc_vad.Output.{num, str, Line, println, Format, format_enum}

-- The numbers of `RvInterface`.
unfoldable pub interface_number : RvInterface → ℕ
interface_number RvInterface.consolidated = 0
interface_number RvInterface.audio_source = 1
interface_number RvInterface.audio_repair = 2
interface_number RvInterface.audio_control = 3
interface_number (RvInterface.other n) = n

-- `slot()`, and an entry of a slot.
abbrev pub slot_of : RvEndpointInfo → ℕ
slot_of e = or_kept e.slot 0

abbrev pub SlotEndpoint : Type 0
SlotEndpoint = RvInterface × String

abbrev pub EndpointTable : Type 0
EndpointTable = List (ℕ × List SlotEndpoint)

-- `slot_endpoints.push_back(endpoint)`
unfoldable pub push_back : SlotEndpoint → List SlotEndpoint → List SlotEndpoint
push_back e [] = e ∷ []
push_back e (x ∷ xs) = x ∷ push_back e xs

-- `endpoint_table[slot].push_back(endpoint)`
unfoldable pub add_endpoint : ℕ → SlotEndpoint → EndpointTable → EndpointTable
add_endpoint slot e [] = (slot, e ∷ []) ∷ []
add_endpoint slot e ((s, es) ∷ table) =
    if ltb slot s
    then (slot, e ∷ []) ∷ (s, es) ∷ table
    else (if slot == s then (s, push_back e es) ∷ table else (s, es) ∷ add_endpoint slot e table)

unfoldable pub collect : List RvEndpointInfo → EndpointTable → EndpointTable
collect [] table = table
collect (e ∷ es) table = collect es (add_endpoint (slot_of e) (e.interface, e.uri) table)

-- The sort of a slot by interface.
unfoldable pub insert_sorted : SlotEndpoint → List SlotEndpoint → List SlotEndpoint
insert_sorted (i, uri) [] = (i, uri) ∷ []
insert_sorted (i, uri) ((j, other) ∷ es) =
    let rest = insert_sorted (i, uri) es in
    if ltb (interface_number j) (interface_number i)
    then (j, other) ∷ rest
    else (i, uri) ∷ (j, other) ∷ es

unfoldable pub sort_slot : List SlotEndpoint → List SlotEndpoint
sort_slot [] = []
sort_slot (e ∷ es) = insert_sorted e (sort_slot es)

unfoldable pub sort_slots : EndpointTable → EndpointTable
sort_slots [] = []
sort_slots ((slot, es) ∷ table) = (slot, sort_slot es) ∷ sort_slots table

module _ {D : Type 0} (fmt : Format D) where
  abbrev pub shown_interface : RvInterface → String
  shown_interface i = format_enum fmt RvInterface-discrete interface_number interface_map i

  unfoldable pub print_slot : List SlotEndpoint → List Line → List Line
  print_slot [] rest = rest
  print_slot ((interface, uri) ∷ es) rest =
      println "      {:<14} {}" (str (shown_interface interface ++ ":") ∷ str uri ∷ [])
      ∷ print_slot es rest

  -- The loop over the table; between two slots stands an empty line.
  unfoldable pub print_slots : Bool → EndpointTable → List Line
  print_slots is_first [] = []
  print_slots is_first ((slot, es) ∷ table) =
      let lines =
        println "    slot {}:" (num slot ∷ []) ∷ print_slot es (print_slots false table) in
      if is_first then lines else println "" [] ∷ lines

  unfoldable pub print_endpoint_list : List RvEndpointInfo → List Line
  print_endpoint_list endpoint_list = print_slots true (sort_slots (collect endpoint_list []))

  unfoldable pub print_endpoint_info : RvEndpointInfo → List Line
  print_endpoint_info e =
      println "endpoint:" []
      ∷ println "  slot:       {}" (num (slot_of e) ∷ [])
      ∷ println "  interface:  {}" (str (shown_interface e.interface) ∷ [])
      ∷ println "  uri:        {}" (str e.uri ∷ [])
      ∷ []
