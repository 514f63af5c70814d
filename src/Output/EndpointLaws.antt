-- ===== src/Output/EndpointLaws.antt =====
-- What `device show` prints of the endpoints, in tool/print.cpp.
use Prim.Native.String.{String, ◌++◌}
use roc_vad.Prelude.{ℕ, List, [], ◌∷◌}
use roc_vad.Output.{num, str, Line, println, Format}
use roc_vad.Output.Endpoints.{shown_interface}
use roc_vad.Output.Entries.{Entry}

-- An endpoint as it is shown: its slot, its interface with a colon, and its URI.
abbrev pub Shown : Type 0
Shown = ℕ × String × String

-- The endpoints on the lines: one with a number heads a slot, one with two texts is an endpoint of the
-- slot that was headed last.
abbrev pub read_lines : ℕ → List Line → List Shown
read_lines slot [] = []
read_lines slot (println text (num s ∷ []) ∷ rest) = read_lines s rest
read_lines slot (println text (str interface ∷ str uri ∷ []) ∷ rest) =
    (slot, interface, uri) ∷ read_lines slot rest
read_lines slot (line ∷ rest) = read_lines slot rest

abbrev pub headings : List Line → List ℕ
headings [] = []
headings (println text (num s ∷ []) ∷ rest) = s ∷ headings rest
headings (line ∷ rest) = headings rest

module _ {D : Type 0} (fmt : Format D) where
  abbrev pub shown : Entry → Shown
  shown (slot, (i, uri)) = (slot, shown_interface fmt i ++ ":", uri)
