-- ===== src/Log/Cat.antt =====
-- tool/cmd_logcat.cpp: the log of the driver on the terminal, over any number of connections. The
-- endless loop runs on the list of what its attempts to connect meet.
use roc_vad.Prelude.{
  ℕ, Bool, true, not, List, [], ◌∷◌, ◌++◌, Option, none, some, map, if◌then◌else◌,
}
use roc_vad.Log.{Level, RvLevel, RvLogEntry}

unfoldable pub map_level : RvLevel → Level
map_level RvLevel.crit = Level.critical
map_level RvLevel.error = Level.err
map_level RvLevel.warn = Level.warn
map_level RvLevel.info = Level.info
map_level RvLevel.debug = Level.debug
map_level _ = Level.trace

-- What is printed: the three notices, and a log line with its time, level and text.
pub data Printed : Type 0 where
  waiting restored lost : Printed
  line : ℕ → Level → List ℕ → Printed

abbrev pub print_entry : RvLogEntry → Printed
print_entry e = line e.time (map_level e.level) e.text

-- `session_`: the entries up to the first `Read` that fails.
unfoldable pub session : List RvLogEntry → List Printed
session entries = map print_entry entries

-- One attempt fails to connect, or reads entries until the connection is lost.
abbrev pub Attempt : Type 0
Attempt = Option (List RvLogEntry)

unfoldable pub run : Bool → Bool → List Attempt → List Printed
run has_tried has_connected [] = []
run has_tried has_connected (none ∷ rest) =
    let later = run true has_connected rest in if not has_tried then waiting ∷ later else later
run has_tried has_connected (some entries ∷ rest) =
    let own = session entries ++ lost ∷ run true true rest in
    if has_connected then restored ∷ own else own
