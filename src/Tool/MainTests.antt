-- ===== src/Tool/MainTests.antt =====
-- Runs of the command line of the tool: of compound commands, and of uninstall.
use roc_vad.Prelude.{ℕ, ◌+◌, ◌≡◌, ◌⊎◌, refl, [], ◌∷◌, Bool, true, false, not, some, none}
use roc_vad.Prelude.Int.{pos}
use roc_vad.Tool.Cli.{
  Cmd, Cmds, single, compound, nil, cons, execute, run_main, color_mode, never, always, parsed,
  leaves, run_first, execute-run_first,
}
use roc_vad.Tool.Uninstall.{
  Target, driver_bundle, tool, Files, uninstall, uninstall_lem, nothing_removed, needs_root,
  everything_removed, remove_path, final_message, count_removed,
}

-- A command that adds a number to the state, and succeeds.
abbrev add : Bool → ℕ → Cmd ℕ
add given n = single given (λ w. (true, w + n))

-- Of the three commands, the second was parsed; it is in a compound of its own.
abbrev nested : Cmds ℕ
nested = cons (add false 1) (cons (compound (cons (add true 20) nil)) (cons (add false 300) nil))

nested_runs : run_main (compound nested) 4 ≡ (0, 24)
unfolding run_main execute parsed
nested_runs = refl

missing_subcommand : run_main (compound (cons (add false 1) nil)) 4 ≡ (1, 4)
unfolding run_main execute parsed
missing_subcommand = refl

-- `-n` wins over `-C`, which wins over the variables.
color_flags :
    (color_mode (λ text. pos 0) true true none none ≡ never)
    × (color_mode (λ text. pos 1) false false (some (49 ∷ [])) none ≡ always)
unfolding color_mode
color_flags = (refl, refl)

execute-run_first_example : execute (compound nested) 4 ≡ run_first (leaves (compound nested)) 4
execute-run_first_example = execute-run_first nested 4

-- A file system that counts the calls; the driver has three files, and the tool one. With `broken`, the
-- driver cannot be removed.
abbrev removed : Bool → Target → ℕ → (ℕ × Bool) × ℕ
removed broken driver_bundle w = ((3, broken), w + 1)
removed broken tool w = ((1, false), w + 1)

abbrev disk : Bool → Bool → Files ℕ
disk root broken = record { is_root = λ w. root; remove_all = removed broken }

all_removed : uninstall (disk true false) 0 ≡ ((true, everything_removed), 2)
unfolding uninstall remove_path final_message count_removed
all_removed = refl

tool_kept : uninstall (disk true true) 0 ≡ ((false, nothing_removed), 1)
unfolding uninstall remove_path final_message count_removed
tool_kept = refl

uninstall_lem_example :
    let files = disk true true in
    let first = files.remove_all driver_bundle 0 in
    let second = files.remove_all tool first.1 in
    ((files.is_root 0 ≡ false) × (uninstall files 0 ≡ ((false, needs_root), 0)))
    ⊎ ((files.is_root 0 ≡ true)
        × (first.0.1 ≡ true)
        × (uninstall files 0 ≡ ((false, nothing_removed), first.1)))
    ⊎ ((files.is_root 0 ≡ true)
        × (first.0.1 ≡ false)
        × ((uninstall files 0).1 ≡ second.1)
        × ((uninstall files 0).0.0 ≡ not second.0.1))
uninstall_lem_example = uninstall_lem (disk true true) 0
