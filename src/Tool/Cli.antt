-- ===== src/Tool/Cli.antt =====
-- tool/main.cpp and tool/cmd_compound.cpp: which command runs and how it ends. What
-- CLI11 has parsed, the environment variables and atoi are parameters; the set-up of the log and what is
-- printed are left out.
use roc_vad.Prelude.{
  ℕ, Bool, true, false, ◌||◌, not, List, [], ◌∷◌, Option, none, some, ltb, ◌==◌, if◌then◌else◌,
  length, ◌≡◌, refl, ◌++◌, arith,
}
use roc_vad.Prelude.Int.{ℤ, pos_part}
use roc_vad.Parse.{Text}
use roc_vad.Log.{Level}

-- `env.log_level`, by how often `-v` is given.
unfoldable pub log_level : ℕ → Level
log_level verbosity =
    if verbosity == 0
    then Level.warn
    else if verbosity == 1
    then Level.info
    else if verbosity == 2
    then Level.debug
    else Level.trace

-- `spdlog::color_mode`
pub data ColorMode : Type 0 where
  always automatic never : ColorMode

-- `FORCE_COLOR` counts with a number above zero, `NO_COLOR` with any text.
abbrev forces_color : (Text → ℤ) → Option Text → Bool
forces_color atoi none = false
forces_color atoi (some str) = ltb 0 (pos_part (atoi str))

abbrev forces_no_color : Option Text → Bool
forces_no_color none = false
forces_no_color (some str) = not (length str == 0)

-- `env.color_mode`, from the flags `-C` and `-n` and the two variables.
unfoldable pub color_mode : (Text → ℤ) → Bool → Bool → Option Text → Option Text → ColorMode
color_mode atoi force_color force_no_color force_color_env no_color_env =
    if force_no_color || forces_no_color no_color_env
    then never
    else if force_color || forces_color atoi force_color_env
    then always
    else automatic

-- A command: whether CLI11 has parsed it, and what it does; or a compound of commands.
mutual
  pub data Cmd (W : Type 0) : Type 0 where
    single : Bool → (W → Bool × W) → Cmd W
    compound : Cmds W → Cmd W

  pub data Cmds (W : Type 0) : Type 0 where
    nil : Cmds W
    cons : Cmd W → Cmds W → Cmds W

module _ {W : Type 0} where
  unfoldable mutual
    -- `parsed()`
    pub parsed : Cmd W → Bool
    parsed (single given execute) = given
    parsed (compound subcommands) = any_parsed subcommands

    pub any_parsed : Cmds W → Bool
    any_parsed nil = false
    any_parsed (cons cmd rest) = parsed cmd || any_parsed rest

  unfoldable mutual
    -- `execute(env)`: a compound runs the first command that was parsed, and fails where there is none.
    pub execute : Cmd W → W → Bool × W
    execute (single given run) w = run w
    execute (compound subcommands) w = execute_first subcommands w

    pub execute_first : Cmds W → W → Bool × W
    execute_first nil w = (false, w)
    execute_first (cons cmd rest) w =
        let others = execute_first rest w in if parsed cmd then execute cmd w else others

  -- The exit code of `main`, once the arguments are parsed.
  unfoldable pub run_main : Cmd W → W → ℕ × W
  run_main cmd w = let (success, v) = execute cmd w in (if success then 0 else 1, v)

-- A command without subcommands: whether it was parsed, and what it does.
abbrev pub Leaf : Type 0 → Type 0
Leaf W = Bool × (W → Bool × W)

module _ {W : Type 0} where
  unfoldable mutual
    -- The commands of a tree from left to right.
    pub leaves : Cmd W → List (Leaf W)
    leaves (single given run) = (given, run) ∷ []
    leaves (compound subcommands) = all_leaves subcommands

    pub all_leaves : Cmds W → List (Leaf W)
    all_leaves nil = []
    all_leaves (cons cmd rest) = leaves cmd ++ all_leaves rest

  -- The first that was parsed.
  abbrev pub run_first : List (Leaf W) → W → Bool × W
  run_first [] w = (false, w)
  run_first ((given, run) ∷ rest) w =
      let others = run_first rest w in if given then run w else others

  abbrev pub any_given : List (Leaf W) → Bool
  any_given [] = false
  any_given ((given, run) ∷ rest) = given || any_given rest

  any_given-append : (xs ys : List (Leaf W)) → any_given (xs ++ ys) ≡ any_given xs || any_given ys
  any_given-append [] ys = refl
  any_given-append ((given, run) ∷ xs) ys = ground (arith, any_given-append xs ys)

  run_first-append :
      (xs ys : List (Leaf W)) (w : W)
      → run_first (xs ++ ys) w ≡ (if any_given xs then run_first xs w else run_first ys w)
  run_first-append [] ys w = refl
  run_first-append ((given, run) ∷ xs) ys w = ground (arith, run_first-append xs ys w)

  mutual
    unfolding parsed leaves

    parsed_lem : (cmd : Cmd W) → parsed cmd ≡ any_given (leaves cmd)
    parsed_lem (single given run) = ground arith
    parsed_lem (compound subcommands) = any_parsed_lem subcommands

    any_parsed_lem : (cmds : Cmds W) → any_parsed cmds ≡ any_given (all_leaves cmds)
    any_parsed_lem nil = refl
    any_parsed_lem (cons cmd rest) = ground (
      arith,
      parsed_lem cmd,
      any_parsed_lem rest,
      any_given-append (leaves cmd) (all_leaves rest),
    )

  mutual
    unfolding execute leaves

    execute_parsed :
        (cmd : Cmd W) (w : W) → parsed cmd ≡ true → execute cmd w ≡ run_first (leaves cmd) w
    execute_parsed (single given run) w h = ground (arith, parsed_lem (single given run))
    execute_parsed (compound subcommands) w h = execute_first_lem subcommands w

    execute_first_lem :
        (cmds : Cmds W) (w : W) → execute_first cmds w ≡ run_first (all_leaves cmds) w
    execute_first_lem nil w = refl
    execute_first_lem (cons cmd rest) w = ground (
      arith,
      execute_parsed cmd w,
      execute_first_lem rest w,
      parsed_lem cmd,
      run_first-append (leaves cmd) (all_leaves rest) w,
    )

  -- A compound of commands, of any depth, runs the first command that was parsed among those with no
  -- subcommands, and no other; where none was parsed it fails and does nothing.
  pub execute-run_first :
      (cmds : Cmds W) (w : W) → execute (compound cmds) w ≡ run_first (leaves (compound cmds)) w
  unfolding execute leaves
  execute-run_first cmds w = execute_first_lem cmds w
