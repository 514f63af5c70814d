-- ===== src/Tool/Uninstall.antt =====
-- tool/cmd_uninstall.cpp: the driver is removed, then the tool. The file system is a parameter; of what is
-- printed, only the line at the end is kept.
use roc_vad.Prelude.{ℕ, ◌+◌, ◌≡◌, ◌⊎◌, Bool, true, false, not, ◌&&◌, ◌==◌, if◌then◌else◌, arith}

-- The two paths, in their order.
pub data Target : Type 0 where
  driver_bundle tool : Target

-- `geteuid() == 0`, and `std::filesystem::remove_all`: how many files it removed, and whether it failed.
pub record Files (W : Type 0) : Type 0 where
  pub is_root : W → Bool
  pub remove_all : Target → W → (ℕ × Bool) × W

pub record Counts : Type 0 where
  pub n_ok : ℕ
  pub n_warn : ℕ
  pub n_err : ℕ

-- The line at the end.
pub data Message : Type 0 where
  needs_root nothing_removed everything_removed with_errors : Message

unfoldable pub count_removed : ℕ × Bool → Counts → Counts
count_removed (n_removed, err) c =
    if not (n_removed == 0) && not err
    then record c { n_ok = c.n_ok + 1 }
    else if n_removed == 0 && not err
    then record c { n_warn = c.n_warn + 1 }
    else record c { n_err = c.n_err + 1 }

abbrev is_tool : Target → Bool
is_tool driver_bundle = false
is_tool tool = true

unfoldable pub final_message : Counts → Message
final_message c =
    if c.n_ok == 0
    then nothing_removed
    else if c.n_err == 0
    then everything_removed
    else with_errors

module _ {W : Type 0} (files : Files W) where
  -- One round of the loop.
  unfoldable pub remove_path : Target → Counts × W → Counts × W
  remove_path path (c, w) =
      let (result, v) = files.remove_all path w in
      if is_tool path && not (c.n_err == 0)
      then (record c { n_warn = c.n_warn + 1 }, w)
      else (count_removed result c, v)

  abbrev finish : Counts × W → (Bool × Message) × W
  finish (c, w) = ((c.n_err == 0, final_message c), w)

  unfoldable pub uninstall : W → (Bool × Message) × W
  uninstall w =
      if files.is_root w
      then finish (
          remove_path tool
            (remove_path driver_bundle (record { n_ok = 0; n_warn = 0; n_err = 0 }, w)))
      else ((false, needs_root), w)

  -- Without root privileges nothing is touched. Where the driver cannot be removed, the tool is left
  -- alone and the command fails; so the tool is there to try again. Otherwise the tool is removed
  -- too, and the command succeeds exactly if that gives no error.
  pub uninstall_lem :
      (w : W)
      → let first = files.remove_all driver_bundle w in
        let second = files.remove_all tool first.1 in
        ((files.is_root w ≡ false) × (uninstall w ≡ ((false, needs_root), w)))
        ⊎ ((files.is_root w ≡ true)
            × (first.0.1 ≡ true)
            × (uninstall w ≡ ((false, nothing_removed), first.1)))
        ⊎ ((files.is_root w ≡ true)
            × (first.0.1 ≡ false)
            × ((uninstall w).1 ≡ second.1)
            × ((uninstall w).0.0 ≡ not second.0.1))
  unfolding uninstall remove_path count_removed final_message
  uninstall_lem w = ground arith
