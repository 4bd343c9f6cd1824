-- ===== src/Apps/Registered.antt =====
-- src/apps/apps.c: the programs by their names.
--
-- The vector is the list of its elements. Whether `kmalloc` gave it memory is an argument; it has room
-- for sixteen elements then, so that the fourteen calls find room.
use sojebos.Apps.{World}
use sojebos.Apps.Coreutils.{
  ls_app, cat_app, write_app, rm_app, disk_usage_app, mkdir_app, rmdir_app, cd_app, pwd_app,
}
use sojebos.Apps.Ping.{command_ping}
use sojebos.Apps.Points.{test_app}
use sojebos.Apps.Prompts.{hello_app, calculator_app, clear_app}
use sojebos.Common.{ℕ, Bool, Option, some, List, [], ◌∷◌, ◌++◌, if◌then◌else◌}
use sojebos.Vector.{Vector}

-- The functions that are registered
pub data App : Type 0 where
  hello : App
  calculator : App
  clear : App
  ls : App
  cat : App
  write : App
  rm : App
  disk_usage : App
  mkdir : App
  rmdir : App
  cd : App
  pwd : App
  ping : App
  test : App

-- `vector_push_back`, where there is room: the message for a failed one is not reached.
unfoldable pub register_app : List ℕ → App → List (List ℕ × App) → List (List ℕ × App)
register_app name func apps = apps ++ (name, func) ∷ []

unfoldable pub register_all_apps : Bool → List (List ℕ × App)
register_all_apps has_memory =
    if has_memory
    then register_app (b't' ∷ b'e' ∷ b's' ∷ b't' ∷ []) test (
        register_app (b'p' ∷ b'i' ∷ b'n' ∷ b'g' ∷ []) ping (
          register_app (b'p' ∷ b'w' ∷ b'd' ∷ []) pwd (
            register_app (b'c' ∷ b'd' ∷ []) cd (
              register_app (b'r' ∷ b'm' ∷ b'd' ∷ b'i' ∷ b'r' ∷ []) rmdir (
                register_app (b'm' ∷ b'k' ∷ b'd' ∷ b'i' ∷ b'r' ∷ []) mkdir (
                  register_app (b'd' ∷ b'f' ∷ []) disk_usage (
                    register_app (b'r' ∷ b'm' ∷ []) rm (
                      register_app (b'w' ∷ b'r' ∷ b'i' ∷ b't' ∷ b'e' ∷ []) write (
                        register_app (b'c' ∷ b'a' ∷ b't' ∷ []) cat (
                          register_app (b'l' ∷ b's' ∷ []) ls (
                            register_app (b'c' ∷ b'l' ∷ b'e' ∷ b'a' ∷ b'r' ∷ []) clear (
                              register_app (b'c' ∷ b'a' ∷ b'l' ∷ b'c' ∷ []) calculator (
                                register_app (b'h' ∷ b'e' ∷ b'l' ∷ b'l' ∷ b'o' ∷ []) hello
                                  [])))))))))))))
    else []

-- A call of a program. `fuel` and `rounds` bound its loops; what stands on its stack before is an
-- argument: a line's buffer, the address of the points, and a vector.
module _ (fuel rounds : ℕ) (input : List ℕ) (address : ℕ) (points : Vector) where
  unfoldable pub run_app : App → List (List ℕ) → World → Option World
  run_app hello argv w = hello_app rounds input w
  run_app calculator argv w = calculator_app rounds input w
  run_app clear argv w = some (clear_app w)
  run_app ls argv w = ls_app fuel w
  run_app cat argv w = cat_app fuel argv w
  run_app write argv w = write_app fuel argv w
  run_app rm argv w = rm_app fuel argv w
  run_app disk_usage argv w = disk_usage_app w
  run_app mkdir argv w = mkdir_app fuel argv w
  run_app rmdir argv w = rmdir_app fuel argv w
  run_app cd argv w = cd_app fuel rounds argv w
  run_app pwd argv w = pwd_app fuel w
  run_app ping argv w = command_ping argv w
  run_app test argv w = test_app address points w
