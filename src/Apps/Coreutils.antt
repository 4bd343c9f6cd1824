-- ===== src/Apps/Coreutils.antt =====
-- src/apps/coreutils.c: the commands for files and directories.
use sojebos.Apps.{World, show, on_files}
use sojebos.Apps.Texts.{
  cat_usage, write_usage, written, rm_usage, removed, mkdir_usage, rmdir_usage, cd_usage,
}
use sojebos.Common.{ℕ, Option, some, none, List, [], length, get_or, ltb, if◌then◌else◌}
use sojebos.Strings.{strlen}
use sojebos.Vfs.Wrappers.{
  vfs_write_temp, vfs_ls, vfs_cd, vfs_pwd, vfs_create_directory, vfs_rm, vfs_rmdir, vfs_cat,
  vfs_usage,
}

-- `argv` has `argc` strings. `fuel` and `rounds` are as for the file system. `none`: out of fuel.
abbrev pub argument : List (List ℕ) → ℕ → List ℕ
argument argv i = get_or argv i []

unfoldable pub ls_app : ℕ → World → Option World
ls_app fuel w = on_files (vfs_ls fuel) w

unfoldable pub cat_app : ℕ → List (List ℕ) → World → Option World
cat_app fuel argv w =
    if ltb (length argv) 2
    then some (show cat_usage w)
    else on_files (vfs_cat fuel (argument argv 1)) w

unfoldable pub write_app : ℕ → List (List ℕ) → World → Option World
write_app fuel argv w =
    let content = argument argv 2 in
    let wrote : Option World =
      elim (on_files (vfs_write_temp fuel (argument argv 1) content (strlen content)) w) [
        | none ↦ none
        | some w' ↦ some (show written w')
      ] in
    if ltb (length argv) 3 then some (show write_usage w) else wrote

unfoldable pub rm_app : ℕ → List (List ℕ) → World → Option World
rm_app fuel argv w =
    let gone : Option World = elim (on_files (vfs_rm fuel (argument argv 1)) w) [
      | none ↦ none
      | some w' ↦ some (show removed w')
    ] in
    if ltb (length argv) 2 then some (show rm_usage w) else gone

unfoldable pub disk_usage_app : World → Option World
disk_usage_app w = on_files vfs_usage w

unfoldable pub mkdir_app : ℕ → List (List ℕ) → World → Option World
mkdir_app fuel argv w =
    if ltb (length argv) 2
    then some (show mkdir_usage w)
    else on_files (vfs_create_directory fuel (argument argv 1)) w

unfoldable pub rmdir_app : ℕ → List (List ℕ) → World → Option World
rmdir_app fuel argv w =
    if ltb (length argv) 2
    then some (show rmdir_usage w)
    else on_files (vfs_rmdir fuel (argument argv 1)) w

unfoldable pub cd_app : ℕ → ℕ → List (List ℕ) → World → Option World
cd_app fuel rounds argv w =
    if ltb (length argv) 2
    then some (show cd_usage w)
    else on_files (vfs_cd fuel rounds (argument argv 1)) w

unfoldable pub pwd_app : ℕ → World → Option World
pwd_app fuel w = on_files (vfs_pwd fuel) w
