-- ===== src/Vfs/Wrappers.antt =====
-- The calls of vfs.c that go straight to the current directory of the file system.
use sojebos.Common.{ℕ, Option, some, List}
use sojebos.Fat32.{State}
use sojebos.Fat32.Delete.{fat32_delete_file}
use sojebos.Fat32.Directory.{fat32_create_directory, fat32_rmdir}
use sojebos.Fat32.Find.{fat32_ls}
use sojebos.Fat32.Path.{fat32_cd}
use sojebos.Fat32.Pwd.{fat32_pwd}
use sojebos.Fat32.Report.{fat32_cat, fat32_show_usage}
use sojebos.Fat32.Texts.{
  not_found, newline, scanning, free_clusters, free_space, kilobytes, no_such_directory, corrupted,
  messages,
}
use sojebos.Fat32.Write.{fat32_write_file}

-- `fuel` is for the clusters along a chain, `rounds` for the components of a path.
unfoldable pub vfs_write_temp : ℕ → List ℕ → List ℕ → ℕ → State → Option State
vfs_write_temp fuel name bytes size st = fat32_write_file fuel name bytes size st

unfoldable pub vfs_ls : ℕ → State → Option State
vfs_ls fuel st = fat32_ls fuel st

unfoldable pub vfs_cd : ℕ → ℕ → List ℕ → State → Option State
vfs_cd fuel rounds path st = fat32_cd no_such_directory fuel rounds path st

unfoldable pub vfs_pwd : ℕ → State → Option State
vfs_pwd fuel st = fat32_pwd corrupted fuel st

unfoldable pub vfs_create_directory : ℕ → List ℕ → State → Option State
vfs_create_directory fuel dirname st = fat32_create_directory messages fuel dirname st

unfoldable pub vfs_rm : ℕ → List ℕ → State → Option State
vfs_rm fuel name st = fat32_delete_file fuel name st

unfoldable pub vfs_rmdir : ℕ → List ℕ → State → Option State
vfs_rmdir fuel dirname st = fat32_rmdir messages fuel dirname st

unfoldable pub vfs_cat : ℕ → List ℕ → State → Option State
vfs_cat fuel name st = fat32_cat not_found newline fuel name st

unfoldable pub vfs_usage : State → Option State
vfs_usage st = some (fat32_show_usage scanning free_clusters free_space kilobytes st)
