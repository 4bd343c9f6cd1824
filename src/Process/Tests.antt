-- ===== src/Process/Tests.antt =====
-- Examples: a file of three zeros is no program.
use mathlib.Core.Option.{some_inj}
use mathlib.Core.Path.{subst}
use sojebos.Common.{◌≡◌, refl, [], ◌∷◌, replicate, some}
use sojebos.Disk.{disk_read}
use sojebos.Disk.Fields.{get_u16, get_u32}
use sojebos.Fat32.{next_cluster, cluster_to_sector}
use sojebos.Fat32.Entry.{entry_at}
use sojebos.Fat32.Read.{
  fat32_vfs_read, vfs_read_size, read_absolute, seek, read_chain, read_cluster, read_sectors,
  read_sector,
}
use sojebos.Heap.Tests.{fresh-IsValid}
use sojebos.Process.{System, header_size, exec_elf}
use sojebos.Process.Errors.{Result, exec_elf-Result}
use sojebos.Vfs.{vfs_read, node_of}
use sojebos.Vfs.Tests.{with_file, the_name, the_node, file_found}

abbrev system : System
system = record {
  machine = with_file;
  paging = record { frames = replicate 512 0; directory = replicate 1024 2; memory = λ q. 0 };
  user = λ q. 0;
}

header_read : vfs_read 2 the_node 0 header_size with_file ≡ some (0 ∷ 0 ∷ 0 ∷ [])
unfolding vfs_read fat32_vfs_read vfs_read_size read_absolute seek read_chain read_cluster
    read_sectors read_sector next_cluster disk_read cluster_to_sector entry_at get_u16 get_u32
    node_of
header_read = refl

exec_elf-Result_example :
    Result 2
      (replicate 54 0xcc)
      (λ i. [])
      the_name
      system
      (0 ∷ 0 ∷ 0 ∷ [])
      (some the_node)
      (exec_elf 2 (replicate 54 0xcc) (λ i. []) the_name system)
exec_elf-Result_example =
    exec_elf-Result 2 (replicate 54 0xcc) (λ i. []) the_name system (0 ∷ 0 ∷ 0 ∷ []) 0x1000 0x1400
      (some the_node) fresh-IsValid file_found
      (λ node e.
        subst (λ k. vfs_read 2 k 0 header_size with_file ≡ some (0 ∷ 0 ∷ 0 ∷ [])) (some_inj.0 e)
          header_read)
