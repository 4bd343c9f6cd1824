-- ===== src/Vfs.antt =====
-- src/kernel/fs/vfs.c and vfs.h, and `fat32_file_lookup` of fat32.c: files opened as nodes.
--
-- A node is a block of the heap, and its fields. A function pointer is a function or, for NULL,
-- `none`. Bytes are read from the volume and the disk as they are at the call. `none` from an
-- operation: out of fuel along a chain, or a `kfree` of a pointer that is none of the heap's.
pub mod Nodes
pub mod Wrappers
pub mod Tests
use sojebos.Common.{ℕ, ◌+◌, ◌*◌, ◌/◌, ◌%◌, Option, some, none, List, [], ◌==◌, if◌then◌else◌}
use sojebos.Disk.{Disk}
use sojebos.Fat32.{Volume, State, fat32_init}
use sojebos.Fat32.Entry.{DirEntry, first_cluster}
use sojebos.Fat32.Find.{find_file}
use sojebos.Fat32.Read.{fat32_vfs_read}
use sojebos.Heap.{Block, kmalloc, kfree}
use sojebos.Strings.{copied}

-- `VFS_FILE` and `VFS_DIRECTORY`
pub data Flags : Type 0 where
  file : Flags
  directory : Flags

-- Fuel, and the node's `inode` and `size` for the node; then the offset and the number of bytes.
abbrev pub ReadHook : Type 0
ReadHook = Volume → Disk → ℕ → ℕ → ℕ → ℕ → ℕ → Option (List ℕ)

-- The node's `inode`, the offset and the bytes: how many were written, and the disk.
abbrev pub WriteHook : Type 0
WriteHook = Volume → Disk → ℕ → ℕ → List ℕ → ℕ × Disk

pub record Node : Type 0 where
  pub name : List ℕ
  pub flags : Flags
  pub size : ℕ
  pub inode : ℕ
  pub read : Option ReadHook
  pub write : Option WriteHook
  pub close : Option (State → State)

-- `sizeof(vfs_node_t)`
abbrev pub node_size : ℕ
node_size = 256 + 3 * 4 + 3 * 4 + 4

pub record Machine : Type 0 where
  pub blocks : List Block
  pub files : State

unfoldable pub vfs_init : Machine → Machine
vfs_init m = record m { files = fat32_init m.files }

unfoldable pub fat32_vfs_close : State → State
fat32_vfs_close st = st

-- The node that `fat32_file_lookup` fills in for an entry
unfoldable pub node_of : List ℕ → DirEntry → Node
node_of filename e = record {
  name = copied 255 filename;
  flags = if e.attr / 16 % 2 == 1 then directory else file;
  size = e.file_size;
  inode = first_cluster e;
  read = some fat32_vfs_read;
  write = none;
  close = some fat32_vfs_close;
}

-- The inner `none` is the result -1.
unfoldable pub fat32_file_lookup : ℕ → List ℕ → State → Option (Option Node)
fat32_file_lookup fuel filename st =
    elim (find_file st.fs st.disk fuel st.current_dir_cluster filename) [
      | none ↦ none
      | some none ↦ some none
      | some (some e) ↦ some (some (node_of filename e))
    ]

-- `kfree(node)`
unfoldable pub free_node : ℕ → Machine → Option Machine
free_node ptr m = elim (kfree ptr m.blocks) [
  | none ↦ none
  | some bs ↦ some (record m { blocks = bs })
]

-- What `vfs_open` returns: NULL, or the pointer and the node.
unfoldable pub vfs_open : ℕ → List ℕ → Machine → Option (Option (ℕ × Node) × Machine)
vfs_open fuel filename m = elim (kmalloc node_size m.blocks) [
  | none ↦ some (none, m)
  | some (ptr, bs) ↦ elim (fat32_file_lookup fuel filename m.files) [
    | none ↦ none
    | some none ↦ elim (free_node ptr (record m { blocks = bs })) [
      | none ↦ none
      | some m' ↦ some (none, m')
    ]
    | some (some node) ↦ some (some (ptr, node), record m { blocks = bs })
  ]
]

-- On a node that is not NULL; the bytes read, whose number is the result.
unfoldable pub vfs_read : ℕ → Node → ℕ → ℕ → Machine → Option (List ℕ)
vfs_read fuel node offset size m = elim node.read [
  | none ↦ some []
  | some hook ↦ hook m.files.fs m.files.disk fuel node.inode node.size offset size
]

unfoldable pub vfs_write : Node → ℕ → List ℕ → Machine → ℕ × Machine
vfs_write node offset bytes m = elim node.write [
  | none ↦ (0, m)
  | some hook ↦
      let r = hook m.files.fs m.files.disk node.inode offset bytes in
      (r.0, record m { files = record m.files { disk = r.1 } })
]

unfoldable pub close_hook : Node → Machine → Machine
close_hook node m = elim node.close [ none ↦ m | some hook ↦ record m { files = hook m.files } ]

unfoldable pub vfs_close : ℕ → Node → Machine → Option Machine
vfs_close ptr node m = free_node ptr (close_hook node m)
