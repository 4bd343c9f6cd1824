-- ===== src/Vfs/Nodes.antt =====
-- Opening and closing: the heap is as it was, and what is read is the file.
use mathlib.Core.Path.{subst}
use sojebos.Fat32.Entry.{DirEntry}
use mathlib.Core.Option.{none-ne-some, some_inj}
use sojebos.Common.{ℕ, ◌≡◌, refl, ap, ◌∙◌, Option, some, none, Option-cases, List, ◌⊎◌, inl, inr}
use sojebos.Fat32.{State}
use sojebos.Fat32.Find.{find_file}
use sojebos.Heap.{Block, kmalloc}
use sojebos.Heap.Inv.{IsValid}
use sojebos.Heap.Undo.{kfree-kmalloc}
use sojebos.Vfs.{
  Machine, Node, node_of, node_size, fat32_vfs_close, fat32_file_lookup, free_node, vfs_open,
  close_hook, vfs_close,
}

-- Freeing what was just allocated gives the machine back.
pub free_node-kmalloc :
    (start end ptr : ℕ) (m : Machine) (bs : List Block)
    → IsValid start end m.blocks
    → kmalloc node_size m.blocks ≡ some (ptr, bs)
    → free_node ptr (record m { blocks = bs }) ≡ some m
unfolding free_node
free_node-kmalloc start end ptr m bs valid e =
    rw (kfree-kmalloc start end node_size m.blocks valid e, free_node) refl

-- Closing a node that the file system filled in does nothing to the files.
close_hook-node_of :
    (filename : List ℕ) (e : DirEntry) (m : Machine) → close_hook (node_of filename e) m ≡ m
unfolding close_hook node_of fat32_vfs_close
close_hook-node_of filename e m = refl

close_hook-fat32_file_lookup :
    (fuel : ℕ) (filename : List ℕ) (st : State) (node : Node) (m : Machine)
    → fat32_file_lookup fuel filename st ≡ some (some node)
    → close_hook node m ≡ m
unfolding fat32_file_lookup
close_hook-fat32_file_lookup fuel filename st node m e =
    elim (Option-cases (find_file st.fs st.disk fuel st.current_dir_cluster filename)) [
      | inl f ↦ absurd (none-ne-some _ (rw (f, fat32_file_lookup) at e))
      | inr (none, f) ↦ absurd (none-ne-some _ (some_inj.0 (rw (f, fat32_file_lookup) at e)))
      | inr (some x, f) ↦
          let same = some_inj.0 (some_inj.0 (rw (f, fat32_file_lookup) at e)) in
          subst (λ k. close_hook k m ≡ m) same (close_hook-node_of filename x m)
    ]

vfs_close-kmalloc :
    (start end fuel : ℕ) (filename : List ℕ) (ptr : ℕ) (m : Machine) (bs : List Block) (node : Node)
    → IsValid start end m.blocks
    → kmalloc node_size m.blocks ≡ some (ptr, bs)
    → fat32_file_lookup fuel filename m.files ≡ some (some node)
    → vfs_close ptr node (record m { blocks = bs }) ≡ some m
unfolding vfs_close
vfs_close-kmalloc start end fuel filename ptr m bs node valid e look =
    ap (free_node ptr)
      (close_hook-fat32_file_lookup fuel filename m.files node (record m { blocks = bs }) look)
    ∙ free_node-kmalloc start end ptr m bs valid e

-- NULL leaves the machine as it was, for want of memory or of the file; a node is the one that the
-- lookup gives, and closing it gives the machine back.
abbrev pub Opened : ℕ → List ℕ → Machine → Option (ℕ × Node) → Machine → Type 0
Opened fuel filename m none after =
    (after ≡ m)
    × ((kmalloc node_size m.blocks ≡ none) ⊎ (fat32_file_lookup fuel filename m.files ≡ some none))
Opened fuel filename m (some (ptr, node)) after =
    (fat32_file_lookup fuel filename m.files ≡ some (some node))
    × (after.files ≡ m.files)
    × (vfs_close ptr node after ≡ some m)

-- On a valid heap, and with fuel enough for the lookup, `vfs_open` returns. NULL leaves heap and files as
-- they were, and means that there is no memory or no such file; a node is the one that the lookup
-- gives, and closing it gives the heap and the files back.
pub vfs_open-Opened :
    (start end fuel : ℕ) (filename : List ℕ) (m : Machine) (found : Option Node)
    → IsValid start end m.blocks
    → fat32_file_lookup fuel filename m.files ≡ some found
    → (r : Option (ℕ × Node)) × (after : Machine) × (vfs_open fuel filename m ≡ some (r, after))
      × Opened fuel filename m r after
unfolding vfs_open free_node
vfs_open-Opened start end fuel filename m none valid look =
    elim (Option-cases (kmalloc node_size m.blocks)) [
      | inl e ↦ (none, m, rw (e, vfs_open) refl, (refl, inl e))
      | inr ((ptr, bs), e) ↦ (
        none,
        m,
        rw (e, look, free_node-kmalloc start end ptr m bs valid e, vfs_open) refl,
        (refl, inr look),
      )
    ]
vfs_open-Opened start end fuel filename m (some node) valid look =
    elim (Option-cases (kmalloc node_size m.blocks)) [
      | inl e ↦ (none, m, rw (e, vfs_open) refl, (refl, inl e))
      | inr ((ptr, bs), e) ↦ (
        some (ptr, node),
        record m { blocks = bs },
        rw (e, look, vfs_open) refl,
        (look, refl, vfs_close-kmalloc start end fuel filename ptr m bs node valid e look),
      )
    ]
