-- ===== src/Process/Errors.antt =====
-- The results of `exec_elf`, and what they leave of the machine.
use mathlib.Core.Option.{some_inj}
use mathlib.Core.Path.{subst}
use sojebos.Common.{
  ℕ, ◌≡◌, ◌≢◌, refl, sym, ◌∙◌, ◌⊎◌, inl, inr, Option, some, none, List, ◌==◌, Bool-cases, ==_iff,
  arith,
}
use sojebos.Disk.Fields.{get_u32}
use sojebos.Heap.{kmalloc}
use sojebos.Heap.Inv.{IsValid}
use sojebos.Process.{
  System, Outcome, not_found, not_elf, not_executable, elf_magic, et_exec, e_type, header_size,
  filled, closed, run_program, exec_header, exec_elf,
}
use sojebos.Vfs.{Machine, Node, node_size, fat32_file_lookup, vfs_open, vfs_read, vfs_close}
use sojebos.Vfs.Nodes.{Opened, vfs_open-Opened}

-- What is read depends on the files alone.
vfs_read-files :
    (fuel : ℕ) (node : Node) (offset size : ℕ) (m m' : Machine)
    → m'.files ≡ m.files
    → vfs_read fuel node offset size m' ≡ vfs_read fuel node offset size m
unfolding vfs_read
vfs_read-files fuel node offset size m m' e = rw e refl

closed-vfs_close :
    (ptr : ℕ) (node : Node) (result : Outcome) (s : System) (m : Machine)
    → vfs_close ptr node m ≡ some s.machine
    → closed ptr node result (record s { machine = m }) ≡ some (result, s)
unfolding closed
closed-vfs_close ptr node result s m e = rw (e, closed) refl

module _ (fuel : ℕ) (before : List ℕ) (stack : ℕ → List ℕ) (filename : List ℕ) (s : System)
    (bytes : List ℕ) where
  abbrev header : List ℕ
  header = filled bytes before

  -- The results, with the cause of each; the program runs on the machine with the file open.
  abbrev pub Result : Option Node → Option (Outcome × System) → Type 0
  Result found r =
      ((r ≡ some (not_found, s)) × ((kmalloc node_size s.machine.blocks ≡ none) ⊎ (found ≡ none)))
      ⊎ ((r ≡ some (not_elf, s)) × (get_u32 header 0 ≢ elf_magic))
      ⊎ ((r ≡ some (not_executable, s))
          × (get_u32 header 0 ≡ elf_magic)
          × (e_type header ≢ et_exec))
      ⊎ ((ptr : ℕ) × (node : Node) × (m : Machine) × (vfs_open fuel filename s.machine
            ≡ some (some (ptr, node), m))
          × (get_u32 header 0 ≡ elf_magic)
          × (e_type header ≡ et_exec)
          × (r ≡ run_program fuel ptr node header stack (record s { machine = m })))

  exec_header-Result :
      (found : Option Node) (ptr : ℕ) (node : Node) (m : Machine)
      → vfs_open fuel filename s.machine ≡ some (some (ptr, node), m)
      → vfs_close ptr node m ≡ some s.machine
      → Result found (exec_header fuel ptr node header stack (record s { machine = m }))
  unfolding exec_header
  exec_header-Result found ptr node m opened restored =
      elim (Bool-cases (get_u32 header 0 == elf_magic)) [
        | inr e ↦ inr (inl (rw e (closed-vfs_close ptr node not_elf s m restored), ground arith))
        | inl e ↦ elim (Bool-cases (e_type header == et_exec)) [
          | inr f ↦ inr (
              inr (
                inl (
                  rw (e, f) (closed-vfs_close ptr node not_executable s m restored),
                  (==_iff _ _).0 e,
                  ground arith,
                )))
          | inl f ↦
              inr (
                inr
                  (inr (ptr, node, m, opened, (==_iff _ _).0 e, (==_iff _ _).0 f, rw (e, f) refl)))
        ]
      ]

  exec_elf-Opened :
      (found : Option Node) (r : Option (ℕ × Node)) (m : Machine)
      → vfs_open fuel filename s.machine ≡ some (r, m)
      → Opened fuel filename s.machine r m
      → fat32_file_lookup fuel filename s.machine.files ≡ some found
      → ((node : Node)
          → found ≡ some node
          → vfs_read fuel node 0 header_size s.machine ≡ some bytes)
      → Result found (exec_elf fuel before stack filename s)
  unfolding exec_elf
  exec_elf-Opened found none m opened (same, cause) look reads =
      let why : (kmalloc node_size s.machine.blocks ≡ none) ⊎ (found ≡ none) = elim cause [
        | inl e ↦ inl e
        | inr e ↦ inr (some_inj.0 (sym look ∙ e))
      ] in
      inl (rw (opened, same, exec_elf) refl, why)
  exec_elf-Opened found (some (ptr, node)) m opened (found_it, files, restored) look reads =
      let read : vfs_read fuel node 0 header_size m ≡ some bytes =
        vfs_read-files fuel node 0 header_size s.machine m files
        ∙ reads node (some_inj.0 (sym look ∙ found_it)) in
      subst (Result found) (sym (rw (opened, read, exec_elf) refl))
        (exec_header-Result found ptr node m opened restored)

  -- On a valid heap, where the lookup and the read of the header have enough fuel, `exec_elf` ends in one
  -- of four ways: -1 without memory or without the file, -2 for another magic number, -3 for another
  -- type, each with the whole machine as it was, or the program is run.
  pub exec_elf-Result :
      (start end : ℕ) (found : Option Node)
      → IsValid start end s.machine.blocks
      → fat32_file_lookup fuel filename s.machine.files ≡ some found
      → ((node : Node)
          → found ≡ some node
          → vfs_read fuel node 0 header_size s.machine ≡ some bytes)
      → Result found (exec_elf fuel before stack filename s)
  exec_elf-Result start end found valid look reads =
      let (r, m, opened, how) =
        vfs_open-Opened start end fuel filename s.machine found valid look in
      exec_elf-Opened found r m opened how look reads
