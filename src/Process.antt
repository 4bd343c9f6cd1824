-- ===== src/Process.antt =====
-- src/kernel/process/process.c and src/kernel/elf/elf.h: an executable is read, mapped and entered.
--
-- The machine is the heap with the file system, the page tables, and the bytes at virtual addresses.
-- The structures that `vfs_read` fills are variables on the stack: what stands in them before is an
-- argument, since a read at the end of a file leaves it. `none`: out of fuel along a chain, a loop of
-- `paging_map_user_memory` without end or with a page fault, or a `kfree` of a pointer that is none of the heap's.
pub mod Errors
mod Tests
use sojebos.Common.{
  ℕ, zero, suc, ◌+◌, ◌-◌, ◌*◌, Option, some, none, List, [], ◌∷◌, ◌++◌, length, drop, ◌==◌,
  if◌then◌else◌, ltb, u32,
}
use sojebos.Disk.Fields.{get_u16, get_u32}
use sojebos.Paging.{Paging, paging_map_user_memory}
use sojebos.Vfs.{Machine, Node, vfs_open, vfs_read, vfs_close}

abbrev pub elf_magic : ℕ
elf_magic = 0x464C457F

abbrev pub et_exec : ℕ
et_exec = 2

abbrev pub pt_load : ℕ
pt_load = 1

-- The fields that `exec_elf` reads, at their offsets in the packed structures. `e_ehsize` has four
-- bytes there, so the three fields behind it are two bytes further on than in the ELF format.
abbrev pub header_size : ℕ
header_size = 54

abbrev pub e_type : List ℕ → ℕ
e_type header = get_u16 header 16

abbrev pub e_entry : List ℕ → ℕ
e_entry header = get_u32 header 24

abbrev pub e_phoff : List ℕ → ℕ
e_phoff header = get_u32 header 28

abbrev pub e_phentsize : List ℕ → ℕ
e_phentsize header = get_u16 header 44

abbrev pub e_phnum : List ℕ → ℕ
e_phnum header = get_u16 header 46

abbrev pub program_header_size : ℕ
program_header_size = 32

abbrev pub p_type : List ℕ → ℕ
p_type ph = get_u32 ph 0

abbrev pub p_offset : List ℕ → ℕ
p_offset ph = get_u32 ph 4

abbrev pub p_vaddr : List ℕ → ℕ
p_vaddr ph = get_u32 ph 8

abbrev pub p_filesz : List ℕ → ℕ
p_filesz ph = get_u32 ph 16

abbrev pub p_memsz : List ℕ → ℕ
p_memsz ph = get_u32 ph 20

pub record System : Type 0 where
  pub machine : Machine
  pub paging : Paging
  pub user : ℕ → ℕ

-- `memset(address, 0, n)` on the bytes at virtual addresses, and a copy of bytes to an address
unfoldable pub clear_user : ℕ → ℕ → (ℕ → ℕ) → ℕ → ℕ
clear_user address zero m = m
clear_user address (suc n) m =
    clear_user (u32 (address + 1)) n (λ q. if q == address then 0 else m q)

unfoldable pub put_user : ℕ → List ℕ → (ℕ → ℕ) → ℕ → ℕ
put_user address [] m = m
put_user address (b ∷ bs) m = put_user (u32 (address + 1)) bs (λ q. if q == address then b else m q)

-- What stands in a structure of the stack after the bytes of a read are put over it
abbrev pub filled : List ℕ → List ℕ → List ℕ
filled bytes before = bytes ++ drop (length bytes) before

-- The body of `if (ph.p_type == PT_LOAD)`
unfoldable pub load_segment : ℕ → Node → List ℕ → System → Option System
load_segment fuel node ph s = elim (paging_map_user_memory (p_vaddr ph) (p_memsz ph) s.paging) [
  | none ↦ none
  | some none ↦ none
  | some (some paging) ↦
      let cleared = clear_user (p_vaddr ph) (p_memsz ph) s.user in
      let payload : Option System =
        elim (vfs_read fuel node (p_offset ph) (p_filesz ph) s.machine) [
          | none ↦ none
          | some bytes ↦
              some (record s { paging = paging; user = put_user (p_vaddr ph) bytes cleared })
        ] in
      if p_filesz ph == 0 then some (record s { paging = paging; user = cleared }) else payload
]

-- `n` more program headers from number `i`; `stack i` is what stands in the structure before.
unfoldable pub load_segments : ℕ → Node → List ℕ → (ℕ → List ℕ) → ℕ → ℕ → System → Option System
load_segments fuel node header stack zero i s = some s
load_segments fuel node header stack (suc n) i s =
    elim (vfs_read fuel node (u32 (e_phoff header + u32 (i * e_phentsize header)))
      program_header_size s.machine) [
        | none ↦ none
        | some bytes ↦
            let ph = filled bytes (stack i) in
            let loaded : Option System = elim (load_segment fuel node ph s) [
              | none ↦ none
              | some s' ↦ load_segments fuel node header stack n (i + 1) s'
            ] in
            let rest = load_segments fuel node header stack n (i + 1) s in
            if p_type ph == pt_load then loaded else rest
      ]

abbrev pub user_stack_top : ℕ
user_stack_top = 0xBFFFF000

abbrev pub stack_size : ℕ
stack_size = 4096 * 4

-- The results -1, -2 and -3, and the switch to user mode, which does not return.
pub data Outcome : Type 0 where
  not_found : Outcome
  not_elf : Outcome
  not_executable : Outcome
  entered : ℕ → ℕ → Outcome

-- `vfs_close(file)`, and the result
unfoldable pub closed : ℕ → Node → Outcome → System → Option (Outcome × System)
closed ptr node result s = elim (vfs_close ptr node s.machine) [
  | none ↦ none
  | some m ↦ some (result, record s { machine = m })
]

-- From the program headers to the switch
unfoldable pub run_program :
    ℕ → ℕ → Node → List ℕ → (ℕ → List ℕ) → System → Option (Outcome × System)
run_program fuel ptr node header stack s =
    elim (load_segments fuel node header stack (e_phnum header) 0 s) [
      | none ↦ none
      | some s' ↦ elim (paging_map_user_memory (user_stack_top - stack_size) stack_size s'.paging) [
        | none ↦ none
        | some none ↦ none
        | some (some paging) ↦
            closed ptr node (entered (e_entry header) user_stack_top) (record s' {
              paging = paging;
              user = clear_user (user_stack_top - stack_size) stack_size s'.user;
            })
      ]
    ]

-- What follows once the file is open and its header is read
unfoldable pub exec_header :
    ℕ → ℕ → Node → List ℕ → (ℕ → List ℕ) → System → Option (Outcome × System)
exec_header fuel ptr node header stack s =
    let run = run_program fuel ptr node header stack s in
    if get_u32 header 0 == elf_magic
    then if e_type header == et_exec then run else closed ptr node not_executable s
    else closed ptr node not_elf s

unfoldable pub exec_elf : ℕ → List ℕ → (ℕ → List ℕ) → List ℕ → System → Option (Outcome × System)
exec_elf fuel header_before stack filename s = elim (vfs_open fuel filename s.machine) [
  | none ↦ none
  | some (none, m) ↦ some (not_found, record s { machine = m })
  | some (some (ptr, node), m) ↦ elim (vfs_read fuel node 0 header_size m) [
    | none ↦ none
    | some bytes ↦
        exec_header fuel ptr node (filled bytes header_before) stack (record s { machine = m })
  ]
]
