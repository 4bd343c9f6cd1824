-- ===== src/Lib.antt =====
-- SojebOS: a 32-bit kernel for the PC, from src/kernel, with the file system, the allocators and the
-- network stack that it is made of.
--
-- Heap (src/kernel/memory): the first-fit allocator. The linked list of headers is a list of blocks,
-- each with its address; `kmalloc`, `kfree` and `krealloc` are functions on it, and the bytes of
-- memory are a function on addresses.
--
-- Disk (src/kernel/fs/disk.c, ata.c) and Fat32 (src/kernel/fs/fat32.c): a disk is a function from
-- the 28-bit sector address to 512 bytes. Fat32 has the mounted volume and the allocation table,
-- and below it the search for and the freeing of clusters, names, directory entries, the walk over
-- a directory and the operations that are built on it. The walk's three nested loops are one
-- function that takes the body of the innermost loop.
--
-- Paging (src/kernel/paging): the bitmap of physical frames, and the page tables where they stand in
-- memory, which the kernel writes through those same tables, with the processor's walk for what they
-- mean. Only the first 16 MB are mapped; a write beyond them is a page fault, `none`.
--
-- Net (src/kernel/net): the Ethernet, ARP, IPv4 and ICMP handlers over lists of bytes, with the
-- frames handed to the card's driver. `ipv4_send` takes its buffer from Heap.
--
-- Console (src/kernel/drivers/console.c): the screen's cells and cursor, and the line editor on the
-- characters that the keyboard will give.
--
-- Strings (src/kernel/libc/string.c): text and numbers. Vector (src/kernel/libc/vector.c): an array in
-- a heap block that doubles.
--
-- Vfs (src/kernel/fs/vfs.c): open files over Fat32 and Heap. Process (src/kernel/process,
-- src/kernel/elf): an executable is read through Vfs, mapped with Paging, and entered. Shell
-- (src/kernel/shell): a line becomes arguments and a command, and the loop runs it. Apps (src/apps):
-- the programs, and the whole machine that they and the shell work on, with Calc (src/apps/calc.c) for
-- a line of the calculator. Kernel (src/kernel/kernel.c): the start, up to the shell.
--
-- Rtl8139 (src/kernel/drivers/net/rtl8139.c): the card's setup, the receive ring, whose frames go to
-- Net and are worked on where they stand, and the descriptors for what Net sends. Pci
-- (src/kernel/drivers/pci.c): the search for the card.
--
-- Gdt (src/kernel/gdt): the segment descriptors as they are written and as the processor reads them,
-- and the task state segment.
--
-- HashTable (src/kernel/libc/hashtable.c): buckets of entries under string keys.
--
-- Common has the tests, lists and bits that the parts share, and each part's Tests its examples.
--
-- Numbers are natural numbers; what C computes in 32 bits is written with `% 2 ^ 32`. Loops along a
-- cluster chain, which a damaged disk can make cyclic, take fuel, and `none` is a loop that has not
-- ended; one unit for each cluster of the chain is enough, as the theorems about walks state. The
-- other loops are counted. A volume has at least one sector in a cluster: C would divide by zero.
--
-- `paging_map_user_memory` has 2 ^ 20 rounds, the pages of the address space, and `net_checksum`
-- three to fold the carries of a 32-bit sum.
--
-- Not modelled: the hardware's side of port input and output, the waits for it, and assembly; the
-- square root on doubles (src/kernel/libc/math.c); the declaration of a process for a scheduler that
-- is not there yet; the heap in the creation of a hash table and in a removal from it; what the
-- processor still has of a page table's old entries.
pub mod Paging
pub mod Net
pub mod Rtl8139
pub mod Pci
pub mod Console
pub mod Strings
pub mod Vector
pub mod Vfs
pub mod Process
pub mod Shell
pub mod Apps
pub mod Kernel
pub mod Calc
pub mod Gdt
pub mod HashTable
pub mod Common
pub mod Heap
pub mod Disk
pub mod Fat32
