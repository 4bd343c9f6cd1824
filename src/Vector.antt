-- ===== src/Vector.antt =====
-- src/kernel/libc/vector.c: a growing array in memory that `kmalloc` gives.
--
-- The state is the memory with the heap's blocks, and the vector's fields; the field `data` is
-- `items` here, 0 for NULL. Products are of 32 bits. `none` is a `kfree` of a pointer that is none
-- of the heap's. The vector itself is never NULL.
pub mod Rows
pub mod Push
mod Tests
use sojebos.Common.{ℕ, ◌+◌, ◌-◌, ◌*◌, Bool, true, false, ◌&&◌, ◌||◌, Option, some, none, ◌==◌}
use sojebos.Common.{ltb, leb, if◌then◌else◌, u32}
use sojebos.Heap.{Block, kmalloc, kfree}
use sojebos.Heap.Realloc.{Memory, memcpy}

pub record Vector : Type 0 where
  pub items : ℕ
  pub size : ℕ
  pub capacity : ℕ
  pub element_size : ℕ

-- The result of a call, the vector and the memory
abbrev pub Called : Type 0
Called = Bool × Vector × Memory

-- `kfree(vec->data)`, with the bytes as they are
unfoldable pub free_items : ℕ → Memory → Option Memory
free_items ptr m = elim (kfree ptr m.blocks) [
  | none ↦ none
  | some bs ↦ some (record m { blocks = bs })
]

unfoldable pub vector_resize : ℕ → Vector → Memory → Option Called
vector_resize new_capacity vec m = elim (kmalloc (u32 (new_capacity * vec.element_size)) m.blocks) [
  | none ↦ some (false, vec, m)
  | some (new_data, bs) ↦
      let count = if ltb vec.size new_capacity then vec.size else new_capacity in
      let copied = memcpy new_data vec.items (u32 (count * vec.element_size)) m.bytes in
      let grown : Vector = record vec { items = new_data; capacity = new_capacity } in
      let moved : Option Called =
        elim (free_items vec.items (record { blocks = bs; bytes = copied })) [
          | none ↦ none
          | some m' ↦ some (true, grown, m')
        ] in
      if (vec.items == 0) || (vec.size == 0)
      then some (true, grown, record m { blocks = bs })
      else moved
]

unfoldable pub vector_init : ℕ → ℕ → Vector → Memory → Called
vector_init initial_capacity element_size vec m =
    let capacity = if initial_capacity == 0 then 4 else initial_capacity in
    let empty : Vector = record {
      items = vec.items;
      size = 0;
      capacity = capacity;
      element_size = element_size;
    } in
    let filled : Called = elim (kmalloc (u32 (capacity * element_size)) m.blocks) [
      | none ↦ (false, record empty { items = 0; capacity = 0 }, m)
      | some (p, bs) ↦ (true, record empty { items = p }, record m { blocks = bs })
    ] in
    if element_size == 0 then (false, vec, m) else filled

unfoldable pub vector_free : Vector → Memory → Option (Vector × Memory)
vector_free vec m =
    let freed : Option (Vector × Memory) = elim (free_items vec.items m) [
      | none ↦ none
      | some m' ↦ some (record vec { items = 0; size = 0; capacity = 0 }, m')
    ] in
    if vec.items == 0 then some (vec, m) else freed

-- The end of `vector_push_back`: the copy behind the last element
unfoldable pub append_element : ℕ → Vector → Memory → Called
append_element element vec m = (
  true,
  record vec { size = u32 (vec.size + 1) },
  record m {
    bytes =
        memcpy (u32 (vec.items + u32 (vec.size * vec.element_size))) element vec.element_size
          m.bytes;
  },
)

unfoldable pub vector_push_back : ℕ → Vector → Memory → Option Called
vector_push_back element vec m =
    let grown : Option Called = elim (vector_resize (u32 (vec.capacity * 2)) vec m) [
      | none ↦ none
      | some (true, vec', m') ↦ some (append_element element vec' m')
      | some (false, vec', m') ↦ some (false, vec', m')
    ] in
    if element == 0
    then some (false, vec, m)
    else if leb vec.capacity vec.size
    then grown
    else some (append_element element vec m)

-- The pointer to an element; NULL is `none`.
unfoldable pub vector_get : Vector → ℕ → Option ℕ
vector_get vec index =
    if leb vec.size index then none else some (u32 (vec.items + u32 (index * vec.element_size)))

unfoldable pub vector_pop_back : Vector → Bool × Vector
vector_pop_back vec =
    if vec.size == 0 then (false, vec) else (true, record vec { size = vec.size - 1 })

unfoldable pub vector_clear : Vector → Vector
vector_clear vec = record vec { size = 0 }
