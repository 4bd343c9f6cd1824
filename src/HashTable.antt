-- ===== src/HashTable.antt =====
-- src/kernel/libc/hashtable.c, with `strcmp` and `strdup` of string.c.
--
-- A string is the list of its characters before the zero, as numbers below 128. `unsigned long` has
-- 32 bits. A bucket is the list of its entries. A table has at least one bucket: the C code
-- divides by the size. `hash_table_create` and `hash_table_remove` are without the heap.
pub mod Map
mod Tests
use sojebos.Common.{ℕ, zero, suc, ◌+◌, ◌*◌, ◌%◌, Bool, true, false, ◌&&◌}
use sojebos.Common.{Option, some, none, List, [], ◌∷◌, length, get_or, set, replicate}
use sojebos.Common.{◌==◌, if◌then◌else◌, u32}
use sojebos.Heap.{Block, kmalloc}

-- `strcmp(s1, s2) == 0`
unfoldable pub same_string : List ℕ → List ℕ → Bool
same_string [] [] = true
same_string [] (c ∷ t) = false
same_string (c ∷ s) [] = false
same_string (c ∷ s) (d ∷ t) = (c == d) && same_string s t

-- The loop of `hash_function`, from `hash`
unfoldable pub hash_from : ℕ → List ℕ → ℕ
hash_from hash [] = hash
hash_from hash (c ∷ str) = hash_from (u32 (u32 (hash * 32) + hash + c)) str

unfoldable pub hash_function : List ℕ → ℕ
hash_function str = hash_from 5381 str

-- `strdup` of string.c: the copy, with the heap's blocks; `none` is NULL.
unfoldable pub strdup : List ℕ → List Block → Option (List ℕ × List Block)
strdup s blocks = elim (kmalloc (u32 (length s + 1)) blocks) [
  | none ↦ none
  | some (p, bs) ↦ some (s, bs)
]

module _ {V : Type 0} where
  -- The search of `hash_table_insert` for the key; `none` if it is new.
  unfoldable pub update_entry : List ℕ → V → List (List ℕ × V) → Option (List (List ℕ × V))
  update_entry key value [] = none
  update_entry key value (e ∷ es) =
      if same_string e.0 key
      then some ((e.0, value) ∷ es)
      else elim (update_entry key value es) [ none ↦ none | some after ↦ some (e ∷ after) ]

  -- A new entry of 12 bytes before the bucket, where there is memory for it
  unfoldable pub new_entry :
      List ℕ → V → List (List ℕ × V) → List Block → Option (List (List ℕ × V) × List Block)
  new_entry key value es blocks = elim (kmalloc 12 blocks) [
    | none ↦ some (es, blocks)
    | some (p, bs) ↦ elim (strdup key bs) [
      | none ↦ none
      | some (copy, bs') ↦ some ((copy, value) ∷ es, bs')
    ]
  ]

  unfoldable pub insert_entry :
      List ℕ → V → List (List ℕ × V) → List Block → Option (List (List ℕ × V) × List Block)
  insert_entry key value es blocks = elim (update_entry key value es) [
    | some after ↦ some (after, blocks)
    | none ↦ new_entry key value es blocks
  ]

  unfoldable pub remove_entry : List ℕ → List (List ℕ × V) → List (List ℕ × V)
  remove_entry key [] = []
  remove_entry key (e ∷ es) = if same_string e.0 key then es else e ∷ remove_entry key es

  unfoldable pub hash_table_create : ℕ → List (List (List ℕ × V))
  hash_table_create size = replicate size []

  unfoldable pub bucket_of : List ℕ → List (List (List ℕ × V)) → ℕ
  bucket_of key table = hash_function key % length table

  -- `none`: there is no memory for the copy of the key. The entry then has the key NULL, at which the
  -- next search of its bucket reads.
  unfoldable pub hash_table_insert :
      List ℕ
      → V
      → List (List (List ℕ × V))
      → List Block
      → Option (List (List (List ℕ × V)) × List Block)
  hash_table_insert key value table blocks =
      let b = bucket_of key table in
      elim (insert_entry key value (get_or table b []) blocks) [
        | none ↦ none
        | some (es, bs) ↦ some (set table b es, bs)
      ]

  unfoldable pub hash_table_remove : List ℕ → List (List (List ℕ × V)) → List (List (List ℕ × V))
  hash_table_remove key table =
      set table (bucket_of key table) (remove_entry key (get_or table (bucket_of key table) []))

  -- The key `none` is NULL. The first test is on `key`, not on `!key`, so the function goes on only
  -- with NULL, which `hash_function` reads as an address: the outer `none`.
  unfoldable pub hash_table_lookup : Option (List ℕ) → List (List (List ℕ × V)) → Option (Option V)
  hash_table_lookup (some key) table = some none
  hash_table_lookup none table = none
