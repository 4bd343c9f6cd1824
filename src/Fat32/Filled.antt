-- ===== src/Fat32/Filled.antt =====
-- A directory entry that is written: its fields read back, and the rest of the sector is kept.
use sojebos.Common.{
  ℕ, ◌+◌, ◌*◌, ◌/◌, ◌%◌, ◌^◌, ◌≤◌, ◌<◌, ◌≡◌, ◌≢◌, refl, sym, ◌∙◌, ◌⊎◌, arith, List, length,
  length-set, get_or, get_or-set_self, get_or-set_ne, set, take, take-all, drop, length-drop,
}
use sojebos.Disk.Fields.{
  get_u16, get_u32, put_u16, length-put_u16, length-put_u32, get_or-put_u32_ne, get_u32-put_u32,
}
use sojebos.Fat32.Entry.{entry_at, name_byte, put_bytes, fill_entry}
use sojebos.Fat32.PutBytes.{
  length-put_bytes, get_or-put_bytes_ne, get_or-put_bytes, get_or-drop, take_ext, get_or-put_u16_ne,
  get_u16_same, get_u32_same, get_u16-put_u16,
}

pub length-fill_entry :
    (b : List ℕ) (i : ℕ) (name : List ℕ) (attr cluster size : ℕ)
    → length (fill_entry b i name attr cluster size) ≡ length b
unfolding fill_entry
length-fill_entry b i name attr cluster size =
    length-put_u32 _ (32 * i + 28) size
    ∙ length-put_u16 _ (32 * i + 20) _
    ∙ length-put_u16 _ (32 * i + 26) _
    ∙ length-set _ (32 * i + 11) attr
    ∙ length-put_bytes b (32 * i) name

module _ (b : List ℕ) (i : ℕ) (name : List ℕ) (attr cluster size : ℕ)
    (eleven : length name ≡ 11) where
  -- The bytes of the other entries stay.
  get_or-fill_entry_ne :
      (k : ℕ)
      → (k < 32 * i) ⊎ (32 * i + 32 ≤ k)
      → get_or (fill_entry b i name attr cluster size) k 0 ≡ get_or b k 0
  unfolding fill_entry
  get_or-fill_entry_ne k out =
      get_or-put_u32_ne _ (32 * i + 28) size k (omega arith)
      ∙ get_or-put_u16_ne _ (32 * i + 20) _ k (omega arith)
      ∙ get_or-put_u16_ne _ (32 * i + 26) _ k (omega arith)
      ∙ get_or-set_ne _ (32 * i + 11) k attr 0 (omega arith)
      ∙ get_or-put_bytes_ne b (32 * i) name k (omega arith)

  module _ (room : 32 * i + 32 ≤ length b) where
    abbrev new_bytes : List ℕ
    new_bytes = fill_entry b i name attr cluster size

    get_or-fill_entry_name : (j : ℕ) → j < 11 → get_or new_bytes (32 * i + j) 0 ≡ get_or name j 0
    unfolding fill_entry
    get_or-fill_entry_name j lt =
        get_or-put_u32_ne _ (32 * i + 28) size (32 * i + j) (omega arith)
        ∙ get_or-put_u16_ne _ (32 * i + 20) _ (32 * i + j) (omega arith)
        ∙ get_or-put_u16_ne _ (32 * i + 26) _ (32 * i + j) (omega arith)
        ∙ get_or-set_ne _ (32 * i + 11) (32 * i + j) attr 0 (omega arith)
        ∙ get_or-put_bytes b (32 * i) name j (omega arith) (omega arith)

    get_or-fill_entry_attr : get_or new_bytes (32 * i + 11) 0 ≡ attr
    unfolding fill_entry
    get_or-fill_entry_attr =
        get_or-put_u32_ne _ (32 * i + 28) size (32 * i + 11) (omega arith)
        ∙ get_or-put_u16_ne _ (32 * i + 20) _ (32 * i + 11) (omega arith)
        ∙ get_or-put_u16_ne _ (32 * i + 26) _ (32 * i + 11) (omega arith)
        ∙ get_or-set_self _ (32 * i + 11) attr 0 (omega (arith, length-put_bytes b (32 * i) name))

    name-fill_entry : take 11 (drop (32 * i) new_bytes) ≡ name
    name-fill_entry =
        let len = length-fill_entry b i name attr cluster size in
        take_ext 11 (drop (32 * i) new_bytes) name
          (omega (arith, len, length-drop (32 * i) new_bytes)) (omega arith)
          (λ j lt. get_or-drop (32 * i) j new_bytes ∙ get_or-fill_entry_name j lt)
        ∙ take-all 11 name (omega arith)

    low-fill_entry : get_u16 new_bytes (32 * i + 26) ≡ cluster % 2 ^ 16
    unfolding fill_entry
    low-fill_entry =
        let named = set (put_bytes b (32 * i) name) (32 * i + 11) attr in
        let low = put_u16 named (32 * i + 26) (cluster % 2 ^ 16) in
        let high = put_u16 low (32 * i + 20) (cluster / 2 ^ 16 % 2 ^ 16) in
        let len = length-set (put_bytes b (32 * i) name) (32 * i + 11) attr in
        get_u16_same _ low (32 * i + 26) (λ k p q.
          get_or-put_u32_ne high (32 * i + 28) size k (omega arith)
          ∙ get_or-put_u16_ne low (32 * i + 20) _ k (omega arith))
        ∙ get_u16-put_u16 named (32 * i + 26) (cluster % 2 ^ 16)
            (omega (arith, len, length-put_bytes b (32 * i) name)) (omega arith)

    high-fill_entry : get_u16 new_bytes (32 * i + 20) ≡ cluster / 2 ^ 16 % 2 ^ 16
    unfolding fill_entry
    high-fill_entry =
        let named = set (put_bytes b (32 * i) name) (32 * i + 11) attr in
        let low = put_u16 named (32 * i + 26) (cluster % 2 ^ 16) in
        let high = put_u16 low (32 * i + 20) (cluster / 2 ^ 16 % 2 ^ 16) in
        let len = length-set (put_bytes b (32 * i) name) (32 * i + 11) attr in
        let len' = length-put_u16 named (32 * i + 26) (cluster % 2 ^ 16) in
        get_u16_same _ high (32 * i + 20)
          (λ k p q. get_or-put_u32_ne high (32 * i + 28) size k (omega arith))
        ∙ get_u16-put_u16 low (32 * i + 20) (cluster / 2 ^ 16 % 2 ^ 16)
            (omega (arith, len, len', length-put_bytes b (32 * i) name)) (omega arith)

    size-fill_entry : get_u32 new_bytes (32 * i + 28) ≡ size % 2 ^ 32
    unfolding fill_entry
    size-fill_entry =
        let named = set (put_bytes b (32 * i) name) (32 * i + 11) attr in
        let low = put_u16 named (32 * i + 26) (cluster % 2 ^ 16) in
        let high = put_u16 low (32 * i + 20) (cluster / 2 ^ 16 % 2 ^ 16) in
        let len : length high ≡ length b =
          length-put_u16 low (32 * i + 20) (cluster / 2 ^ 16 % 2 ^ 16)
          ∙ length-put_u16 named (32 * i + 26) (cluster % 2 ^ 16)
          ∙ length-set (put_bytes b (32 * i) name) (32 * i + 11) attr
          ∙ length-put_bytes b (32 * i) name in
        get_u32-put_u32 high (32 * i + 28) size (omega (arith, len))

    pub entry_at-fill_entry : entry_at new_bytes i ≡ record {
      name = name;
      attr = attr;
      first_cluster_high = cluster / 2 ^ 16 % 2 ^ 16;
      first_cluster_low = cluster % 2 ^ 16;
      file_size = size % 2 ^ 32;
    }
    unfolding entry_at
    entry_at-fill_entry =
        rw
          (
            name-fill_entry, get_or-fill_entry_attr, high-fill_entry, low-fill_entry,
            size-fill_entry,
          )
          refl

  -- The other entries keep their fields.
  pub entry_at-fill_entry_ne :
      (j : ℕ)
      → j ≢ i
      → 32 * j + 32 ≤ length b
      → entry_at (fill_entry b i name attr cluster size) j ≡ entry_at b j
  unfolding entry_at
  entry_at-fill_entry_ne j ne room =
      let after = fill_entry b i name attr cluster size in
      let same : (k : ℕ) → 32 * j ≤ k → k < 32 * j + 32 → get_or after k 0 ≡ get_or b k 0 =
        λ k p q. get_or-fill_entry_ne k (omega arith) in
      let len = length-fill_entry b i name attr cluster size in
      let named : take 11 (drop (32 * j) after) ≡ take 11 (drop (32 * j) b) =
        take_ext 11 (drop (32 * j) after) (drop (32 * j) b)
          (omega (arith, len, length-drop (32 * j) after)) (omega (arith, length-drop (32 * j) b))
          (λ k lt.
            get_or-drop (32 * j) k after
            ∙ same (32 * j + k) (omega arith) (omega arith)
            ∙ sym (get_or-drop (32 * j) k b)) in
      rw
        (
          named,
          same (32 * j + 11) (omega arith) (omega arith),
          get_u16_same after b (32 * j + 20) (λ k p q. same k (omega arith) (omega arith)),
          get_u16_same after b (32 * j + 26) (λ k p q. same k (omega arith) (omega arith)),
          get_u32_same after b (32 * j + 28) (λ k p q. same k (omega arith) (omega arith)),
        )
        refl

  pub name_byte-fill_entry_ne :
      (j k : ℕ)
      → j ≢ i
      → k < 32
      → name_byte (fill_entry b i name attr cluster size) j k ≡ name_byte b j k
  name_byte-fill_entry_ne j k ne lt = get_or-fill_entry_ne (32 * j + k) (omega arith)

  pub name_byte-fill_entry :
      32 * i + 32 ≤ length b
      → name_byte (fill_entry b i name attr cluster size) i 0 ≡ get_or name 0 0
  name_byte-fill_entry room = get_or-fill_entry_name room 0 (omega arith)
