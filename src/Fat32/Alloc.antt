-- ===== src/Fat32/Alloc.antt =====
-- `fat32_find_free_cluster` and the count of `fat32_show_usage`: the two loops over the table visit
-- every cluster of the table once, in order.
use sojebos.Common.{
  ℕ, zero, suc, ◌+◌, ◌*◌, ◌%◌, ◌^◌, ◌≤◌, ◌<◌, ◌≡◌, ◌≢◌, ◌&&◌, refl, arith, inl, inr, ◌⊎◌,
}
use sojebos.Common.{◌==◌, u32, Bool-cases, Option, some, none, ltb, Option-cases}
use sojebos.Disk.{Disk, disk_read}
use sojebos.Disk.Fields.{get_u32}
use sojebos.Fat32.{
  Volume, fat_sector, entry_offset, next_cluster, find_free_in, find_free_from, find_free_cluster,
  end_of_chain,
}

module _ (link : ℕ → ℕ) where
  -- What a search for the first free cluster from `lo` up to `hi` returns.
  abbrev pub Searched : ℕ → ℕ → Option ℕ → Type 0
  Searched lo hi none = (k : ℕ) → 2 ≤ k → lo ≤ k → k < hi → link k ≢ 0
  Searched lo hi (some c) =
      (2 ≤ c) × (lo ≤ c) × (c < hi) × (link c ≡ 0) × ((k : ℕ) → 2 ≤ k → lo ≤ k → k < c → link k ≢ 0)

  Searched-later :
      (lo mid hi : ℕ) (o : Option ℕ)
      → lo ≤ mid
      → mid ≤ hi
      → Searched lo mid none
      → Searched mid hi o
      → Searched lo hi o
  Searched-later lo mid hi none p q f g = λ k a b c. elim (Bool-cases (ltb k mid)) [
    | inl e ↦ f k a b (ground arith)
    | inr e ↦ g k a (ground arith) c
  ]
  Searched-later lo mid hi (some x) p q f g = (
    g.0,
    omega (arith, g.1),
    g.2,
    g.3,
    λ k a b c. elim (Bool-cases (ltb k mid)) [
      | inl e ↦ f k a b (ground arith)
      | inr e ↦ g.4 k a (ground arith) c
    ],
  )

  Searched-earlier :
      (lo mid hi c : ℕ) → mid ≤ hi → Searched lo mid (some c) → Searched lo hi (some c)
  Searched-earlier lo mid hi c q f = (f.0, f.1, omega (arith, f.2), f.3, f.4)

-- The entry that the loops read is the link of that cluster.
pub entry_link :
    (fs : Volume) (d : Disk) (i j : ℕ)
    → j < 128
    → i < 2 ^ 21
    → get_u32 (disk_read d (u32 (fs.reserved_sector_count + i))) (4 * j) % 2 ^ 28
      ≡ next_cluster fs d (i * 128 + j)
unfolding next_cluster
entry_link fs d i j p q =
    let s : fat_sector fs (i * 128 + j) ≡ u32 (fs.reserved_sector_count + i) = omega arith in
    let o : entry_offset (i * 128 + j) ≡ 4 * j = omega arith in rw (s, o) refl

module _ (fs : Volume) (d : Disk) where
  find_free_in-Searched :
      (i n j lo hi : ℕ)
      → i < 2 ^ 21
      → j + n ≤ 128
      → lo ≡ i * 128 + j
      → hi ≡ lo + n
      → Searched
          (next_cluster fs d)
          lo
          hi
          (find_free_in (disk_read d (u32 (fs.reserved_sector_count + i))) i n j)
  unfolding find_free_in
  find_free_in-Searched i zero j lo hi p q x y = λ k a b c. absurd (omega arith)
  find_free_in-Searched i (suc n) j lo hi p q x y =
      let buffer = disk_read d (u32 (fs.reserved_sector_count + i)) in
      let entry = get_u32 buffer (4 * j) % 2 ^ 28 in
      let here : entry ≡ next_cluster fs d lo = rw x (entry_link fs d i j (omega arith) p) in
      let later =
        find_free_in-Searched i n (j + 1) (lo + 1) hi p (omega arith) (omega arith) (omega arith) in
      elim (Bool-cases ((i == 0) && ltb j 2)) [
        | inl reserved ↦ rw reserved (
            Searched-later (next_cluster fs d) lo (lo + 1) hi _ (omega arith) (omega arith)
              (λ k a b c. absurd (ground arith)) later)
        | inr usable ↦ elim (Bool-cases (entry == 0)) [
          | inl free ↦
              let c : u32 (i * 128 + j) ≡ lo = omega arith in
              rw (usable, free, c)
                (
                  ground arith,
                  omega arith,
                  omega arith,
                  ground arith,
                  λ k a b e. absurd (omega arith),
                )
          | inr used ↦
              rw (usable, used)
                (Searched-later (next_cluster fs d) lo (lo + 1) hi _ (omega arith) (omega arith)
                  (λ k a b c.
                    let e : k ≡ lo = omega arith in
                    let nz : next_cluster fs d lo ≢ 0 = ground arith in rw e nz)
                  later)
        ]
      ]

  find_free_from-Searched :
      (n i lo hi : ℕ)
      → i + n ≤ 2 ^ 21
      → lo ≡ i * 128
      → hi ≡ lo + n * 128
      → Searched (next_cluster fs d) lo hi (find_free_from fs d n i)
  unfolding find_free_from
  find_free_from-Searched zero i lo hi h x y = λ k a b c. absurd (omega arith)
  find_free_from-Searched (suc n) i lo hi h x y =
      let sector = find_free_in (disk_read d (u32 (fs.reserved_sector_count + i))) i 128 0 in
      let here =
        find_free_in-Searched i 128 0 lo (lo + 128) (omega arith) (omega arith) (omega arith)
          (omega arith) in
      let later =
        find_free_from-Searched n (i + 1) (lo + 128) hi (omega arith) (omega arith) (omega arith) in
      elim (Option-cases sector) [
        | inl none_here ↦
            rw (none_here, Searched, find_free_from)
              (Searched-later (next_cluster fs d) lo (lo + 128) hi _ (omega arith) (omega arith)
                (rw none_here at here) later)
        | inr (c, found) ↦
            rw (found, Searched, find_free_from)
              (Searched-earlier (next_cluster fs d) lo (lo + 128) hi c (omega arith)
                (rw found at here))
      ]

-- `fat32_find_free_cluster` returns the lowest free cluster of the table that is not 0 or 1, or,
-- when there is none, 0x0FFFFFFF. The table is at most as large as FAT32 allows.
pub find_free_cluster_lem :
    (fs : Volume) (d : Disk)
    → fs.fat_size ≤ 2 ^ 21
    → let c = find_free_cluster fs d in
      ((2 ≤ c)
        × (c < fs.fat_size * 128)
        × (next_cluster fs d c ≡ 0)
        × ((k : ℕ) → 2 ≤ k → k < c → next_cluster fs d k ≢ 0))
      ⊎ ((c ≡ end_of_chain) × ((k : ℕ) → 2 ≤ k → k < fs.fat_size * 128 → next_cluster fs d k ≢ 0))
unfolding find_free_cluster
find_free_cluster_lem fs d h =
    let found =
      find_free_from-Searched fs d fs.fat_size 0 0 (fs.fat_size * 128) (omega arith) (omega arith)
        (omega arith) in
    elim (Option-cases (find_free_from fs d fs.fat_size 0)) [
      | inl e ↦ rw e (inr (refl, λ k a b. (rw e at found) k a (omega arith) b))
      | inr (c, e) ↦
          let f = rw e at found in rw e (inl (f.0, f.2, f.3, λ k a b. f.4 k a (omega arith) b))
    ]
