-- ===== src/Fat32/Replaced.antt =====
-- An unused entry of a directory that is filled in: the next lookup finds it.
use mathlib.Core.Path.{subst}
use sojebos.Common.{
  ℕ, ◌+◌, ◌*◌, ◌%◌, ◌/◌, ◌^◌, ◌≤◌, ◌<◌, ◌≡◌, ◌≢◌, refl, sym, ap, ◌∙◌, inl, inr, arith, true, false,
  ◌||◌, Bool-cases, Option, some, none, List, [], ◌∷◌, map, length, get_or, All, ◌==◌,
}
use sojebos.Disk.{Disk, disk_read, disk_write}
use sojebos.Fat32.Entry.{DirEntry, fill_entry, name_byte, entry_at}
use sojebos.Fat32.Filled.{
  length-fill_entry, entry_at-fill_entry, entry_at-fill_entry_ne, name_byte-fill_entry,
  name_byte-fill_entry_ne,
}
use sojebos.Fat32.Find.{same_name, is_end, is_deleted, is_long_name, entry_of}
use sojebos.Fat32.Flat.{run}
use sojebos.Fat32.Layout.{disk_read-write_ne, disk_read-write_self}
use sojebos.Fat32.Listing.{listed, first_named}
use sojebos.Fat32.Places.{Place, slot, IsUnused}
use sojebos.Fat32.Table.{IsDisk, disk_write-IsDisk}
use sojebos.Fat32.Walk.{Slot, Step, stop}
use sojebos.Fat32.Write.{visit_unused}

abbrev place_of : Place → Step (Unit {0}) (Option Slot) → Place
place_of p (stop (some x)) = record { sector = x.sector; index = x.index }
place_of p other = p

same_name_self : (name : List ℕ) → same_name name name ≡ true
unfolding same_name
same_name_self [] = refl
same_name_self (c ∷ cs) = ground (arith, same_name_self cs)

-- The directory after a name is written over an unused entry of it
module _ (d : Disk) (whole : IsDisk d) (p : Place) (inside : (p.sector < 2 ^ 28) × (p.index < 16))
    (name : List ℕ) (attr cluster size : ℕ) (eleven : length name ≡ 11) where
  abbrev pub recorded : Disk
  recorded =
      disk_write d p.sector (fill_entry (disk_read d p.sector) p.index name attr cluster size)

  room : (i : ℕ) → i < 16 → (s : ℕ) → 32 * i + 32 ≤ length (disk_read d s)
  room i lt s = omega (arith, whole s)

  abbrev SameAt : Place → Type 0
  SameAt q =
      (name_byte (disk_read recorded q.sector) q.index 0
        ≡ name_byte (disk_read d q.sector) q.index 0)
      × (entry_at (disk_read recorded q.sector) q.index ≡ entry_at (disk_read d q.sector) q.index)

  -- The other entries are as they were.
  recorded-SameAt : (q : Place) → q.sector < 2 ^ 28 → q.index < 16 → q ≢ p → SameAt q
  recorded-SameAt q lt few other = elim (Bool-cases (q.sector == p.sector)) [
    | inl e ↦
        let here : q.sector ≡ p.sector = ground arith in
        let ne : q.index ≢ p.index = λ i. other (rw (here, i) refl) in
        let now =
          disk_read-write_self d p.sector
            (fill_entry (disk_read d p.sector) p.index name attr cluster size) in
        rw (here, now)
          (
            name_byte-fill_entry_ne (disk_read d p.sector) p.index name attr cluster size eleven
                q.index 0 ne (omega arith),
            entry_at-fill_entry_ne (disk_read d p.sector) p.index name attr cluster size eleven
                q.index ne (room q.index few p.sector),
          )
    | inr e ↦
        let far : p.sector ≢ q.sector = ground arith in
        rw (disk_read-write_ne d p.sector q.sector _ inside.0 lt far) (refl, refl)
  ]

  pub recorded-IsDisk : IsDisk recorded
  recorded-IsDisk =
      disk_write-IsDisk d p.sector _ whole
        (length-fill_entry (disk_read d p.sector) p.index name attr cluster size ∙ whole p.sector)

  abbrev pub filled_in : DirEntry
  filled_in = record {
    name = name;
    attr = attr;
    first_cluster_high = cluster / 2 ^ 16 % 2 ^ 16;
    first_cluster_low = cluster % 2 ^ 16;
    file_size = size % 2 ^ 32;
  }

  recorded_self :
      (name_byte (disk_read recorded p.sector) p.index 0 ≡ get_or name 0 0)
      × (entry_at (disk_read recorded p.sector) p.index ≡ filled_in)
  recorded_self =
      let fits = room p.index inside.1 p.sector in
      let now =
        disk_read-write_self d p.sector
          (fill_entry (disk_read d p.sector) p.index name attr cluster size) in
      rw now (
        name_byte-fill_entry (disk_read d p.sector) p.index name attr cluster size eleven fits,
        entry_at-fill_entry (disk_read d p.sector) p.index name attr cluster size eleven fits,
      )

  module _ (unused : IsUnused (slot d p)) (not_end : get_or name 0 0 ≢ 0)
      (not_deleted : get_or name 0 0 ≢ 0xe5) (short : attr ≢ 0x0f) where
    -- At the place itself the new entry is listed, and has the name.
    first_named-here :
        (xs : List Slot) → first_named name (listed (slot recorded p ∷ xs)) ≡ some filled_in
    unfolding listed first_named is_long_name entry_of
    first_named-here xs =
        let (first, entry) = recorded_self in ground (arith, first, entry, same_name_self name)

    -- A place in front of it is listed as before.
    first_named-there :
        (q : Place) (xs ys : List Slot)
        → SameAt q
        → (is_end (slot d q) || is_deleted (slot d q)) ≡ false
        → (first_named name (listed xs) ≡ none → first_named name (listed ys) ≡ some filled_in)
        → first_named name (listed (slot d q ∷ xs)) ≡ none
        → first_named name (listed (slot recorded q ∷ ys)) ≡ some filled_in
    unfolding listed first_named is_long_name entry_of
    first_named-there q xs ys (first, entry) used rest no_such = ground (arith, first, entry, rest)

    taken :
        (q : Place) → (is_end (slot d q) || is_deleted (slot d q)) ≡ false → ¬ IsUnused (slot d q)
    taken q e e' = ground arith

    -- Where the search for an unused entry ends, the next lookup finds the new one.
    pub first_named-recorded :
        (ps : List Place)
        → All (λ q. (q.sector < 2 ^ 28) × (q.index < 16)) ps
        → run visit_unused (map (slot d) ps) tt ≡ stop (some (slot d p))
        → first_named name (listed (map (slot d) ps)) ≡ none
        → first_named name (listed (map (slot recorded) ps)) ≡ some filled_in
    unfolding run visit_unused
    first_named-recorded [] all found no_such = absurd (cc)
    first_named-recorded (q ∷ qs) all found no_such =
        elim (Bool-cases (is_end (slot d q) || is_deleted (slot d q))) [
          | inl e ↦
              let same : q ≡ p = ap (place_of p) (rw e at found) in
              subst
                (λ r.
                  first_named name (listed (slot recorded r ∷ map (slot recorded) qs))
                  ≡ some filled_in)
                (sym same) (first_named-here (map (slot recorded) qs))
          | inr e ↦
              let other : q ≢ p =
                λ r. taken q e (subst (λ k. IsUnused (slot d k)) (sym r) unused) in
              first_named-there q (map (slot d) qs) (map (slot recorded) qs)
                (recorded-SameAt q all.0.0 all.0.1 other) e
                (first_named-recorded qs all.1 (rw e at found)) no_such
        ]
