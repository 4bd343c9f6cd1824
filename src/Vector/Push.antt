-- ===== src/Vector/Push.antt =====
-- `vector_push_back` appends to the list of elements.
use sojebos.Common.{
  ℕ, ◌+◌, ◌*◌, ◌≤◌, ◌<◌, ◌≡◌, ◌≢◌, ◌^◌, refl, ap, sym, ◌∙◌, true, false, inl, inr, ◌⊎◌, arith,
}
use sojebos.Common.{some, none, ◌==◌, leb, ltb, u32, Bool-cases, Option-cases, lt→ltb}
use sojebos.Heap.{Block, align, kmalloc}
use sojebos.Heap.Realloc.{Memory, memcpy}
use sojebos.Heap.Resize.{memcpy-copies, memcpy-outside}
use sojebos.Heap.Replace.{kfree-kmalloc_other}
use sojebos.Vector.{Vector, free_items, vector_resize, append_element, vector_push_back}
use sojebos.Vector.Rows.{IsVector, row_below, rows_le, count-le}

-- After a call: one element more, those before as they were, and behind them the bytes given. Memory
-- outside of the heap is as it was.
pub record Appended (start end element : ℕ) (v : Vector) (m : Memory) (r : Vector × Memory)
    : Type 0 where
  pub block : Block
  pub vector : IsVector start end block r.0 r.1
  pub one_more : r.0.size ≡ v.size + 1
  pub same_width : r.0.element_size ≡ v.element_size
  pub kept :
      (i : ℕ) → i < v.size * v.element_size → r.1.bytes (r.0.items + i) ≡ m.bytes (v.items + i)
  pub added :
      (k : ℕ)
      → k < v.element_size
      → r.1.bytes (r.0.items + v.size * v.element_size + k) ≡ m.bytes (element + k)
  pub outside : (q : ℕ) → (q < start) ⊎ (end ≤ q) → r.1.bytes q ≡ m.bytes q

append_element-Appended :
    (start end element : ℕ) (c : Block) (v : Vector) (m : Memory)
    → IsVector start end c v m
    → v.size < v.capacity
    → (element + v.element_size ≤ start) ⊎ (end ≤ element)
    → (v' : Vector) × (m' : Memory) × (append_element element v m ≡ (true, v', m'))
      × Appended start end element v m (v', m')
unfolding append_element
append_element-Appended start end element c v m w less out =
    let row = row_below v.size v.capacity v.element_size less in
    let place = v.items + v.size * v.element_size in
    let at : u32 (v.items + u32 (v.size * v.element_size)) ≡ place =
      omega (arith, row, w.room, w.inside, w.valid.in_space) in
    let count : u32 (v.size + 1) ≡ v.size + 1 = omega (
      arith,
      less,
      count-le v.capacity v.element_size w.some_bytes,
      w.room,
      w.inside,
      w.valid.in_space,
    ) in
    let copied = memcpy place element v.element_size m.bytes in
    (
      record v { size = v.size + 1 },
      record m { bytes = copied },
      rw (at, count) refl,
      record {
        block = c;
        vector = record {
          valid = w.valid;
          holds = w.holds;
          is_used = w.is_used;
          inside = w.inside;
          room = w.room;
          fits = omega (arith, less);
          some_capacity = w.some_capacity;
          some_bytes = w.some_bytes;
        };
        one_more = refl;
        same_width = refl;
        kept = λ i h.
            memcpy-outside place element v.element_size m.bytes (v.items + i)
              (inl (omega (arith, h)));
        added = λ k h.
            memcpy-copies place element v.element_size m.bytes k
              (grind (arith, out, row, w.room, w.inside)) h;
        outside = λ q away.
            memcpy-outside place element v.element_size m.bytes q
              (grind (arith, away, row, w.room, w.inside));
      },
    )

vector_push_back_grows :
    (element : ℕ) (v : Vector) (m : Memory) {v1 v2 : Vector} {m1 m2 : Memory}
    → (element == 0) ≡ false
    → leb v.capacity v.size ≡ true
    → u32 (v.capacity * 2) ≡ v.capacity * 2
    → vector_resize (v.capacity * 2) v m ≡ some (true, v1, m1)
    → append_element element v1 m1 ≡ (true, v2, m2)
    → vector_push_back element v m ≡ some (true, v2, m2)
unfolding vector_push_back
vector_push_back_grows element v m given full double grown done =
    rw (given, full, double) (rw grown (ap some done))

module _ (start end : ℕ) (c : Block) (v : Vector) (m : Memory) (w : IsVector start end c v m)
    (narrow : v.capacity * 2 * v.element_size + 20 ≤ 2 ^ 32) where
  -- Doubling the array of a vector that is not empty
  vector_resize-IsVector :
      0 < v.size
      → ((kmalloc (v.capacity * 2 * v.element_size) m.blocks ≡ none)
          × (vector_resize (v.capacity * 2) v m ≡ some (false, v, m)))
        ⊎ ((v' : Vector) × (m' : Memory) × (c' : Block) × (vector_resize (v.capacity * 2) v m
              ≡ some (true, v', m'))
            × IsVector start end c' v' m'
            × (v'.size ≡ v.size)
            × (v'.capacity ≡ v.capacity * 2)
            × (v'.element_size ≡ v.element_size)
            × ((i : ℕ)
                → i < v.size * v.element_size
                → m'.bytes (v'.items + i) ≡ m.bytes (v.items + i))
            × ((q : ℕ) → (q < start) ⊎ (end ≤ q) → m'.bytes q ≡ m.bytes q))
  unfolding vector_resize free_items
  vector_resize-IsVector some_element =
      let total = v.capacity * 2 * v.element_size in
      let size : u32 total ≡ total = omega (arith, narrow) in
      let used_bytes = rows_le v.size v.capacity v.element_size w.fits in
      let copy_size : u32 (v.size * v.element_size) ≡ v.size * v.element_size =
        omega (arith, used_bytes, w.room, w.inside, w.valid.in_space) in
      let less : ltb v.size (v.capacity * 2) ≡ true =
        lt→ltb _ _ (omega (arith, w.fits, w.some_capacity)) in
      let not_null : (v.items == 0) ≡ false = ground (arith, w.inside) in
      let not_empty : (v.size == 0) ≡ false = ground (arith, some_element) in
      elim (Option-cases (kmalloc total m.blocks)) [
        | inl full ↦ inl (full, rw (vector_resize, size, full) refl)
        | inr ((p, after), took) ↦
            let (bs, new, freed, room, r) =
              kfree-kmalloc_other start end v.items total c m.blocks w.valid
                (omega (arith, w.inside, w.valid.in_space))
                (λ z. absurd (omega (arith, z, w.inside))) w.holds w.is_used took in
            let wide : total ≤ align total = omega (arith, narrow) in
            let copied = memcpy p v.items (v.size * v.element_size) m.bytes in
            inr (
              record v { items = p; capacity = v.capacity * 2 },
              record { blocks = bs; bytes = copied },
              new,
              rw (vector_resize, size, took)
                  (rw (not_null, not_empty) (rw (freed, free_items) (rw (less, copy_size) refl))),
              record {
                valid = r.valid;
                holds = r.holds;
                is_used = r.is_used;
                inside = r.inside;
                room = omega (arith, room, wide);
                fits = omega (arith, w.fits);
                some_capacity = omega (arith, w.some_capacity);
                some_bytes = w.some_bytes;
              },
              refl,
              refl,
              refl,
              λ i h.
                  memcpy-copies p v.items (v.size * v.element_size) m.bytes i
                    (grind (arith, r.apart, room, wide, used_bytes, w.room)) h,
              λ q away.
                  memcpy-outside p v.items (v.size * v.element_size) m.bytes q
                    (grind (arith, away, r.inside, room, wide, used_bytes)),
            )
      ]

  -- On a valid vector that is not near the end of the address space, with an element that lies outside
  -- of the heap, `vector_push_back` either fails and changes nothing, which happens only when the
  -- vector is full and `kmalloc` has no block of twice the bytes, or appends the element.
  pub vector_push_back-Appended :
      (element : ℕ)
      → element ≢ 0
      → (element + v.element_size ≤ start) ⊎ (end ≤ element)
      → ((v.size ≡ v.capacity)
          × (kmalloc (v.capacity * 2 * v.element_size) m.blocks ≡ none)
          × (vector_push_back element v m ≡ some (false, v, m)))
        ⊎ ((v' : Vector) × (m' : Memory) × (vector_push_back element v m ≡ some (true, v', m'))
            × Appended start end element v m (v', m'))
  unfolding vector_push_back
  vector_push_back-Appended element nn out =
      let given : (element == 0) ≡ false = ground (arith, nn) in
      elim (Bool-cases (leb v.capacity v.size)) [
        | inr e ↦
            let less : v.size < v.capacity = ground arith in
            let (v', m', eq, a) = append_element-Appended start end element c v m w less out in
            inr (v', m', rw (given, e) (ap some eq), a)
        | inl e ↦
            let full : v.size ≡ v.capacity = ground (arith, w.fits) in
            let narrow_count = count-le (v.capacity * 2) v.element_size w.some_bytes in
            let double : u32 (v.capacity * 2) ≡ v.capacity * 2 =
              omega (arith, narrow, narrow_count) in
            elim (vector_resize-IsVector (omega (arith, full, w.some_capacity))) [
              | inl (gone, eq) ↦ inl (full, gone, rw (given, e, double) (rw eq refl))
              | inr (v1, m1, c1, eq, w1, s1, cap1, e1, k1, o1) ↦
                  let (v2, m2, eq2, a) =
                    append_element-Appended start end element c1 v1 m1 w1
                      (omega (arith, s1, cap1, w.some_capacity, full)) (rw e1 out) in
                  let bytes_before : v1.size * v1.element_size ≡ v.size * v.element_size =
                    rw (s1, e1) refl in
                  inr (
                    v2,
                    m2,
                    vector_push_back_grows element v m given e double eq eq2,
                    record {
                      block = a.block;
                      vector = a.vector;
                      one_more = omega (arith, a.one_more, s1);
                      same_width = a.same_width ∙ e1;
                      kept = λ i h. a.kept i (omega (arith, h, bytes_before)) ∙ k1 i h;
                      added = λ k h.
                          ap (λ t. m2.bytes (v2.items + t + k)) (sym bytes_before)
                          ∙ a.added k (omega (arith, h, e1))
                          ∙ o1 (element + k) (grind (arith, out, h));
                      outside = λ q away. a.outside q away ∙ o1 q away;
                    },
                  )
            ]
      ]
