-- ===== src/HashTable/Map.antt =====
-- The table as a map from strings.
use sojebos.Common.{ℕ, ◌≡◌, ◌≢◌, refl, true, if◌then◌else◌, Option, ap, arith, ◌↔◌}
use sojebos.Common.{some, none, List, [], ◌∷◌, get_or, ◌==◌}
use sojebos.HashTable.{same_string, bucket_of}

-- `strcmp` returns 0 for equal strings alone.
pub same_string_iff : (s t : List ℕ) → (same_string s t ≡ true) ↔ (s ≡ t)
unfolding same_string
same_string_iff s t = (sound s t, λ e. rw e (self t))
  where
    self : (t : List ℕ) → same_string t t ≡ true
    self [] = refl
    self (c ∷ t) = let e : (c == c) ≡ true = ground arith in rw (e, self t) refl

    sound : (s t : List ℕ) → same_string s t ≡ true → s ≡ t
    sound [] [] h = refl
    sound [] (c ∷ t) h = absurd (ground arith)
    sound (c ∷ s) [] h = absurd (ground arith)
    sound (c ∷ s) (d ∷ t) h =
        let first : c ≡ d = ground arith in
        let rest : same_string s t ≡ true = ground arith in
        rw first (ap (λ u. d ∷ u) (sound s t rest))

module _ {V : Type 0} where
  -- The value that stands in a bucket under a key
  unfoldable pub find_entry : List ℕ → List (List ℕ × V) → Option V
  find_entry key [] = none
  find_entry key (e ∷ es) = if same_string e.0 key then some e.1 else find_entry key es

  -- The value that stands in the table under a key
  unfoldable pub value_of : List ℕ → List (List (List ℕ × V)) → Option V
  value_of key table = find_entry key (get_or table (bucket_of key table) [])

module _ {V : Type 0} (key : List ℕ) (value : V) where
  -- After an insertion that comes to its end, the key has the value and no other key's value has changed.
  abbrev pub Inserted : List (List (List ℕ × V)) → List (List (List ℕ × V)) → Type 0
  Inserted table after =
      (value_of key after ≡ some value)
      × ((q : List ℕ) → q ≢ key → value_of q after ≡ value_of q table)
