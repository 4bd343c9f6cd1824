-- ===== src/Fat32/Shown.antt =====
-- What a formatted name looks like, and what is shown of a name.
use sojebos.Common.{if◌then◌else◌, ◌+◌}
use sojebos.Common.{
  ℕ, zero, suc, ◌≡◌, ◌&&◌, refl, ap, ◌∙◌, List, [], ◌∷◌, ◌++◌, length, replicate, arith, Bool-cases,
  inl, inr,
}
use sojebos.Common.{◌==◌, get_or, length-append, length-take, length-replicate, false, sym}
use mathlib.Core.List.{append-nil, append_assoc}
use sojebos.Strings.{c_string}
use sojebos.Fat32.Name.{
  space, dot, name_part, extension_of, pad, format_filename, copy_name, print_name,
}

length-pad : (n : ℕ) (text : List ℕ) → length (pad n text) ≡ n
unfolding pad
length-pad n text = omega (
  arith,
  length-take n (text ++ replicate n space),
  length-append text (replicate n space),
  length-replicate n space,
)

-- A formatted name has eleven bytes, whatever was typed.
pub length-format_filename : (input : List ℕ) → length (format_filename input) ≡ 11
unfolding format_filename
length-format_filename input =
    elim (Bool-cases ((length input == 1) && (get_or input 0 0 == dot))) [
      | inl e ↦ rw e (length-pad 11 _)
      | inr e ↦
          elim (Bool-cases
            ((length input == 2) && (get_or input 0 0 == dot) && (get_or input 1 0 == dot))) [
              | inl f ↦ rw (e, f) (length-pad 11 _)
              | inr f ↦
                  let base = (name_part 8 input).0 in
                  let ext = extension_of (name_part 8 input).1 in
                  rw (e, f)
                    (omega (
                      arith,
                      length-append (pad 8 base) (pad 3 ext),
                      length-pad 8 base,
                      length-pad 3 ext,
                    ))
            ]
    ]

-- The bytes at the places, without the spaces
unfoldable pub letters : List ℕ → List ℕ → List ℕ
letters name [] = []
letters name (i ∷ places) =
    if get_or name i 0 == space then letters name places else get_or name i 0 ∷ letters name places

abbrev pub base_places : List ℕ
base_places = 0 ∷ 1 ∷ 2 ∷ 3 ∷ 4 ∷ 5 ∷ 6 ∷ 7 ∷ []

abbrev pub extension_places : List ℕ
extension_places = 8 ∷ 9 ∷ 10 ∷ []

-- A name as a user reads it: its letters, and its extension behind a dot if there is one; it ends at a
-- zero.
unfoldable pub readable : List ℕ → List ℕ
readable name = c_string (
    letters name base_places
    ++ (if get_or name 8 0 == space then [] else dot ∷ letters name extension_places))

abbrev places_from : ℕ → ℕ → List ℕ
places_from zero i = []
places_from (suc n) i = i ∷ places_from n (i + 1)

copy_name-letters :
    (n i : ℕ) (name out : List ℕ) → copy_name n i name out ≡ out ++ letters name (places_from n i)
unfolding copy_name letters
copy_name-letters zero i name out = sym (append-nil out)
copy_name-letters (suc n) i name out = elim (Bool-cases (get_or name i 0 == space)) [
  | inl e ↦ rw e (copy_name-letters n (i + 1) name out)
  | inr e ↦ rw e (
      copy_name-letters n (i + 1) name (out ++ get_or name i 0 ∷ [])
      ∙ append_assoc out (get_or name i 0 ∷ []) (letters name (places_from n (i + 1))))
]

-- An entry that is not deleted shows its readable name.
pub print_name-readable :
    (name : List ℕ)
    → (get_or name 0 0 == 0xe5) ≡ false
    → print_name name ≡ readable name ++ b'\n' ∷ []
unfolding print_name readable
print_name-readable name live =
    let base = copy_name-letters 8 0 name [] in
    let whole = copy_name-letters 3 8 name (copy_name 8 0 name [] ++ dot ∷ []) in
    elim (Bool-cases (get_or name 8 0 == space)) [
      | inl e ↦
          rw (live, e, base)
            (ap (λ t. c_string t ++ b'\n' ∷ []) (sym (append-nil (letters name base_places))))
      | inr e ↦
          rw
            (
              live,
              e,
              whole,
              base,
              append_assoc (letters name base_places) (dot ∷ []) (letters name extension_places),
            )
            refl
    ]
