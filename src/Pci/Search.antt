-- ===== src/Pci/Search.antt =====
-- The address that is written selects the register, and the card is found where it is.
use sojebos.Common.{
  ℕ, zero, suc, ◌+◌, ◌*◌, ◌/◌, ◌%◌, ◌^◌, ◌<◌, ◌≤◌, ◌≡◌, refl, ◌⊎◌, inl, inr, arith, Bool-cases,
  ◌==◌,
}
use sojebos.Common.Bits.{bit_or-add}
use sojebos.Pci.{
  pci_address, pci_read_long, pci_read_word, find_in_slots, find_in_buses, pci_find_rtl8139,
}

pub pci_address_lem :
    (bus slot func offset : ℕ)
    → bus < 2 ^ 8
    → slot < 2 ^ 5
    → func < 2 ^ 3
    → pci_address bus slot func offset
      ≡ offset % 256 / 4 * 4 + func * 2 ^ 8 + slot * 2 ^ 11 + bus * 2 ^ 16 + 1 * 2 ^ 31
unfolding pci_address
pci_address_lem bus slot func offset b s f =
    rw
      (
        bit_or-add 8 (offset % 256 / 4 * 4) func (omega arith),
        bit_or-add 11 (offset % 256 / 4 * 4 + func * 2 ^ 8) slot (omega arith),
        bit_or-add 16 (offset % 256 / 4 * 4 + func * 2 ^ 8 + slot * 2 ^ 11) bus (omega arith),
        bit_or-add 31 (offset % 256 / 4 * 4 + func * 2 ^ 8 + slot * 2 ^ 11 + bus * 2 ^ 16) 1
            (omega arith),
      )
      refl

-- The network card in a slot, by its vendor and its device number
abbrev pub IsCard : (ℕ → ℕ) → ℕ → ℕ → Type 0
IsCard config bus slot =
    (pci_read_word config bus slot 0 0 ≡ 0x10EC) × (pci_read_word config bus slot 0 2 ≡ 0x8139)

abbrev pub NoCard : (ℕ → ℕ) → ℕ → ℕ → Type 0
NoCard config bus slot = IsCard config bus slot → ⊥

module _ (config : ℕ → ℕ) where
  abbrev bar : ℕ → ℕ → ℕ
  bar bus slot = pci_read_long config bus slot 0 0x10 / 2 * 2

  -- The search over `n` slots of a bus: the first card in them, or what follows.
  abbrev InSlots : ℕ → ℕ → ℕ → ℕ → ℕ → Type 0
  InSlots bus n slot otherwise r =
      ((s : ℕ) × (slot ≤ s)
        × (s < slot + n)
        × IsCard config bus s
        × ((k : ℕ) → slot ≤ k → k < s → NoCard config bus k)
        × (r ≡ bar bus s))
      ⊎ (((k : ℕ) → slot ≤ k → k < slot + n → NoCard config bus k) × (r ≡ otherwise))

  past_slot :
      (bus n slot otherwise r : ℕ)
      → NoCard config bus slot
      → InSlots bus n (slot + 1) otherwise r
      → InSlots bus (suc n) slot otherwise r
  past_slot bus n slot otherwise r absent (inl (s, le, lt, card, before, e)) = inl (
    s,
    omega arith,
    omega arith,
    card,
    (λ k a b. elim (Bool-cases (k == slot)) [
      | inl q ↦ let here : k ≡ slot = ground arith in rw here absent
      | inr q ↦ before k (ground arith) b
    ]),
    e,
  )
  past_slot bus n slot otherwise r absent (inr (none_there, e)) = inr (
    (λ k a b. elim (Bool-cases (k == slot)) [
      | inl q ↦ let here : k ≡ slot = ground arith in rw here absent
      | inr q ↦ none_there k (ground arith) (omega arith)
    ]),
    e,
  )

  find_in_slots-InSlots :
      (bus n slot otherwise : ℕ)
      → InSlots bus n slot otherwise (find_in_slots config bus n slot otherwise)
  unfolding find_in_slots
  find_in_slots-InSlots bus zero slot otherwise = inr ((λ k a b. absurd (omega arith)), refl)
  find_in_slots-InSlots bus (suc n) slot otherwise =
      let rest = find_in_slots-InSlots bus n (slot + 1) otherwise in
      elim (Bool-cases (pci_read_word config bus slot 0 0 == 0x10EC)) [
        | inr e ↦ rw e (past_slot bus n slot otherwise _ (λ c. absurd (ground (arith, c.0))) rest)
        | inl e ↦ elim (Bool-cases (pci_read_word config bus slot 0 2 == 0x8139)) [
          | inr f ↦
              rw (e, f) (past_slot bus n slot otherwise _ (λ c. absurd (ground (arith, c.1))) rest)
          | inl f ↦ inl (
            slot,
            omega arith,
            omega arith,
            (ground arith, ground arith),
            (λ k a b. absurd (omega arith)),
            rw (e, f) refl,
          )
        ]
      ]

  -- The search over `n` buses
  abbrev pub InBuses : ℕ → ℕ → ℕ → Type 0
  InBuses n bus r =
      ((b : ℕ) × (s : ℕ) × (bus ≤ b)
        × (b < bus + n)
        × (s < 32)
        × IsCard config b s
        × ((j : ℕ) → (k : ℕ) → bus ≤ j → j < b → k < 32 → NoCard config j k)
        × ((k : ℕ) → k < s → NoCard config b k)
        × (r ≡ bar b s))
      ⊎ (((j : ℕ) → (k : ℕ) → bus ≤ j → j < bus + n → k < 32 → NoCard config j k) × (r ≡ 0))

  past_bus :
      (n bus r : ℕ)
      → ((k : ℕ) → k < 32 → NoCard config bus k)
      → InBuses n (bus + 1) r
      → InBuses (suc n) bus r
  past_bus n bus r absent (inl (b, s, le, lt, slot, card, before, first, e)) = inl (
    b,
    s,
    omega arith,
    omega arith,
    slot,
    card,
    (λ j k a c p. elim (Bool-cases (j == bus)) [
      | inl q ↦ let here : j ≡ bus = ground arith in rw here (absent k p)
      | inr q ↦ before j k (ground arith) c p
    ]),
    first,
    e,
  )
  past_bus n bus r absent (inr (none_there, e)) = inr (
    (λ j k a c p. elim (Bool-cases (j == bus)) [
      | inl q ↦ let here : j ≡ bus = ground arith in rw here (absent k p)
      | inr q ↦ none_there j k (ground arith) (omega arith) p
    ]),
    e,
  )

  find_in_buses-InBuses : (n bus : ℕ) → InBuses n bus (find_in_buses config n bus)
  unfolding find_in_buses
  find_in_buses-InBuses zero bus = inr ((λ j k a b. absurd (omega arith)), refl)
  find_in_buses-InBuses (suc n) bus =
      elim (find_in_slots-InSlots bus 32 0 (find_in_buses config n (bus + 1))) [
        | inl (s, le, lt, card, before, e) ↦ inl (
          bus,
          s,
          omega arith,
          omega arith,
          omega arith,
          card,
          (λ j k a b. absurd (omega arith)),
          (λ k b. before k (omega arith) b),
          e,
        )
        | inr (none_there, e) ↦ rw e (
            past_bus n bus _ (λ k p. none_there k (omega arith) (omega arith))
              (find_in_buses-InBuses n (bus + 1)))
      ]

  -- The search for the network card returns the base address, with its lowest bit cleared, of the first
  -- card in the order of buses and slots, and 0 if there is none.
  pub pci_find_rtl8139-InBuses : InBuses 256 0 (pci_find_rtl8139 config)
  unfolding pci_find_rtl8139
  pci_find_rtl8139-InBuses = find_in_buses-InBuses 256 0
