-- ===== src/Net/Arp.antt =====
-- The ARP cache as a map from IP addresses.
use sojebos.Common.{ℕ, ◌≡◌, ◌≢◌, refl, Bool, true, false, not, ◌&&◌, ◌||◌, inl, inr, ◌⊎◌, arith}
use sojebos.Common.{some, List, [], ◌∷◌, ◌==◌, Bool-cases}
use sojebos.Net.{ArpEntry, arp_save, arp_lookup}

-- The cache has a place for an address: an entry of its own, or one that is not assigned.
abbrev pub HasPlace : ℕ → List ArpEntry → Type 0
HasPlace ip [] = ⊥
HasPlace ip (e ∷ es) = ((not e.assigned || (e.ip == ip)) ≡ true) ⊎ HasPlace ip es

or-false : (a b : Bool) → (not a || b) ≡ false → (a && b) ≡ false
or-false true b h = h
or-false false b h = refl

or-other : (a b c : Bool) → (not a || b) ≡ true → (b ≡ true → c ≡ false) → (a && c) ≡ false
or-other true b c h k = k h
or-other false b c h k = refl

-- After a packet from `ip`, the cache has its address if there was a place for it.
pub arp_lookup-arp_save_self :
    (ip : ℕ) (mac : List ℕ) (cache : List ArpEntry)
    → HasPlace ip cache
    → arp_lookup ip (arp_save ip mac cache) ≡ some mac
unfolding arp_lookup arp_save
arp_lookup-arp_save_self ip mac [] h = absurd h
arp_lookup-arp_save_self ip mac (e ∷ es) h = elim (Bool-cases (not e.assigned || (e.ip == ip))) [
  | inl c ↦ rw c (let s : (ip == ip) ≡ true = ground arith in rw s refl)
  | inr c ↦
      let miss : (e.assigned && (e.ip == ip)) ≡ false = or-false e.assigned (e.ip == ip) c in
      rw (c, miss)
        (arp_lookup-arp_save_self ip mac es (elim h [ inl k ↦ absurd (ground arith) | inr k ↦ k ]))
]

-- A packet from `ip` leaves what the cache has for every other address, and changes nothing at all
-- where there is no place for it.
pub arp_lookup-arp_save_ne :
    (ip : ℕ) (mac : List ℕ) (cache : List ArpEntry)
    → ((q : ℕ) → q ≢ ip → arp_lookup q (arp_save ip mac cache) ≡ arp_lookup q cache)
      × (HasPlace ip cache ⊎ (arp_save ip mac cache ≡ cache))
unfolding arp_lookup arp_save
arp_lookup-arp_save_ne ip mac [] = (λ q ne. refl, inr refl)
arp_lookup-arp_save_ne ip mac (e ∷ es) = elim (Bool-cases (not e.assigned || (e.ip == ip))) [
  | inl c ↦ (
    λ q ne.
        let fresh : (ip == q) ≡ false = ground arith in
        let other : (e.assigned && (e.ip == q)) ≡ false =
          or-other e.assigned (e.ip == ip) (e.ip == q) c (λ k. ground arith) in
        rw (c, fresh, other) refl,
    inl (inl c),
  )
  | inr c ↦
      let (same, rest) = arp_lookup-arp_save_ne ip mac es in
      (
        λ q ne. elim (Bool-cases (e.assigned && (e.ip == q))) [
          | inl k ↦ rw (c, k) refl
          | inr k ↦ rw (c, k) (same q ne)
        ],
        elim rest [ inl place ↦ inl (inr place) | inr kept ↦ inr (rw (c, kept) refl) ],
      )
]
