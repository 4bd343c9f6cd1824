-- ===== src/Fat32/Chain.antt =====
-- A cluster chain: the clusters met from a first one on, until a value outside of the data area.
use mathlib.Core.Path.{subst}
use sojebos.Common.{ℕ, ◌≡◌, ◌≢◌, true, false, List, [], ◌∷◌, All}
use sojebos.Fat32.{in_chain}

abbrev pub Chain : (ℕ → ℕ) → ℕ → List ℕ → Type 0
Chain link c [] = in_chain c ≡ false
Chain link c (k ∷ ks) = (k ≡ c) × (in_chain c ≡ true) × Chain link (link c) ks

abbrev pub NotIn : ℕ → List ℕ → Type 0
NotIn k cs = All (λ j. k ≢ j) cs

-- No cluster is met twice.
abbrev pub Distinct : List ℕ → Type 0
Distinct [] = Unit
Distinct (k ∷ ks) = NotIn k ks × Distinct ks

-- A chain depends on the links of its own clusters only.
pub Chain-congr :
    (f g : ℕ → ℕ) (c : ℕ) (cs : List ℕ) → All (λ k. f k ≡ g k) cs → Chain f c cs → Chain g c cs
Chain-congr f g c [] e h = h
Chain-congr f g c (k ∷ ks) e h =
    let here : f c ≡ g c = rw h.0 at e.0 in
    (h.0, h.1, subst (λ x. Chain g x ks) here (Chain-congr f g (f c) ks e.1 h.2))

pub Chain-in_chain :
    (link : ℕ → ℕ) (c : ℕ) (cs : List ℕ) → Chain link c cs → All (λ k. in_chain k ≡ true) cs
Chain-in_chain link c [] h = tt
Chain-in_chain link c (k ∷ ks) h = (rw h.0 h.1, Chain-in_chain link (link c) ks h.2)

pub All-map {ℓ κ μ} :
    {A : Type ℓ} (P : A → Type κ) (Q : A → Type μ) (xs : List A)
    → ((x : A) → P x → Q x)
    → All P xs
    → All Q xs
All-map P Q [] f h = tt
All-map P Q (x ∷ xs) f h = (f x h.0, All-map P Q xs f h.1)

pub All-both {ℓ κ μ} :
    {A : Type ℓ} (P : A → Type κ) (Q : A → Type μ) (xs : List A)
    → All P xs
    → All Q xs
    → All (λ x. P x × Q x) xs
All-both P Q [] g h = tt
All-both P Q (x ∷ xs) g h = ((g.0, h.0), All-both P Q xs g.1 h.1)
