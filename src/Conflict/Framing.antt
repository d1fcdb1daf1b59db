-- ===== src/Conflict/Framing.antt =====
-- The framing of fields by their length, which crates/myvault-sync-engine/src/conflict/identity.rs
-- hashes: it can be read back in one way only.
use my_vault.Base.{ℕ, ◌/◌, ◌%◌, ◌^◌, ◌<◌, ◌≡◌, refl, ap, ◌∙◌, List, [], ◌∷◌, ◌++◌, length, arith}
use my_vault.Mutation.Fingerprint.{be_bytes}

head_of : ℕ → List ℕ → ℕ
head_of d [] = d
head_of d (x ∷ xs) = x

byte_step : (m n : ℕ) → m / 256 ≡ n / 256 → m % 256 ≡ n % 256 → m ≡ n
byte_step m n h k = omega (arith, h, k)

pub cons_injective : (x y : ℕ) (xs ys : List ℕ) → x ∷ xs ≡ y ∷ ys → (x ≡ y) × (xs ≡ ys)
cons_injective x y xs ys h = (cc, cc)

pub be_bytes-injective :
    (m n : ℕ) (xs ys : List ℕ)
    → m < 2 ^ 64
    → n < 2 ^ 64
    → be_bytes m ++ xs ≡ be_bytes n ++ ys
    → (m ≡ n) × (xs ≡ ys)
unfolding be_bytes
be_bytes-injective m n xs ys a b h =
    let (e₁, h₁) = cons_injective (m / 2 ^ 56 % 256) (n / 2 ^ 56 % 256) _ _ h in
    let (e₂, h₂) = cons_injective (m / 2 ^ 48 % 256) (n / 2 ^ 48 % 256) _ _ h₁ in
    let (e₃, h₃) = cons_injective (m / 2 ^ 40 % 256) (n / 2 ^ 40 % 256) _ _ h₂ in
    let (e₄, h₄) = cons_injective (m / 2 ^ 32 % 256) (n / 2 ^ 32 % 256) _ _ h₃ in
    let (e₅, h₅) = cons_injective (m / 2 ^ 24 % 256) (n / 2 ^ 24 % 256) _ _ h₄ in
    let (e₆, h₆) = cons_injective (m / 2 ^ 16 % 256) (n / 2 ^ 16 % 256) _ _ h₅ in
    let (e₇, h₇) = cons_injective (m / 2 ^ 8 % 256) (n / 2 ^ 8 % 256) _ _ h₆ in
    let (e₈, h₈) = cons_injective (m % 256) (n % 256) xs ys h₇ in
    let f₁ : m / 2 ^ 56 ≡ n / 2 ^ 56 = omega (arith, e₁) in
    let f₂ : m / 2 ^ 48 ≡ n / 2 ^ 48 = omega (arith, f₁, e₂) in
    let f₃ : m / 2 ^ 40 ≡ n / 2 ^ 40 = omega (arith, f₂, e₃) in
    let f₄ : m / 2 ^ 32 ≡ n / 2 ^ 32 = omega (arith, f₃, e₄) in
    let f₅ : m / 2 ^ 24 ≡ n / 2 ^ 24 = omega (arith, f₄, e₅) in
    let f₆ : m / 2 ^ 16 ≡ n / 2 ^ 16 = omega (arith, f₅, e₆) in
    let f₇ : m / 2 ^ 8 ≡ n / 2 ^ 8 = omega (arith, f₆, e₇) in (omega (arith, f₇, e₈), h₈)

-- Two pieces of one length that begin equal lists.
pub append_cancel :
    (xs ys us vs : List ℕ) → length xs ≡ length ys → xs ++ us ≡ ys ++ vs → (xs ≡ ys) × (us ≡ vs)
append_cancel [] [] us vs l h = (refl, h)
append_cancel [] (y ∷ ys) us vs l h = absurd (omega (arith, l))
append_cancel (x ∷ xs) [] us vs l h = absurd (omega (arith, l))
append_cancel (x ∷ xs) (y ∷ ys) us vs l h =
    let (e, k) = cons_injective x y (xs ++ us) (ys ++ vs) h in
    let (e₁, k₁) = append_cancel xs ys us vs (omega (arith, l)) k in
    (ap (λ n. n ∷ xs) e ∙ ap (λ zs. y ∷ zs) e₁, k₁)
