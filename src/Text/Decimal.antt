-- ===== src/Text/Decimal.antt =====
-- `to_string` of the unsigned integers.
use my_vault.Base.{
  ℕ, zero, suc, ◌+◌, ◌-◌, ◌*◌, ◌/◌, ◌%◌, ◌^◌, ◌<◌, ◌≡◌, refl, ap, sym, ◌∙◌, [], ◌∷◌, ◌++◌, ltb,
  if◌then◌else◌, arith, Bool-cases, inl, inr,
}
use native.Mathlib.Nat.{pow-suc}
use my_vault.Text.{Text, codes}
use my_vault.Text.Plain.{IsPlain}

-- At most `fuel` digits, the most significant first.
digits : ℕ → ℕ → Text
digits zero n = []
digits (suc fuel) n =
    let more = digits fuel (n / 10) in
    if ltb n 10 then (48 + n) ∷ [] else more ++ ((48 + n % 10) ∷ [])

-- A `u64` has at most twenty digits.
unfoldable pub decimal : ℕ → Text
unfolding digits
decimal n = digits 20 n

-- The number that a text of digits spells, after `acc`.
read : ℕ → Text → ℕ
read acc [] = acc
read acc (c ∷ s) = read (acc * 10 + (c - 48)) s

read-append : (acc : ℕ) (s : Text) (c : ℕ) → read acc (s ++ (c ∷ [])) ≡ read acc s * 10 + (c - 48)
unfolding read
read-append acc [] c = refl
read-append acc (d ∷ s) c = read-append (acc * 10 + (d - 48)) s c

read-digits : (fuel n : ℕ) → n < 10 ^ fuel → read 0 (digits fuel n) ≡ n
unfolding read digits
read-digits zero n h = omega arith
read-digits (suc fuel) n h = elim (Bool-cases (ltb n 10)) [
  | inl small ↦ rw (small, if◌then◌else◌) (omega arith)
  | inr large ↦
      rw (large, if◌then◌else◌)
        (read-append 0 (digits fuel (n / 10)) (48 + n % 10)
          ∙ omega (arith, read-digits fuel (n / 10) (omega (arith, pow-suc 10 fuel))))
]

-- Numbers below 2 ^ 64 with one text are equal.
pub decimal-injective : (m n : ℕ) → m < 2 ^ 64 → n < 2 ^ 64 → decimal m ≡ decimal n → m ≡ n
unfolding decimal
decimal-injective m n hm hn e =
    sym (read-digits 20 m (omega arith)) ∙ ap (read 0) e ∙ read-digits 20 n (omega arith)

IsPlain-append : (s : Text) (c : ℕ) → IsPlain s → c < 128 → IsPlain (s ++ (c ∷ []))
IsPlain-append [] c p h = (h, tt)
IsPlain-append (x ∷ s) c p h = (p.0, IsPlain-append s c p.1 h)

digits-IsPlain : (fuel n : ℕ) → IsPlain (digits fuel n)
unfolding digits
digits-IsPlain zero n = tt
digits-IsPlain (suc fuel) n = elim (Bool-cases (ltb n 10)) [
  | inl small ↦ rw (small, if◌then◌else◌) (ground (arith, small), tt)
  | inr large ↦
      rw (large, if◌then◌else◌)
        (IsPlain-append (digits fuel (n / 10)) (48 + n % 10) (digits-IsPlain fuel (n / 10))
          (omega arith))
]

pub decimal-IsPlain : (n : ℕ) → IsPlain (decimal n)
unfolding decimal
decimal-IsPlain n = digits-IsPlain 20 n

decimal_test : decimal 9071 ≡ codes "9071"
unfolding decimal
decimal_test = refl
