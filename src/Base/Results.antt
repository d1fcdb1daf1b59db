-- ===== src/Base/Results.antt =====
-- Rust's `Result`, with `?` as the bind of a `do` block.
use mathlib.Core.Path.{◌≡◌, refl}
use mathlib.Core.Bool.{Bool, true, false}

pub data Result (A : Type 0) (E : Type 0) : Type 0 where
  ok : A → Result A E
  err : E → Result A E

module _ {E : Type 0} where
  infixl 5 ◌>>=◌ ◌>>◌
  abbrev pub ◌>>=◌ : {A B : Type 0} → Result A E → (A → Result B E) → Result B E
  ok a >>= f = f a
  err e >>= f = err e

  abbrev pub ◌>>◌ : {B : Type 0} → Result (Unit {0}) E → Result B E → Result B E
  m >> k = m >>= λ _. k

-- `if test { return Err(e) }`
abbrev pub fail_if : {E : Type 0} → Bool → E → Result (Unit {0}) E
fail_if true e = err e
fail_if false e = ok tt

-- A chain that succeeds has passed its first step.
pub >>-ok :
    {E B : Type 0} (m : Result (Unit {0}) E) (k : Result B E) {b : B}
    → (m >> k) ≡ ok b
    → (m ≡ ok tt) × (k ≡ ok b)
>>-ok (ok x) k h = (refl, h)
>>-ok (err e) k h = cc

pub fail_if-ok : {E : Type 0} (b : Bool) (e : E) → fail_if b e ≡ ok tt → b ≡ false
fail_if-ok true e h = cc
fail_if-ok false e h = refl

-- The value that a chain goes on with.
pub >>=-ok :
    {E A B : Type 0} (m : Result A E) (k : A → Result B E) {b : B}
    → (m >>= k) ≡ ok b
    → (a : A) × (m ≡ ok a) × (k a ≡ ok b)
>>=-ok (ok a) k h = (a, refl, h)
>>=-ok (err e) k h = cc

pub ok-injective : {E A : Type 0} {a b : A} → ◌≡◌ {A = Result A E} (ok a) (ok b) → a ≡ b
ok-injective h = cc

-- A chain of guards passes on its last value.
pub guarded-ok :
    {E A : Type 0} (m n : Result (Unit {0}) E) (a : A) {b : A} → (m >> (n >> ok a)) ≡ ok b → b ≡ a
guarded-ok (ok x) (ok y) a h = cc
guarded-ok (ok x) (err e) a h = cc
guarded-ok (err e) n a h = cc
