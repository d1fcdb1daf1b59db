-- ===== src/Text/Plain.antt =====
-- ASCII text, whose UTF-8 bytes are its code points.
use my_vault.Base.{◌<◌, ◌≡◌, refl, ap, true, [], ◌∷◌, ltb, all, if◌then◌else◌, arith}
use my_vault.Text.{Text, bytes, utf8}

abbrev pub IsPlain : Text → Type 0
IsPlain [] = Unit {0}
IsPlain (c ∷ s) = (c < 128) × IsPlain s

pub all-IsPlain : (s : Text) → all (λ c. ltb c 128) s ≡ true → IsPlain s
all-IsPlain [] h = tt
all-IsPlain (c ∷ s) h = (ground (arith, h), all-IsPlain s (ground (arith, h)))

pub plain_bytes : (s : Text) → IsPlain s → bytes s ≡ s
unfolding bytes utf8
plain_bytes [] h = refl
plain_bytes (c ∷ s) (small, rest) =
    let e : ltb c 128 ≡ true = ground arith in
    rw (e, if◌then◌else◌) (ap (λ x. c ∷ x) (plain_bytes s rest))
