-- ===== src/Text/Split.antt =====
-- Splitting at a separator and joining again.
use mathlib.Core.Path.{ap₂}
use my_vault.Base.{
  sym, ==→≡, nat_eq, ℕ, ◌≡◌, refl, ap, ◌∙◌, false, List, [], ◌∷◌, ◌++◌, arith, All, if◌then◌else◌,
  Bool-cases, inl, inr, ◌==◌,
}
use my_vault.Text.{Text, split, cons_head, join, contains}

-- No separator in a piece.
abbrev pub IsPiece : ℕ → Text → Type 0
IsPiece sep x = contains sep x ≡ false

cons_head-All :
    (sep c : ℕ) (xs : List Text)
    → (c == sep) ≡ false
    → All (IsPiece sep) xs
    → All (IsPiece sep) (cons_head c xs)
unfolding cons_head
cons_head-All sep c [] h p = (rw h, tt)
cons_head-All sep c (x ∷ xs) h p = (rw h p.0, p.1)

-- The pieces of a text hold no separator.
pub split-IsPiece : (sep : ℕ) (s : Text) → All (IsPiece sep) (split sep s)
unfolding split
split-IsPiece sep [] = (refl, tt)
split-IsPiece sep (c ∷ s) = elim (Bool-cases (c == sep)) [
  | inl e ↦ rw (e, if◌then◌else◌) (refl, split-IsPiece sep s)
  | inr e ↦ rw (e, if◌then◌else◌) (cons_head-All sep c (split sep s) e (split-IsPiece sep s))
]

pub split_piece : (sep : ℕ) (x : Text) → IsPiece sep x → split sep x ≡ x ∷ []
unfolding split cons_head
split_piece sep [] p = refl
split_piece sep (c ∷ x) p = ground (arith, split_piece sep x)

split-append : (sep : ℕ) (x s : Text) → IsPiece sep x → split sep (x ++ (sep ∷ s)) ≡ x ∷ split sep s
unfolding split cons_head
split-append sep [] s p = ground arith
split-append sep (c ∷ x) s p = ground (arith, split-append sep x s)

-- Splitting undoes joining.
pub split-join :
    (sep : ℕ) (x : Text) (xs : List Text)
    → All (IsPiece sep) (x ∷ xs)
    → split sep (join (sep ∷ []) (x ∷ xs)) ≡ x ∷ xs
unfolding join
split-join sep x [] p = split_piece sep x p.0
split-join sep x (y ∷ ys) p = split-append sep x _ p.0 ∙ ap (λ zs. x ∷ zs) (split-join sep y ys p.1)

pub join-cons_head :
    (sep : Text) (c : ℕ) (xs : List Text) → join sep (cons_head c xs) ≡ c ∷ join sep xs
unfolding join cons_head
join-cons_head sep c [] = refl
join-cons_head sep c (x ∷ []) = refl
join-cons_head sep c (x ∷ y ∷ ys) = refl

pub split-cons : (sep : ℕ) (s : Text) → (x : Text) × (xs : List Text) × (split sep s ≡ x ∷ xs)
unfolding split cons_head
split-cons sep [] = ([], [], refl)
split-cons sep (c ∷ s) =
    let (x, xs, e) = split-cons sep s in
    elim (Bool-cases (c == sep)) [
      | inl h ↦ ([], split sep s, rw (h, if◌then◌else◌))
      | inr h ↦ (c ∷ x, xs, rw (h, if◌then◌else◌, e))
    ]

pub join-nil_cons :
    (sep : Text) (xs ys : List Text) (y : Text)
    → xs ≡ y ∷ ys
    → join sep ([] ∷ xs) ≡ sep ++ join sep xs
unfolding join
join-nil_cons sep xs ys y e = rw e

-- Joining undoes splitting.
pub join-split : (sep : ℕ) (s : Text) → join (sep ∷ []) (split sep s) ≡ s
unfolding split
join-split sep [] = unfold join in refl
join-split sep (c ∷ s) =
    let (y, ys, e) = split-cons sep s in
    elim (Bool-cases (c == sep)) [
      | inl h ↦
          rw (h, if◌then◌else◌)
            (join-nil_cons (sep ∷ []) (split sep s) ys y e
              ∙ ap₂ (λ (a : ℕ) (t : Text). a ∷ t) (sym (==→≡ c sep h)) (join-split sep s))
      | inr h ↦
          rw (h, if◌then◌else◌)
            (join-cons_head (sep ∷ []) c (split sep s)
              ∙ ap (λ (t : Text). c ∷ t) (join-split sep s))
    ]
