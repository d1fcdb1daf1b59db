-- ===== src/Store/Table.antt =====
-- Tables of crates/myvault-sync-engine/src/store.rs as lists of rows in insertion order, and what
-- its `UPDATE .. WHERE` statements do to them.
pub mod Counts
use my_vault.Base.{
  ℕ, zero, suc, ◌+◌, ◌≡◌, refl, ap, Bool, true, false, List, [], ◌∷◌, ◌++◌, Option, none, some, map,
  if◌then◌else◌, nat_beq, nat_beq_iff, All, find, Bool-cases, inl, inr, arith,
}
use my_vault.Base.Results.{Result, ok, err, fail_if, ◌>>◌, ◌>>=◌, >>-ok, fail_if-ok}

module _ {R : Type 0} where
  -- The rows that the statement changes, and the table that it leaves.
  abbrev pub count : (R → Bool) → List R → ℕ
  count p [] = 0
  count p (r ∷ rs) = (if p r then 1 else 0) + count p rs

  abbrev pub update : (R → Bool) → (R → R) → List R → List R
  update p f [] = []
  update p f (r ∷ rs) = (if p r then f r else r) ∷ update p f rs

  -- `if changed != 1 { return Err(error); }`
  abbrev pub update_one : {E : Type 0} → (R → Bool) → (R → R) → E → List R → Result (List R) E
  update_one p f error rs = if nat_beq (count p rs) 1 then ok (update p f rs) else err error

  pub update_one-ok :
      {E : Type 0} (p : R → Bool) (f : R → R) (error : E) (rs : List R) {rs' : List R}
      → update_one p f error rs ≡ ok rs'
      → (count p rs ≡ 1) × (rs' ≡ update p f rs)
  update_one-ok p f error rs h = elim (Bool-cases (nat_beq (count p rs) 1)) [
    | inl e ↦ ((nat_beq_iff (count p rs) 1).0 e, cc)
    | inr e ↦ absurd cc
  ]

  -- A relation that holds row by row, with new rows at the end.
  abbrev pub Extends : (R → R → Type 0) → (R → Type 0) → List R → List R → Type 0
  Extends P Fresh [] new = All Fresh new
  Extends P Fresh (r ∷ rs) [] = ⊥
  Extends P Fresh (r ∷ rs) (r' ∷ rs') = P r r' × Extends P Fresh rs rs'

  module _ (P : R → R → Type 0) (Fresh : R → Type 0) where
    pub Extends-refl : ((r : R) → P r r) → (rs : List R) → Extends P Fresh rs rs
    Extends-refl h [] = tt
    Extends-refl h (r ∷ rs) = (h r, Extends-refl h rs)

    pub Extends-append :
        ((r : R) → P r r) → (r : R) → Fresh r → (rs : List R) → Extends P Fresh rs (rs ++ r ∷ [])
    Extends-append h r f [] = (f, tt)
    Extends-append h r f (x ∷ rs) = (h x, Extends-append h r f rs)

    pub Extends-extend :
        ((r : R) → P r r) → (new rs : List R) → All Fresh new → Extends P Fresh rs (rs ++ new)
    Extends-extend h new [] f = f
    Extends-extend h new (x ∷ rs) f = (h x, Extends-extend h new rs f)

    -- An update keeps a reflexive relation that it has on the rows it changes.
    pub Extends-update :
        (p : R → Bool) (f : R → R)
        → ((r : R) → P r r)
        → ((r : R) → p r ≡ true → P r (f r))
        → (rs : List R) → Extends P Fresh rs (update p f rs)
    Extends-update p f h g [] = tt
    Extends-update p f h g (r ∷ rs) = elim (Bool-cases (p r)) [
      | inl e ↦ (rw (e, if◌then◌else◌) (g r e), Extends-update p f h g rs)
      | inr e ↦ (rw (e, if◌then◌else◌) (h r), Extends-update p f h g rs)
    ]

    fresh_moves :
        ((r r' : R) → P r r' → Fresh r → Fresh r')
        → (rs rs' : List R) → All Fresh rs
        → Extends P Fresh rs rs'
        → All Fresh rs'
    fresh_moves h [] rs' a e = e
    fresh_moves h (r ∷ rs) [] a e = absurd e
    fresh_moves h (r ∷ rs) (r' ∷ rs') (a, a_rest) (e, es) =
        (h r r' e a, fresh_moves h rs rs' a_rest es)

    pub Extends-trans :
        ((r r' r'' : R) → P r r' → P r' r'' → P r r'')
        → ((r r' : R) → P r r' → Fresh r → Fresh r')
        → (rs rs' rs'' : List R) → Extends P Fresh rs rs'
        → Extends P Fresh rs' rs''
        → Extends P Fresh rs rs''
    Extends-trans t h [] rs' rs'' a b = fresh_moves h rs' rs'' a b
    Extends-trans t h (r ∷ rs) [] rs'' a b = absurd a
    Extends-trans t h (r ∷ rs) (r' ∷ rs') [] a b = absurd b
    Extends-trans t h (r ∷ rs) (r' ∷ rs') (r'' ∷ rs'') (a, a_rest) (b, b_rest) =
        (t r r' r'' a b, Extends-trans t h rs rs' rs'' a_rest b_rest)
