-- ===== src/Store/Table/Counts.antt =====
-- How updates and insertions change the number of rows that a test holds of.
use my_vault.Base.{
  ap, Eq, ◌==◌, ==→≡, ◌+◌, ◌≤◌, ◌≡◌, refl, subst, Bool, true, false, ◌&&◌, List, [], ◌∷◌, ◌++◌,
  none, some, if◌then◌else◌, find, any, Bool-cases, inl, inr, arith,
}
use my_vault.Store.Table.{count, update, Extends, Extends-refl}

module _ {R : Type 0} where
  pub count-append :
      (q : R → Bool) (rs : List R) (r : R)
      → count q (rs ++ r ∷ []) ≡ count q rs + (if q r then 1 else 0)
  count-append q [] r = omega arith
  count-append q (x ∷ rs) r = omega (arith, count-append q rs r)

  -- Rows leave the test and enter it only where the update changes them.
  pub count-update :
      (q p : R → Bool) (f : R → R) (rs : List R)
      → count q (update p f rs) + count (λ r. p r && q r) rs
        ≡ count q rs + count (λ r. p r && q (f r)) rs
  count-update q p f [] = refl
  count-update q p f (r ∷ rs) = ground (arith, count-update q p f rs)

  pub count_none : (q : R → Bool) (rs : List R) → ((r : R) → q r ≡ false) → count q rs ≡ 0
  count_none q [] h = refl
  count_none q (r ∷ rs) h = ground (arith, h r, count_none q rs h)

  -- An update that neither takes a row out of the test nor brings one in.
  pub count-update_same :
      (q p : R → Bool) (f : R → R)
      → ((r : R) → p r ≡ true → q (f r) ≡ q r)
      → (rs : List R) → count q (update p f rs) ≡ count q rs
  count-update_same q p f h [] = refl
  count-update_same q p f h (r ∷ rs) = ground (arith, h r, count-update_same q p f h rs)

  -- A test that no row passes, kept by an update that lets none in.
  pub count-update_zero :
      (q p : R → Bool) (f : R → R)
      → ((r : R) → p r ≡ true → q r ≡ false → q (f r) ≡ false)
      → (rs : List R) → count q rs ≡ 0
      → count q (update p f rs) ≡ 0
  count-update_zero q p f h [] e = refl
  count-update_zero q p f h (r ∷ rs) e = ground (arith, h r, count-update_zero q p f h rs)

  pub count-any : (q : R → Bool) (rs : List R) → any q rs ≡ false → count q rs ≡ 0
  count-any q [] h = refl
  count-any q (r ∷ rs) h = ground (arith, count-any q rs)

  pub find-none : (q : R → Bool) (rs : List R) → find q rs ≡ none → count q rs ≡ 0
  find-none q [] h = refl
  find-none q (r ∷ rs) h = ground (arith, find-none q rs)

  pub find-some : (q : R → Bool) (rs : List R) {x : R} → find q rs ≡ some x → q x ≡ true
  find-some q [] h = cc
  find-some q (r ∷ rs) {x} h = elim (Bool-cases (q r)) [ inl e ↦ cc | inr e ↦ find-some q rs cc ]

  pub update_none : (p : R → Bool) (f : R → R) (rs : List R) → count p rs ≡ 0 → update p f rs ≡ rs
  update_none p f [] h = refl
  update_none p f (r ∷ rs) h = ground (arith, update_none p f rs)

  module _ (P : R → R → Type 0) (Fresh : R → Type 0) where
    -- An update of the one row that a search found.
    pub Extends-update_found :
        (p q : R → Bool) (f : R → R)
        → ((r : R) → P r r)
        → ((r : R) → p r ≡ true → q r ≡ true)
        → (rs : List R) (x : R) → find q rs ≡ some x
        → p x ≡ true
        → P x (f x)
        → count p rs ≡ 1
        → Extends P Fresh rs (update p f rs)
    Extends-update_found p q f h g [] x a b c d = tt
    Extends-update_found p q f h g (r ∷ rs) x a b c d = elim (Bool-cases (p r)) [
      | inl e ↦
          let e₁ : x ≡ r = cc (g r e) in
          let e₂ : count p rs ≡ 0 = ground arith in
          (
            rw (e, if◌then◌else◌) (subst (λ y. P y (f y)) e₁ c),
            rw (update_none p f rs e₂) (Extends-refl P Fresh h rs),
          )
      | inr e ↦ elim (Bool-cases (q r)) [
        | inl e₁ ↦ absurd cc
        | inr e₁ ↦
            let rest = Extends-update_found p q f h g rs x (cc) b c (ground arith) in
            (rw (e, if◌then◌else◌) (h r), rest)
      ]
    ]

module _ {R : Type 0} where
  pub count-ext : (p q : R → Bool) → ((r : R) → p r ≡ q r) → (rs : List R) → count p rs ≡ count q rs
  count-ext p q h [] = refl
  count-ext p q h (r ∷ rs) = ground (arith, h r, count-ext p q h rs)

  pub count_fewer : (q p : R → Bool) (rs : List R) → count (λ r. q r && p r) rs ≤ count q rs
  count_fewer q p [] = omega arith
  count_fewer q p (r ∷ rs) = ground (arith, count_fewer q p rs)

  -- The one row of a key, found again after it has been updated under a further test.
  pub find-update_one :
      (q allowed : R → Bool) (f : R → R)
      → ((r : R) → q r ≡ true → q (f r) ≡ true)
      → (rs : List R) (x : R) → find q rs ≡ some x
      → count q rs ≤ 1
      → count (λ r. q r && allowed r) rs ≡ 1
      → find q (update (λ r. q r && allowed r) f rs) ≡ some (f x)
  find-update_one q allowed f k [] x h u one = absurd cc
  find-update_one q allowed f k (r ∷ rs) x h u one = elim (Bool-cases (q r)) [
    | inl e ↦
        let e₁ : r ≡ x = some_injective (rw (e, if◌then◌else◌) at h) in
        let none_left : count q rs ≡ 0 = ground (arith, e) in
        elim (Bool-cases (allowed r)) [
          | inl a ↦
              let e₂ : (q r && allowed r) ≡ true = ground (arith, e, a) in
              rw (e₂, if◌then◌else◌, k r e, if◌then◌else◌) (ap (λ y. some (f y)) e₁)
          | inr a ↦
              let e₂ = count_fewer q allowed rs in absurd (ground (arith, e, a, none_left, e₂))
        ]
    | inr e ↦
        let e₂ : (q r && allowed r) ≡ false = ground (arith, e) in
        rw (e₂, if◌then◌else◌, e, if◌then◌else◌)
          (find-update_one q allowed f k rs x (rw (e, if◌then◌else◌) at h) (ground (arith, e))
            (ground (arith, e)))
  ]
    where
      some_injective : {a b : R} → some a ≡ some b → a ≡ b
      some_injective p = cc

  pub find-append :
      (q : R → Bool) (rs : List R) (x : R)
      → any q rs ≡ false
      → q x ≡ true
      → find q (rs ++ x ∷ []) ≡ some x
  find-append q [] x h e = rw (e, if◌then◌else◌) refl
  find-append q (r ∷ rs) x h e =
      let e₁ : q r ≡ false = ground arith in
      rw (e₁, if◌then◌else◌) (find-append q rs x (ground arith) e)

  -- An update of the row that was just put in, whose key is new.
  pub update-append :
      (q p : R → Bool) (f : R → R)
      → ((r : R) → p r ≡ true → q r ≡ true)
      → (rs : List R) (x : R) → any q rs ≡ false
      → p x ≡ true
      → update p f (rs ++ x ∷ []) ≡ rs ++ f x ∷ []
  update-append q p f k [] x h e = rw (e, if◌then◌else◌) refl
  update-append q p f k (r ∷ rs) x h e = elim (Bool-cases (p r)) [
    | inl a ↦ let b = k r a in absurd (ground arith)
    | inr a ↦
        rw (a, if◌then◌else◌) (ap (λ ys. r ∷ ys) (update-append q p f k rs x (ground arith) e))
  ]

  pub count-append_new :
      (q p : R → Bool)
      → ((r : R) → p r ≡ true → q r ≡ true)
      → (rs : List R) (x : R) → any q rs ≡ false
      → p x ≡ true
      → count p (rs ++ x ∷ []) ≡ 1
  count-append_new q p k [] x h e = rw (e, if◌then◌else◌) refl
  count-append_new q p k (r ∷ rs) x h e = elim (Bool-cases (p r)) [
    | inl a ↦ let b = k r a in absurd (ground arith)
    | inr a ↦ let c = count-append_new q p k rs x (ground arith) e in ground (arith, a, c)
  ]

-- A row whose key is not in the table goes in.
pub insert_unique :
    {R K : Type 0} ⦃e : Eq K⦄ (key : R → K) (rs : List R) (t : R) (k : K)
    → count (λ r. key r == key t) rs ≡ 0
    → count (λ r. key r == k) rs ≤ 1
    → count (λ r. key r == k) (rs ++ t ∷ []) ≤ 1
insert_unique key rs t k z h = elim (Bool-cases (key t == k)) [
  | inl e ↦
      let e₁ : key t ≡ k = ==→≡ (key t) k e in
      let z₁ : count (λ r. key r == k) rs ≡ 0 = subst (λ x. count (λ r. key r == x) rs ≡ 0) e₁ z in
      let a = count-append (λ r. key r == k) rs t in ground (arith, a, z₁)
  | inr e ↦ let a = count-append (λ r. key r == k) rs t in ground (arith, a, e)
]
