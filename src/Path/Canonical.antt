-- ===== src/Path/Canonical.antt =====
-- An accepted path is canonical: it is accepted again, unchanged, and its components are portable.
use my_vault.Base.{
  nat_eq, list_eq, ℕ, ◌≤◌, ◌≡◌, refl, Bool, true, false, not, ◌||◌, ap, ◌∙◌, List, [], ◌∷◌, ◌++◌,
  arith, All, any, is_empty, ◌==◌, if◌then◌else◌, Bool-cases, inl, inr,
}
use my_vault.Base.Results.{Result, ok, err}
use my_vault.Text.{Text, codes, len, split, join, contains, starts_with}
use my_vault.Text.Split.{IsPiece, split-IsPiece, split-join}
use my_vault.Text.Unicode.{Unicode}
use my_vault.Path.{
  VaultPath, PathError, collect, from_components, from_parts, from_portable, is_portable_component,
  starts_with_dot_slash, is_forbidden_char, max_path_bytes,
}

-- A component as a canonical path holds it.
pub record IsComponent (is_portable : Text → Bool) (c : Text) : Type 0 where
  pub nonempty : is_empty c ≡ false
  pub not_dot : (c == codes ".") ≡ false
  pub not_dot_dot : (c == codes "..") ≡ false
  pub portable : is_portable c ≡ true
  pub no_slash : contains b'/' c ≡ false

abbrev Collected : (Text → Bool) → Result (List Text) PathError → Type 0
Collected p (ok cs) = All (IsComponent p) cs
Collected p (err e) = Unit {0}

module _ (p : Text → Bool) where
  collect-cons :
      (c : Text) (r : Result (List Text) PathError)
      → IsComponent p c
      → Collected p r
      → Collected p (elim r [ ok cs ↦ ok (c ∷ cs) | err e ↦ err e ])
  collect-cons c (ok cs) h k = (h, k)
  collect-cons c (err e) h k = tt

  collect-Collected : (parts : List Text) → All (IsPiece b'/') parts → Collected p (collect p parts)
  unfolding collect
  collect-Collected [] h = tt
  collect-Collected (part ∷ parts) h =
      let rest = collect-Collected parts h.1 in
      elim (Bool-cases (is_empty part || part == codes ".")) [
        | inl skip ↦ rw (skip, if◌then◌else◌) rest
        | inr keep ↦
            rw (keep, if◌then◌else◌)
              (elim (Bool-cases (part == codes ".." || not (p part))) [
                | inl bad ↦ rw (bad, if◌then◌else◌) tt
                | inr good ↦
                    rw (good, if◌then◌else◌)
                      (collect-cons part (collect p parts)
                        (record {
                          nonempty = ground arith;
                          not_dot = ground arith;
                          not_dot_dot = ground arith;
                          portable = ground arith;
                          no_slash = h.0;
                        })
                        rest)
              ])
      ]

  collect_self : (cs : List Text) → All (IsComponent p) cs → collect p cs ≡ ok cs
  unfolding collect
  collect_self [] h = refl
  collect_self (c ∷ cs) h = ground (arith, h.0, collect_self cs h.1)

any-append :
    (q : ℕ → Bool) (s t : Text) → any q s ≡ false → any q t ≡ false → any q (s ++ t) ≡ false
any-append q [] t hs ht = ht
any-append q (c ∷ s) t hs ht = ground (arith, any-append q s t)

-- What no component holds and the separator is not, no joined path holds.
any-join :
    (q : ℕ → Bool) (cs : List Text)
    → q b'/' ≡ false
    → All (λ c. any q c ≡ false) cs
    → any q (join (b'/' ∷ []) cs) ≡ false
unfolding join
any-join q [] sep h = refl
any-join q (c ∷ []) sep h = h.0
any-join q (c ∷ d ∷ cs) sep h = any-append q c _ h.0 (rw sep (any-join q (d ∷ cs) sep h.1))

forbidden-contains : (s : Text) → any is_forbidden_char s ≡ false → contains 0x5C s ≡ false
unfolding is_forbidden_char
forbidden-contains [] h = refl
forbidden-contains (c ∷ s) h = ground (arith, forbidden-contains s)

module _ (u : Unicode) where
  -- Facts that the first component gives of the whole path.
  first_safe :
      (c : Text) (cs : List Text)
      → IsComponent (is_portable_component u) c
      → let s = join (b'/' ∷ []) (c ∷ cs) in
        (is_empty s ≡ false) × (starts_with b'/' s ≡ false) × (starts_with_dot_slash s ≡ false)
  unfolding join starts_with starts_with_dot_slash
  first_safe [] cs h = cc (h.nonempty)
  first_safe (a ∷ []) [] h = ground (arith, h.no_slash, h.not_dot)
  first_safe (a ∷ []) (d ∷ cs) h = ground (arith, h.no_slash, h.not_dot)
  first_safe (a ∷ b ∷ c) [] h = ground (arith, h.no_slash, h.not_dot)
  first_safe (a ∷ b ∷ c) (d ∷ cs) h = ground (arith, h.no_slash, h.not_dot)

  no_backslash :
      (cs : List Text)
      → All (IsComponent (is_portable_component u)) cs
      → All (λ c. contains 0x5C c ≡ false) cs
  unfolding is_portable_component
  no_backslash [] h = tt
  no_backslash (c ∷ cs) h =
      (forbidden-contains c (ground (arith, h.0.portable)), no_backslash cs h.1)

  no_slashes :
      (cs : List Text) → All (IsComponent (is_portable_component u)) cs → All (IsPiece b'/') cs
  no_slashes [] h = tt
  no_slashes (c ∷ cs) h = (h.0.no_slash, no_slashes cs h.1)

  -- What an accepted path is made of.
  pub record Accepted (q : VaultPath) : Type 0 where
    pub first : Text
    pub others : List Text
    pub components : All (IsComponent (is_portable_component u)) (first ∷ others)
    pub spelled : q.as_str ≡ join (b'/' ∷ []) (first ∷ others)
    pub assembled : from_components (first ∷ others) ≡ ok q

  from_components-Accepted :
      (cs : List Text) (q : VaultPath)
      → All (IsComponent (is_portable_component u)) cs
      → from_components cs ≡ ok q
      → Accepted q
  from_components-Accepted [] q h e = unfold from_components in cc
  from_components-Accepted (c ∷ cs) q h e = record {
    first = c;
    others = cs;
    components = h;
    spelled = unfold from_components in ground arith;
    assembled = e;
  }

  from_components-len :
      (cs : List Text) (q : VaultPath) → from_components cs ≡ ok q → len q.as_str ≤ max_path_bytes
  unfolding from_components
  from_components-len [] q e = cc
  from_components-len (c ∷ cs) q e = ground arith

  from_parts-Accepted :
      (r : Result (List Text) PathError) (q : VaultPath)
      → Collected (is_portable_component u) r
      → from_parts u r ≡ ok q
      → Accepted q
  unfolding from_parts
  from_parts-Accepted (ok cs) q h e = from_components-Accepted cs q h e
  from_parts-Accepted (err x) q h e = cc

  pub from_portable-Accepted :
      (value : Text) (q : VaultPath) → from_portable u value ≡ ok q → Accepted q
  unfolding from_portable
  from_portable-Accepted value q e =
      from_parts-Accepted (collect (is_portable_component u) (split b'/' value)) q
        (collect-Collected _ _ (split-IsPiece b'/' value)) (ground arith)

  from_portable-join :
      (c : Text) (cs : List Text) (q : VaultPath)
      → All (IsComponent (is_portable_component u)) (c ∷ cs)
      → from_components (c ∷ cs) ≡ ok q
      → from_portable u (join (b'/' ∷ []) (c ∷ cs)) ≡ ok q
  unfolding from_portable
  from_portable-join c cs q h e =
      let safe = first_safe c cs h.0 in
      let slash = any-join (λ d. d == 0x5C) (c ∷ cs) refl (no_backslash (c ∷ cs) h) in
      let parts = split-join b'/' c cs (no_slashes (c ∷ cs) h) in
      let kept = collect_self (is_portable_component u) (c ∷ cs) h in
      rw (safe.0, safe.1, safe.2, slash, if◌then◌else◌, parts, kept) e

  -- An accepted path is canonical: parsing its own spelling accepts it again and returns it.
  pub from_portable_idem :
      (value : Text) (q : VaultPath)
      → from_portable u value ≡ ok q
      → from_portable u q.as_str ≡ ok q
  from_portable_idem value q e =
      let a = from_portable-Accepted value q e in
      ap (from_portable u) a.spelled
      ∙ from_portable-join a.first a.others q a.components a.assembled

  components-split :
      (c : Text) (cs : List Text) (q : VaultPath)
      → All (IsComponent (is_portable_component u)) (c ∷ cs)
      → q.as_str ≡ join (b'/' ∷ []) (c ∷ cs)
      → All (IsComponent (is_portable_component u)) (split b'/' q.as_str)
  components-split c cs q h e = rw (e, split-join b'/' c cs (no_slashes (c ∷ cs) h)) h

  -- The components of an accepted path, read back from its spelling, are all portable: nonempty,
  -- neither `.` nor `..`, and without a separator; and the whole is at most 4096 bytes long.
  pub from_portable-components :
      (value : Text) (q : VaultPath)
      → from_portable u value ≡ ok q
      → All (IsComponent (is_portable_component u)) (split b'/' q.as_str)
        × (len q.as_str ≤ max_path_bytes)
  from_portable-components value q e =
      let a = from_portable-Accepted value q e in
      (
        components-split a.first a.others q a.components a.spelled,
        from_components-len (a.first ∷ a.others) q a.assembled,
      )
