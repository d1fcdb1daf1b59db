-- ===== src/Markdown/Union.antt =====
-- What a combination of two edit scripts holds
-- (`combine_edits` of crates/myvault-sync-engine/src/conflict/markdown.rs).
use my_vault.Base.{
  nat_eq, list_eq, ◌≡◌, refl, sym, ap, ◌∙◌, Bool, true, false, ◌||◌, List, [], ◌∷◌, ◌++◌, arith,
  if◌then◌else◌, Bool-cases, inl, inr, any, ==→≡,
}
use my_vault.Base.Results.{ok, ok-injective, >>=-ok}
use my_vault.Markdown.{Edit}
use my_vault.Markdown.Edits.{
  same_edit, edits_overlap, key_leb, insert_by_key, sort_by_key, combine_into, combine_edits,
}

-- The script holds this edit.
abbrev pub holds : List Edit → Edit → Bool
holds es e = any (λ x. same_edit x e) es

any-insert_by_key :
    (p : Edit → Bool) (e : Edit) (es : List Edit) → any p (insert_by_key e es) ≡ (p e || any p es)
unfolding insert_by_key
any-insert_by_key p e [] = refl
any-insert_by_key p e (f ∷ es) = elim (Bool-cases (key_leb e f)) [
  | inl le ↦ rw (le, if◌then◌else◌) refl
  | inr gt ↦ rw (gt, if◌then◌else◌) (let h = any-insert_by_key p e es in ground (arith, h))
]

any-sort_by_key : (p : Edit → Bool) (es : List Edit) → any p (sort_by_key es) ≡ any p es
unfolding sort_by_key
any-sort_by_key p [] = refl
any-sort_by_key p (e ∷ es) =
    any-insert_by_key p e (sort_by_key es) ∙ ap (λ b. p e || b) (any-sort_by_key p es)

any-append_one :
    (p : Edit → Bool) (es : List Edit) (e : Edit) → any p (es ++ (e ∷ [])) ≡ (any p es || p e)
any-append_one p [] e = ground arith
any-append_one p (x ∷ es) e = let h = any-append_one p es e in ground (arith, h)

same_edit-equal : (e f : Edit) → same_edit e f ≡ true → e ≡ f
unfolding same_edit
same_edit-equal e f h =
    let p = ==→≡ e.start f.start (ground (arith, h)) in
    let q = ==→≡ e.end f.end (ground (arith, h)) in
    let r = ==→≡ e.replacement f.replacement (ground (arith, h)) in cc

holds-known :
    (es : List Edit) (f e : Edit) → holds es f ≡ true → (holds es e || same_edit f e) ≡ holds es e
holds-known es f e h = elim (Bool-cases (same_edit f e)) [
  | inl same ↦
      let k : holds es e ≡ true = ap (holds es) (sym (same_edit-equal f e same)) ∙ h in
      ground (arith, k, same)
  | inr other ↦ ground (arith, other)
]

-- The loop's next step, by whether the candidate is already there.
pub combine_into-known :
    (combined : List Edit) (f : Edit) (remote out : List Edit)
    → any (λ e. same_edit e f) combined ≡ true
    → combine_into combined (f ∷ remote) ≡ ok out
    → combine_into combined remote ≡ ok out
unfolding combine_into
combine_into-known combined f remote out k h = rw (sym h) (rw (k, if◌then◌else◌) refl)

pub combine_into-fresh :
    (combined : List Edit) (f : Edit) (remote out : List Edit)
    → any (λ e. same_edit e f) combined ≡ false
    → combine_into combined (f ∷ remote) ≡ ok out
    → (any (λ e. edits_overlap e f) combined ≡ false)
      × (combine_into (combined ++ (f ∷ [])) remote ≡ ok out)
unfolding combine_into
combine_into-fresh combined f remote out k h =
    elim (Bool-cases (any (λ e. edits_overlap e f) combined)) [
      | inl bad ↦ ground arith
      | inr good ↦ (good, rw (sym h) (rw (k, good, if◌then◌else◌) refl))
    ]

combine_into-holds :
    (combined remote out : List Edit) (e : Edit)
    → combine_into combined remote ≡ ok out
    → holds out e ≡ (holds combined e || holds remote e)
combine_into-holds combined [] out e h =
    let same : combined ≡ out = unfold combine_into in ground arith in
    rw (sym same) (let b = holds combined e in ground arith)
combine_into-holds combined (f ∷ remote) out e h = elim (Bool-cases (holds combined f)) [
  | inl known ↦
      let k =
        combine_into-holds combined remote out e
          (combine_into-known combined f remote out known h) in
      ground (arith, k, holds-known combined f e known)
  | inr fresh ↦
      let rest = (combine_into-fresh combined f remote out fresh h).1 in
      let k = combine_into-holds (combined ++ (f ∷ [])) remote out e rest in
      ground (arith, k, any-append_one (λ x. same_edit x e) combined f)
]

pub combine_edits-holds :
    (local remote edits : List Edit) (e : Edit)
    → combine_edits local remote ≡ ok edits
    → holds edits e ≡ (holds local e || holds remote e)
unfolding combine_edits
combine_edits-holds local remote edits e c =
    let (combined, h, done) = >>=-ok (combine_into local remote) _ c in
    let sorted : sort_by_key combined ≡ edits = ok-injective done in
    ap (λ es. holds es e) (sym sorted)
    ∙ any-sort_by_key (λ x. same_edit x e) combined
    ∙ combine_into-holds local remote combined e h
