-- ===== src/Markdown/Sorted.antt =====
-- Sorting edits by their keys: what `sort_by_key` keeps and gives.
use my_vault.Base.{
  nat_eq, list_eq, ℕ, ◌≤◌, ◌≡◌, true, false, List, [], ◌∷◌, arith, if◌then◌else◌, Bool-cases, ◌⊎◌,
  inl, inr, All,
}
use my_vault.Markdown.{Edit}
use my_vault.Markdown.Edits.{key_leb, insert_by_key, sort_by_key}

-- An edit of a text of `n` lines.
abbrev pub Fits : ℕ → Edit → Type 0
Fits n e = (e.start ≤ e.end) × (e.end ≤ n)

-- One of the two edits ends before the other starts.
abbrev pub IsApart : Edit → Edit → Type 0
IsApart e f = (e.end ≤ f.start) ⊎ (f.end ≤ e.start)

abbrev pub Pairs : (Edit → Edit → Type 0) → List Edit → Type 0
Pairs R [] = Unit {0}
Pairs R (e ∷ es) = All (R e) es × Pairs R es

pub All-weaken :
    {P Q R : Edit → Type 0} (es : List Edit)
    → ((e : Edit) → P e → Q e → R e)
    → All P es
    → All Q es
    → All R es
All-weaken [] f p q = tt
All-weaken (e ∷ es) f p q = (f e p.0 q.0, All-weaken es f p.1 q.1)

key_leb_trans : (e f g : Edit) → key_leb e f ≡ true → key_leb f g ≡ true → key_leb e g ≡ true
unfolding key_leb
key_leb_trans e f g p q = ground arith

key_leb-total : (e f : Edit) → key_leb e f ≡ false → key_leb f e ≡ true
unfolding key_leb
key_leb-total e f h = ground arith

-- Sorting keeps what holds of every edit and of every pair, and sorts.
insert_by_key-All :
    (P : Edit → Type 0) (e : Edit) (es : List Edit) → P e → All P es → All P (insert_by_key e es)
unfolding insert_by_key
insert_by_key-All P e [] p h = (p, tt)
insert_by_key-All P e (f ∷ es) p h = elim (Bool-cases (key_leb e f)) [
  | inl le ↦ rw (le, if◌then◌else◌) (p, h)
  | inr gt ↦ rw (gt, if◌then◌else◌) (h.0, insert_by_key-All P e es p h.1)
]

IsApart-sym : (e f : Edit) → IsApart e f → IsApart f e
IsApart-sym e f (inl h) = inr h
IsApart-sym e f (inr h) = inl h

insert_by_key-Pairs :
    (e : Edit) (es : List Edit)
    → All (IsApart e) es
    → Pairs IsApart es
    → Pairs IsApart (insert_by_key e es)
unfolding insert_by_key
insert_by_key-Pairs e [] p h = (tt, tt)
insert_by_key-Pairs e (f ∷ es) p h = elim (Bool-cases (key_leb e f)) [
  | inl le ↦ rw (le, if◌then◌else◌) (p, h)
  | inr gt ↦
      rw (gt, if◌then◌else◌)
        (
          insert_by_key-All (IsApart f) e es (IsApart-sym e f p.0) h.0,
          insert_by_key-Pairs e es p.1 h.1,
        )
]

abbrev pub InOrder : Edit → Edit → Type 0
InOrder e f = key_leb e f ≡ true

insert_by_key-InOrder :
    (e : Edit) (es : List Edit) → Pairs InOrder es → Pairs InOrder (insert_by_key e es)
unfolding insert_by_key
insert_by_key-InOrder e [] h = (tt, tt)
insert_by_key-InOrder e (f ∷ es) h = elim (Bool-cases (key_leb e f)) [
  | inl le ↦
      rw (le, if◌then◌else◌) ((le, All-weaken es (λ g p q. key_leb_trans e f g le p) h.0 h.0), h)
  | inr gt ↦
      rw (gt, if◌then◌else◌)
        (
          insert_by_key-All (InOrder f) e es (key_leb-total e f gt) h.0,
          insert_by_key-InOrder e es h.1,
        )
]

pub sort_by_key-All : (P : Edit → Type 0) (es : List Edit) → All P es → All P (sort_by_key es)
unfolding sort_by_key
sort_by_key-All P [] h = tt
sort_by_key-All P (e ∷ es) h = insert_by_key-All P e (sort_by_key es) h.0 (sort_by_key-All P es h.1)

pub sort_by_key-Pairs : (es : List Edit) → Pairs IsApart es → Pairs IsApart (sort_by_key es)
unfolding sort_by_key
sort_by_key-Pairs [] h = tt
sort_by_key-Pairs (e ∷ es) h =
    insert_by_key-Pairs e (sort_by_key es) (sort_by_key-All (IsApart e) es h.0)
      (sort_by_key-Pairs es h.1)

pub sort_by_key-InOrder : (es : List Edit) → Pairs InOrder (sort_by_key es)
unfolding sort_by_key
sort_by_key-InOrder [] = tt
sort_by_key-InOrder (e ∷ es) = insert_by_key-InOrder e (sort_by_key es) (sort_by_key-InOrder es)
