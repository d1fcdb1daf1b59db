-- ===== src/Markdown/RoundTrip.antt =====
-- Rendering what was parsed gives the text back.
use mathlib.Core.Path.{ap₂}
use my_vault.Base.{
  nat_eq, ℕ, ◌≡◌, refl, sym, ap, ◌∙◌, Bool, true, false, ◌&&◌, ◌||◌, List, [], ◌∷◌, map, Option,
  some, arith, if◌then◌else◌, ◌==◌, ==→≡, Bool-cases, inl, inr,
}
use my_vault.Text.{Text, split, join, cons_head, contains}
use my_vault.Text.Split.{split-cons, join-split, join-cons_head, join-nil_cons, split_piece}
use my_vault.Markdown.Parse.{scan, strip_cr, style_of, separator}

-- What the scan has seen stays seen.
scan_keeps_lf : (b : Bool) (s : Text) (k l' k' : Bool) → scan b s true k ≡ some (l', k') → l' ≡ true
unfolding scan
scan_keeps_lf true [] k l' k' h = cc
scan_keeps_lf true (c ∷ s) k l' k' h = ground (arith, scan_keeps_lf false s true l' k')
scan_keeps_lf false [] k l' k' h = ground arith
scan_keeps_lf false (c ∷ s) k l' k' h = scan_keeps_lf (c == 0x0D) s k l' k' h

scan_keeps_crlf :
    (b : Bool) (s : Text) (l l' k' : Bool) → scan b s l true ≡ some (l', k') → k' ≡ true
unfolding scan
scan_keeps_crlf true [] l l' k' h = cc
scan_keeps_crlf true (c ∷ s) l l' k' h = ground (arith, scan_keeps_crlf false s l l' k')
scan_keeps_crlf false [] l l' k' h = ground arith
scan_keeps_crlf false (c ∷ s) l l' k' h = scan_keeps_crlf (c == 0x0D) s (l || c == 0x0A) l' k' h

-- A `\r` that is accepted is followed by `\n`, and is seen.
scan_after_cr :
    (s : Text) (l k l' k' : Bool)
    → scan true s l k ≡ some (l', k')
    → (t : Text) × (s ≡ 0x0A ∷ t) × (scan false t l true ≡ some (l', k'))
unfolding scan
scan_after_cr [] l k l' k' h = cc
scan_after_cr (c ∷ s) l k l' k' h = elim (Bool-cases (c == 0x0A)) [
  | inl e ↦ (s, ap (λ (n : ℕ). n ∷ s) (==→≡ c 0x0A e), ground arith)
  | inr e ↦ ground arith
]

-- One step of the scan, with its two tests decided.
scan-cons :
    {r : Option (Bool × Bool)} (c : ℕ) (s : Text) (l k cr nl : Bool)
    → (c == 0x0D) ≡ cr
    → (c == 0x0A) ≡ nl
    → scan false (c ∷ s) l k ≡ r
    → scan cr s (l || nl) k ≡ r
unfolding scan
scan-cons c s l k cr nl e13 e10 h = sym (ap₂ (λ (x y : Bool). scan x s (l || y) k) e13 e10) ∙ h

after_cr_cons :
    (d : ℕ) (s : Text) (k k' : Bool)
    → scan true (d ∷ s) false k ≡ some (false, k')
    → ((d == 0x0A) ≡ true) × (scan false s false true ≡ some (false, k'))
unfolding scan
after_cr_cons d s k k' h = ground arith

scan-no_cr :
    (s : Text) (l l' : Bool) → scan false s l false ≡ some (l', false) → contains 0x0D s ≡ false
scan-no_cr [] l l' h = refl
scan-no_cr (c ∷ s) l l' h = elim (Bool-cases (c == 0x0D)) [
  | inl e ↦
      let (t, at, rest) =
        scan_after_cr s _ false l' false (scan-cons c s l false true _ e refl h) in
      let seen = scan_keeps_crlf false t _ l' false rest in cc
  | inr e ↦ rw e (scan-no_cr s _ l' (scan-cons c s l false false _ e refl h))
]

-- With no lone `\n` seen, a `\n` would have to follow a `\r`.
scan-lf_impossible :
    (c : ℕ) (s : Text) (k k' : Bool)
    → scan false (c ∷ s) false k ≡ some (false, k')
    → (c == 0x0A) ≡ false
scan-lf_impossible c s k k' h = elim (Bool-cases (c == 0x0A)) [
  | inl e ↦ let seen = scan_keeps_lf _ s k false k' (scan-cons c s false k _ true refl e h) in cc
  | inr e ↦ e
]

pub scan-no_lf :
    (s : Text) (k : Bool) → scan false s false k ≡ some (false, false) → contains 0x0A s ≡ false
scan-no_lf [] k h = refl
scan-no_lf (c ∷ s) k h =
    let e = scan-lf_impossible c s k false h in
    elim (Bool-cases (c == 0x0D)) [
      | inl r ↦
          let (t, at, rest) =
            scan_after_cr s false k false false (scan-cons c s false k true false r e h) in
          let seen = scan_keeps_crlf false t false false false rest in cc
      | inr r ↦ rw e (scan-no_lf s k (scan-cons c s false k false false r e h))
    ]

-- Stripping a line that holds no `\r` does nothing.
strip_cr_id : (s : Text) → contains 0x0D s ≡ false → strip_cr s ≡ s
unfolding strip_cr
strip_cr_id [] h = refl
strip_cr_id (c ∷ []) h = ground arith
strip_cr_id (c ∷ d ∷ s) h = ap (λ (t : Text). c ∷ t) (strip_cr_id (d ∷ s) (ground arith))

strip_cr-cons : (c : ℕ) (s : Text) → (c == 0x0D) ≡ false → strip_cr (c ∷ s) ≡ c ∷ strip_cr s
unfolding strip_cr
strip_cr-cons c [] h = ground arith
strip_cr-cons c (d ∷ s) h = refl

strip_cr-cons_head :
    (c : ℕ) (xs : List Text)
    → (c == 0x0D) ≡ false
    → map strip_cr (cons_head c xs) ≡ cons_head c (map strip_cr xs)
unfolding cons_head
strip_cr-cons_head c [] h = ap (λ (t : Text). t ∷ []) (unfold strip_cr in ground arith)
strip_cr-cons_head c (x ∷ xs) h = ap (λ (t : Text). t ∷ map strip_cr xs) (strip_cr-cons c x h)

-- Lines without `\r`, split and joined.
strip_cr-split : (s : Text) → contains 0x0D s ≡ false → map strip_cr (split 0x0A s) ≡ split 0x0A s
unfolding split
strip_cr-split [] h = unfold strip_cr in refl
strip_cr-split (c ∷ s) h =
    let tail = strip_cr-split s (ground arith) in
    elim (Bool-cases (c == 0x0A)) [
      | inl e ↦ rw (e, if◌then◌else◌, tail) (unfold strip_cr in refl)
      | inr e ↦
          rw (e, if◌then◌else◌)
            (strip_cr-cons_head c (split 0x0A s) (ground arith) ∙ ap (cons_head c) tail)
    ]

abbrev crlf : Text
crlf = 0x0D ∷ 0x0A ∷ []

crlf_line :
    (s : Text)
    → join crlf (map strip_cr (split 0x0A s)) ≡ s
    → join crlf (map strip_cr (split 0x0A (0x0D ∷ 0x0A ∷ s))) ≡ 0x0D ∷ 0x0A ∷ s
unfolding split strip_cr cons_head
crlf_line s h =
    let (y, ys, e) = split-cons 0x0A s in
    join-nil_cons crlf (map strip_cr (split 0x0A s)) (map strip_cr ys) (strip_cr y)
      (ap (map strip_cr) e)
    ∙ ap (λ (t : Text). 0x0D ∷ 0x0A ∷ t) h

crlf-other :
    (c : ℕ) (s : Text)
    → (c == 0x0D) ≡ false
    → (c == 0x0A) ≡ false
    → join crlf (map strip_cr (split 0x0A s)) ≡ s
    → join crlf (map strip_cr (split 0x0A (c ∷ s))) ≡ c ∷ s
unfolding split
crlf-other c s e13 e10 h =
    rw (e10, if◌then◌else◌)
      (ap (join crlf) (strip_cr-cons_head c (split 0x0A s) e13)
        ∙ join-cons_head crlf c (map strip_cr (split 0x0A s))
        ∙ ap (λ (t : Text). c ∷ t) h)

-- Lines that each `\n` ends after a `\r`, joined by the two.
join-crlf :
    (s : Text) (k k' : Bool)
    → scan false s false k ≡ some (false, k')
    → join crlf (map strip_cr (split 0x0A s)) ≡ s
join-crlf [] k k' h = unfold join strip_cr split in refl
join-crlf (c ∷ []) k k' h =
    let e = scan-lf_impossible c [] k k' h in
    elim (Bool-cases (c == 0x0D)) [
      | inl r ↦
          let (t, at, rest) =
            scan_after_cr [] false k false k' (scan-cons c [] false k true false r e h) in
          cc
      | inr r ↦ crlf-other c [] r e (join-crlf [] k k' (scan-cons c [] false k false false r e h))
    ]
join-crlf (c ∷ d ∷ s) k k' h =
    let e = scan-lf_impossible c (d ∷ s) k k' h in
    elim (Bool-cases (c == 0x0D)) [
      | inl r ↦
          let (nl, rest) = after_cr_cons d s k k' (scan-cons c (d ∷ s) false k true false r e h) in
          rw (==→≡ c 0x0D r, ==→≡ d 0x0A nl) (crlf_line s (join-crlf s true k' rest))
      | inr r ↦
          crlf-other c (d ∷ s) r e
            (join-crlf (d ∷ s) k k' (scan-cons c (d ∷ s) false k false false r e h))
    ]

-- The text of a style is its lines, joined.
pub lines-joined :
    (s : Text) (saw_lf saw_crlf : Bool)
    → scan false s false false ≡ some (saw_lf, saw_crlf)
    → (saw_lf && saw_crlf) ≡ false
    → join (separator (style_of saw_lf saw_crlf)) (map strip_cr (split 0x0A s)) ≡ s
unfolding style_of
lines-joined s true true h n = cc
lines-joined s false true h n = join-crlf s false true h
lines-joined s true false h n =
    ap (join (0x0A ∷ [])) (strip_cr-split s (scan-no_cr s false true h)) ∙ join-split 0x0A s
lines-joined s false false h n =
    ap (λ (xs : List Text). join [] (map strip_cr xs)) (split_piece 0x0A s (scan-no_lf s false h))
    ∙ (unfold join in strip_cr_id s (scan-no_cr s false false h))
