-- ===== src/Markdown/Render.antt =====
-- Rendering what `parse_markdown` accepted gives the text back.
use mathlib.Core.List.{append-nil, append_assoc}
use my_vault.Base.{
  nat_eq, list_eq, option_eq, ℕ, ◌≤◌, ◌<◌, ◌≡◌, refl, sym, ap, ◌∙◌, Bool, true, false, ◌&&◌, ◌||◌,
  List, [], ◌∷◌, ◌++◌, map, Option, none, some, arith, if◌then◌else◌, ◌==◌, ==→≡, Bool-cases, ◌⊎◌,
  inl, inr, length, ltb,
}
use my_vault.Base.Results.{ok, fail_if, >>-ok, >>=-ok, fail_if-ok}
use my_vault.Text.{Text, split, join, cons_head, contains, ends_with}
use my_vault.Text.Split.{split_piece}
use my_vault.Markdown.{
  MarkdownVersion, MarkdownMergeIssue, ParsedMarkdown, style_eq, max_markdown_logical_lines,
}
use my_vault.Markdown.Parse.{
  scan, strip_cr, pop, style_of, separator, trim_lines, find_frontmatter, parse_scanned,
  parse_markdown, render,
}
use my_vault.Markdown.RoundTrip.{lines-joined, scan-no_lf}

-- The last line, when it is empty, is its separator alone.
join-pop :
    (sep : Text) (xs : List Text)
    → (pop xs).0 ≡ some []
    → 1 < length xs
    → join sep (pop xs).1 ++ sep ≡ join sep xs
unfolding pop join
join-pop sep [] h n = cc
join-pop sep (x ∷ []) h n = absurd (omega arith)
join-pop sep (x ∷ y ∷ []) h n =
    ap (λ (t : Text). x ++ t) (sym (append-nil sep) ∙ ap (λ (t : Text). sep ++ t) (ground arith))
join-pop sep (x ∷ y ∷ z ∷ zs) h n =
    append_assoc x (sep ++ join sep (pop (y ∷ z ∷ zs)).1) sep
    ∙ ap (λ (t : Text). x ++ t)
        (append_assoc sep (join sep (pop (y ∷ z ∷ zs)).1) sep
          ∙ ap (λ (t : Text). sep ++ t) (join-pop sep (y ∷ z ∷ zs) h (omega arith)))

length-map : (f : Text → Text) (xs : List Text) → length (map f xs) ≡ length xs
length-map f [] = refl
length-map f (x ∷ xs) = omega (arith, length-map f xs)

length-cons_head : (c : ℕ) (xs : List Text) → length xs ≤ length (cons_head c xs)
unfolding cons_head
length-cons_head c [] = omega arith
length-cons_head c (x ∷ xs) = omega arith

ends_with-contains : (c : ℕ) (s : Text) → ends_with c s ≡ true → contains c s ≡ true
unfolding ends_with
ends_with-contains c [] h = cc
ends_with-contains c (d ∷ []) h = ground arith
ends_with-contains c (d ∷ e ∷ s) h = ground (arith, ends_with-contains c (e ∷ s) h)

length-split : (s : Text) → ends_with 0x0A s ≡ true → 1 < length (split 0x0A s)
unfolding split ends_with
length-split [] h = cc
length-split (c ∷ []) h = ground arith
length-split (c ∷ d ∷ s) h =
    let more = length-split (d ∷ s) h in
    let longer = length-cons_head c (split 0x0A (d ∷ s)) in
    elim (Bool-cases (c == 0x0A)) [
      | inl e ↦ rw (e, if◌then◌else◌) (omega arith)
      | inr e ↦ rw (e, if◌then◌else◌) (omega arith)
    ]

render-lines :
    (lines : List Text) (saw_lf saw_crlf final : Bool) (s : Text)
    → join (separator (style_of saw_lf saw_crlf)) lines
        ++ (if final then separator (style_of saw_lf saw_crlf) else [])
      ≡ s
    → (((saw_lf || saw_crlf) ≡ true) ⊎ ((length lines ≤ 1) × (final ≡ false)))
    → render lines (style_of saw_lf saw_crlf) final ≡ some s
unfolding render style_of
render-lines lines true true final s e h = ap some e
render-lines lines false true final s e h = ap some e
render-lines lines true false final s e h = ap some e
render-lines lines false false final s e (inl h) = cc
render-lines lines false false final s e (inr (few, open_end)) = ground arith

-- With a final newline, one was seen.
saw_newline :
    (s : Text) (saw_lf saw_crlf : Bool)
    → scan false s false false ≡ some (saw_lf, saw_crlf)
    → ends_with 0x0A s ≡ true
    → (saw_lf || saw_crlf) ≡ true
saw_newline s true saw_crlf h e = refl
saw_newline s false true h e = refl
saw_newline s false false h e =
    let has = ends_with-contains 0x0A s e in let none_seen = scan-no_lf s false h in cc

-- `trim_lines`, by whether the text ends in a newline.
trim_lines-final :
    (v : MarkdownVersion) (s : Text) (xs lines : List Text)
    → ends_with 0x0A s ≡ true
    → trim_lines v s xs ≡ ok lines
    → ((pop xs).0 ≡ some []) × (lines ≡ (pop xs).1)
unfolding trim_lines
trim_lines-final v s xs lines e h = elim (Bool-cases ((pop xs).0 == some [])) [
  | inl same ↦ (==→≡ (pop xs).0 (some []) same, ground arith)
  | inr other ↦ ground arith
]

-- Few lines, when no newline was seen.
few_lines :
    (s : Text) (saw_lf saw_crlf : Bool)
    → scan false s false false ≡ some (saw_lf, saw_crlf)
    → ends_with 0x0A s ≡ false
    → ((saw_lf || saw_crlf) ≡ true)
      ⊎ ((length (map strip_cr (split 0x0A s)) ≤ 1) × (ends_with 0x0A s ≡ false))
few_lines s true saw_crlf h e = inl refl
few_lines s false true h e = inl refl
few_lines s false false h e = inr (rw (split_piece 0x0A s (scan-no_lf s false h)) (omega arith), e)

trim_lines-open :
    (v : MarkdownVersion) (c : ℕ) (s : Text) (xs lines : List Text)
    → ends_with 0x0A (c ∷ s) ≡ false
    → trim_lines v (c ∷ s) xs ≡ ok lines
    → lines ≡ xs
unfolding trim_lines
trim_lines-open v c s xs lines e h = ground arith

render-open :
    (v : MarkdownVersion) (s : Text) (saw_lf saw_crlf : Bool) (lines : List Text)
    → scan false s false false ≡ some (saw_lf, saw_crlf)
    → (saw_lf && saw_crlf) ≡ false
    → trim_lines v s (map strip_cr (split 0x0A s)) ≡ ok lines
    → ends_with 0x0A s ≡ false
    → render lines (style_of saw_lf saw_crlf) false ≡ some s
render-open v [] saw_lf saw_crlf lines seen pure trimmed e =
    let empty : lines ≡ [] = unfold trim_lines in ground arith in
    rw empty
      (render-lines [] saw_lf saw_crlf false [] (unfold join in refl) (inr (omega arith, refl)))
render-open v (c ∷ s) saw_lf saw_crlf lines seen pure trimmed e =
    let all_of = trim_lines-open v c s _ lines e trimmed in
    rw all_of (
      render-lines _ saw_lf saw_crlf false (c ∷ s)
        (append-nil _ ∙ lines-joined (c ∷ s) saw_lf saw_crlf seen pure)
        (elim (few_lines (c ∷ s) saw_lf saw_crlf seen e) [
          | inl y ↦ inl y
          | inr y ↦ inr (y.0, refl)
        ]))

module _ (v : MarkdownVersion) (s : Text) (saw_lf saw_crlf : Bool) (lines : List Text)
    (seen : scan false s false false ≡ some (saw_lf, saw_crlf))
    (pure : (saw_lf && saw_crlf) ≡ false)
    (trimmed : trim_lines v s (map strip_cr (split 0x0A s)) ≡ ok lines) where
  render-final : ends_with 0x0A s ≡ true → render lines (style_of saw_lf saw_crlf) true ≡ some s
  render-final e =
      let (last, rest) = trim_lines-final v s _ lines e trimmed in
      let sep = separator (style_of saw_lf saw_crlf) in
      let long : 1 < length (map strip_cr (split 0x0A s)) =
        rw (length-map strip_cr (split 0x0A s)) (length-split s e) in
      render-lines lines saw_lf saw_crlf true s
        (ap (λ (xs : List Text). join sep xs ++ sep) rest
          ∙ join-pop sep (map strip_cr (split 0x0A s)) last long
          ∙ lines-joined s saw_lf saw_crlf seen pure)
        (inl (saw_newline s saw_lf saw_crlf seen e))

render_trimmed :
    (v : MarkdownVersion) (s : Text) (saw_lf saw_crlf : Bool) (lines : List Text)
    → scan false s false false ≡ some (saw_lf, saw_crlf)
    → (saw_lf && saw_crlf) ≡ false
    → trim_lines v s (map strip_cr (split 0x0A s)) ≡ ok lines
    → render lines (style_of saw_lf saw_crlf) (ends_with 0x0A s) ≡ some s
render_trimmed v s saw_lf saw_crlf lines seen pure trimmed = elim (Bool-cases (ends_with 0x0A s)) [
  | inl e ↦ rw e (render-final v s saw_lf saw_crlf lines seen pure trimmed e)
  | inr e ↦ rw e (render-open v s saw_lf saw_crlf lines seen pure trimmed e)
]

parse_scanned-render :
    (v : MarkdownVersion) (s : Text) (o : Option (Bool × Bool)) (p : ParsedMarkdown)
    → scan false s false false ≡ o
    → parse_scanned v s o ≡ ok p
    → render p.lines p.newline_style p.final_newline ≡ some s
unfolding parse_scanned
parse_scanned-render v s none p seen h = cc
parse_scanned-render v s (some (saw_lf, saw_crlf)) p seen h =
    let (pure, h1) =
      >>-ok (fail_if (saw_lf && saw_crlf) (MarkdownMergeIssue.mixed_newlines v)) _ h in
    let (lines, trimmed, h2) = >>=-ok (trim_lines v s (map strip_cr (split 0x0A s))) _ h1 in
    let h3 =
      (>>-ok
        (fail_if (ltb max_markdown_logical_lines (length lines))
          (MarkdownMergeIssue.too_many_logical_lines v))
        _ h2).1 in
    let (front, found, h4) = >>=-ok (find_frontmatter v lines) _ h3 in
    let parsed =
      render_trimmed v s saw_lf saw_crlf lines seen
        (fail_if-ok _ (MarkdownMergeIssue.mixed_newlines v) pure) trimmed in
    ground arith

-- A text that is accepted, whatever its newline style, with or without a final newline, is what
-- rendering its lines in that style gives back: parsing loses nothing of it.
pub render-parse_markdown :
    (v : MarkdownVersion) (s : Text) (p : ParsedMarkdown)
    → parse_markdown s v ≡ ok p
    → render p.lines p.newline_style p.final_newline ≡ some s
unfolding parse_markdown
render-parse_markdown v s p h =
    let h1 = (>>-ok (fail_if _ (MarkdownMergeIssue.version_too_large v)) _ h).1 in
    let h2 = (>>-ok (fail_if _ (MarkdownMergeIssue.byte_order_mark v)) _ h1).1 in
    parse_scanned-render v s (scan false s false false) p refl h2
