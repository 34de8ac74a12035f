-- ===== src/RoundTrip/Lists.antt =====
-- The text of a printed list of strings, read by `chunkdat::set`, both of src/filedat.cpp.
use ztd.Base.{[], ◌∷◌, ◌++◌, ◌≡◌, refl, ◌∙◌, ap, sym, append_assoc}
use ztd.Base.Text.{Bytes, codes}
use ztd.Chunk.{Trace, Items, chunkdat, null, chunk_string, chunk_map, chunk_list, no_items, item}
use ztd.Chunk.Print.{
  strval_list, strval_items, shown_chunk, repeat_string, escape, erase_before_last,
}
use ztd.Parse.Scan.{is_quote, plain, closed, enclosed, list_bracket}
use ztd.RoundTrip.Crossing.{Crosses, Crosses-append, Crosses-other, Crosses-quoted, keep_all-closed}
use ztd.RoundTrip.Nested.{tab}
use ztd.RoundTrip.{IsText}

-- A list of readable strings.
abbrev pub AllTexts : Items → Type 0
AllTexts no_items = Unit
AllTexts (item (chunkdat t (chunk_string v)) l) = IsText v × AllTexts l
AllTexts (item (chunkdat t c) l) = ⊥

abbrev pub quotation : Bytes → Bytes
quotation v = b'"' ∷ (escape v b'"' ++ b'"' ∷ [])

-- What is printed of the elements behind the first one, less the last comma.
abbrev pub later_lines : Items → Bytes
later_lines no_items = []
later_lines (item (chunkdat t (chunk_string v)) l) = codes ",\n\t" ++ (quotation v ++ later_lines l)
later_lines (item (chunkdat t c) l) = []

-- The text between the brackets of a printed list.
abbrev pub list_body : Bytes → Items → Bytes
list_body v l = codes "\n\t" ++ (quotation v ++ (later_lines l ++ codes "\n"))

Crosses-line : (w : Bytes) → Crosses list_bracket 0 w → Crosses list_bracket 0 (codes "\n\t" ++ w)
unfolding is_quote
Crosses-line w c =
    Crosses-other list_bracket 0 b'\n' (b'\t' ∷ w) refl
      (Crosses-other list_bracket 0 b'\t' w refl c)

later_lines-strval_items :
    (l : Items) → AllTexts l → codes ",\n" ++ strval_items 0 tab l ≡ later_lines l ++ codes ",\n"
unfolding strval_items repeat_string
later_lines-strval_items no_items h = refl
later_lines-strval_items (item (chunkdat t null) l) h = absurd h
later_lines-strval_items (item (chunkdat t (chunk_map m)) l) h = absurd h
later_lines-strval_items (item (chunkdat t (chunk_list k)) l) h = absurd h
later_lines-strval_items (item (chunkdat t (chunk_string v)) l) h =
    ap (λ x. codes ",\n\t" ++ (quotation v ++ x)) (later_lines-strval_items l h.1)
    ∙ simp append_assoc

erase_before_last-append : (w : Bytes) → erase_before_last (w ++ codes ",\n") ≡ w ++ codes "\n"
unfolding erase_before_last
erase_before_last-append [] = refl
erase_before_last-append (a ∷ []) = refl
erase_before_last-append (a ∷ b ∷ []) = refl
erase_before_last-append (a ∷ b ∷ c ∷ w) = ap (a ∷◌) (erase_before_last-append (b ∷ c ∷ w))

pub strval_list-list_body :
    (t : Trace) (v : Bytes) (l : Items)
    → AllTexts l
    → strval_list 0 tab (item (chunkdat t (chunk_string v)) l) ≡ b'[' ∷ (list_body v l ++ b']' ∷ [])
unfolding strval_list shown_chunk repeat_string
strval_list-list_body t v l h =
    let w = codes "[\n\t" ++ (quotation v ++ later_lines l) in
    ap (λ x. erase_before_last (codes "[\n\t" ++ (quotation v ++ x)) ++ codes "]")
      (later_lines-strval_items l h)
    ∙ ap (λ x. erase_before_last x ++ codes "]")
        (ap (λ x. codes "[\n\t" ++ x)
          (sym (append_assoc (quotation v) (later_lines l) (codes ",\n"))))
    ∙ ap (λ x. x ++ codes "]") (erase_before_last-append w)
    ∙ simp append_assoc

Crosses-later_lines : (l : Items) → AllTexts l → Crosses list_bracket 0 (later_lines l)
unfolding is_quote
Crosses-later_lines no_items h = λ s. refl
Crosses-later_lines (item (chunkdat t null) l) h = absurd h
Crosses-later_lines (item (chunkdat t (chunk_map m)) l) h = absurd h
Crosses-later_lines (item (chunkdat t (chunk_list k)) l) h = absurd h
Crosses-later_lines (item (chunkdat t (chunk_string v)) l) h =
    Crosses-other list_bracket 0 b',' (codes "\n\t" ++ (quotation v ++ later_lines l)) refl (
      Crosses-line (quotation v ++ later_lines l) (
        Crosses-append list_bracket 0 (quotation v) (later_lines l)
          (Crosses-quoted list_bracket 0 v refl h.0.2) (Crosses-later_lines l h.1)))

Crosses-list_body :
    (v : Bytes) (l : Items) → IsText v → AllTexts l → Crosses list_bracket 0 (list_body v l)
unfolding is_quote
Crosses-list_body v l p h = Crosses-line (quotation v ++ (later_lines l ++ codes "\n")) (
    Crosses-append list_bracket 0 (quotation v) (later_lines l ++ codes "\n")
      (Crosses-quoted list_bracket 0 v refl p.2)
      (Crosses-append list_bracket 0 (later_lines l) (codes "\n") (Crosses-later_lines l h)
        (Crosses-other list_bracket 0 b'\n' [] refl λ s. refl)))

-- The loop over a nested chunk, behind the opening bracket of a printed list.
pub enclosed-list_body :
    (v : Bytes) (l : Items)
    → IsText v
    → AllTexts l
    → enclosed list_bracket 0 plain (list_body v l ++ b']' ∷ [])
      ≡ closed (list_body v l ++ b']' ∷ []) []
unfolding enclosed
enclosed-list_body v l p h =
    Crosses-list_body v l p h (b']' ∷ []) ∙ keep_all-closed (list_body v l) (b']' ∷ []) []
