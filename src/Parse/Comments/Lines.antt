-- ===== src/Parse/Comments/Lines.antt =====
-- `removeComments` against a description by lines.
use ztd.Base.{
  ℕ, Bool, true, false, List, [], ◌∷◌, ◌++◌, ◌≡◌, refl, arith, map, ◌∙◌, append-nil, append_assoc,
  if◌then◌else◌, ◌==◌, Bool-cases, inl, inr, ◌&&◌, ◌||◌,
}
use ztd.Base.Text.{Bytes, head_byte}
use ztd.Error.{ok}
use ztd.Parse.Comments.{checked, in_comment, strip, remove_comments}

-- The text in front of the first `#` or `//`.
abbrev pub cut : Bytes → Bytes
cut [] = []
cut (c ∷ line) = if c == b'#' || (c == b'/' && head_byte line == b'/') then [] else c ∷ cut line

-- Lines, each with its newline.
abbrev pub unlines : List Bytes → Bytes
unlines [] = []
unlines (line ∷ lines) = line ++ b'\n' ∷ unlines lines

-- No newline, quote or backslash.
abbrev pub is_line_byte : ℕ → Bool
is_line_byte c = elim (c == b'\n' || c == b'\\' || c == b'"' || c == b'\'') [
  | true ↦ false
  | false ↦ true
]

abbrev pub IsLine : Bytes → Type 0
IsLine [] = Unit
IsLine (c ∷ line) = (is_line_byte c ≡ true) × IsLine line

abbrev pub AllLines : List Bytes → Type 0
AllLines [] = Unit
AllLines (line ∷ lines) = IsLine line × AllLines lines

strip-in_comment :
    (line out rest : Bytes)
    → IsLine line
    → strip in_comment out (line ++ b'\n' ∷ rest) ≡ strip checked (out ++ b'\n' ∷ []) rest
unfolding strip
strip-in_comment [] out rest h = refl
strip-in_comment (c ∷ line) out rest h = ground (arith, strip-in_comment line out rest)

strip_comment :
    (c : ℕ) (str out : Bytes)
    → (c == b'#' || (c == b'/' && head_byte str == b'/')) ≡ true
    → strip checked out (c ∷ str) ≡ strip in_comment out str
unfolding strip
strip_comment c str out h = rw (h, strip)

pub strip_kept :
    (c : ℕ) (str out : Bytes)
    → (c == b'#' || (c == b'/' && head_byte str == b'/')) ≡ false
    → is_line_byte c ≡ true
    → strip checked out (c ∷ str) ≡ strip checked (out ++ c ∷ []) str
unfolding strip
strip_kept c str out h k = ground arith

-- The test on a line and on the text that the line begins.
head_byte-append :
    (c : ℕ) (line rest : Bytes)
    → (c == b'#' || (c == b'/' && head_byte (line ++ b'\n' ∷ rest) == b'/'))
      ≡ (c == b'#' || (c == b'/' && head_byte line == b'/'))
head_byte-append c [] rest = ground arith
head_byte-append c (d ∷ line) rest = refl

strip-line :
    (line out rest : Bytes)
    → IsLine line
    → strip checked out (line ++ b'\n' ∷ rest)
      ≡ strip checked (out ++ (cut line ++ b'\n' ∷ [])) rest
strip-line [] out rest h = unfold strip in refl
strip-line (c ∷ line) out rest h =
    elim (Bool-cases (c == b'#' || (c == b'/' && head_byte line == b'/'))) [
      | inl e ↦
          strip_comment c (line ++ b'\n' ∷ rest) out (head_byte-append c line rest ∙ e)
          ∙ strip-in_comment line out rest h.1
          ∙ rw e
      | inr e ↦
          strip_kept c (line ++ b'\n' ∷ rest) out (head_byte-append c line rest ∙ e) h.0
          ∙ strip-line line (out ++ c ∷ []) rest h.1
          ∙ rw e (rw append_assoc)
    ]

strip-unlines :
    (lines : List Bytes) (out : Bytes)
    → AllLines lines
    → strip checked out (unlines lines) ≡ ok (out ++ unlines (map cut lines))
strip-unlines [] out h = unfold strip in rw append-nil
strip-unlines (line ∷ lines) out h =
    strip-line line out (unlines lines) h.0
    ∙ strip-unlines lines (out ++ (cut line ++ b'\n' ∷ [])) h.1
    ∙ simp append_assoc

-- On a text of lines without quotes and backslashes, each ended by a newline, `removeComments` returns
-- the text with every line cut at its first `#` or `//` and every newline kept.
pub remove_comments-unlines :
    (lines : List Bytes)
    → AllLines lines
    → remove_comments (unlines lines) ≡ ok (unlines (map cut lines))
unfolding remove_comments
remove_comments-unlines lines h = strip-unlines lines [] h
