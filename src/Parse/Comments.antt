-- ===== src/Parse/Comments.antt =====
-- `filedat::removeComments` of src/filedat.cpp. The text before the position is `out`: the string is
-- at every time `out` and the suffix that is left. Positions are below 2^32, so that the `uint32_t`
-- does not wrap.
pub mod Lines
use ztd.Base.{
  ℕ, suc, Bool, true, false, ◌&&◌, ◌||◌, [], ◌∷◌, ◌++◌, ◌==◌, if◌then◌else◌, length, String,
}
use ztd.Base.Int.{pos}
use ztd.Base.Text.{Bytes, codes, head_byte}
use ztd.Error.{FormatError, format_error, Result, ok, thrown, fault, out_of_fuel}

-- Where the loop stands: at its head, behind an `i++` that leaves a byte unchecked, in a comment, or
-- in a quote that began at a position, maybe at an escaped byte.
pub data Place : Type 0 where
  checked unchecked in_comment : Place
  in_quote : ℕ → Bool → ℕ → Place

abbrev pub quote_error : ℕ → Bytes → ℕ → FormatError
quote_error q out j =
    format_error
      (codes (if q == b'"' then "Double quote doesn't close" else "Single quote doesn't close")) []
      out (pos j)

unfoldable pub starts_comment : ℕ → Bytes → Bool
starts_comment c str = c == b'#' || (c == b'/' && head_byte str == b'/')

-- The place behind a byte that stays, read at the head of the loop.
unfoldable pub next_place : ℕ → ℕ → Place
next_place c position =
    if c == b'\\'
    then unchecked
    else if c == b'"' || c == b'\''
    then in_quote c false position
    else checked

-- The place behind the byte `c` of a quote. The two `i++` behind a closing quote leave the next byte
-- unchecked.
unfoldable pub quote_place : ℕ → ℕ → ℕ → Bytes → Place
quote_place q j c str =
    if c == q then unchecked else in_quote q (c == b'\\' && head_byte str == q) j

unfoldable pub strip : Place → Bytes → Bytes → Result Bytes
unfolding starts_comment next_place quote_place
strip (in_quote q escaped j) out [] = thrown (quote_error q out j)
strip checked out [] = ok out
strip unchecked out [] = ok out
strip in_comment out [] = ok out
strip checked out (c ∷ str) =
    let comment = starts_comment c str in
    strip (if comment then in_comment else next_place c (length out))
      (if comment then out else out ++ c ∷ []) str
strip unchecked out (c ∷ str) = strip checked (out ++ c ∷ []) str
strip in_comment out (c ∷ str) =
    let ends = c == b'\n' in
    strip (if ends then checked else in_comment) (if ends then out ++ c ∷ [] else out) str
strip (in_quote q true j) out (c ∷ str) = strip (in_quote q false j) (out ++ c ∷ []) str
strip (in_quote q false j) out (c ∷ str) = strip (quote_place q j c str) (out ++ c ∷ []) str

unfoldable pub remove_comments : Bytes → Result Bytes
unfolding strip
remove_comments str = strip checked [] str
