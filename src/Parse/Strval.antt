-- ===== src/Parse/Strval.antt =====
-- `_getstrval` of src/filedat.cpp.
pub mod Lengths
pub mod Trailing
use ztd.Base.{
  String, ℕ, zero, suc, ◌+◌, ◌-◌, Bool, true, false, not, ◌&&◌, ◌||◌, Option, none, some, [], ◌∷◌,
  ◌++◌, ◌==◌, if◌then◌else◌, length,
}
use ztd.Base.Int.{ℤ, pos}
use ztd.Base.Text.{Bytes, codes}
use ztd.Error.{FormatError, format_error, Result, ok, thrown, fault, out_of_fuel, ◌>>=◌}
use ztd.Parse.Scan.{
  is_read, skip, quoted, Bracket, map_bracket, list_bracket, Mode, plain, Enclosed, closed,
  unclosed, unclosed_quote, enclosed, Blanks, delimiter, readable, beyond, blanks, trim,
}

-- value, rest, start of rest, start of value, delim found.
pub record Strval : Type 0 where
  pub val : Bytes
  pub rest : Bytes
  pub rest_start : ℕ
  pub start : ℕ
  pub delim_found : Bool

-- The error at the suffix that has `left` bytes.
abbrev pub error_at : String → Bytes → ℕ → FormatError
error_at what str left = format_error (codes what) [] str (pos (length str - left))

-- What one round of the loop leaves: `val` and the text to go on with, or to stop at.
pub data Round : Type 0 where
  again : Bytes → Bytes → Round
  stopped : Bytes → Bytes → Round

abbrev pub unquoted : String → Bytes → ℕ → Bytes → Option (Bytes × Bytes) → Result (Bytes × Bytes)
unquoted what str left val none = thrown (error_at what str left)
unquoted what str left val (some (taken, rest)) = ok (val ++ taken, rest)

-- The two quotes at the head of a round.
unfoldable pub open_quote : Bytes → Bytes → Bytes → Result (Bytes × Bytes)
open_quote str val [] = ok (val, [])
open_quote str val (c ∷ s) =
    if c == b'"'
    then unquoted "Double quote doesn't close" str (suc (length s)) val (quoted b'"' false s)
    else if c == b'\''
    then unquoted "Single quote doesn't close" str (suc (length s)) val (quoted b'\'' false s)
    else ok (val, c ∷ s)

-- The rest of a branch for a nested chunk: the opening byte and what `enclosed` kept.
abbrev pub nested : Bytes → ℕ → Bytes → Bytes → Enclosed → Result Round
nested str left val opening (closed taken rest) = ok (again (val ++ (opening ++ taken)) rest)
nested str left val opening unclosed = thrown (error_at "Brace does not close" str left)
nested str left val opening (unclosed_quote q at) = thrown (
    error_at (if q == b'"' then "Double quote does not close" else "Single quote does not close")
      str at)

abbrev pub blank_round : Bytes → Blanks → Result Round
blank_round val (delimiter rest) = ok (stopped val rest)
blank_round val (readable tval rest) = ok (again (val ++ tval) rest)
blank_round val beyond = fault

-- The branches of a round, at the byte behind the quote if there was one.
unfoldable pub branch : Bytes → ℕ → ℕ → Bytes → Bytes → Result Round
unfolding is_read
branch str delim altdelim val [] =
    if delim == 0 then ok (stopped val []) else blank_round val (blanks delim altdelim [])
branch str delim altdelim val (c ∷ s) =
    if c == b'{'
    then nested str (suc (length s)) val (c ∷ []) (enclosed map_bracket 0 plain s)
    else if c == b'['
    then nested str (suc (length s)) val (c ∷ []) (enclosed list_bracket 0 plain s)
    else if not (is_read c)
    then (if delim == 0
        then ok (stopped val (c ∷ s))
        else blank_round val (blanks delim altdelim (c ∷ s)))
    else if c == delim || c == altdelim
    then ok (stopped val s)
    else ok (again (val ++ c ∷ []) s)

unfoldable pub round : Bytes → ℕ → ℕ → Bytes → Bytes → Result Round
unfolding open_quote branch
round str delim altdelim val s =
    open_quote str val s >>= λ (val', s'). branch str delim altdelim val' s'

-- The loop: `val` and the text that is left.
unfoldable pub value_loop : ℕ → Bytes → ℕ → ℕ → Bytes → Bytes → Result (Bytes × Bytes)
value_loop fuel str delim altdelim val [] = ok (val, [])
value_loop zero str delim altdelim val (c ∷ s) = out_of_fuel
value_loop (suc fuel) str delim altdelim val (c ∷ s) = round str delim altdelim val (c ∷ s) >>= λ r.
    elim r [
      | again val' s' ↦ value_loop fuel str delim altdelim val' s'
      | stopped val' s' ↦ ok (val', s')
    ]

-- Behind the loop.
unfoldable pub finish : Bytes → ℕ → Bytes → Bytes → Strval
finish str st val [] = record {
  val = trim val;
  rest = [];
  rest_start = length str;
  start = st;
  delim_found = false;
}
finish str st val (c ∷ s) = record {
  val = val;
  rest = c ∷ s;
  rest_start = length str - suc (length s);
  start = st;
  delim_found = true;
}

abbrev pub no_value : Strval
no_value = record { val = []; rest = []; rest_start = 0; start = 0; delim_found = false }

abbrev from_start : Bytes → ℕ → ℕ → Bytes → ℕ → Result Strval
from_start str delim altdelim [] st = ok no_value
from_start str delim altdelim (c ∷ s) st =
    value_loop (suc (length str)) str delim altdelim [] (c ∷ s) >>= λ (val, rest).
    ok (finish str st val rest)

-- The loop makes at most one round for each byte.
unfoldable pub getstrval : Bytes → ℕ → ℕ → Result Strval
getstrval str delim altdelim = let (s, st) = skip str in from_start str delim altdelim s st
