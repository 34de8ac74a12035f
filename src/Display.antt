-- ===== src/Display.antt =====
-- `printErrorIndex` of src/filedat.cpp, by the text that it writes to the error stream.
mod Examples
pub mod Position
use ztd.Base.{ℕ, zero, suc, ◌+◌, ◌-◌, ◌^◌, [], ◌∷◌, ◌++◌, length, take, drop, ◌==◌, if◌then◌else◌}
use ztd.Base.Int.{ℤ, pos, negsuc, ◌+ℤ◌, ◌-ℤ◌}
use ztd.Base.Text.{Bytes, codes}
use ztd.Chunk.Print.{repeat_string}
use ztd.Error.{to_string}

-- `line`, `j` and `i` behind the two loops.
pub record Located : Type 0 where
  pub line : ℕ
  pub line_start : ℕ
  pub line_stop : ℕ

-- The bytes in front of the first newline.
abbrev pub line_length : Bytes → ℕ
line_length [] = 0
line_length (c ∷ str) = let later = line_length str in if c == b'\n' then 0 else suc later

-- The loops at `i`, where `str` is the text from there and `n` is what is left to `index`.
unfoldable pub locate : Bytes → ℕ → ℕ → ℕ → ℕ → Located
locate [] n i line j = record { line = line; line_start = j; line_stop = i }
locate (c ∷ str) zero i line j = record {
  line = line;
  line_start = j;
  line_stop = i + line_length (c ∷ str);
}
locate (c ∷ str) (suc n) i line j =
    locate str n (suc i) (if c == b'\n' then suc line else line) (if c == b'\n' then suc i else j)

unfoldable pub located : Bytes → ℤ → Located
unfolding locate
located str (pos index) = locate str index 0 1 0
located str (negsuc n) = record { line = 1; line_start = 0; line_stop = 0 }

-- An `int` as the `unsigned int` that `repeatString` takes.
abbrev pub as_unsigned : ℤ → ℕ
as_unsigned (pos n) = n
as_unsigned (negsuc n) = 2 ^ 32 - suc n

abbrev pub int_to_string : ℤ → Bytes
int_to_string (pos n) = to_string n
int_to_string (negsuc n) = b'-' ∷ to_string (suc n)

-- `repeatString(" ", index-j) << '^' << std::endl`.
unfoldable pub marker : ℤ → Located → Bytes
unfolding repeat_string
marker index at =
    repeat_string (codes " ") (as_unsigned (index -ℤ pos at.line_start)) ++ (b'^' ∷ b'\n' ∷ [])

unfoldable pub with_origin : Bytes → ℤ → Bytes → Bytes → Located → Bytes
unfolding marker to_string
with_origin str index what origin at =
    origin
    ++ (codes ": Error\nLine "
        ++ (to_string at.line
            ++ (codes " col "
                ++ (int_to_string ((index -ℤ pos at.line_start) +ℤ pos 1)
                    ++ (codes ": "
                        ++ (what
                            ++ (b'\n'
                                ∷ (take (at.line_stop - at.line_start) (drop at.line_start str)
                                    ++ (b'\n' ∷ marker index at)))))))))

unfoldable pub without_origin : Bytes → ℤ → Bytes → Located → Bytes
unfolding marker
without_origin str (pos n) what at =
    codes "Format Error: "
    ++ (what ++ (b'\n' ∷ (take at.line_stop str ++ (b'\n' ∷ marker (pos n) at))))
without_origin str (negsuc n) what at =
    codes "Format Error: " ++ (what ++ (b'\n' ∷ (str ++ b'\n' ∷ [])))

-- `printErrorIndex`.
unfoldable pub print_error_index : Bytes → ℤ → Bytes → Bytes → Bytes
unfolding located with_origin without_origin
print_error_index str index what [] = without_origin str index what (located str index)
print_error_index str index what (c ∷ origin) =
    with_origin str index what (c ∷ origin) (located str index)
