-- ===== src/Options/Help.antt =====
-- `option::print_help`, `option_set::print_help` and `argVector` of src/options.cpp, by the text that
-- is printed. The names and the texts hold no NUL.
use ztd.Base.{
  ℕ, zero, suc, ◌+◌, ◌-◌, List, [], ◌∷◌, ◌++◌, ◌≡◌, refl, arith, ◌∙◌, length, length-append, leb,
  if◌then◌else◌,
}
use ztd.Base.Int.{ℤ, pos, ◌-ℤ◌, pos_part, neg_part}
use ztd.Base.Text.{Bytes}
use ztd.Options.{CliOption}

abbrev pub spaces : ℕ → Bytes
spaces zero = []
spaces (suc n) = b' ' ∷ spaces n

-- `printf("%*s", -1*width, "")`: a negative width pads as its opposite does.
abbrev pub pad : ℤ → Bytes
pad width = spaces (pos_part width + neg_part width)

unfoldable pub short_part : CliOption → Bytes
short_part o = if o.short_def then b'-' ∷ o.char_name ∷ b' ' ∷ [] else []

unfoldable pub long_part : CliOption → Bytes
long_part o = if o.long_def then b'-' ∷ b'-' ∷ (o.str_name ++ b' ' ∷ []) else []

unfoldable pub argument_part : CliOption → Bytes
argument_part o = if o.takes_argument then b'<' ∷ (o.arg_name ++ b'>' ∷ []) else []

-- `rightpad` behind the three subtractions.
unfoldable pub pad_left : ℤ → CliOption → ℤ
pad_left rightpad o =
    let r = if o.short_def then rightpad -ℤ pos 3 else rightpad in
    let r' = if o.long_def then r -ℤ pos (3 + length o.str_name) else r in
    if o.takes_argument then r' -ℤ pos (length o.arg_name + 2) else r'

-- What is printed in front of the help text.
unfoldable pub help_head : ℤ → ℤ → CliOption → Bytes
unfolding short_part long_part argument_part pad_left
help_head leftpad rightpad o =
    pad leftpad ++ (short_part o ++ (long_part o ++ (argument_part o ++ pad (pad_left rightpad o))))

-- `option::print_help`.
unfoldable pub print_help : ℤ → ℤ → CliOption → Bytes
unfolding help_head
print_help leftpad rightpad o = help_head leftpad rightpad o ++ (o.help_text ++ b'\n' ∷ [])

-- `option_set::print_help`.
unfoldable pub print_help_all : ℤ → ℤ → List CliOption → Bytes
unfolding print_help
print_help_all leftpad rightpad [] = []
print_help_all leftpad rightpad (o ∷ opts) =
    print_help leftpad rightpad o ++ print_help_all leftpad rightpad opts

-- `argVector`, where the list is `argv` of `argc` elements.
unfoldable pub arg_vector : List Bytes → List Bytes
arg_vector [] = []
arg_vector (name ∷ args) = args

-- The width of an option: `-c `, `--name `, `<arg>`.
abbrev pub width : CliOption → ℕ
width o =
    (if o.short_def then 3 else 0)
    + (if o.long_def then length o.str_name + 3 else 0)
    + (if o.takes_argument then length o.arg_name + 2 else 0)

length-spaces : (n : ℕ) → length (spaces n) ≡ n
length-spaces zero = refl
length-spaces (suc n) = omega (arith, length-spaces n)

length-parts :
    (o : CliOption)
    → length (short_part o) + length (long_part o) + length (argument_part o) ≡ width o
unfolding short_part long_part argument_part
length-parts o =
    ground (arith, length-append o.str_name (b' ' ∷ []), length-append o.arg_name (b'>' ∷ []))

pad_left-width :
    (r : ℕ) (o : CliOption)
    → pos_part (pad_left (pos r) o) + neg_part (pad_left (pos r) o)
      ≡ (if leb (width o) r then r - width o else width o - r)
unfolding pad_left
pad_left-width r o = ground arith

length-joined :
    (a b c d e : Bytes)
    → length (a ++ (b ++ (c ++ (d ++ e)))) ≡ length a + (length b + length c + length d) + length e
length-joined a b c d e = omega (
  arith,
  length-append a (b ++ (c ++ (d ++ e))),
  length-append b (c ++ (d ++ e)),
  length-append c (d ++ e),
  length-append d e,
)

-- The help text stands at the column that the two pads add up to where the option fits in the right
-- one. Where it is wider by some bytes, the text stands as many bytes behind the option as these.
pub length-help_head :
    (l r : ℕ) (o : CliOption)
    → length (help_head (pos l) (pos r) o)
      ≡ l + (if leb (width o) r then r else width o + (width o - r))
unfolding help_head
length-help_head l r o =
    length-joined (pad (pos l)) (short_part o) (long_part o) (argument_part o)
      (pad (pad_left (pos r) o))
    ∙ rw (length-parts o) (
        rw (length-spaces (pos_part (pad_left (pos r) o) + neg_part (pad_left (pos r) o)))
          (rw (pad_left-width r o) (ground (arith, length-spaces (l + 0)))))
