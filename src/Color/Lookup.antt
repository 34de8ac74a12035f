-- ===== src/Color/Lookup.antt =====
-- The three ways to a color code in src/color.cpp, compared.
use ztd.Base.{ℕ, ◌+◌, ◌-◌, ◌≤◌, ◌<◌, false, List, [], ◌∷◌, ◌≡◌, refl, arith}
use ztd.Base.Text.{Bytes, codes, equal}
use ztd.Error.{ok, fault}
use ztd.Color.Name.{ColorName, number}
use ztd.Color.{
  color_reset, color_name_index, color_code_at, color_code_of, name_loop, color_code_named,
}

-- The name of a color, spelled as its enumerator.
unfoldable pub documented : ColorName → Bytes
documented ColorName.none = codes "none"
documented ColorName.white = codes "white"
documented ColorName.gray = codes "gray"
documented ColorName.black = codes "black"
documented ColorName.red = codes "red"
documented ColorName.green = codes "green"
documented ColorName.orange = codes "orange"
documented ColorName.blue = codes "blue"
documented ColorName.magenta = codes "magenta"
documented ColorName.cyan = codes "cyan"
documented ColorName.b_white = codes "b_white"
documented ColorName.b_lightgray = codes "b_lightgray"
documented ColorName.b_gray = codes "b_gray"
documented ColorName.b_red = codes "b_red"
documented ColorName.b_green = codes "b_green"
documented ColorName.b_yellow = codes "b_yellow"
documented ColorName.b_blue = codes "b_blue"
documented ColorName.b_magenta = codes "b_magenta"
documented ColorName.b_cyan = codes "b_cyan"
documented ColorName.bold = codes "bold"
documented ColorName.italic = codes "italic"
documented ColorName.underline = codes "underline"
documented ColorName.blink = codes "blink"
documented ColorName.strike = codes "strike"

-- The code of a color by its enumerator is its code by its number, and a number from 24 on gives the
-- code of no color.
color_code_at-number :
    (cm : ColorName) (i : ℕ)
    → 24 ≤ i
    → (color_code_at (number cm) ≡ color_code_of cm) × (color_code_at i ≡ ok color_reset)
unfolding color_code_of color_code_at
color_code_at-number cm i h = (by_number cm, ground arith)
  where
    by_number : (c : ColorName) → color_code_at (number c) ≡ color_code_of c
    by_number ColorName.none = refl
    by_number _ = refl

color_code_named_before :
    (cm : ColorName) → number cm < 18 → color_code_named (documented cm) ≡ color_code_of cm
unfolding color_code_named color_code_of documented
color_code_named_before ColorName.none h = refl
color_code_named_before ColorName.white h = refl
color_code_named_before ColorName.gray h = refl
color_code_named_before ColorName.black h = refl
color_code_named_before ColorName.red h = refl
color_code_named_before ColorName.green h = refl
color_code_named_before ColorName.orange h = refl
color_code_named_before ColorName.blue h = refl
color_code_named_before ColorName.magenta h = refl
color_code_named_before ColorName.cyan h = refl
color_code_named_before ColorName.b_white h = refl
color_code_named_before ColorName.b_lightgray h = refl
color_code_named_before ColorName.b_gray h = refl
color_code_named_before ColorName.b_red h = refl
color_code_named_before ColorName.b_green h = refl
color_code_named_before ColorName.b_yellow h = refl
color_code_named_before ColorName.b_blue h = refl
color_code_named_before ColorName.b_magenta h = refl
color_code_named_before ColorName.b_cyan h = absurd (omega arith)
color_code_named_before ColorName.bold h = absurd (omega arith)
color_code_named_before ColorName.italic h = absurd (omega arith)
color_code_named_before ColorName.underline h = absurd (omega arith)
color_code_named_before ColorName.blink h = absurd (omega arith)
color_code_named_before ColorName.strike h = absurd (omega arith)

color_code_named_after :
    (cm : ColorName)
    → 19 < number cm
    → color_code_named (documented cm) ≡ color_code_at (number cm - 1)
unfolding color_code_named color_code_of documented
color_code_named_after ColorName.none h = absurd (omega arith)
color_code_named_after ColorName.white h = absurd (omega arith)
color_code_named_after ColorName.gray h = absurd (omega arith)
color_code_named_after ColorName.black h = absurd (omega arith)
color_code_named_after ColorName.red h = absurd (omega arith)
color_code_named_after ColorName.green h = absurd (omega arith)
color_code_named_after ColorName.orange h = absurd (omega arith)
color_code_named_after ColorName.blue h = absurd (omega arith)
color_code_named_after ColorName.magenta h = absurd (omega arith)
color_code_named_after ColorName.cyan h = absurd (omega arith)
color_code_named_after ColorName.b_white h = absurd (omega arith)
color_code_named_after ColorName.b_lightgray h = absurd (omega arith)
color_code_named_after ColorName.b_gray h = absurd (omega arith)
color_code_named_after ColorName.b_red h = absurd (omega arith)
color_code_named_after ColorName.b_green h = absurd (omega arith)
color_code_named_after ColorName.b_yellow h = absurd (omega arith)
color_code_named_after ColorName.b_blue h = absurd (omega arith)
color_code_named_after ColorName.b_magenta h = absurd (omega arith)
color_code_named_after ColorName.b_cyan h = absurd (omega arith)
color_code_named_after ColorName.bold h = absurd (omega arith)
color_code_named_after ColorName.italic h = refl
color_code_named_after ColorName.underline h = refl
color_code_named_after ColorName.blink h = refl
color_code_named_after ColorName.strike h = refl

-- No string of the list is `str`.
abbrev pub Absent : Bytes → List Bytes → Type 0
Absent str [] = Unit
Absent str (name ∷ names) = (equal name str ≡ false) × Absent str names

name_loop-Absent :
    (names : List Bytes) (i : ℕ) (str : Bytes) → Absent str names → name_loop names i str ≡ fault
unfolding name_loop
name_loop-Absent [] i str a = refl
name_loop-Absent (name ∷ names) i str a = rw a.0 (name_loop-Absent names (i + 1) str a.1)

color_code_named-Absent : (str : Bytes) → Absent str color_name_index → color_code_named str ≡ fault
unfolding color_code_named
color_code_named-Absent str a = name_loop-Absent color_name_index 0 str a

-- A color before `b_cyan`, looked up by its name, gives its code, and a format behind `bold` gives the
-- code of the format before it. A name that is in no place of the table makes the loop read the null
-- pointer.
pub color_code_named-documented :
    (cm format : ColorName) (str : Bytes)
    → number cm < 18
    → 19 < number format
    → Absent str color_name_index
    → (color_code_named (documented cm) ≡ color_code_of cm)
      × (color_code_named (documented format) ≡ color_code_at (number format - 1))
      × (color_code_named str ≡ fault)
color_code_named-documented cm format str h k a =
    (color_code_named_before cm h, color_code_named_after format k, color_code_named-Absent str a)
