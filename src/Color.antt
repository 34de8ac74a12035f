-- ===== src/Color.antt =====
-- `color` of include/color.hpp and src/color.cpp. An ANSI code begins with the byte 27.
mod Examples
pub mod Name
pub mod Lookup
use ztd.Base.{ℕ, ◌+◌, Bool, Option, none, some, List, [], ◌∷◌, leb, get_elem?, if◌then◌else◌}
use ztd.Base.Text.{Bytes, codes, equal}
use ztd.Error.{Result, ok, fault, ◌>>=◌}
use Name.{ColorName, number}

abbrev pub color_count : ℕ
color_count = 24

abbrev pub color_reset : Bytes
color_reset = 27 ∷ codes "[0;0m"

-- The strings of `color_name_index`: there is no comma behind "b_cyan", so that literal and the next
-- are one, and the last of the 24 elements is a null pointer.
abbrev pub color_name_index : List Bytes
color_name_index =
    codes "none"
    ∷ codes "white"
    ∷ codes "gray"
    ∷ codes "black"
    ∷ codes "red"
    ∷ codes "green"
    ∷ codes "orange"
    ∷ codes "blue"
    ∷ codes "magenta"
    ∷ codes "cyan"
    ∷ codes "b_white"
    ∷ codes "b_lightgray"
    ∷ codes "b_gray"
    ∷ codes "b_red"
    ∷ codes "b_green"
    ∷ codes "b_yellow"
    ∷ codes "b_blue"
    ∷ codes "b_magenta"
    ∷ codes "b_cyanbold"
    ∷ codes "italic"
    ∷ codes "underline"
    ∷ codes "blink"
    ∷ codes "strike"
    ∷ []

abbrev pub color_index : List Bytes
color_index =
    (27 ∷ codes "[0;0m")
    ∷ (27 ∷ codes "[37m")
    ∷ (27 ∷ codes "[90m")
    ∷ (27 ∷ codes "[30m")
    ∷ (27 ∷ codes "[31m")
    ∷ (27 ∷ codes "[32m")
    ∷ (27 ∷ codes "[33m")
    ∷ (27 ∷ codes "[34m")
    ∷ (27 ∷ codes "[35m")
    ∷ (27 ∷ codes "[36m")
    ∷ (27 ∷ codes "[1;37m")
    ∷ (27 ∷ codes "[1;02m")
    ∷ (27 ∷ codes "[1;30m")
    ∷ (27 ∷ codes "[1;31m")
    ∷ (27 ∷ codes "[1;32m")
    ∷ (27 ∷ codes "[1;33m")
    ∷ (27 ∷ codes "[1;34m")
    ∷ (27 ∷ codes "[1;35m")
    ∷ (27 ∷ codes "[1;36m")
    ∷ (27 ∷ codes "[01m")
    ∷ (27 ∷ codes "[03m")
    ∷ (27 ∷ codes "[04m")
    ∷ (27 ∷ codes "[05m")
    ∷ (27 ∷ codes "[09m")
    ∷ []

-- An element of `color_index`; outside of the array the access is undefined.
unfoldable pub color_at : ℕ → Result Bytes
color_at i = elim (get_elem? color_index i) [ none ↦ fault | some code ↦ ok code ]

-- `getColorCode(const unsigned int index)`.
unfoldable pub color_code_at : ℕ → Result Bytes
unfolding color_at
color_code_at index = if leb color_count index then ok color_reset else color_at index

-- `getColorCode(color_name cm)`.
unfoldable pub color_code_of : ColorName → Result Bytes
unfolding color_at number
color_code_of cm = color_at (number cm)

-- The loop of `getColorCode(const std::string& str)` from index `i`, over the elements from there. The
-- comparison with the null pointer behind the strings is undefined.
unfoldable pub name_loop : List Bytes → ℕ → Bytes → Result Bytes
unfolding color_code_at
name_loop [] i str = fault
name_loop (name ∷ names) i str =
    if equal name str then color_code_at i else name_loop names (i + 1) str

unfoldable pub color_code_named : Bytes → Result Bytes
unfolding name_loop
color_code_named str = name_loop color_name_index 0 str

-- The class `color`, by its `color_code`.
pub record Color : Type 0 where
  pub color_code : Bytes

-- `setColor(color_name cm)`, which `color(color_name cm)` calls.
unfoldable pub set_color : ColorName → Result Color
unfolding color_code_of
set_color cm = color_code_of cm >>= λ code. ok (record { color_code = code })

-- `setColor(const std::string& name)`, which `color(const std::string& name)` calls.
unfoldable pub set_color_named : Bytes → Result Color
unfolding color_code_named
set_color_named name = color_code_named name >>= λ code. ok (record { color_code = code })

-- `color()`.
unfoldable pub new_color : Result Color
unfolding set_color
new_color = set_color ColorName.none

-- `color(cm)` and `color(name)`.
abbrev pub color_of : ColorName → Result Color
color_of cm = set_color cm

abbrev pub color_named : Bytes → Result Color
color_named name = set_color_named name

-- `code`.
abbrev pub code : Color → Bytes
code c = c.color_code
