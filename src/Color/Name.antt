-- ===== src/Color/Name.antt =====
-- `enum color_name` of include/color.hpp.
use ztd.Base.{ℕ}

pub data ColorName : Type 0 where
  none white gray black red green orange blue magenta cyan : ColorName
  b_white b_lightgray b_gray b_red b_green b_yellow b_blue b_magenta b_cyan : ColorName
  bold italic underline blink strike : ColorName

-- `(int) cm`.
unfoldable pub number : ColorName → ℕ
number none = 0
number white = 1
number gray = 2
number black = 3
number red = 4
number green = 5
number orange = 6
number blue = 7
number magenta = 8
number cyan = 9
number b_white = 10
number b_lightgray = 11
number b_gray = 12
number b_red = 13
number b_green = 14
number b_yellow = 15
number b_blue = 16
number b_magenta = 17
number b_cyan = 18
number bold = 19
number italic = 20
number underline = 21
number blink = 22
number strike = 23
