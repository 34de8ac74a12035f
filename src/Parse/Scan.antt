-- ===== src/Parse/Scan.antt =====
-- The inner loops of `_getstrval` and `_skip` in src/filedat.cpp. A position `i` in a string `str` is
-- the suffix of `str` from `i`.
pub mod Lengths
pub mod Quotes
pub mod Nesting
use ztd.Base.{
  ℕ, suc, ◌+◌, ◌-◌, ◌%◌, ◌^◌, Bool, true, false, not, ◌&&◌, ◌||◌, Option, none, some, [], ◌∷◌, ◌==◌,
  leb, if◌then◌else◌, length,
}
use ztd.Base.Text.{Bytes, head_byte}

-- `filedat::isRead`; a byte from 128 on is a negative `char`, and is not read either way.
unfoldable pub is_read : ℕ → Bool
is_read c = leb 33 c && leb c 126

-- `_skip`: the text from its first readable byte, and the position of that byte.
unfoldable pub skip : Bytes → Bytes × ℕ
skip [] = ([], 0)
skip (c ∷ str) = let (rest, i) = skip str in if is_read c then (c ∷ str, 0) else (rest, suc i)

abbrev pub pushed : ℕ → Option (Bytes × Bytes) → Option (Bytes × Bytes)
pushed c none = none
pushed c (some (taken, rest)) = some (c ∷ taken, rest)

-- The loop to the end of a quote, behind its opening byte: the bytes added to `val`, and the text
-- behind the closing byte. The flag says that an escaped quote byte stands next.
unfoldable pub quoted : ℕ → Bool → Bytes → Option (Bytes × Bytes)
quoted q escaped [] = none
quoted q true (c ∷ str) = pushed c (quoted q false str)
quoted q false (c ∷ str) =
    let unescaped = quoted q true str in
    let later = pushed c (quoted q false str) in
    if c == q then some ([], str) else if c == b'\\' && head_byte str == q then unescaped else later

-- The two loops over a nested chunk: where they stop, and the bytes that count down and up.
pub record Bracket : Type 0 where
  pub stop : ℕ
  pub down : ℕ
  pub up : ℕ

abbrev pub map_bracket : Bracket
map_bracket = record { stop = b'}'; down = b'}'; up = b'{' }

abbrev pub list_bracket : Bracket
list_bracket = record { stop = b']'; down = b'['; up = b']' }

-- `uint32_t counter`, with `counter--` and `counter++`.
abbrev pub counter_mod : ℕ
counter_mod = 2 ^ 32

unfoldable pub count : Bracket → ℕ → ℕ → ℕ
count b counter c =
    if c == b.down
    then (counter + counter_mod - 1) % counter_mod
    else if c == b.up
    then (counter + 1) % counter_mod
    else counter

-- Inside a quote, the mode holds its byte, whether an escaped byte stands next, and how much text
-- was left at its opening.
pub data Mode : Type 0 where
  plain : Mode
  in_quote : ℕ → Bool → ℕ → Mode

pub data Enclosed : Type 0 where
  closed : Bytes → Bytes → Enclosed
  unclosed : Enclosed
  unclosed_quote : ℕ → ℕ → Enclosed

abbrev pub keep : ℕ → Enclosed → Enclosed
keep c (closed taken rest) = closed (c ∷ taken) rest
keep c unclosed = unclosed
keep c (unclosed_quote q left) = unclosed_quote q left

unfoldable pub is_quote : ℕ → Bool
is_quote c = c == b'"' || c == b'\''

-- Behind the byte `c`, which a loop over a nested chunk kept outside of a quote.
unfoldable pub next_mode : Bracket → ℕ → ℕ → Mode
unfolding is_quote
next_mode b c left =
    if c == b.down || c == b.up then plain else if is_quote c then in_quote c false left else plain

-- The loop over a nested chunk, behind its opening bracket: the bytes added to `val`, the closing
-- bracket included, and the text behind.
unfoldable pub enclosed : Bracket → ℕ → Mode → Bytes → Enclosed
unfolding count next_mode
enclosed b counter plain [] = unclosed
enclosed b counter (in_quote q escaped left) [] = unclosed_quote q left
enclosed b counter plain (c ∷ str) =
    let later = enclosed b (count b counter c) (next_mode b c (suc (length str))) str in
    if counter == 0 && c == b.stop then closed (c ∷ []) str else keep c later
enclosed b counter (in_quote q true left) (c ∷ str) =
    keep c (enclosed b counter (in_quote q false left) str)
enclosed b counter (in_quote q false left) (c ∷ str) =
    let escaped = c == b'\\' && head_byte str == q in
    keep c (enclosed b counter (if c == q then plain else in_quote q escaped left) str)

-- The loop over unreadable bytes: it stops behind a delimiter, or at a readable byte, or it reads
-- past the terminator of the string.
pub data Blanks : Type 0 where
  delimiter : Bytes → Blanks
  readable : Bytes → Bytes → Blanks
  beyond : Blanks

abbrev pub keep_blank : ℕ → Blanks → Blanks
keep_blank c (delimiter rest) = delimiter rest
keep_blank c (readable tval rest) = readable (c ∷ tval) rest
keep_blank c beyond = beyond

unfoldable pub blanks : ℕ → ℕ → Bytes → Blanks
unfolding is_read
blanks delim altdelim [] = if 0 == delim || 0 == altdelim then delimiter [] else beyond
blanks delim altdelim (c ∷ str) =
    let later = keep_blank c (blanks delim altdelim str) in
    if c == delim || c == altdelim
    then delimiter str
    else if is_read c
    then readable [] (c ∷ str)
    else later

-- `while(val.size() > 0 && !isRead(val[val.size()-1])) val.pop_back();`
unfoldable pub trim : Bytes → Bytes
unfolding is_read
trim [] = []
trim (c ∷ val) = elim (trim val) [ [] ↦ if is_read c then c ∷ [] else [] | d ∷ t ↦ c ∷ d ∷ t ]
