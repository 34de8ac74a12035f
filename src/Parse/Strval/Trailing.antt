-- ===== src/Parse/Strval/Trailing.antt =====
-- `_getstrval` of src/filedat.cpp at values with blanks behind them to the end of the text.
use ztd.Base.{
  ℕ, zero, suc, ◌<◌, Bool, true, false, not, ◌&&◌, ◌||◌, [], ◌∷◌, ◌++◌, ◌≡◌, ◌≢◌, arith, length,
  length-append, ◌==◌,
}
use ztd.Base.Text.{Bytes}
use ztd.Error.{ok, fault}
use ztd.Parse.Scan.{is_read, is_quote, skip, blanks, beyond}
use ztd.Parse.Strval.{again, round, branch, open_quote, value_loop, getstrval}

-- No byte is readable.
abbrev pub IsUnread : Bytes → Type 0
IsUnread [] = Unit
IsUnread (c ∷ s) = (is_read c ≡ false) × IsUnread s

module _ (delim altdelim : ℕ) where
  -- A byte of a plain word: readable, and no quote, bracket or delimiter.
  abbrev pub is_word_byte : ℕ → Bool
  is_word_byte c =
      is_read c && not (is_quote c || (c == b'{' || c == b'[')) && not (c == delim || c == altdelim)

  abbrev pub IsWord : Bytes → Type 0
  IsWord [] = Unit
  IsWord (c ∷ s) = (is_word_byte c ≡ true) × IsWord s

  -- A blank: not readable, and no delimiter.
  abbrev pub IsBlank : Bytes → Type 0
  IsBlank [] = Unit
  IsBlank (c ∷ s) = (is_read c ≡ false) × (c ≢ delim) × (c ≢ altdelim) × IsBlank s

  module _ (d : delim ≢ 0) (a : altdelim ≢ 0) where
    blanks-IsBlank : (s : Bytes) → IsBlank s → blanks delim altdelim s ≡ beyond
    unfolding blanks
    blanks-IsBlank [] h = ground arith
    blanks-IsBlank (c ∷ s) h = ground (arith, blanks-IsBlank s h.3)

    round-IsBlank :
        (str val : Bytes) (c : ℕ) (s : Bytes)
        → IsBlank (c ∷ s)
        → round str delim altdelim val (c ∷ s) ≡ fault
    unfolding round open_quote branch is_read
    round-IsBlank str val c s h = ground (arith, blanks-IsBlank (c ∷ s) h)

    round-word :
        (str val : Bytes) (c : ℕ) (s : Bytes)
        → is_word_byte c ≡ true
        → round str delim altdelim val (c ∷ s) ≡ ok (again (val ++ c ∷ []) s)
    unfolding round open_quote branch is_quote
    round-word str val c s h = ground arith

    value_loop-trailing :
        (fuel : ℕ) (str val w : Bytes) (c : ℕ) (s : Bytes)
        → length w < fuel
        → IsWord w
        → IsBlank (c ∷ s)
        → value_loop fuel str delim altdelim val (w ++ c ∷ s) ≡ fault
    unfolding value_loop
    value_loop-trailing zero str val w c s l h k = absurd (omega arith)
    value_loop-trailing (suc fuel) str val [] c s l h k = rw (round-IsBlank str val c s k)
    value_loop-trailing (suc fuel) str val (x ∷ w) c s l h k =
        rw (round-word str val x (w ++ c ∷ s) h.0)
          (value_loop-trailing fuel str (val ++ x ∷ []) w c s (omega arith) h.1 k)

pub skip-IsUnread :
    (s : Bytes) (c : ℕ) (rest : Bytes)
    → IsUnread s
    → is_read c ≡ true
    → skip (s ++ c ∷ rest) ≡ (c ∷ rest, length s)
unfolding skip
skip-IsUnread [] c rest h e = rw e
skip-IsUnread (x ∷ s) c rest h e = rw h.0 (rw (skip-IsUnread s c rest h.1 e))

-- A value of the loops with two delimiters, in blanks: a word without quotes, brackets and delimiters,
-- with one or more bytes behind it that are neither readable nor delimiters, to the end of the text.
-- `_getstrval` reads past the terminator of the text.
pub getstrval-trailing :
    (delim altdelim : ℕ) (lead : Bytes) (x : ℕ) (w : Bytes) (c : ℕ) (s : Bytes)
    → delim ≢ 0
    → altdelim ≢ 0
    → IsUnread lead
    → IsWord delim altdelim (x ∷ w)
    → IsBlank delim altdelim (c ∷ s)
    → getstrval (lead ++ x ∷ (w ++ c ∷ s)) delim altdelim ≡ fault
unfolding getstrval
getstrval-trailing delim altdelim lead x w c s d a u h k =
    let str = lead ++ x ∷ (w ++ c ∷ s) in
    rw (skip-IsUnread lead x (w ++ c ∷ s) u (ground arith)) (
      rw (
        value_loop-trailing delim altdelim d a (suc (length str)) str [] (x ∷ w) c s
          (omega (arith, length-append lead (x ∷ (w ++ c ∷ s)), length-append w (c ∷ s))) h k))
