-- ===== src/Parse/Scan/Lengths.antt =====
-- The lengths of the texts that the inner loops of `_getstrval` of src/filedat.cpp take and leave.
use ztd.Base.{
  ℕ, suc, ◌+◌, ◌≤◌, Bool, true, false, Option, none, some, [], ◌∷◌, ◌≡◌, arith, length, Bool-cases,
  inl, inr, if◌then◌else◌, ◌&&◌, ◌||◌, ◌==◌,
}
use ztd.Base.Text.{Bytes, head_byte}
use ztd.Parse.Scan.{
  is_read, skip, pushed, quoted, Bracket, Mode, plain, in_quote, Enclosed, closed, unclosed,
  unclosed_quote, keep, count, next_mode, enclosed, Blanks, delimiter, readable, beyond, keep_blank,
  blanks, trim,
}

pub length-skip : (str : Bytes) → length (skip str).0 ≤ length str
unfolding skip
length-skip [] = omega arith
length-skip (c ∷ str) = ground (arith, length-skip str)

-- At most `n` bytes in all.
abbrev pub PairWithin : ℕ → Option (Bytes × Bytes) → Type 0
PairWithin n none = Unit
PairWithin n (some (taken, rest)) = length taken + length rest ≤ n

PairWithin-pushed :
    (n c : ℕ) (o : Option (Bytes × Bytes)) → PairWithin n o → PairWithin (suc n) (pushed c o)
PairWithin-pushed n c none h = tt
PairWithin-pushed n c (some (taken, rest)) h = omega arith

PairWithin-mono : (m n : ℕ) (o : Option (Bytes × Bytes)) → m ≤ n → PairWithin m o → PairWithin n o
PairWithin-mono m n none l h = tt
PairWithin-mono m n (some (taken, rest)) l h = omega arith

pub quoted-PairWithin :
    (q : ℕ) (escaped : Bool) (str : Bytes) → PairWithin (length str) (quoted q escaped str)
unfolding quoted
quoted-PairWithin q true [] = tt
quoted-PairWithin q false [] = tt
quoted-PairWithin q true (c ∷ str) =
    PairWithin-pushed (length str) c (quoted q false str) (quoted-PairWithin q false str)
quoted-PairWithin q false (c ∷ str) = elim (Bool-cases (c == q)) [
  | inl e ↦ rw e (omega arith)
  | inr e ↦ elim (Bool-cases (c == b'\\' && head_byte str == q)) [
    | inl b ↦ rw e (
        rw b (
          PairWithin-mono (length str) _ (quoted q true str) (omega arith)
            (quoted-PairWithin q true str)))
    | inr b ↦ rw e (
        rw b
          (PairWithin-pushed (length str) c (quoted q false str) (quoted-PairWithin q false str)))
  ]
]

abbrev pub EnclosedWithin : ℕ → Enclosed → Type 0
EnclosedWithin n (closed taken rest) = length taken + length rest ≤ n
EnclosedWithin n unclosed = Unit
EnclosedWithin n (unclosed_quote q left) = Unit

EnclosedWithin-keep :
    (n c : ℕ) (e : Enclosed) → EnclosedWithin n e → EnclosedWithin (suc n) (keep c e)
EnclosedWithin-keep n c (closed taken rest) h = omega arith
EnclosedWithin-keep n c unclosed h = tt
EnclosedWithin-keep n c (unclosed_quote q left) h = tt

pub enclosed-EnclosedWithin :
    (b : Bracket) (counter : ℕ) (mode : Mode) (str : Bytes)
    → EnclosedWithin (length str) (enclosed b counter mode str)
unfolding enclosed
enclosed-EnclosedWithin b counter plain [] = tt
enclosed-EnclosedWithin b counter (in_quote q escaped left) [] = tt
enclosed-EnclosedWithin b counter plain (c ∷ str) =
    elim (Bool-cases (counter == 0 && c == b.stop)) [
      | inl e ↦ rw e (omega arith)
      | inr e ↦ rw e (
          EnclosedWithin-keep (length str) c _
            (enclosed-EnclosedWithin b (count b counter c) (next_mode b c (suc (length str))) str))
    ]
enclosed-EnclosedWithin b counter (in_quote q true left) (c ∷ str) =
    EnclosedWithin-keep (length str) c _
      (enclosed-EnclosedWithin b counter (in_quote q false left) str)
enclosed-EnclosedWithin b counter (in_quote q false left) (c ∷ str) =
    EnclosedWithin-keep (length str) c _ (
      enclosed-EnclosedWithin b counter
        (if c == q then plain else in_quote q (c == b'\\' && head_byte str == q) left) str)

abbrev pub BlanksWithin : ℕ → Blanks → Type 0
BlanksWithin n (delimiter rest) = length rest ≤ n
BlanksWithin n (readable tval rest) = length tval + length rest ≤ n
BlanksWithin n beyond = Unit

BlanksWithin-keep_blank :
    (n c : ℕ) (b : Blanks) → BlanksWithin n b → BlanksWithin (suc n) (keep_blank c b)
BlanksWithin-keep_blank n c (delimiter rest) h = omega arith
BlanksWithin-keep_blank n c (readable tval rest) h = omega arith
BlanksWithin-keep_blank n c beyond h = tt

pub blanks-BlanksWithin :
    (delim altdelim : ℕ) (str : Bytes) → BlanksWithin (length str) (blanks delim altdelim str)
unfolding blanks
blanks-BlanksWithin d a [] = ground arith
blanks-BlanksWithin d a (c ∷ str) =
    let kept =
      BlanksWithin-keep_blank (length str) c (blanks d a str) (blanks-BlanksWithin d a str) in
    elim (Bool-cases (c == d || c == a)) [
      | inl e ↦ rw e (omega arith)
      | inr e ↦ elim (Bool-cases (is_read c)) [
        | inl r ↦ rw e (rw r (omega arith))
        | inr r ↦ rw e (rw r kept)
      ]
    ]

-- What is left when the loop began at an unreadable byte.
abbrev pub Progress : ℕ → Blanks → Type 0
Progress n (delimiter rest) = length rest ≤ n
Progress n (readable tval rest) = length rest ≤ n
Progress n beyond = Unit

Progress-keep_blank : (n c : ℕ) (b : Blanks) → BlanksWithin n b → Progress n (keep_blank c b)
Progress-keep_blank n c (delimiter rest) h = h
Progress-keep_blank n c (readable tval rest) h = omega arith
Progress-keep_blank n c beyond h = tt

pub blanks-Progress :
    (delim altdelim c : ℕ) (str : Bytes)
    → is_read c ≡ false
    → Progress (length str) (blanks delim altdelim (c ∷ str))
unfolding blanks
blanks-Progress d a c str r =
    let kept = Progress-keep_blank (length str) c (blanks d a str) (blanks-BlanksWithin d a str) in
    elim (Bool-cases (c == d || c == a)) [ inl e ↦ rw e (omega arith) | inr e ↦ rw e (rw r kept) ]

pub length-trim : (val : Bytes) → length (trim val) ≤ length val
unfolding trim
length-trim [] = omega arith
length-trim (c ∷ val) = ground (arith, length-trim val)
