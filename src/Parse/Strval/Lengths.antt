-- ===== src/Parse/Strval/Lengths.antt =====
-- The fuel of the loop of `_getstrval` of src/filedat.cpp, and the lengths of its texts.
use ztd.Base.{
  ℕ, zero, suc, ◌+◌, ◌≤◌, ◌<◌, false, Option, none, some, [], ◌∷◌, ◌++◌, ◌≡◌, ◌≢◌, ◌⊎◌, refl, arith,
  length, length-append, Bool-cases, inl, inr, ◌||◌, ◌==◌, not, String, ==_iff,
}
use ztd.Base.Text.{Bytes}
use ztd.Error.{ok, Ensures, holds, throws, faults, Ensures-if, Ensures-bind, Ensures-mono}
use ztd.Parse.Scan.Lengths.{
  length-skip, PairWithin, quoted-PairWithin, EnclosedWithin, enclosed-EnclosedWithin, BlanksWithin,
  blanks-BlanksWithin, Progress, blanks-Progress, length-trim,
}
use ztd.Parse.Scan.{
  is_read, skip, quoted, map_bracket, list_bracket, plain, Enclosed, closed, unclosed,
  unclosed_quote, Blanks, delimiter, readable, beyond, blanks,
}
use ztd.Parse.Strval.{
  Strval, Round, again, stopped, unquoted, open_quote, nested, blank_round, branch, round,
  value_loop, finish, from_start, getstrval,
}

length_bytes : (xs ys : Bytes) → length (xs ++ ys) ≡ length xs + length ys
length_bytes = length-append

ruleset lengths = (arith, length_bytes)

abbrev QuoteOpened : Bytes → Bytes → Bytes × Bytes → Type 0
QuoteOpened val s (v, r) = (length v + length r ≤ length val + length s) × (length r ≤ length s)

unquoted-QuoteOpened :
    (what : String) (str : Bytes) (left : ℕ) (val s w : Bytes) (o : Option (Bytes × Bytes))
    → length s ≤ length w
    → PairWithin (length s) o
    → Ensures (QuoteOpened val w) (unquoted what str left val o)
unquoted-QuoteOpened what str left val s w none l h = throws
unquoted-QuoteOpened what str left val s w (some (taken, rest)) l h =
    holds (omega lengths, omega lengths)

open_quote-QuoteOpened : (str val s : Bytes) → Ensures (QuoteOpened val s) (open_quote str val s)
unfolding open_quote
open_quote-QuoteOpened str val [] = holds (omega arith, omega arith)
open_quote-QuoteOpened str val (c ∷ s) =
    Ensures-if (c == b'"')
      (λ _.
        unquoted-QuoteOpened "Double quote doesn't close" str (suc (length s)) val s (c ∷ s)
          (quoted b'"' false s) (omega arith) (quoted-PairWithin b'"' false s))
      λ _.
        Ensures-if (c == b'\'')
          (λ _.
            unquoted-QuoteOpened "Single quote doesn't close" str (suc (length s)) val s (c ∷ s)
              (quoted b'\'' false s) (omega arith) (quoted-PairWithin b'\'' false s))
          λ _. holds (omega arith, omega arith)

-- The text of a round, and that the next one begins further on; behind a delimiter too.
abbrev RoundWithin : ℕ → ℕ → ℕ → Round → Type 0
RoundWithin delim total left (again v r) = (length v + length r ≤ total) × (length r < left)
RoundWithin delim total left (stopped v r) =
    (length v + length r ≤ total)
    × (length r ≤ left)
    × (delim ≢ 0 → (length r < left) ⊎ (length r ≡ 0))

RoundWithin-mono :
    (d total left total' left' : ℕ) (r : Round)
    → total ≤ total'
    → left ≤ left'
    → RoundWithin d total left r
    → RoundWithin d total' left' r
RoundWithin-mono d total left total' left' (again v r) t l h = (omega arith, omega arith)
RoundWithin-mono d total left total' left' (stopped v r) t l h =
    (omega arith, omega arith, λ n. omega (arith, h.2 n))

nested-RoundWithin :
    (d : ℕ) (str : Bytes) (left : ℕ) (val : Bytes) (c : ℕ) (s : Bytes) (e : Enclosed)
    → EnclosedWithin (length s) e
    → Ensures
        (RoundWithin d (length val + suc (length s)) (suc (length s)))
        (nested str left val (c ∷ []) e)
nested-RoundWithin d str left val c s (closed taken rest) h = holds (omega lengths, omega arith)
nested-RoundWithin d str left val c s unclosed h = throws
nested-RoundWithin d str left val c s (unclosed_quote q at) h = throws

blank_round-RoundWithin :
    (d : ℕ) (val s : Bytes) (b : Blanks)
    → BlanksWithin (suc (length s)) b
    → Progress (length s) b
    → Ensures (RoundWithin d (length val + suc (length s)) (suc (length s))) (blank_round val b)
blank_round-RoundWithin d val s (delimiter rest) h p =
    holds (omega arith, omega arith, λ _. omega arith)
blank_round-RoundWithin d val s (readable tval rest) h p = holds (omega lengths, omega arith)
blank_round-RoundWithin d val s beyond h p = faults

branch-RoundWithin :
    (str : Bytes) (d a : ℕ) (val s : Bytes)
    → Ensures (RoundWithin d (length val + length s) (length s)) (branch str d a val s)
unfolding branch
branch-RoundWithin str d a val [] =
    Ensures-if (d == 0) (λ _. holds (omega arith, omega arith, λ _. inr refl)) λ _. at_end
  where
    at_end : Ensures (RoundWithin d (length val + 0) 0) (blank_round val (blanks d a []))
    at_end =
        unfold blanks in
        elim (Bool-cases (0 == d || 0 == a)) [
          | inl e ↦ rw e (holds (omega arith, omega arith, λ _. inr refl))
          | inr e ↦ rw e faults
        ]
branch-RoundWithin str d a val (c ∷ s) =
    Ensures-if (c == b'{')
      (λ _. nested-RoundWithin d str _ val c s _ (enclosed-EnclosedWithin map_bracket 0 plain s))
      λ _.
        Ensures-if (c == b'[')
          (λ _.
            nested-RoundWithin d str _ val c s _ (enclosed-EnclosedWithin list_bracket 0 plain s))
          λ _.
            Ensures-if (not (is_read c))
              (λ r.
                Ensures-if (d == 0)
                  (λ e. holds (omega arith, omega arith, λ n. absurd (n ((==_iff d 0).0 e))))
                  λ _.
                    blank_round-RoundWithin d val s (blanks d a (c ∷ s))
                      (blanks-BlanksWithin d a (c ∷ s)) (blanks-Progress d a c s (ground arith)))
              λ _.
                Ensures-if (c == d || c == a)
                  (λ _. holds (omega arith, omega arith, λ _. omega arith))
                  λ _. holds (omega lengths, omega arith)

round-RoundWithin :
    (str : Bytes) (d a : ℕ) (val s : Bytes)
    → Ensures (RoundWithin d (length val + length s) (length s)) (round str d a val s)
unfolding round
round-RoundWithin str d a val s = Ensures-bind (open_quote-QuoteOpened str val s) λ (v, r) (t, l).
    Ensures-mono (branch-RoundWithin str d a v r) λ x h. RoundWithin-mono d _ _ _ _ x t l h

-- The loop: all text, and less of it is left where it stops at a delimiter.
abbrev LoopWithin : ℕ → ℕ → ℕ → Bytes × Bytes → Type 0
LoopWithin delim total left (v, r) =
    (length v + length r ≤ total)
    × (length r ≤ left)
    × (delim ≢ 0 → (length r < left) ⊎ (length r ≡ 0))

-- The loop behind a round, by the statement about the fuel that is left.
loop_step :
    (fuel : ℕ) (str : Bytes) (d a total left : ℕ) (r : Round)
    → ((v s : Bytes)
        → length s ≤ fuel
        → Ensures (LoopWithin d (length v + length s) (length s)) (value_loop fuel str d a v s))
    → left ≤ suc fuel
    → RoundWithin d total left r
    → Ensures
        (LoopWithin d total left)
        (elim r [ again v' s' ↦ value_loop fuel str d a v' s' | stopped v' s' ↦ ok (v', s') ])
loop_step fuel str d a total left (again v' s') ih l w =
    Ensures-mono (ih v' s' (omega arith)) λ x h. (omega arith, omega arith, λ _. inl (omega arith))
loop_step fuel str d a total left (stopped v' s') ih l w = holds w

value_loop-LoopWithin :
    (fuel : ℕ) (str : Bytes) (d a : ℕ) (val s : Bytes)
    → length s ≤ fuel
    → Ensures (LoopWithin d (length val + length s) (length s)) (value_loop fuel str d a val s)
unfolding value_loop
value_loop-LoopWithin zero str d a val [] h = holds (omega arith, omega arith, λ _. inr refl)
value_loop-LoopWithin (suc fuel) str d a val [] h = holds (omega arith, omega arith, λ _. inr refl)
value_loop-LoopWithin zero str d a val (c ∷ s) h = elim h [ ]
value_loop-LoopWithin (suc fuel) str d a val (c ∷ s) h =
    Ensures-bind (round-RoundWithin str d a val (c ∷ s))
      λ r w. loop_step fuel str d a _ _ r (value_loop-LoopWithin fuel str d a) h w

-- No more text than `n` bytes; behind a delimiter there is less text, or none.
abbrev pub StrvalWithin : ℕ → ℕ → Strval → Type 0
StrvalWithin delim n t =
    (length t.val + length t.rest ≤ n) × (delim ≢ 0 → (length t.rest < n) ⊎ (length t.rest ≡ 0))

finish-StrvalWithin :
    (str : Bytes) (st d n left : ℕ) (val rest : Bytes)
    → left ≤ n
    → LoopWithin d n left (val, rest)
    → StrvalWithin d n (finish str st val rest)
unfolding finish
finish-StrvalWithin str st d n left val [] l h = (omega (arith, length-trim val), λ _. inr refl)
finish-StrvalWithin str st d n left val (c ∷ s) l h = (omega arith, λ e. omega (arith, h.2 e))

from_start-StrvalWithin :
    (str : Bytes) (d a : ℕ) (s : Bytes) (st : ℕ)
    → length s ≤ length str
    → Ensures (StrvalWithin d (length str)) (from_start str d a s st)
from_start-StrvalWithin str d a [] st l = holds (omega arith, λ _. inr refl)
from_start-StrvalWithin str d a (c ∷ s) st l =
    Ensures-bind (value_loop-LoopWithin (suc (length str)) str d a [] (c ∷ s) (omega arith))
      λ (v, r) h. holds (
        finish-StrvalWithin str st d (length str) (length (c ∷ s)) v r l
          (omega arith, omega arith, h.2))

-- `_getstrval` never runs out of fuel, and the value and the rest have no more bytes than the input;
-- with a delimiter, the rest is shorter than the input, or empty.
pub getstrval-StrvalWithin :
    (str : Bytes) (d a : ℕ) → Ensures (StrvalWithin d (length str)) (getstrval str d a)
unfolding getstrval
getstrval-StrvalWithin str d a =
    from_start-StrvalWithin str d a (skip str).0 (skip str).1 (length-skip str)
