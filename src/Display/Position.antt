-- ===== src/Display/Position.antt =====
-- The line and the column that `printErrorIndex` of src/filedat.cpp finds.
use ztd.Base.{
  ℕ, zero, suc, ◌+◌, ◌-◌, ◌≤◌, List, [], ◌∷◌, ◌++◌, ◌≡◌, ◌≢◌, refl, arith, ap, ◌∙◌, append_assoc,
  length, length-append, take, take-length, drop,
}
use ztd.Base.Int.{pos, ◌+ℤ◌, ◌-ℤ◌}
use ztd.Base.Text.{Bytes, codes}
use ztd.Chunk.Print.{repeat_string}
use ztd.Display.{line_length, locate, located, print_error_index, with_origin, marker}
use ztd.Error.{to_string}
use ztd.Filedat.Files.Lines.{IsUnbroken, AllUnbroken}
use ztd.Parse.Comments.Lines.{unlines}

-- The end of the text, or of a line.
abbrev pub IsLineEnd : Bytes → Type 0
IsLineEnd [] = Unit
IsLineEnd (c ∷ rest) = c ≡ b'\n'

line_length-append :
    (l rest : Bytes) → IsUnbroken l → IsLineEnd rest → line_length (l ++ rest) ≡ length l
line_length-append [] [] u e = refl
line_length-append [] (c ∷ rest) u e = ground arith
line_length-append (c ∷ l) rest u e = ground (arith, line_length-append l rest u.1 e)

locate-within :
    (l rest : Bytes) (c i line j : ℕ)
    → IsUnbroken l
    → IsLineEnd rest
    → c ≤ length l
    → locate (l ++ rest) c i line j
      ≡ record { line = line; line_start = j; line_stop = i + length l }
unfolding locate
locate-within [] [] zero i line j u e h =
    ap (λ (k : ℕ). record { line = line; line_start = j; line_stop = k }) (omega arith)
locate-within [] (d ∷ rest) zero i line j u e h = ground arith
locate-within [] rest (suc c) i line j u e h = absurd (omega arith)
locate-within (d ∷ l) rest zero i line j u e h = ground (arith, line_length-append l rest u.1 e)
locate-within (d ∷ l) rest (suc c) i line j u e h =
    ground (arith, locate-within l rest c (suc i) line j u.1 e (omega arith))

locate-same :
    (s : Bytes) {n n' i i' line line' j j' : ℕ}
    → n ≡ n'
    → i ≡ i'
    → line ≡ line'
    → j ≡ j'
    → locate s n i line j ≡ locate s n' i' line' j'
locate-same s a b c d = cc

locate-skip :
    (c : ℕ) (s : Bytes) (n i line j : ℕ)
    → c ≢ b'\n'
    → locate (c ∷ s) (suc n) i line j ≡ locate s n (suc i) line j
unfolding locate
locate-skip c s n i line j h = ground arith

locate-newline :
    (s : Bytes) (n i line j : ℕ)
    → locate (b'\n' ∷ s) (suc n) i line j ≡ locate s n (suc i) (suc line) (suc i)
unfolding locate
locate-newline s n i line j = refl

locate-line :
    (x s : Bytes) (n i line j : ℕ)
    → IsUnbroken x
    → locate (x ++ b'\n' ∷ s) (length x + suc n) i line j
      ≡ locate s n (suc (i + length x)) (suc line) (suc (i + length x))
locate-line [] s n i line j u =
    locate-same (b'\n' ∷ s) (omega arith) refl refl refl
    ∙ locate-newline s n i line j
    ∙ locate-same s refl (omega arith) refl (omega arith)
locate-line (d ∷ x) s n i line j u =
    locate-same (d ∷ (x ++ b'\n' ∷ s)) (omega arith) refl refl refl
    ∙ locate-skip d (x ++ b'\n' ∷ s) (length x + suc n) i line j u.0
    ∙ locate-line x s n (suc i) line j u.1
    ∙ locate-same s refl (omega arith) refl (omega arith)

locate-unlines :
    (ls : List Bytes) (s : Bytes) (n i line : ℕ)
    → AllUnbroken ls
    → locate (unlines ls ++ s) (length (unlines ls) + n) i line i
      ≡ locate s n (i + length (unlines ls)) (line + length ls) (i + length (unlines ls))
locate-unlines [] s n i line a =
    locate-same s (omega arith) (omega arith) (omega arith) (omega arith)
locate-unlines (x ∷ ls) s n i line a = rw (append_assoc x (b'\n' ∷ unlines ls) s) (
    locate-same (x ++ b'\n' ∷ (unlines ls ++ s))
      (omega (arith, length-append x (b'\n' ∷ unlines ls))) refl refl refl
    ∙ locate-line x (unlines ls ++ s) (length (unlines ls) + n) i line i a.0
    ∙ locate-unlines ls s n (suc (i + length x)) (suc line) a.1
    ∙ locate-same s refl (omega (arith, length-append x (b'\n' ∷ unlines ls))) (omega arith)
        (omega (arith, length-append x (b'\n' ∷ unlines ls))))

drop-length : (xs ys : Bytes) → drop (length xs) (xs ++ ys) ≡ ys
drop-length [] ys = refl
drop-length (x ∷ xs) ys = drop-length xs ys

take-drop_line :
    (m l rest : Bytes)
    → take (length m + length l - length m) (drop (length m) (m ++ (l ++ rest))) ≡ l
take-drop_line m l rest =
    let n : length m + length l - length m ≡ length l = omega arith in
    rw (n, drop-length m (l ++ rest)) (take-length l rest)

column : (m c : ℕ) → pos (m + c) -ℤ pos m ≡ pos c
column m c = ground arith

next_column : (c : ℕ) → pos c +ℤ pos 1 ≡ pos (c + 1)
next_column c = ground arith

located-line :
    (ls : List Bytes) (l rest : Bytes) (c : ℕ)
    → AllUnbroken ls
    → IsUnbroken l
    → IsLineEnd rest
    → c ≤ length l
    → located (unlines ls ++ (l ++ rest)) (pos (length (unlines ls) + c)) ≡ record {
      line = 1 + length ls;
      line_start = length (unlines ls);
      line_stop = length (unlines ls) + length l;
    }
unfolding located
located-line ls l rest c a u e h =
    locate-unlines ls (l ++ rest) c 0 1 a
    ∙ locate-same (l ++ rest) refl (omega arith) refl (omega arith)
    ∙ locate-within l rest c (length (unlines ls)) (1 + length ls) (length (unlines ls)) u e h

-- A place in a text: behind the lines `ls`, `c` bytes into the line `l`, which ends with the text or at
-- a newline. With an origin, `printErrorIndex` there writes the number of the line, the column, both
-- from 1 on, the message, the line, and a mark below the place.
pub print_error_index-line :
    (ls : List Bytes) (l rest : Bytes) (c : ℕ) (what : Bytes) (o : ℕ) (origin : Bytes)
    → AllUnbroken ls
    → IsUnbroken l
    → IsLineEnd rest
    → c ≤ length l
    → print_error_index
        (unlines ls ++ (l ++ rest))
        (pos (length (unlines ls) + c))
        what
        (o ∷ origin)
      ≡ (o ∷ origin)
        ++ (codes ": Error\nLine "
            ++ (to_string (1 + length ls)
                ++ (codes " col "
                    ++ (to_string (c + 1)
                        ++ (codes ": "
                            ++ (what
                                ++ (b'\n'
                                    ∷ (l
                                        ++ (b'\n'
                                            ∷ (repeat_string (codes " ") c
                                                ++ (b'^' ∷ b'\n' ∷ [])))))))))))
unfolding print_error_index with_origin marker
print_error_index-line ls l rest c what o origin a u e h =
    rw (located-line ls l rest c a u e h)
      (rw (column (length (unlines ls)) c) (rw (next_column c, take-drop_line (unlines ls) l rest)))
