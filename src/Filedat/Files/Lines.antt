-- ===== src/Filedat/Files/Lines.antt =====
-- The loop over the lines of a file in src/filedat.cpp, against the text of the file.
use ztd.Base.{
  ◌≤◌, zero, suc, ◌+◌, ℕ, true, false, some, List, [], ◌∷◌, ◌++◌, ◌≡◌, ◌≢◌, refl, arith, ◌∙◌,
  append_assoc, length, length-append,
}
use ztd.Base.Text.{Bytes}
use ztd.Filedat.Files.{Stream, opened_on, take_line, getline, read_loop, read_all}
use ztd.Parse.Comments.Lines.{unlines}

-- A line: bytes that are no newline.
abbrev pub IsUnbroken : Bytes → Type 0
IsUnbroken [] = Unit
IsUnbroken (c ∷ line) = (c ≢ b'\n') × IsUnbroken line

abbrev pub AllUnbroken : List Bytes → Type 0
AllUnbroken [] = Unit
AllUnbroken (line ∷ lines) = IsUnbroken line × AllUnbroken lines

-- What the loop makes of the bytes behind the last newline: two lines where there are any.
abbrev pub last_lines : Bytes → Bytes
last_lines [] = b'\n' ∷ []
last_lines (c ∷ l) = (c ∷ l) ++ b'\n' ∷ ((c ∷ l) ++ b'\n' ∷ [])

take_line-line : (l s : Bytes) → IsUnbroken l → take_line (l ++ b'\n' ∷ s) ≡ (l, s, false)
unfolding take_line
take_line-line [] s h = refl
take_line-line (c ∷ l) s h = rw (take_line-line l s h.1) (ground arith)

take_line-last : (l : Bytes) → IsUnbroken l → take_line l ≡ (l, [], true)
unfolding take_line
take_line-last [] h = refl
take_line-last (c ∷ l) h = rw (take_line-last l h.1) (ground arith)

read_loop-fail :
    (fuel : ℕ) (st : Stream) (line m_data : Bytes)
    → st.fail ≡ true
    → read_loop fuel st line m_data ≡ some m_data
unfolding read_loop
read_loop-fail zero st line m_data h = rw h
read_loop-fail (suc fuel) st line m_data h = rw h

read_loop-last :
    (fuel : ℕ) (line l m_data : Bytes)
    → IsUnbroken l
    → read_loop (suc (suc fuel)) (opened_on l) line m_data ≡ some (m_data ++ last_lines l)
unfolding read_loop getline
read_loop-last fuel line [] m_data h = refl
read_loop-last fuel line (c ∷ l) m_data h = rw (take_line-last (c ∷ l) h) (
    read_loop-fail fuel _ (c ∷ l) (m_data ++ (c ∷ (l ++ b'\n' ∷ [])) ++ (c ∷ (l ++ b'\n' ∷ [])))
      refl
    ∙ simp append_assoc)

read_loop-unlines :
    (ls : List Bytes) (fuel : ℕ) (line l m_data : Bytes)
    → length ls + 2 ≤ fuel
    → AllUnbroken ls
    → IsUnbroken l
    → read_loop fuel (opened_on (unlines ls ++ l)) line m_data
      ≡ some (m_data ++ (unlines ls ++ last_lines l))
unfolding read_loop getline
read_loop-unlines [] (suc (suc fuel)) line l m_data h a u = read_loop-last fuel line l m_data u
read_loop-unlines [] (suc zero) line l m_data h a u = absurd (omega arith)
read_loop-unlines [] zero line l m_data h a u = absurd (omega arith)
read_loop-unlines (x ∷ ls) zero line l m_data h a u = absurd (omega arith)
read_loop-unlines (x ∷ ls) (suc fuel) line l m_data h a u =
    rw (append_assoc x (b'\n' ∷ unlines ls) l) (
      rw (take_line-line x (unlines ls ++ l) a.0) (
        read_loop-unlines ls fuel x l (m_data ++ (x ++ b'\n' ∷ [])) (omega arith) a.1 u
        ∙ simp append_assoc))

length-unlines : (ls : List Bytes) → length ls ≤ length (unlines ls)
length-unlines [] = omega arith
length-unlines (x ∷ ls) = omega (arith, length-append x (b'\n' ∷ unlines ls), length-unlines ls)

-- On a file of lines, each ended by a newline, and bytes `l` behind the last newline, the loop reads
-- the lines and a newline where `l` is empty, and the lines and `l` twice, each time with a newline,
-- where it is not.
pub read_all-unlines :
    (ls : List Bytes) (l : Bytes)
    → AllUnbroken ls
    → IsUnbroken l
    → read_all (unlines ls ++ l) ≡ some (unlines ls ++ last_lines l)
unfolding read_all
read_all-unlines ls l a u =
    read_loop-unlines ls (length (unlines ls ++ l) + 2) [] l []
      (omega (arith, length-append (unlines ls) l, length-unlines ls)) a u
