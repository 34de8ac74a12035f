-- ===== src/Filedat/Files.antt =====
-- The members of `filedat` in src/filedat.cpp that read and write files: `readTest`, `import_file`,
-- `import_stdin` and `export_file`. What a file holds, and whether it opens, is an argument.
pub mod Lines
use ztd.Base.{
  Option, none, some, [], ◌∷◌, ◌++◌, zero, suc, ◌+◌, ℕ, Bool, true, false, ◌||◌, ◌&&◌, length, ◌==◌,
  ◌≡◌, refl, if◌then◌else◌,
}
use ztd.Base.Text.{Bytes, codes}
use ztd.Filedat.{Filedat, Imported, clear, generate_chunk, file_strval}

-- A std::istream: what is left to read, `eofbit` and `failbit`.
pub record Stream : Type 0 where
  pub left : Bytes
  pub eof : Bool
  pub fail : Bool

abbrev pub opened_on : Bytes → Stream
opened_on text = record { left = text; eof = false; fail = false }

-- The bytes up to a newline, those behind it, and whether the end was met before it.
unfoldable pub take_line : Bytes → Bytes × Bytes × Bool
take_line [] = ([], [], true)
take_line (c ∷ s) =
    let (line, left, ended) = take_line s in
    if c == b'\n' then ([], s, false) else (c ∷ line, left, ended)

abbrev pub is_nil : Bytes → Bool
is_nil [] = true
is_nil (c ∷ s) = false

-- `std::getline(st, line)`: on a stream that is not good it fails and leaves `line` as it was. It
-- fails as well where it meets the end before it has read a byte.
unfoldable pub getline : Stream → Bytes → Stream × Bytes
unfolding take_line
getline st line =
    if st.eof || st.fail
    then (record st { fail = true }, line)
    else (let (l, left, ended) = take_line st.left in
        (record { left = left; eof = ended; fail = ended && is_nil l }, l))

-- `while(st) { getline(st, line); m_data += (line + '\n'); }`, on fuel.
unfoldable pub read_loop : ℕ → Stream → Bytes → Bytes → Option Bytes
read_loop zero st line m_data = if st.fail then some m_data else none
read_loop (suc fuel) st line m_data =
    let (st', line') = getline st line in
    let later = read_loop fuel st' line' (m_data ++ (line' ++ b'\n' ∷ [])) in
    if st.fail then some m_data else later

-- The loop reads a newline, or the end, or fails, in each round.
unfoldable pub read_all : Bytes → Option Bytes
unfolding read_loop
read_all text = read_loop (length text + 2) (opened_on text) [] []

-- What a call that reads a file returns or throws: `std::runtime_error` where it does not open.
pub data Reading : Type 0 where
  imported : Imported → Reading
  cannot_read : Filedat → Bytes → Reading
  unfinished_reading : Reading

-- `clear`, the loop over the lines, and `generateChunk`.
unfoldable pub import_text : Filedat → Bytes → Reading
unfolding clear generate_chunk read_all
import_text f text = elim (read_all text) [
  | some m_data ↦ imported (generate_chunk (record (clear f) { m_data = m_data }))
  | none ↦ unfinished_reading
]

abbrev pub named : Filedat → Bytes → Filedat
named f [] = f
named f (c ∷ path) = record f { file_path = c ∷ path }

-- `import_file(path)`, where `file` is what the file at `m_filePath` holds, if it opens.
unfoldable pub import_file : Filedat → Bytes → (Bytes → Option Bytes) → Reading
unfolding import_text
import_file f path files =
    let f' = named f path in
    elim (files f'.file_path) [
      | none ↦ cannot_read f' (codes "Cannot read file '" ++ (f'.file_path ++ b'\'' ∷ []))
      | some text ↦ import_text f' text
    ]

-- `import_stdin`, where `text` is what the standard input holds.
unfoldable pub import_stdin : Filedat → Bytes → Reading
unfolding import_text
import_stdin f text = import_text (record f { file_path = codes "stdin" }) text

-- `readTest`.
unfoldable pub read_test : Filedat → (Bytes → Option Bytes) → Bool
read_test f files = elim (files f.file_path) [ none ↦ false | some text ↦ true ]

-- `export_file(path, aligner)`: the file written, where it opens for writing.
unfoldable pub export_file : Filedat → Bytes → Bytes → (Bytes → Bool) → Option (Bytes × Bytes)
unfolding file_strval
export_file f path aligner writable =
    let target = (named f path).file_path in
    if writable target then some (target, file_strval f aligner) else none
