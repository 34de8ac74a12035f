-- ===== src/Filedat.antt =====
-- `filedat` of include/filedat.hpp and src/filedat.cpp: the state, and the members that do no input or
-- output. The file and the standard input enter as the text that was read.
mod Examples
pub mod Import
pub mod Files
pub mod Members
use ztd.Base.{Option, none, some, []}
use ztd.Base.Int.{pos}
use ztd.Base.Text.{Bytes}
use ztd.Chunk.Print.{strval}
use ztd.Chunk.{Chunkdat, blank}
use ztd.Error.{FormatError, format_error, Result, ok, thrown, fault, out_of_fuel}
use ztd.Parse.Comments.{remove_comments}
use ztd.Parse.Set.{set}

-- `m_filePath`, `m_data` and `m_dataChunk`, which is null behind a failed import.
pub record Filedat : Type 0 where
  pub file_path : Bytes
  pub m_data : Bytes
  pub data_chunk : Option Chunkdat

-- The object behind a call, and what the call returned or threw.
pub record Imported : Type 0 where
  pub filedat : Filedat
  pub outcome : Result (Unit {0})

-- `filedat(std::string const& in)`.
abbrev pub opened : Bytes → Filedat
opened path = record { file_path = path; m_data = []; data_chunk = some blank }

-- `clear`: a null chunk stays null.
unfoldable pub clear : Filedat → Filedat
clear f = record f {
  m_data = [];
  data_chunk = elim f.data_chunk [ none ↦ none | some c ↦ some blank ];
}

-- The `catch` clause of `generateChunk`, where `text` is `m_data`.
abbrev pub import_failed : Filedat → Bytes → FormatError → Imported
import_failed f text e = record {
  filedat = record f { m_data = text; data_chunk = none };
  outcome = thrown (format_error e.desc f.file_path text e.index);
}

-- Undefined behaviour leaves no state to tell of.
abbrev pub undefined : Filedat → Imported
undefined f = record { filedat = f; outcome = fault }

abbrev pub unfinished : Filedat → Imported
unfinished f = record { filedat = f; outcome = out_of_fuel }

-- What `set` on `m_data` makes of the object.
abbrev pub chunk_made : Filedat → Bytes → Result Chunkdat → Imported
chunk_made f text (ok c) = record {
  filedat = record f { m_data = text; data_chunk = some c };
  outcome = ok tt;
}
chunk_made f text (thrown e) = import_failed f text e
chunk_made f text fault = undefined f
chunk_made f text out_of_fuel = unfinished f

-- The second half of `generateChunk`, with `m_data` rid of its comments.
unfoldable pub make_chunk : Filedat → Bytes → Imported
make_chunk f text = chunk_made f text (set (record { text = text; offset = pos 0; parent = none }))

-- What the removal of the comments makes of the object.
unfoldable pub comments_removed : Filedat → Result Bytes → Imported
unfolding make_chunk
comments_removed f (ok text) = make_chunk f text
comments_removed f (thrown e) = import_failed f f.m_data e
comments_removed f fault = undefined f
comments_removed f out_of_fuel = unfinished f

-- `generateChunk`.
unfoldable pub generate_chunk : Filedat → Imported
unfolding comments_removed
generate_chunk f = comments_removed f (remove_comments f.m_data)

-- `import_string`.
unfoldable pub import_string : Filedat → Bytes → Imported
unfolding generate_chunk
import_string f text = generate_chunk (record (clear f) { m_data = text; file_path = [] })

-- `strval`.
unfoldable pub file_strval : Filedat → Bytes → Bytes
unfolding strval
file_strval f aligner = elim f.data_chunk [ none ↦ [] | some c ↦ strval 0 aligner c ]
