-- ===== src/Filedat/Examples.antt =====
-- A text whose import throws.
use ztd.Base.{List, [], ◌∷◌, ◌++◌, ◌≡◌, arith, some}
use ztd.Base.Text.{Bytes, codes}
use ztd.Chunk.{blank}
use ztd.Filedat.Files.Lines.{last_lines, read_all-unlines}
use ztd.Filedat.Files.{read_all}
use ztd.Parse.Comments.Lines.{unlines}
use ztd.Filedat.Import.{Fits, generate_chunk-Fits}
use ztd.Filedat.{Filedat, generate_chunk}

abbrev unclosed : Filedat
unclosed = record {
  file_path = codes "a.zfd";
  m_data = codes "{ a = \"b }";
  data_chunk = some blank;
}

generate_chunk-Fits_example :
    let i = generate_chunk unclosed in Fits (codes "a.zfd") i.filedat i.outcome
generate_chunk-Fits_example = generate_chunk-Fits unclosed

abbrev file_lines : List Bytes
file_lines = codes "{" ∷ codes "a = b" ∷ []

read_all-unlines_example :
    read_all (unlines file_lines ++ codes "}") ≡ some (unlines file_lines ++ last_lines (codes "}"))
read_all-unlines_example = read_all-unlines file_lines (codes "}") (omega arith) (omega arith)
