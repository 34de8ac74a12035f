-- ===== src/Chunk/Print.antt =====
-- `repeatString`, `escape` and `chunkdat::strval` of src/filedat.cpp.
use ztd.Base.{ℕ, zero, suc, [], ◌∷◌, ◌++◌, ◌==◌, if◌then◌else◌}
use ztd.Base.Text.{Bytes, codes}
use ztd.Chunk.{
  Chunkdat, ChunkAbstract, Values, Items, chunkdat, null, chunk_string, chunk_map, chunk_list,
  value, no_values, item, no_items,
}

unfoldable pub repeat_string : Bytes → ℕ → Bytes
repeat_string str zero = []
repeat_string str (suc n) = str ++ repeat_string str n

-- A backslash before each `c`.
unfoldable pub escape : Bytes → ℕ → Bytes
escape [] c = []
escape (b ∷ str) c = (if b == c then b'\\' ∷ b ∷ [] else b ∷ []) ++ escape str c

-- `ret.erase(ret.end()-2)`: the byte before the last one.
unfoldable pub erase_before_last : Bytes → Bytes
erase_before_last [] = []
erase_before_last (a ∷ []) = a ∷ []
erase_before_last (a ∷ b ∷ []) = b ∷ []
erase_before_last (a ∷ b ∷ c ∷ s) = a ∷ erase_before_last (b ∷ c ∷ s)

-- `strval` over the structure. `shown` is a chunk inside a map or a list, where a string is quoted.
unfoldable mutual
  pub strval_of : ℕ → Bytes → ChunkAbstract → Bytes
  strval_of alignment aligner null = []
  strval_of alignment aligner (chunk_string v) = v
  strval_of alignment aligner (chunk_map m) = strval_map alignment aligner m
  strval_of alignment aligner (chunk_list l) = strval_list alignment aligner l

  pub shown : ℕ → Bytes → ChunkAbstract → Bytes
  shown alignment aligner null = []
  shown alignment aligner (chunk_string v) = b'"' ∷ (escape v b'"' ++ b'"' ∷ [])
  shown alignment aligner (chunk_map m) = strval_map alignment aligner m
  shown alignment aligner (chunk_list l) = strval_list alignment aligner l

  pub shown_chunk : ℕ → Bytes → Chunkdat → Bytes
  shown_chunk alignment aligner (chunkdat t c) = shown alignment aligner c

  pub strval_map : ℕ → Bytes → Values → Bytes
  strval_map alignment aligner no_values = codes "{}"
  strval_map alignment aligner (value k c m) =
      codes "{\n"
      ++ (repeat_string aligner (suc alignment)
          ++ (k
              ++ (codes " = "
                  ++ (shown_chunk (suc alignment) aligner c
                      ++ b'\n'
                        ∷ (strval_pairs alignment aligner m
                            ++ (repeat_string aligner alignment ++ b'}' ∷ []))))))

  -- One line for each pair.
  pub strval_pairs : ℕ → Bytes → Values → Bytes
  strval_pairs alignment aligner no_values = []
  strval_pairs alignment aligner (value k c m) =
      repeat_string aligner (suc alignment)
      ++ (k
          ++ (codes " = "
              ++ (shown_chunk (suc alignment) aligner c
                  ++ b'\n' ∷ strval_pairs alignment aligner m)))

  pub strval_list : ℕ → Bytes → Items → Bytes
  strval_list alignment aligner no_items = codes "[]"
  strval_list alignment aligner (item c l) =
      erase_before_last (
        codes "[\n"
        ++ (repeat_string aligner (suc alignment)
            ++ (shown_chunk (suc alignment) aligner c
                ++ (codes ",\n" ++ strval_items alignment aligner l))))
      ++ (repeat_string aligner alignment ++ b']' ∷ [])

  -- One line for each element, a comma behind it.
  pub strval_items : ℕ → Bytes → Items → Bytes
  strval_items alignment aligner no_items = []
  strval_items alignment aligner (item c l) =
      repeat_string aligner (suc alignment)
      ++ (shown_chunk (suc alignment) aligner c
          ++ (codes ",\n" ++ strval_items alignment aligner l))

-- `chunkdat::strval`.
unfoldable pub strval : ℕ → Bytes → Chunkdat → Bytes
unfolding strval_of
strval alignment aligner (chunkdat t c) = strval_of alignment aligner c

-- `strval()` with the default arguments.
abbrev pub default_strval : Chunkdat → Bytes
default_strval = strval 0 (b'\t' ∷ [])
