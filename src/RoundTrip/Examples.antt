-- ===== src/RoundTrip/Examples.antt =====
-- A printed chunk, and the theorem about printing and reading at this chunk.
use ztd.Base.{[], ◌∷◌, ◌++◌, ◌≡◌, refl, arith, Option, none, some, Bool, true, if◌then◌else◌}
use ztd.Base.Int.{pos}
use ztd.Base.Text.{Bytes, codes, equal}
use ztd.Chunk.{
  chunk_list, no_items, item, Chunkdat, Values, chunkdat, chunk_string, chunk_map, value, no_values,
  no_trace,
}
use ztd.Chunk.Ordered.{ValuesIsOrdered}
use ztd.Chunk.Print.{default_strval, strval, escape, repeat_string}
use ztd.Error.{FormatError, Yields, ok, thrown, fault}
use ztd.Filedat.{Filedat, Imported, import_string, file_strval}
use ztd.Filedat.Files.{imported, import_file, export_file}
use ztd.Parse.Scan.{is_read, is_quote, skip, trim}
use ztd.Parse.Set.{set}
use ztd.RoundTrip.Chunks.{set-default_strval}
use ztd.RoundTrip.Comments.{ValuesHasBareKeys}
use ztd.RoundTrip.Files.{import_string-file_strval}
use ztd.RoundTrip.Exported.{last_line, import_file-export_file}
use ztd.RoundTrip.Nested.{tab}
use ztd.RoundTrip.Refused.{set-strval_list}
use ztd.RoundTrip.Reads.{at}
use ztd.RoundTrip.{bare, ValuesIsPrintable}

abbrev text : Bytes → Chunkdat
text v = chunkdat no_trace (chunk_string v)

abbrev inner : Values
inner =
    value (codes "on") (text (codes "say \"x\""))
      (value (codes "z") (chunkdat no_trace (chunk_list no_items)) no_values)

abbrev outer : Values
outer = value (codes "a") (text (codes " b #c")) (
    value (codes "b") (chunkdat no_trace (chunk_map inner)) (value (codes "c") (text []) no_values))

abbrev config : Chunkdat
config = chunkdat no_trace (chunk_map outer)

abbrev config_text : Bytes
config_text =
    codes "{\n\ta = \" b #c\"\n\tb = {\n\t\ton = \"say \\\"x\\\"\"\n\t\tz = []\n\t}\n\tc = \"\"\n}"

default_strval-config : default_strval config ≡ config_text
unfolding strval repeat_string escape
default_strval-config = refl

outer-ValuesIsPrintable : ValuesIsPrintable 0 outer
unfolding is_read is_quote skip trim
outer-ValuesIsPrintable = (
  ((refl, tt), (λ e. cc), omega arith),
  (refl, refl, refl),
  (
    ((refl, tt), (λ e. cc), omega arith),
    (
      omega arith,
      (
        ((refl, (refl, tt)), (λ e. cc), omega arith),
        (refl, refl, refl),
        (((refl, tt), (λ e. cc), omega arith), tt, tt),
      ),
    ),
    (((refl, tt), (λ e. cc), omega arith), (refl, refl, refl), tt),
  ),
)

outer-ValuesIsOrdered : ValuesIsOrdered outer
outer-ValuesIsOrdered =
    ((refl, (refl, tt)), tt, ((refl, tt), ((refl, tt), tt, (tt, tt, tt)), (tt, tt, tt)))

outer-ValuesHasBareKeys : ValuesHasBareKeys outer
outer-ValuesHasBareKeys = (
  ((refl, tt), refl),
  tt,
  (
    ((refl, tt), refl),
    (((refl, (refl, tt)), refl), tt, (((refl, tt), refl), tt, tt)),
    (((refl, tt), refl), tt, tt),
  ),
)

set-default_strval_example :
    Yields (λ d. bare d ≡ bare config) (set (at (default_strval config) (pos 0) none))
set-default_strval_example =
    set-default_strval config (pos 0) none (omega arith, outer-ValuesIsPrintable)
      outer-ValuesIsOrdered

abbrev printing : Filedat
printing = record { file_path = []; m_data = []; data_chunk = some config }

abbrev reading : Filedat
reading = record { file_path = codes "old"; m_data = codes "x"; data_chunk = none }

import_string-file_strval_example :
    let r = import_string reading (file_strval printing tab) in
    (r.outcome ≡ ok tt)
    × (r.filedat.m_data ≡ file_strval printing tab)
    × ((d : Chunkdat) × (r.filedat.data_chunk ≡ some d) × (bare d ≡ bare config))
import_string-file_strval_example =
    import_string-file_strval printing reading no_trace outer refl outer-ValuesIsPrintable
      outer-ValuesHasBareKeys outer-ValuesIsOrdered

-- A directory with this one file.
abbrev files : Bytes → Option Bytes
files path = if equal path (codes "out") then some config_text else none

abbrev writable : Bytes → Bool
writable path = true

written : export_file printing (codes "out") tab writable ≡ some (codes "out", config_text)
unfolding export_file file_strval strval repeat_string escape
written = refl

import_file-export_file_example :
    (r : Imported) × (import_file reading (codes "out") files ≡ imported r)
    × (r.filedat.data_chunk ≡ none)
    × (r.filedat.m_data ≡ config_text ++ b'\n' ∷ (last_line outer ++ b'\n' ∷ []))
    × ((e : FormatError) × (r.outcome ≡ thrown e)
        × (e.desc ≡ codes "Unexpected char")
        × (e.filename ≡ codes "out")
        × (e.sdat ≡ r.filedat.m_data))
import_file-export_file_example =
    import_file-export_file printing reading (codes "out") writable files b'o' (codes "ut")
      config_text no_trace outer written refl refl outer-ValuesIsPrintable outer-ValuesHasBareKeys

set-strval_list_example :
    set (
      at
        (default_strval (
          chunkdat no_trace
            (chunk_list (item (text (codes "x")) (item (text (codes "y z")) no_items)))))
        (pos 0)
        none)
    ≡ fault
set-strval_list_example =
    set-strval_list no_trace no_trace (codes "x") (item (text (codes "y z")) no_items) (pos 0) none
      (unfold skip is_read is_quote trim in (refl, refl, refl))
      (unfold skip is_read is_quote trim in ((refl, refl, refl), tt))
