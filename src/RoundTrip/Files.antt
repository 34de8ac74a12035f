-- ===== src/RoundTrip/Files.antt =====
-- `strval` and `import_string` of `filedat`, in src/filedat.cpp: what one prints is imported by the other.
use ztd.Base.{◌≡◌, refl, arith, some, none}
use ztd.Base.Int.{pos}
use ztd.Base.Text.{Bytes}
use ztd.Chunk.{Chunkdat, Trace, Values, chunkdat, chunk_map}
use ztd.Chunk.Ordered.{ValuesIsOrdered}
use ztd.Chunk.Print.{strval, strval_map}
use ztd.Error.{ok, Yields-value}
use ztd.Filedat.{Filedat, import_string, file_strval, generate_chunk, comments_removed, make_chunk}
use ztd.Parse.Comments.{remove_comments}
use ztd.Parse.Set.{set}
use ztd.RoundTrip.Chunks.{set-default_strval}
use ztd.RoundTrip.Comments.{ValuesHasBareKeys, remove_comments-strval_map}
use ztd.RoundTrip.Nested.{tab}
use ztd.RoundTrip.Reads.{at}
use ztd.RoundTrip.{ValuesIsPrintable, bare}

pub printed :
    (f : Filedat) (t : Trace) (m : Values)
    → f.data_chunk ≡ some (chunkdat t (chunk_map m))
    → file_strval f tab ≡ strval_map 0 tab m
unfolding file_strval strval
printed f t m e = rw e refl

import_plain :
    (g : Filedat) (text : Bytes) (c d : Chunkdat)
    → remove_comments text ≡ ok text
    → set (at text (pos 0) none) ≡ ok d
    → bare d ≡ bare c
    → let r = import_string g text in
      (r.outcome ≡ ok tt)
      × (r.filedat.m_data ≡ text)
      × ((d' : Chunkdat) × (r.filedat.data_chunk ≡ some d') × (bare d' ≡ bare c))
unfolding import_string generate_chunk comments_removed make_chunk
import_plain g text c d e s b = rw (e, s) (refl, refl, (d, refl, b))

-- Where the chunk of an object is a map, `import_string` on the text that `strval` gives of it with a
-- tab returns: the text has no comment to remove, and the chunk it makes is the map but for the
-- debugging fields. The map is one that `set` reads back from its text, as under
-- `RoundTrip.Chunks.set-default_strval`, and no key has a backslash, a `#` or a `//` in it.
pub import_string-file_strval :
    (f g : Filedat) (t : Trace) (m : Values)
    → f.data_chunk ≡ some (chunkdat t (chunk_map m))
    → ValuesIsPrintable 0 m
    → ValuesHasBareKeys m
    → ValuesIsOrdered m
    → let r = import_string g (file_strval f tab) in
      (r.outcome ≡ ok tt)
      × (r.filedat.m_data ≡ file_strval f tab)
      × ((d : Chunkdat) × (r.filedat.data_chunk ≡ some d)
          × (bare d ≡ bare (chunkdat t (chunk_map m))))
import_string-file_strval f g t m e p h o =
    let c = chunkdat t (chunk_map m) in
    let (d, s, b) = Yields-value (set-default_strval c (pos 0) none (omega arith, p) o) in
    rw (printed f t m e) (
      import_plain g (strval_map 0 tab m) c d (remove_comments-strval_map 0 m p h)
        (unfold strval in s) b)
