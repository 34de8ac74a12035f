-- ===== src/RoundTrip/Exported.antt =====
-- `export_file` and `import_file` of src/filedat.cpp: what one writes to a file, read by the other.
use ztd.Base.{
  ℕ, zero, suc, ◌+◌, ◌*◌, ◌<◌, Bool, true, false, List, [], ◌∷◌, ◌++◌, ◌≡◌, refl, arith, ◌==◌, ◌∙◌,
  ap, sym, length, append_assoc, append-nil, Option, some, none, ==_iff, Bool-cases, inl, inr,
}
use ztd.Base.Int.{pos}
use ztd.Base.Text.{Bytes, codes}
use ztd.Chunk.{Chunkdat, Trace, Values, chunkdat, chunk_map, value, no_values}
use ztd.Chunk.Print.{strval_map, strval_pairs, shown_chunk, repeat_string}
use ztd.Error.{FormatError, format_error, ok, thrown}
use ztd.Filedat.{
  Filedat, Imported, clear, file_strval, generate_chunk, comments_removed, make_chunk,
}
use ztd.Filedat.Files.{imported, import_file, import_text, export_file, named, read_all}
use ztd.Filedat.Files.Lines.{IsUnbroken, AllUnbroken, read_all-unlines}
use ztd.Parse.Comments.Lines.{unlines}
use ztd.Parse.Comments.{remove_comments}
use ztd.Parse.KeyValue.{is_empty}
use ztd.Parse.Scan.{skip, is_read, enclosed, map_bracket, plain, closed}
use ztd.Parse.Strval.{getstrval, finish}
use ztd.Parse.Set.{set, set_fuel, dispatch, content}
use ztd.RoundTrip.Stays.{AllKept}
use ztd.RoundTrip.Comments.{ValuesHasBareKeys, remove_comments_behind}
use ztd.RoundTrip.Nested.{tab, body, strval_map-body, enclosed-body}
use ztd.RoundTrip.Texts.{loop-again, loop-stopped}
use ztd.RoundTrip.Reads.{at, brace_round, word_stop}
use ztd.RoundTrip.{ValuesIsPrintable}
use ztd.RoundTrip.Files.{printed}

-- The lines of a text that ends with a newline.
lines_of :
    (u : Bytes)
    → (l : Bytes) × (ls : List Bytes) × IsUnbroken l
      × AllUnbroken ls
      × (u ++ b'\n' ∷ [] ≡ unlines (l ∷ ls))
lines_of [] = ([], [], tt, tt, refl)
lines_of (c ∷ u) =
    let (l, ls, i, a, e) = lines_of u in
    elim (Bool-cases (c == b'\n')) [
      | inl q ↦ (
        [],
        l ∷ ls,
        tt,
        (i, a),
        ap (λ x. x ∷ (u ++ b'\n' ∷ [])) ((==_iff c b'\n').0 q) ∙ ap (◌∷◌ b'\n') e,
      )
      | inr q ↦ (c ∷ l, ls, (ground arith, i), a, ap (◌∷◌ c) e)
    ]

pairs_end : (a : ℕ) (m : Values) → (x : Bytes) × (b'\n' ∷ strval_pairs a tab m ≡ x ++ b'\n' ∷ [])
unfolding strval_pairs
pairs_end a no_values = ([], refl)
pairs_end a (value k c m) =
    let (x, e) = pairs_end a m in
    let w = shown_chunk (suc a) tab c in
    (
      b'\n' ∷ (repeat_string tab (suc a) ++ (k ++ (codes " = " ++ (w ++ x)))),
      ap (λ z. b'\n' ∷ (repeat_string tab (suc a) ++ (k ++ (codes " = " ++ (w ++ z))))) e
          ∙ simp append_assoc,
    )

-- The last line of a printed map.
abbrev pub last_line : Values → Bytes
last_line no_values = codes "{}"
last_line (value k c m) = codes "}"

body_lines :
    (k : Bytes) (c : Chunkdat) (m : Values)
    → body 0 (value k c m) ≡ b'\n' ∷ strval_pairs 0 tab (value k c m)
unfolding repeat_string
body_lines k c m = ap (◌∷◌ b'\n') (append-nil (strval_pairs 0 tab (value k c m)))

read_all-strval_map :
    (m : Values)
    → read_all (strval_map 0 tab m)
      ≡ some (strval_map 0 tab m ++ b'\n' ∷ (last_line m ++ b'\n' ∷ []))
read_all-strval_map no_values =
    unfold strval_map in read_all-unlines [] (codes "{}") tt (omega arith, (omega arith, tt))
read_all-strval_map (value k c m) =
    let (x, e) = pairs_end 0 (value k c m) in
    let (l, ls, i, a, e') = lines_of (b'{' ∷ x) in
    let t : strval_map 0 tab (value k c m) ≡ unlines (l ∷ ls) ++ b'}' ∷ [] =
      strval_map-body 0 (value k c m)
      ∙ ap (λ z. b'{' ∷ (z ++ b'}' ∷ [])) (body_lines k c m ∙ e)
      ∙ ap (λ z. z ++ b'}' ∷ []) e' in
    rw t (
      read_all-unlines (l ∷ ls) (b'}' ∷ []) (i, a) (omega arith, tt)
      ∙ ap some (sym (append_assoc (unlines (l ∷ ls)) (b'}' ∷ []) _)))

text_behind : (m : Values) (r : Bytes) → strval_map 0 tab m ++ r ≡ b'{' ∷ (body 0 m ++ b'}' ∷ r)
text_behind m r =
    ap (λ w. w ++ r) (strval_map-body 0 m) ∙ ap (◌∷◌ b'{') (append_assoc (body 0 m) (b'}' ∷ []) r)

-- A chunk in braces with more text behind it, isolated as a value.
getstrval_behind :
    (s t r : Bytes)
    → enclosed map_bracket 0 plain s ≡ closed t (b'\n' ∷ r)
    → (i : ℕ) × (getstrval (b'{' ∷ s) 0 0
        ≡ ok (record {
          val = b'{' ∷ t;
          rest = b'\n' ∷ r;
          rest_start = i;
          start = 0;
          delim_found = true;
        }))
unfolding getstrval finish skip is_read
getstrval_behind s t r e =
    let str = b'{' ∷ s in
    rw
      (
        loop-again 0 0 str [] (b'{' ∷ t) (b'\n' ∷ r) b'{' s (length str)
            (brace_round str s t (b'\n' ∷ r) e),
        loop-stopped 0 0 str (b'{' ∷ t) (b'{' ∷ t) (b'\n' ∷ r) b'\n' r (length str) (omega arith)
            (word_stop str (b'{' ∷ t) b'\n' r refl),
      )
      (_, refl)

set_behind :
    (f : ℕ) (m : Values) (r : Bytes)
    → ValuesIsPrintable 0 m
    → is_empty (skip r).0 ≡ false
    → 0 < f
    → (e : FormatError) × (set_fuel f (at (strval_map 0 tab m ++ b'\n' ∷ r) (pos 0) none)
        ≡ thrown e)
      × (e.desc ≡ codes "Unexpected char")
unfolding set_fuel dispatch content skip is_read
set_behind zero m r p n l = absurd (omega arith)
set_behind (suc f) m r p n l =
    let (i, e) =
      getstrval_behind (body 0 m ++ b'}' ∷ b'\n' ∷ r) (body 0 m ++ b'}' ∷ []) r
        (enclosed-body 0 m (b'\n' ∷ r) p) in
    rw (text_behind m (b'\n' ∷ r), e, n) (_, refl, refl)

behind_throws :
    (m : Values) (r : Bytes)
    → ValuesIsPrintable 0 m
    → is_empty (skip r).0 ≡ false
    → (e : FormatError) × (set (at (strval_map 0 tab m ++ b'\n' ∷ r) (pos 0) none) ≡ thrown e)
      × (e.desc ≡ codes "Unexpected char")
unfolding set
behind_throws m r p n =
    set_behind (2 * length (strval_map 0 tab m ++ b'\n' ∷ r) + 1) m r p n (omega arith)

last_line_read : (m : Values) (s : Bytes) → is_empty (skip (last_line m ++ s)).0 ≡ false
unfolding skip is_read
last_line_read no_values s = refl
last_line_read (value k c m) s = refl

AllKept-last_line : (m : Values) → AllKept (last_line m)
AllKept-last_line no_values = (refl, (refl, tt))
AllKept-last_line (value k c m) = (refl, tt)

import_behind :
    (g : Filedat) (text : Bytes) (e : FormatError)
    → remove_comments text ≡ ok text
    → set (at text (pos 0) none) ≡ thrown e
    → let r = generate_chunk (record g { m_data = text }) in
      (r.filedat.data_chunk ≡ none)
      × (r.filedat.m_data ≡ text)
      × (r.outcome ≡ thrown (format_error e.desc g.file_path text e.index))
unfolding generate_chunk comments_removed make_chunk
import_behind g text e c s = rw (c, s) (refl, refl, refl)

exported :
    (f : Filedat) (path : Bytes) (writable : Bytes → Bool) (target text : Bytes)
    → export_file f path tab writable ≡ some (target, text)
    → text ≡ file_strval f tab
unfolding export_file
exported f path writable target text e = ground arith

import_file_read :
    (g : Filedat) (b : ℕ) (target : Bytes) (files : Bytes → Option Bytes) (text m_data : Bytes)
    → files (b ∷ target) ≡ some text
    → read_all text ≡ some m_data
    → import_file g (b ∷ target) files
      ≡ imported (generate_chunk (record (clear (named g (b ∷ target))) { m_data = m_data }))
unfolding import_file import_text
import_file_read g b target files text m_data r e = rw (import_file, r, import_text, e) refl

path-clear :
    (g : Filedat) (b : ℕ) (target : Bytes) → (clear (named g (b ∷ target))).file_path ≡ b ∷ target
unfolding clear
path-clear g b target = refl

-- Where `export_file` wrote a map to a file, with a tab, `import_file` of this file reads the text and
-- the last line of it once more, throws the `format_error` "Unexpected char" with the name of the file
-- and this data, and leaves an object without a chunk. The keys and the values of the map are as under
-- `RoundTrip.Chunks.set-default_strval`, no key has a backslash, a `#` or a `//` in it, and the name of
-- the file is not empty.
pub import_file-export_file :
    (f g : Filedat) (path : Bytes) (writable : Bytes → Bool) (files : Bytes → Option Bytes) (b : ℕ)
    (target text : Bytes) (t : Trace) (m : Values)
    → export_file f path tab writable ≡ some (b ∷ target, text)
    → files (b ∷ target) ≡ some text
    → f.data_chunk ≡ some (chunkdat t (chunk_map m))
    → ValuesIsPrintable 0 m
    → ValuesHasBareKeys m
    → (r : Imported) × (import_file g (b ∷ target) files ≡ imported r)
      × (r.filedat.data_chunk ≡ none)
      × (r.filedat.m_data ≡ text ++ b'\n' ∷ (last_line m ++ b'\n' ∷ []))
      × ((e : FormatError) × (r.outcome ≡ thrown e)
          × (e.desc ≡ codes "Unexpected char")
          × (e.filename ≡ b ∷ target)
          × (e.sdat ≡ r.filedat.m_data))
import_file-export_file f g path writable files b target text t m w r e p h =
    let fs = exported f path writable (b ∷ target) text w ∙ printed f t m e in
    let behind = last_line m ++ b'\n' ∷ [] in
    let (x, s, q) = behind_throws m behind p (last_line_read m (b'\n' ∷ [])) in
    let (c, d, o) =
      import_behind (clear (named g (b ∷ target))) (strval_map 0 tab m ++ b'\n' ∷ behind) x
        (remove_comments_behind 0 m (last_line m) p h (AllKept-last_line m)) s in
    (
      _,
      import_file_read g b target files text _ r (ap read_all fs ∙ read_all-strval_map m),
      c,
      d ∙ ap (λ w. w ++ b'\n' ∷ behind) (sym fs),
      (_, o, q, path-clear g b target, sym d),
    )
