-- ===== src/RoundTrip/Texts.antt =====
-- `_getstrval` of src/filedat.cpp at a printed key and at a printed value.
use ztd.Base.{
  ℕ, zero, suc, ◌≤◌, ◌<◌, true, false, [], ◌∷◌, ◌++◌, ◌≡◌, refl, some, arith, ◌∙◌, ap, sym, length,
  length-append, append_assoc, append-nil,
}
use ztd.Base.Text.{codes, Bytes, head_byte}
use ztd.Chunk.{
  Chunkdat, Values, chunkdat, null, chunk_string, chunk_map, chunk_list, no_items, item,
}
use ztd.Chunk.Print.{escape, strval, strval_map, shown_chunk}
use ztd.Error.{ok}
use ztd.Parse.Scan.{is_read, is_quote, quoted, blanks, trim, enclosed, map_bracket, plain, closed}
use ztd.Parse.Scan.Quotes.{quoted-escape}
use ztd.Parse.Strval.{again, stopped, round, open_quote, branch, value_loop}
use ztd.RoundTrip.Nested.{tab, body, strval_map-body, enclosed-body}
use ztd.RoundTrip.{IsText, IsPrintable, ValuesIsPrintable, AllKeyBytes, is_key_byte}

-- The equals sign and the blank in front of it end a key.
key_stop : (str val s : Bytes) → round str b'=' 0 val (b' ' ∷ b'=' ∷ s) ≡ ok (stopped val s)
unfolding round open_quote branch blanks is_read
key_stop str val s = refl

key_step :
    (str val : Bytes) (c : ℕ) (s : Bytes)
    → is_key_byte c ≡ true
    → round str b'=' 0 val (c ∷ s) ≡ ok (again (val ++ c ∷ []) s)
unfolding round open_quote branch is_read is_quote
key_step str val c s h = ground arith

pub key_loop :
    (fuel : ℕ) (str val k s : Bytes)
    → length k < fuel
    → AllKeyBytes k
    → value_loop fuel str b'=' 0 val (k ++ b' ' ∷ b'=' ∷ s) ≡ ok (val ++ k, s)
unfolding value_loop
key_loop zero str val k s l h = absurd (omega arith)
key_loop (suc fuel) str val [] s l h =
    rw (key_stop str val s) (ap (λ v. ok (v, s)) (sym (append-nil val)))
key_loop (suc fuel) str val (c ∷ k) s l h = rw (key_step str val c (k ++ b' ' ∷ b'=' ∷ s) h.0) (
    key_loop fuel str (val ++ c ∷ []) k s (omega arith) h.1
    ∙ ap (λ v. ok (v, s)) (append_assoc val (c ∷ []) k))

-- The newline behind a value ends it.
newline_stop : (str val s : Bytes) → round str b';' b'\n' val (b'\n' ∷ s) ≡ ok (stopped val s)
unfolding round open_quote branch blanks is_read
newline_stop str val s = refl

round-quoted :
    (str v s : Bytes)
    → quoted b'"' false (escape v b'"' ++ b'"' ∷ b'\n' ∷ s) ≡ some (v, b'\n' ∷ s)
    → round str b';' b'\n' [] (b'"' ∷ (escape v b'"' ++ b'"' ∷ b'\n' ∷ s)) ≡ ok (stopped v s)
unfolding round open_quote branch blanks is_read
round-quoted str v s e = rw e refl

map_round_value :
    (str t s : Bytes)
    → enclosed map_bracket 0 plain (t ++ b'}' ∷ b'\n' ∷ s) ≡ closed (t ++ b'}' ∷ []) (b'\n' ∷ s)
    → round str b';' b'\n' [] (b'{' ∷ (t ++ b'}' ∷ b'\n' ∷ s))
      ≡ ok (again (b'{' ∷ (t ++ b'}' ∷ [])) (b'\n' ∷ s))
unfolding round open_quote branch
map_round_value str t s e = rw e refl

module _ (delim altdelim : ℕ) (str val v r : Bytes) (c : ℕ) (s : Bytes) where
  pub loop-stopped :
      (fuel : ℕ)
      → 0 < fuel
      → round str delim altdelim val (c ∷ s) ≡ ok (stopped v r)
      → value_loop fuel str delim altdelim val (c ∷ s) ≡ ok (v, r)
  unfolding value_loop
  loop-stopped zero l e = absurd (omega arith)
  loop-stopped (suc fuel) l e = rw e refl

  pub loop-again :
      (fuel : ℕ)
      → round str delim altdelim val (c ∷ s) ≡ ok (again v r)
      → value_loop (suc fuel) str delim altdelim val (c ∷ s)
        ≡ value_loop fuel str delim altdelim v r
  unfolding value_loop
  loop-again fuel e = rw e refl

-- The text `w`, read as a value up to a newline, gives the value `v`.
pub record IsValueText (w v : Bytes) : Type 0 where
  pub reads :
      (fuel : ℕ) (str s : Bytes)
      → length w ≤ fuel
      → value_loop (suc fuel) str b';' b'\n' [] (w ++ b'\n' ∷ s) ≡ ok (v, s)
  pub begins : is_read (head_byte w) ≡ true
  pub trimmed : trim v ≡ v
  pub fits : length v ≤ length w

length-escape : (v : Bytes) (q : ℕ) → length v ≤ length (escape v q)
unfolding escape
length-escape [] q = omega arith
length-escape (c ∷ v) q = ground (arith, length-escape v q)

string-IsValueText : (v : Bytes) → IsText v → IsValueText (b'"' ∷ (escape v b'"' ++ b'"' ∷ [])) v
string-IsValueText v h = record {
  reads = λ fuel str s l. rw (append_assoc (escape v b'"') (b'"' ∷ []) (b'\n' ∷ s)) (
      loop-stopped b';' b'\n' str [] v s b'"' (escape v b'"' ++ b'"' ∷ b'\n' ∷ s) (suc fuel)
        (omega arith) (round-quoted str v s (quoted-escape b'"' v (b'\n' ∷ s) (omega arith) h.2)));
  begins = unfold is_read in refl;
  trimmed = h.1;
  fits = omega (arith, length-append (escape v b'"') (b'"' ∷ []), length-escape v b'"');
}

pub trim-readable : (u : Bytes) (c : ℕ) → is_read c ≡ true → trim (u ++ c ∷ []) ≡ u ++ c ∷ []
unfolding trim
trim-readable [] c h = rw h refl
trim-readable (d ∷ []) c h = ground arith
trim-readable (d ∷ e ∷ u) c h = rw (trim-readable (e ∷ u) c h) refl

map-IsValueText :
    (a : ℕ) (m : Values)
    → ValuesIsPrintable a m
    → IsValueText (strval_map a tab m) (strval_map a tab m)
map-IsValueText a m p = rw (strval_map-body a m) (record {
  reads = λ fuel str s l.
      let w = b'{' ∷ (body a m ++ b'}' ∷ []) in
      rw (append_assoc (body a m) (b'}' ∷ []) (b'\n' ∷ s)) (
        loop-again b';' b'\n' str [] w (b'\n' ∷ s) b'{' (body a m ++ b'}' ∷ b'\n' ∷ s) fuel
          (map_round_value str (body a m) s (enclosed-body a m (b'\n' ∷ s) p))
        ∙ loop-stopped b';' b'\n' str w w s b'\n' s fuel
            (omega (arith, length-append (body a m) (b'}' ∷ []))) (newline_stop str w s));
  begins = unfold is_read in refl;
  trimmed = trim-readable (b'{' ∷ body a m) b'}' (unfold is_read in refl);
  fits = omega arith;
})

empty_list_round :
    (str s : Bytes)
    → round str b';' b'\n' [] (codes "[]" ++ b'\n' ∷ s) ≡ ok (again (codes "[]") (b'\n' ∷ s))
unfolding round open_quote branch enclosed
empty_list_round str s = refl

empty_list-IsValueText : IsValueText (codes "[]") (codes "[]")
empty_list-IsValueText = record {
  reads = λ fuel str s l.
      loop-again b';' b'\n' str [] (codes "[]") (b'\n' ∷ s) b'[' (b']' ∷ b'\n' ∷ s) fuel
        (empty_list_round str s)
      ∙ loop-stopped b';' b'\n' str (codes "[]") (codes "[]") s b'\n' s fuel (omega arith)
          (newline_stop str (codes "[]") s);
  begins = unfold is_read in refl;
  trimmed = unfold trim is_read in refl;
  fits = omega arith;
}

pub shown-IsValueText :
    (a : ℕ) (c : Chunkdat) → IsPrintable a c → IsValueText (shown_chunk a tab c) (strval a tab c)
unfolding shown_chunk strval
shown-IsValueText a (chunkdat t null) p = absurd p
shown-IsValueText a (chunkdat t (chunk_string v)) p = string-IsValueText v p
shown-IsValueText a (chunkdat t (chunk_map m)) p = map-IsValueText a m p.1
shown-IsValueText a (chunkdat t (chunk_list no_items)) p = empty_list-IsValueText
shown-IsValueText a (chunkdat t (chunk_list (item c l))) p = absurd p
