-- ===== src/RoundTrip/Nested.antt =====
-- The loop over a nested chunk of `_getstrval`, in src/filedat.cpp, at the text of a printed map.
use ztd.Base.{
  ℕ, zero, suc, ◌+◌, ◌-◌, ◌%◌, ◌<◌, ◌≤◌, [], ◌∷◌, ◌++◌, ◌≡◌, refl, arith, ◌∙◌, ap, sym,
  append_assoc,
}
use ztd.Base.Text.{Bytes, codes}
use ztd.Chunk.{
  Chunkdat, ChunkAbstract, Values, chunkdat, null, chunk_string, chunk_map, chunk_list, value,
  no_values, no_items, item,
}
use ztd.Chunk.Print.{repeat_string, shown, shown_chunk, strval_map, strval_pairs}
use ztd.Parse.Scan.{
  is_quote, plain, keep, closed, enclosed, map_bracket, count, next_mode, counter_mod,
}
use ztd.RoundTrip.Crossing.{
  keep_all, keep_all-append, keep_all-closed, Crosses, Crosses-append, Crosses-other,
  Crosses-quoted,
}
use ztd.RoundTrip.{IsPrintable, ContentIsPrintable, ValuesIsPrintable, AllKeyBytes}

abbrev pub tab : Bytes
tab = b'\t' ∷ []

Crosses-all : (n : ℕ) (w : Bytes) → AllKeyBytes w → Crosses map_bracket n w
Crosses-all n [] h = λ s. refl
Crosses-all n (c ∷ w) h = Crosses-other map_bracket n c w (ground arith) (Crosses-all n w h.1)

Crosses-tabs : (n a : ℕ) → Crosses map_bracket n (repeat_string tab a)
unfolding repeat_string
Crosses-tabs n zero s = refl
Crosses-tabs n (suc a) s =
    Crosses-other map_bracket n b'\t' (repeat_string tab a) (unfold is_quote in refl)
      (Crosses-tabs n a) s

opens :
    (n : ℕ) (s : Bytes)
    → suc n < counter_mod
    → enclosed map_bracket n plain (b'{' ∷ s) ≡ keep b'{' (enclosed map_bracket (suc n) plain s)
unfolding enclosed count next_mode
opens n s h = let e : (n + 1) % counter_mod ≡ suc n = omega arith in rw e (ground arith)

closes :
    (n : ℕ) (s : Bytes)
    → suc n < counter_mod
    → enclosed map_bracket (suc n) plain (b'}' ∷ s) ≡ keep b'}' (enclosed map_bracket n plain s)
unfolding enclosed count next_mode
closes n s h =
    let e : (suc n + counter_mod - 1) % counter_mod ≡ n = omega arith in rw e (ground arith)

-- The text between the braces of a printed map.
abbrev pub body : ℕ → Values → Bytes
body a no_values = []
body a (value k c m) = b'\n' ∷ (strval_pairs a tab (value k c m) ++ repeat_string tab a)

pub strval_map-body : (a : ℕ) (m : Values) → strval_map a tab m ≡ b'{' ∷ (body a m ++ b'}' ∷ [])
unfolding strval_map
strval_map-body a no_values = refl
strval_map-body a (value k c m) = simp append_assoc

Crosses-equals : (n : ℕ) → Crosses map_bracket n (codes " = ")
unfolding is_quote
Crosses-equals n = Crosses-other map_bracket n b' ' (codes "= ") refl (
    Crosses-other map_bracket n b'=' (codes " ") refl
      (Crosses-other map_bracket n b' ' [] refl λ s. refl))

Crosses-map :
    (n a : ℕ) (m : Values)
    → suc n < counter_mod
    → Crosses map_bracket (suc n) (body a m)
    → Crosses map_bracket n (strval_map a tab m)
Crosses-map n a m l cb s =
    rw (strval_map-body a m, append_assoc (body a m) (b'}' ∷ []) s)
      (opens n (body a m ++ b'}' ∷ s) l
        ∙ ap (keep b'{') (
            cb (b'}' ∷ s)
            ∙ (ap (keep_all (body a m)) (closes n s l)
                ∙ sym (keep_all-append (body a m) (b'}' ∷ []) _))))

Crosses-line : (n : ℕ) (w : Bytes) → Crosses map_bracket n w → Crosses map_bracket n (b'\n' ∷ w)
unfolding is_quote
Crosses-line n w = Crosses-other map_bracket n b'\n' w refl

Crosses-body :
    (n a : ℕ) (m : Values)
    → Crosses map_bracket n (strval_pairs a tab m)
    → Crosses map_bracket n (body a m)
Crosses-body n a no_values cp = λ s. refl
Crosses-body n a (value k c m) cp =
    Crosses-line n (strval_pairs a tab (value k c m) ++ repeat_string tab a) (
      Crosses-append map_bracket n (strval_pairs a tab (value k c m)) (repeat_string tab a) cp
        (Crosses-tabs n a))

Crosses-empty_list : (n : ℕ) → Crosses map_bracket n (codes "[]")
unfolding is_quote
Crosses-empty_list n =
    Crosses-other map_bracket n b'[' (codes "]") refl
      (Crosses-other map_bracket n b']' [] refl λ s. refl)

mutual
  unfolding shown strval_pairs

  Crosses-shown :
      (n a : ℕ) (c : Chunkdat)
      → IsPrintable a c
      → n < a
      → Crosses map_bracket n (shown_chunk a tab c)
  Crosses-shown n a (chunkdat t c) p l = Crosses-content n a c p l

  Crosses-content :
      (n a : ℕ) (c : ChunkAbstract)
      → ContentIsPrintable a c
      → n < a
      → Crosses map_bracket n (shown a tab c)
  Crosses-content n a null p l = absurd p
  Crosses-content n a (chunk_string v) p l = Crosses-quoted map_bracket n v refl p.2
  Crosses-content n a (chunk_map m) p l =
      Crosses-map n a m (omega arith)
        (Crosses-body (suc n) a m (Crosses-pairs (suc n) a m p.1 (omega arith)))
  Crosses-content n a (chunk_list no_items) p l = Crosses-empty_list n
  Crosses-content n a (chunk_list (item c i)) p l = absurd p

  Crosses-pairs :
      (n a : ℕ) (m : Values)
      → ValuesIsPrintable a m
      → n ≤ a
      → Crosses map_bracket n (strval_pairs a tab m)
  Crosses-pairs n a no_values p l = λ s. refl
  Crosses-pairs n a (value k c m) p l =
      let line = b'\n' ∷ strval_pairs a tab m in
      let w = shown_chunk (suc a) tab c in
      Crosses-append map_bracket n (repeat_string tab (suc a)) (k ++ (codes " = " ++ (w ++ line)))
        (Crosses-tabs n (suc a))
        (Crosses-append map_bracket n k (codes " = " ++ (w ++ line)) (Crosses-all n k p.0.0) (
          Crosses-append map_bracket n (codes " = ") (w ++ line) (Crosses-equals n) (
            Crosses-append map_bracket n w line (Crosses-shown n (suc a) c p.1 (omega arith))
              (Crosses-line n (strval_pairs a tab m) (Crosses-pairs n a m p.2 l)))))

stops : (s : Bytes) → enclosed map_bracket 0 plain (b'}' ∷ s) ≡ closed (b'}' ∷ []) s
unfolding enclosed
stops s = refl

-- The loop over a nested chunk, behind the opening brace of a printed map: it stops at the brace that
-- closes this map.
pub enclosed-body :
    (a : ℕ) (m : Values) (s : Bytes)
    → ValuesIsPrintable a m
    → enclosed map_bracket 0 plain (body a m ++ b'}' ∷ s) ≡ closed (body a m ++ b'}' ∷ []) s
enclosed-body a m s p =
    Crosses-body 0 a m (Crosses-pairs 0 a m p (omega arith)) (b'}' ∷ s)
    ∙ (ap (keep_all (body a m)) (stops s) ∙ keep_all-closed (body a m) (b'}' ∷ []) s)
