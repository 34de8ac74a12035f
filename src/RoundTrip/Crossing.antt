-- ===== src/RoundTrip/Crossing.antt =====
-- The loops over a nested chunk of `_getstrval`, in src/filedat.cpp, at a text that they pass over.
use ztd.Base.{
  ℕ, suc, Bool, true, false, not, ◌&&◌, ◌||◌, [], ◌∷◌, ◌++◌, ◌≡◌, refl, arith, ◌==◌, ◌∙◌, ap, sym,
  length, append_assoc,
}
use ztd.Base.Text.{Bytes, head_byte}
use ztd.Chunk.Print.{escape}
use ztd.Parse.Scan.{
  is_quote, plain, in_quote, Enclosed, keep, closed, Bracket, enclosed, count, next_mode,
}
use ztd.Parse.Scan.Quotes.{ends_with, head-escape}

-- All bytes of a text kept.
abbrev pub keep_all : Bytes → Enclosed → Enclosed
keep_all [] e = e
keep_all (c ∷ w) e = keep c (keep_all w e)

pub keep_all-append : (w u : Bytes) (e : Enclosed) → keep_all (w ++ u) e ≡ keep_all w (keep_all u e)
keep_all-append [] u e = refl
keep_all-append (c ∷ w) u e = ap (keep c) (keep_all-append w u e)

pub keep_all-closed :
    (w taken rest : Bytes) → keep_all w (closed taken rest) ≡ closed (w ++ taken) rest
keep_all-closed [] taken rest = refl
keep_all-closed (c ∷ w) taken rest = ap (keep c) (keep_all-closed w taken rest)

escape_cons :
    (c : ℕ) (v : Bytes) (e : Enclosed)
    → keep_all (escape (c ∷ []) b'"') (keep_all (escape v b'"' ++ b'"' ∷ []) e)
      ≡ keep_all (escape (c ∷ v) b'"' ++ b'"' ∷ []) e
unfolding escape
escape_cons c v e = ground arith

-- The loop passes over the text at the counter `n`, and stands at the same counter behind it.
abbrev pub Crosses : Bracket → ℕ → Bytes → Type 0
Crosses b n w = (s : Bytes) → enclosed b n plain (w ++ s) ≡ keep_all w (enclosed b n plain s)

module _ (b : Bracket) where
  pub Crosses-append : (n : ℕ) (w u : Bytes) → Crosses b n w → Crosses b n u → Crosses b n (w ++ u)
  Crosses-append n w u cw cu s =
      ap (enclosed b n plain) (append_assoc w u s)
      ∙ (cw (u ++ s) ∙ (ap (keep_all w) (cu s) ∙ sym (keep_all-append w u _)))

  -- A byte that is neither a quote nor a bracket of the loop.
  abbrev pub is_other : ℕ → Bool
  is_other c = not (is_quote c || (c == b.down || (c == b.up || c == b.stop)))

  pub Crosses-other :
      (n c : ℕ) (w : Bytes) → is_other c ≡ true → Crosses b n w → Crosses b n (c ∷ w)
  unfolding enclosed count next_mode is_quote
  Crosses-other n c w h cw s = ground (arith, cw s)

  quote_step :
      (n c left : ℕ) (v s : Bytes)
      → (c == b'\\' && head_byte (escape v b'"' ++ b'"' ∷ s) == b'"') ≡ false
      → enclosed b n (in_quote b'"' false left) (escape (c ∷ v) b'"' ++ b'"' ∷ s)
        ≡ keep_all
            (escape (c ∷ []) b'"')
            (enclosed b n (in_quote b'"' false left) (escape v b'"' ++ b'"' ∷ s))
  unfolding enclosed escape
  quote_step n c left v s h = ground arith

  quoted_crosses :
      (n left : ℕ) (v s : Bytes)
      → ends_with b'\\' v ≡ false
      → enclosed b n (in_quote b'"' false left) (escape v b'"' ++ b'"' ∷ s)
        ≡ keep_all (escape v b'"' ++ b'"' ∷ []) (enclosed b n plain s)
  quoted_crosses n left [] s h = unfold escape enclosed in refl
  quoted_crosses n left (c ∷ []) s h =
      quote_step n c left [] s (unfold escape in ground arith)
      ∙ (ap (keep_all (escape (c ∷ []) b'"')) (quoted_crosses n left [] s refl)
          ∙ escape_cons c [] _)
  quoted_crosses n left (c ∷ d ∷ v) s h =
      quote_step n c left (d ∷ v) s (ground (arith, head-escape b'"' d v (b'"' ∷ s) (omega arith)))
      ∙ (ap (keep_all (escape (c ∷ []) b'"')) (quoted_crosses n left (d ∷ v) s h)
          ∙ escape_cons c (d ∷ v) _)

  quote_opens :
      (n : ℕ) (s : Bytes)
      → (b'"' == b.down || (b'"' == b.up || b'"' == b.stop)) ≡ false
      → enclosed b n plain (b'"' ∷ s)
        ≡ keep b'"' (enclosed b n (in_quote b'"' false (suc (length s))) s)
  unfolding enclosed count next_mode is_quote
  quote_opens n s h = ground arith

  pub Crosses-quoted :
      (n : ℕ) (v : Bytes)
      → (b'"' == b.down || (b'"' == b.up || b'"' == b.stop)) ≡ false
      → ends_with b'\\' v ≡ false
      → Crosses b n (b'"' ∷ (escape v b'"' ++ b'"' ∷ []))
  Crosses-quoted n v e h s =
      rw (append_assoc (escape v b'"') (b'"' ∷ []) s)
        (quote_opens n (escape v b'"' ++ b'"' ∷ s) e ∙ ap (keep b'"') (quoted_crosses n _ v s h))
