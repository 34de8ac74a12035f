-- ===== src/RoundTrip/Stays.antt =====
-- `filedat::removeComments` of src/filedat.cpp at texts that it leaves as they are.
use ztd.Base.{
  ℕ, zero, suc, Bool, true, false, not, ◌&&◌, ◌||◌, [], ◌∷◌, ◌++◌, ◌≡◌, refl, arith, ◌==◌, ◌∙◌, ap,
  sym, length, append_assoc, append-nil,
}
use ztd.Base.Text.{Bytes, head_byte}
use ztd.Chunk.Print.{repeat_string, escape}
use ztd.Parse.Comments.{
  Place, checked, unchecked, in_quote, strip, starts_comment, next_place, quote_place,
}
use ztd.Parse.Comments.Lines.{cut, is_line_byte, IsLine, strip_kept}
use ztd.Parse.Scan.Quotes.{ends_with, head-escape}
use ztd.RoundTrip.Nested.{tab}

-- A key without comments and backslashes.
abbrev pub IsBare : Bytes → Type 0
IsBare k = IsLine k × (cut k ≡ k)

-- The loop keeps the text and stands at its head behind it.
abbrev pub Stays : Bytes → Type 0
Stays w = (out s : Bytes) → strip checked out (w ++ s) ≡ strip checked (out ++ w) s

pub Stays-append : (w u : Bytes) → Stays w → Stays u → Stays (w ++ u)
Stays-append w u sw su out s =
    ap (strip checked out) (append_assoc w u s)
    ∙ (sw out (u ++ s) ∙ (su (out ++ w) s ∙ ap (λ x. strip checked x s) (append_assoc out w u)))

-- A byte that begins no comment, no quote and no escape.
abbrev pub is_kept : ℕ → Bool
is_kept c = is_line_byte c && not (c == b'#' || c == b'/')

kept_step :
    (c : ℕ) (out s : Bytes)
    → is_kept c ≡ true
    → strip checked out (c ∷ s) ≡ strip checked (out ++ c ∷ []) s
unfolding strip starts_comment next_place
kept_step c out s h = ground arith

newline_step : (out s : Bytes) → strip checked out (b'\n' ∷ s) ≡ strip checked (out ++ b'\n' ∷ []) s
unfolding strip
newline_step out s = refl

pub Stays-kept : (c : ℕ) (w : Bytes) → is_kept c ≡ true → Stays w → Stays (c ∷ w)
Stays-kept c w h sw out s =
    kept_step c out (w ++ s) h
    ∙ (sw (out ++ c ∷ []) s ∙ ap (λ x. strip checked x s) (append_assoc out (c ∷ []) w))

pub Stays-newline : (w : Bytes) → Stays w → Stays (b'\n' ∷ w)
Stays-newline w sw out s =
    newline_step out (w ++ s)
    ∙ (sw (out ++ b'\n' ∷ []) s ∙ ap (λ x. strip checked x s) (append_assoc out (b'\n' ∷ []) w))

pub Stays-nil : Stays []
Stays-nil out s = ap (λ x. strip checked x s) (sym (append-nil out))

abbrev pub AllKept : Bytes → Type 0
AllKept [] = Unit
AllKept (c ∷ s) = (is_kept c ≡ true) × AllKept s

pub Stays-all : (s : Bytes) → AllKept s → Stays s
Stays-all [] k = Stays-nil
Stays-all (c ∷ s) k = Stays-kept c s k.0 (Stays-all s k.1)

pub Stays-tabs : (a : ℕ) → Stays (repeat_string tab a)
unfolding repeat_string
Stays-tabs zero = Stays-nil
Stays-tabs (suc a) = Stays-kept b'\t' (repeat_string tab a) refl (Stays-tabs a)

-- The test for a comment at a byte of a key.
abbrev comments_at : ℕ → Bytes → Bool
comments_at c str = c == b'#' || (c == b'/' && head_byte str == b'/')

cut_cons : (c : ℕ) (k : Bytes) → cut (c ∷ k) ≡ c ∷ k → (comments_at c k ≡ false) × (cut k ≡ k)
cut_cons c k e = ground arith

comments_at-append :
    (c : ℕ) (k s : Bytes) → comments_at c k ≡ false → comments_at c (k ++ b' ' ∷ s) ≡ false
comments_at-append c [] s h = ground arith
comments_at-append c (d ∷ k) s h = h

strip-key :
    (k out s : Bytes)
    → IsBare k
    → strip checked out (k ++ b' ' ∷ s) ≡ strip checked (out ++ k) (b' ' ∷ s)
strip-key [] out s b = ap (λ x. strip checked x (b' ' ∷ s)) (sym (append-nil out))
strip-key (c ∷ k) out s b =
    let e = cut_cons c k b.1 in
    strip_kept c (k ++ b' ' ∷ s) out (comments_at-append c k s e.0) b.0.0
    ∙ (strip-key k (out ++ c ∷ []) s (b.0.1, e.1)
        ∙ ap (λ x. strip checked x (b' ' ∷ s)) (append_assoc out (c ∷ []) k))

pub Stays-key : (k w : Bytes) → IsBare k → Stays (b' ' ∷ w) → Stays (k ++ b' ' ∷ w)
Stays-key k w b sw out s =
    ap (strip checked out) (append_assoc k (b' ' ∷ w) s)
    ∙ (strip-key k out (w ++ s) b
        ∙ (sw (out ++ k) s ∙ ap (λ x. strip checked x s) (append_assoc out k (b' ' ∷ w))))

quote_step :
    (c j : ℕ) (v out s : Bytes)
    → (c == b'\\' && head_byte (escape v b'"' ++ b'"' ∷ s) == b'"') ≡ false
    → strip (in_quote b'"' false j) out (escape (c ∷ v) b'"' ++ b'"' ∷ s)
      ≡ strip (in_quote b'"' false j) (out ++ escape (c ∷ []) b'"') (escape v b'"' ++ b'"' ∷ s)
unfolding strip quote_place escape
quote_step c j v out s h = ground (arith, append_assoc out (b'\\' ∷ []) (c ∷ []))

escape_cons : (c : ℕ) (v : Bytes) → escape (c ∷ []) b'"' ++ escape v b'"' ≡ escape (c ∷ v) b'"'
unfolding escape
escape_cons c v = ground arith

strip_from : (p : Place) {o o' : Bytes} (s : Bytes) → o ≡ o' → strip p o s ≡ strip p o' s
strip_from p s e = ap (λ x. strip p x s) e

joined :
    (c : ℕ) (v out : Bytes)
    → (out ++ escape (c ∷ []) b'"') ++ (escape v b'"' ++ b'"' ∷ [])
      ≡ out ++ (escape (c ∷ v) b'"' ++ b'"' ∷ [])
joined c v out = rw (sym (escape_cons c v)) (simp append_assoc)

strip-quoted :
    (v : Bytes) (j : ℕ) (out s : Bytes)
    → ends_with b'\\' v ≡ false
    → strip (in_quote b'"' false j) out (escape v b'"' ++ b'"' ∷ s)
      ≡ strip unchecked (out ++ (escape v b'"' ++ b'"' ∷ [])) s
strip-quoted [] j out s h = unfold escape strip quote_place in refl
strip-quoted (c ∷ []) j out s h =
    quote_step c j [] out s (unfold escape in ground arith)
    ∙ (strip-quoted [] j (out ++ escape (c ∷ []) b'"') s refl
        ∙ strip_from unchecked s (joined c [] out))
strip-quoted (c ∷ d ∷ v) j out s h =
    quote_step c j (d ∷ v) out s (ground (arith, head-escape b'"' d v (b'"' ∷ s) (omega arith)))
    ∙ (strip-quoted (d ∷ v) j (out ++ escape (c ∷ []) b'"') s h
        ∙ strip_from unchecked s (joined c (d ∷ v) out))

quote_opens :
    (out s : Bytes)
    → strip checked out (b'"' ∷ s) ≡ strip (in_quote b'"' false (length out)) (out ++ b'"' ∷ []) s
unfolding strip starts_comment next_place
quote_opens out s = refl

-- The first byte behind a quote is not looked at.
newline_unchecked :
    (out s : Bytes) → strip unchecked out (b'\n' ∷ s) ≡ strip checked (out ++ b'\n' ∷ []) s
unfolding strip
newline_unchecked out s = refl

pub Stays-quoted :
    (v r : Bytes)
    → ends_with b'\\' v ≡ false
    → Stays r
    → Stays ((b'"' ∷ (escape v b'"' ++ b'"' ∷ [])) ++ b'\n' ∷ r)
Stays-quoted v r h sr out s =
    ap (strip checked out) (simp append_assoc)
    ∙ (quote_opens out (escape v b'"' ++ b'"' ∷ b'\n' ∷ (r ++ s))
        ∙ (strip-quoted v (length out) (out ++ b'"' ∷ []) (b'\n' ∷ (r ++ s)) h
            ∙ (newline_unchecked ((out ++ b'"' ∷ []) ++ (escape v b'"' ++ b'"' ∷ [])) (r ++ s)
                ∙ (sr _ s ∙ strip_from checked s (simp append_assoc)))))
