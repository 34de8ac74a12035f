-- ===== src/Parse/Scan/Quotes.antt =====
-- `escape` of the printer against the quote loop of the reader, both of src/filedat.cpp.
use ztd.Base.{
  ℕ, Bool, true, false, Option, none, some, [], ◌∷◌, ◌++◌, ◌≡◌, ◌≢◌, ◌↔◌, refl, arith, Bool-cases,
  inl, inr, ◌==◌, ◌&&◌, ==_iff, ==_refl, ◌∙◌, ap, sym,
}
use ztd.Base.Text.{Bytes, head_byte}
use ztd.Chunk.Print.{escape}
use ztd.Parse.Scan.{pushed, quoted}

abbrev pub ends_with : ℕ → Bytes → Bool
ends_with c [] = false
ends_with c (d ∷ []) = d == c
ends_with c (d ∷ e ∷ s) = ends_with c (e ∷ s)

-- Escaped text that is followed by a quote byte begins with no quote byte.
pub head-escape :
    (q d : ℕ) (v rest : Bytes) → q ≢ b'\\' → head_byte (escape (d ∷ v) q ++ rest) == q ≡ false
unfolding escape
head-escape q d v rest n = ground arith

quoted-escape_cons :
    (q c : ℕ) (v rest : Bytes)
    → q ≢ b'\\'
    → (c == b'\\' && head_byte (escape v q ++ q ∷ rest) == q) ≡ false
    → quoted q false (escape (c ∷ v) q ++ q ∷ rest)
      ≡ pushed c (quoted q false (escape v q ++ q ∷ rest))
unfolding quoted escape
quoted-escape_cons q c v rest n h = ground arith

-- A quote that `escape` wrote ends where it was closed, with the text that went in, if the text does
-- not end with a backslash.
pub quoted-escape :
    (q : ℕ) (v rest : Bytes)
    → q ≢ b'\\'
    → ends_with b'\\' v ≡ false
    → quoted q false (escape v q ++ q ∷ rest) ≡ some (v, rest)
quoted-escape q [] rest n h = unfold quoted escape in rw (==_refl q)
quoted-escape q (c ∷ []) rest n h =
    quoted-escape_cons q c [] rest n (ground arith) ∙ ap (pushed c) (quoted-escape q [] rest n refl)
quoted-escape q (c ∷ d ∷ v) rest n h =
    quoted-escape_cons q c (d ∷ v) rest n (ground (arith, head-escape q d v (q ∷ rest) n))
    ∙ ap (pushed c) (quoted-escape q (d ∷ v) rest n h)

pushed-eq-some :
    (a b : ℕ) (t r : Bytes) (o : Option (Bytes × Bytes))
    → pushed a o ≡ some (b ∷ t, r)
    → (a ≡ b) × (o ≡ some (t, r))
pushed-eq-some a b t r none e = cc
pushed-eq-some a b t r (some (t', r')) e = (ground arith, ground arith)

quoted-escape_last :
    (q : ℕ) (rest : Bytes)
    → q ≢ b'\\'
    → quoted q false (escape (b'\\' ∷ []) q ++ q ∷ rest) ≡ pushed q (quoted q false rest)
unfolding quoted escape
quoted-escape_last q rest n = ground arith

-- A text that ends with a backslash is not read back: the backslash escapes the closing quote.
pub quoted-escape_backslash :
    (q : ℕ) (v rest : Bytes)
    → q ≢ b'\\'
    → ends_with b'\\' v ≡ true
    → quoted q false (escape v q ++ q ∷ rest) ≢ some (v, rest)
quoted-escape_backslash q [] rest n h = cc
quoted-escape_backslash q (c ∷ []) rest n h =
    let p : c ≡ b'\\' = (==_iff c b'\\').0 h in
    rw p λ e.
      n
        (pushed-eq-some q b'\\' [] rest (quoted q false rest)
          (sym (quoted-escape_last q rest n) ∙ e)).0
quoted-escape_backslash q (c ∷ d ∷ v) rest n h =
    let step =
      quoted-escape_cons q c (d ∷ v) rest n (ground (arith, head-escape q d v (q ∷ rest) n)) in
    λ e.
      quoted-escape_backslash q (d ∷ v) rest n h
        (pushed-eq-some c c (d ∷ v) rest _ (sym step ∙ e)).1

-- The loop over a double quoted string, at a string printed by `escape` and the closing quote, gives
-- the string and the text behind the quote exactly when the string does not end with a backslash.
pub quoted-escape_iff :
    (v rest : Bytes)
    → (quoted b'"' false (escape v b'"' ++ b'"' ∷ rest) ≡ some (v, rest))
      ↔ (ends_with b'\\' v ≡ false)
quoted-escape_iff v rest = elim (Bool-cases (ends_with b'\\' v)) [
  | inl e ↦ (λ r. absurd (quoted-escape_backslash b'"' v rest (omega arith) e r), λ h. cc)
  | inr e ↦ (λ r. e, λ h. quoted-escape b'"' v rest (omega arith) e)
]
