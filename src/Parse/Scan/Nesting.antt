-- ===== src/Parse/Scan/Nesting.antt =====
-- The loops over nested chunks in `_getstrval` of src/filedat.cpp, at balanced brackets.
use ztd.Base.{
  ◌⊎◌, ℕ, suc, ◌+◌, ◌-◌, ◌%◌, ◌<◌, Bool, true, false, [], ◌∷◌, ◌++◌, ◌≡◌, ◌≢◌, refl, sym, ap, ◌∙◌,
  arith, length, Bool-cases, inl, inr, if◌then◌else◌, ◌==◌,
}
use ztd.Base.Text.{Bytes}
use ztd.Parse.Scan.{
  Bracket, map_bracket, list_bracket, counter_mod, count, plain, Enclosed, closed, keep, is_quote,
  next_mode, enclosed,
}

-- Behind `d` open brackets the text closes them all, and every bracket it opens, and no other. It has
-- no quotes.
unfoldable pub balanced : ℕ → ℕ → ℕ → Bytes → Bool
balanced opening closing d [] = d == 0
balanced opening closing d (c ∷ s) =
    let deeper = balanced opening closing (suc d) s in
    let higher = balanced opening closing (d - 1) s in
    let same = balanced opening closing d s in
    if c == opening
    then deeper
    else if c == closing
    then (if d == 0 then false else higher)
    else if is_quote c
    then false
    else same

-- A loop that stops at `closing` and whose counter is `counter d` behind `d` open brackets.
record Counts (opening closing : ℕ) (b : Bracket) (counter : ℕ → ℕ) : Type 0 where
  starts : counter 0 ≡ 0
  stands : (d : ℕ) → d < counter_mod → d ≢ 0 → counter d ≢ 0
  opens : (d : ℕ) → suc d < counter_mod → count b (counter d) opening ≡ counter (suc d)
  closes : (d : ℕ) → suc d < counter_mod → count b (counter (suc d)) closing ≡ counter d
  passes : (n c : ℕ) → c ≢ opening → c ≢ closing → count b n c ≡ n
  stop_close : b.stop ≡ closing
  plain_open : (left : ℕ) → next_mode b opening left ≡ plain
  plain_close : (left : ℕ) → next_mode b closing left ≡ plain
  open_close : opening ≢ closing

module _ (opening closing : ℕ) (b : Bracket) (counter : ℕ → ℕ)
    (k : Counts opening closing b counter) where
  -- A round that does not stop.
  enclosed_goes :
      (d n : ℕ) (c : ℕ) (str : Bytes)
      → (counter d ≢ 0) ⊎ (c ≢ closing)
      → count b (counter d) c ≡ n
      → next_mode b c (suc (length str)) ≡ plain
      → enclosed b (counter d) plain (c ∷ str) ≡ keep c (enclosed b n plain str)
  unfolding enclosed
  enclosed_goes d n c str h e f = rw (e, f) (ground (arith, k.stop_close))

  enclosed_stops :
      (n : ℕ) (rest : Bytes)
      → n ≡ 0
      → enclosed b n plain (closing ∷ rest) ≡ closed (closing ∷ []) rest
  unfolding enclosed
  enclosed_stops n rest h = ground (arith, k.stop_close)

  -- A byte that is no bracket and no quote leaves the loop as it is.
  plain_other :
      (c left : ℕ) → c ≢ opening → c ≢ closing → is_quote c ≡ false → next_mode b c left ≡ plain
  unfolding next_mode
  plain_other c left h h' e = ground (arith, e)

  -- The round of a closing bracket that closes one of the text.
  enclosed-closing :
      (s : Bytes) (d : ℕ) (rest : Bytes) (c : ℕ) {e : Enclosed}
      → c ≡ closing
      → d ≢ 0
      → d < counter_mod
      → keep c (enclosed b (counter (d - 1)) plain (s ++ closing ∷ rest)) ≡ e
      → enclosed b (counter d) plain (c ∷ (s ++ closing ∷ rest)) ≡ e
  enclosed-closing s d rest c p z l t =
      let q : suc (d - 1) ≡ d = omega arith in
      enclosed_goes d (counter (d - 1)) c (s ++ closing ∷ rest) (inl (k.stands d l z))
        (rw p (ap (λ i. count b (counter i) closing) (sym q) ∙ k.closes (d - 1) (omega arith)))
        (rw p (k.plain_close _))
      ∙ t

  enclosed-balanced :
      (s : Bytes) (d : ℕ) (rest : Bytes)
      → balanced opening closing d s ≡ true
      → d + length s < counter_mod
      → enclosed b (counter d) plain (s ++ closing ∷ rest) ≡ closed (s ++ closing ∷ []) rest
  unfolding balanced
  enclosed-balanced [] d rest h l =
      enclosed_stops (counter d) rest (let z : d ≡ 0 = ground arith in ap counter z ∙ k.starts)
  enclosed-balanced (c ∷ s) d rest h l = elim (Bool-cases (c == opening)) [
    | inl e ↦
        let p : c ≡ opening = ground arith in
        enclosed_goes d (counter (suc d)) c (s ++ closing ∷ rest)
          (inr (λ q. k.open_close (sym p ∙ q))) (rw p (k.opens d (omega arith)))
          (rw p (k.plain_open _))
        ∙ ap (keep c) (enclosed-balanced s (suc d) rest (rw e at h) (omega arith))
    | inr e ↦ elim (Bool-cases (c == closing)) [
      | inl e' ↦
          enclosed-closing s d rest c (ground arith) (ground arith) (omega arith)
            (ap (keep c) (enclosed-balanced s (d - 1) rest (ground arith) (omega arith)))
      | inr e' ↦
          let o : c ≢ opening = ground arith in
          let o' : c ≢ closing = ground arith in
          enclosed_goes d (counter d) c (s ++ closing ∷ rest) (inr o') (k.passes (counter d) c o o')
            (plain_other c _ o o' (ground arith))
          ∙ ap (keep c) (enclosed-balanced s d rest (ground arith) (omega arith))
    ]
  ]

  enclosed-balanced_whole :
      (s rest : Bytes)
      → balanced opening closing 0 s ≡ true
      → length s < counter_mod
      → enclosed b 0 plain (s ++ closing ∷ rest) ≡ closed (s ++ closing ∷ []) rest
  enclosed-balanced_whole s rest h l = rw k.starts at (enclosed-balanced s 0 rest h (omega arith))

map-Counts : Counts b'{' b'}' map_bracket (λ d. d)
unfolding count next_mode
map-Counts = record {
  starts = refl;
  stands = λ d l h. h;
  opens = λ d l. omega arith;
  closes = λ d l. omega arith;
  passes = λ n c h h'. ground arith;
  stop_close = refl;
  plain_open = λ left. refl;
  plain_close = λ left. refl;
  open_close = omega arith;
}

list-Counts : Counts b'[' b']' list_bracket (λ d. (counter_mod - d) % counter_mod)
unfolding count next_mode
list-Counts = record {
  starts = refl;
  stands = λ d l h. omega arith;
  opens = λ d l. omega arith;
  closes = λ d l. omega arith;
  passes = λ n c h h'. ground arith;
  stop_close = refl;
  plain_open = λ left. refl;
  plain_close = λ left. refl;
  open_close = omega arith;
}

enclosed_map :
    (s rest : Bytes)
    → balanced b'{' b'}' 0 s ≡ true
    → length s < counter_mod
    → enclosed map_bracket 0 plain (s ++ b'}' ∷ rest) ≡ closed (s ++ b'}' ∷ []) rest
enclosed_map = enclosed-balanced_whole b'{' b'}' map_bracket (λ d. d) map-Counts

enclosed_list :
    (s rest : Bytes)
    → balanced b'[' b']' 0 s ≡ true
    → length s < counter_mod
    → enclosed list_bracket 0 plain (s ++ b']' ∷ rest) ≡ closed (s ++ b']' ∷ []) rest
enclosed_list =
    enclosed-balanced_whole b'[' b']' list_bracket (λ d. (counter_mod - d) % counter_mod)
      list-Counts

-- The loops over a nested map and a nested list, behind the opening bracket, at a text without quotes
-- that closes the brackets of its kind that it opens and no other, and a closing bracket: they read to
-- that bracket, though the counter of a list goes down at an opening bracket and wraps around. The texts
-- are shorter than the counter is wide.
pub enclosed_both :
    (s s' rest : Bytes)
    → balanced b'{' b'}' 0 s ≡ true
    → balanced b'[' b']' 0 s' ≡ true
    → length s < counter_mod
    → length s' < counter_mod
    → (enclosed map_bracket 0 plain (s ++ b'}' ∷ rest) ≡ closed (s ++ b'}' ∷ []) rest)
      × (enclosed list_bracket 0 plain (s' ++ b']' ∷ rest) ≡ closed (s' ++ b']' ∷ []) rest)
enclosed_both s s' rest h h' l l' = (enclosed_map s rest h l, enclosed_list s' rest h' l')
