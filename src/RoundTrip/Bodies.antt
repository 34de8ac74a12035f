-- ===== src/RoundTrip/Bodies.antt =====
-- The loop of `chunkdat::set` over a map, in src/filedat.cpp, at the lines of a printed map.
use ztd.Base.{
  ℕ, zero, suc, ◌+◌, ◌*◌, ◌≤◌, [], ◌∷◌, ◌++◌, ◌≡◌, refl, arith, ◌∙◌, ap, sym, length, length-append,
  Option, append_assoc, if◌then◌else◌,
}
use ztd.Base.Int.{ℤ}
use ztd.Base.Text.{Bytes}
use ztd.Chunk.{Chunkdat, Parent, Values, value, no_values}
use ztd.Chunk.Copy.{join, Before, join_assoc, join-no_values}
use ztd.Chunk.Print.{strval, strval_pairs, shown_chunk, repeat_string}
use ztd.Error.{Result, ok, Yields, returns, Yields-bind, Yields-subst, Yields-mono}
use ztd.Parse.KeyValue.{is_empty}
use ztd.Parse.Scan.{is_read, skip}
use ztd.Parse.Set.{Source, set_fuel, map_loop}
use ztd.Parse.Strval.Trailing.{IsUnread, skip-IsUnread}
use ztd.RoundTrip.Lines.{map_round_line, map_round_blanks}
use ztd.RoundTrip.Nested.{tab, body}
use ztd.RoundTrip.Texts.{shown-IsValueText}
use ztd.RoundTrip.Reads.{at}
use ztd.RoundTrip.{IsPrintable, IsKey, bare, bare_values}

bare_values-join :
    (acc : Values) (k : Bytes) (c d : Chunkdat) (m : Values)
    → bare d ≡ bare c
    → bare_values (join acc (value k d m)) ≡ bare_values (join acc (value k c m))
bare_values-join no_values k c d m e = ap (λ x. value k x (bare_values m)) e
bare_values-join (value j b acc) k c d m e = ap (value j (bare b)) (bare_values-join acc k c d m e)

-- The lines of a map, with the blanks in front of its closing brace.
abbrev pub lines : ℕ → Values → Bytes
lines a m = strval_pairs a tab m ++ repeat_string tab a

abbrev line : Bytes → Bytes → Bytes → Bytes → Bytes
line u k w s = u ++ (k ++ b' ' ∷ b'=' ∷ b' ' ∷ (w ++ b'\n' ∷ s))

pub length-line :
    (u k w s : Bytes) → length (line u k w s) ≡ length u + (length k + (length w + length s)) + 4
length-line u k w s = omega (
  arith,
  length-append u (k ++ b' ' ∷ b'=' ∷ b' ' ∷ (w ++ b'\n' ∷ s)),
  length-append k (b' ' ∷ b'=' ∷ b' ' ∷ (w ++ b'\n' ∷ s)),
  length-append w (b'\n' ∷ s),
)

pub lines-value :
    (a : ℕ) (k : Bytes) (c : Chunkdat) (m : Values)
    → lines a (value k c m)
      ≡ line (repeat_string tab (suc a)) k (shown_chunk (suc a) tab c) (lines a m)
unfolding strval_pairs
lines-value a k c m = simp append_assoc

IsUnread-tabs : (a : ℕ) → IsUnread (repeat_string tab a)
unfolding repeat_string is_read
IsUnread-tabs zero = tt
IsUnread-tabs (suc a) = (refl, IsUnread-tabs a)

-- The loop over a map where `s` is left.
abbrev resume : ℕ → Source → ℕ → Bytes → Values → Result Values
resume f src i s acc = elim s [ [] ↦ ok acc | c ∷ r ↦ map_loop f src i (c ∷ r) acc ]

abbrev pub ReadsRest : ℕ → ℕ → Values → Values → Type 0
ReadsRest f a m acc =
    (src : Source) (i : ℕ)
    → Yields (λ r. bare_values r ≡ bare_values (join acc m)) (resume f src i (lines a m) acc)

abbrev pub ReadsChunk : ℕ → ℕ → Chunkdat → Type 0
ReadsChunk f a c =
    (o : ℤ) (p : Option Parent)
    → Yields (λ d. bare d ≡ bare c) (set_fuel f (at (strval a tab c) o p))

line-reads :
    (f a : ℕ) (src : Source) (i : ℕ) (u k : Bytes) (c : Chunkdat) (m acc : Values)
    → IsUnread u
    → IsKey k
    → IsPrintable (suc a) c
    → Before k acc
    → ReadsChunk f (suc a) c
    → ((d : Chunkdat) → ReadsRest f a m (join acc (value k d no_values)))
    → Yields
        (λ r. bare_values r ≡ bare_values (join acc (value k c m)))
        (map_loop (suc f) src i (line u k (shown_chunk (suc a) tab c) (lines a m)) acc)
unfolding map_loop
line-reads f a src i u k c m acc n h pr b y rest =
    Yields-bind
      (map_round_line (λ part. set_fuel f part) src i acc u k (shown_chunk (suc a) tab c)
        (strval (suc a) tab c) (lines a m) c n h (shown-IsValueText (suc a) c pr) b
        λ o. y _ src.parent)
      λ (m', kv) ((d, e, q), r).
        Yields-subst
          (ap (λ s. resume f src (i + kv.rest_start) s m') r
            ∙ ap (resume f src (i + kv.rest_start) (lines a m)) e)
          (Yields-mono (rest d src (i + kv.rest_start))
            λ v z. z ∙ (ap bare_values (join_assoc acc k d m) ∙ bare_values-join acc k c d m q))

blanks-read :
    (f : ℕ) (src : Source) (i : ℕ) (u : Bytes) (acc : Values)
    → IsUnread u
    → Yields (λ r. r ≡ acc) (map_loop (suc f) src i u acc)
unfolding map_loop
blanks-read f src i u acc n =
    Yields-bind (map_round_blanks (λ part. set_fuel f part) src i acc u n) λ (m', kv) (e, r).
      Yields-subst (ap (λ s. resume f src (i + kv.rest_start) s m') r) (returns e)

pub no_lines-read : (f a : ℕ) (acc : Values) → 2 * a + 2 ≤ f → ReadsRest f a no_values acc
unfolding strval_pairs repeat_string
no_lines-read f zero acc l src i = returns (ap bare_values (sym (join-no_values acc)))
no_lines-read zero (suc a) acc l src i = absurd (omega arith)
no_lines-read (suc f) (suc a) acc l src i =
    Yields-mono (blanks-read f src i (repeat_string tab (suc a)) acc (IsUnread-tabs (suc a)))
      λ r e. ap bare_values (e ∙ sym (join-no_values acc))

pub lines-read :
    (f a : ℕ) (k : Bytes) (c : Chunkdat) (m acc : Values)
    → IsKey k
    → IsPrintable (suc a) c
    → Before k acc
    → ReadsChunk f (suc a) c
    → ((d : Chunkdat) → ReadsRest f a m (join acc (value k d no_values)))
    → ReadsRest (suc f) a (value k c m) acc
lines-read f a k c m acc h pr b y rest src i =
    Yields-subst (ap (λ s. resume (suc f) src i s acc) (lines-value a k c m)) (
      unfold repeat_string in
      line-reads f a src i (repeat_string tab (suc a)) k c m acc (IsUnread-tabs (suc a)) h pr b y
        rest)

-- The text of a map between the braces, as one line and the others.
body-line :
    (a : ℕ) (k : Bytes) (c : Chunkdat) (m : Values)
    → body a (value k c m)
      ≡ line (b'\n' ∷ repeat_string tab (suc a)) k (shown_chunk (suc a) tab c) (lines a m)
body-line a k c m = ap (◌∷◌ b'\n') (lines-value a k c m)

pub body-reads :
    (f a : ℕ) (k : Bytes) (c : Chunkdat) (m : Values) (src : Source)
    → IsKey k
    → IsPrintable (suc a) c
    → ReadsChunk f (suc a) c
    → ((d : Chunkdat) → ReadsRest f a m (value k d no_values))
    → let s = body a (value k c m) in
      Yields
        (λ r. bare_values r ≡ bare_values (value k c m))
        (if is_empty (skip s).0 then ok no_values else map_loop (suc f) src 1 s no_values)
body-reads f a [] c m src h pr y rest = absurd (h.1 refl)
body-reads f a (x ∷ k) c m src h pr y rest =
    let u = b'\n' ∷ repeat_string tab (suc a) in
    let n : IsUnread u = (unfold is_read in refl, IsUnread-tabs (suc a)) in
    rw
      (
        body-line a (x ∷ k) c m,
        skip-IsUnread u x
            (k ++ b' ' ∷ b'=' ∷ b' ' ∷ (shown_chunk (suc a) tab c ++ b'\n' ∷ lines a m)) n
            (ground arith),
      )
      (line-reads f a src 1 u (x ∷ k) c m no_values n h pr tt y rest)
