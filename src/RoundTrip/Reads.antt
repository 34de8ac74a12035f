-- ===== src/RoundTrip/Reads.antt =====
-- `chunkdat::set` of src/filedat.cpp at the text of a printed chunk.
use ztd.Base.{
  ℕ, zero, suc, ◌+◌, ◌≤◌, true, false, [], ◌∷◌, ◌++◌, ◌≡◌, refl, arith, ◌∙◌, ap, sym, length,
  Option, Bool-cases, inl, inr, ◌⊎◌, if◌then◌else◌,
}
use ztd.Base.Int.{ℤ}
use ztd.Base.Text.{codes, Bytes, head_byte}
use ztd.Chunk.{
  no_items, chunk_list, Parent, Values, Items, chunkdat, chunk_string, chunk_map, no_values,
  no_trace,
}
use ztd.Chunk.Print.{strval_map}
use ztd.Error.{Result, ok, Yields, returns, Yields-bind, Yields-subst}
use ztd.Parse.Scan.{is_read, is_quote, skip, trim, enclosed, map_bracket, plain, closed}
use ztd.Parse.Scan.Lengths.{length-skip}
use ztd.Parse.KeyValue.{is_empty}
use ztd.Parse.Set.{Source, at_source, pop_back, content, dispatch, set_fuel, map_loop}
use ztd.Parse.Strval.{
  Strval, again, stopped, round, open_quote, branch, value_loop, finish, getstrval, no_value,
}
use ztd.RoundTrip.Nested.{tab, body, strval_map-body, enclosed-body}
use ztd.RoundTrip.Texts.{loop-again, trim-readable}
use ztd.RoundTrip.{IsText, ValuesIsPrintable, is_plain, starts_plain, bare, bare_values}

-- The word loop of a value without delimiters: the first byte of the value stays.
word_step :
    (str val : Bytes) (c : ℕ) (s : Bytes)
    → is_plain c ≡ true
    → round str 0 0 val (c ∷ s) ≡ ok (again (val ++ c ∷ []) s)
unfolding round open_quote branch is_read is_quote
word_step str val c s h = ground arith

pub word_stop :
    (str val : Bytes) (c : ℕ) (s : Bytes)
    → is_read c ≡ false
    → round str 0 0 val (c ∷ s) ≡ ok (stopped val (c ∷ s))
unfolding round open_quote branch is_read
word_stop str val c s h = ground arith

word_loop :
    (fuel : ℕ) (str : Bytes) (x : ℕ) (val s : Bytes)
    → length s ≤ fuel
    → starts_plain s ≡ true
    → Yields (λ (val', rest). head_byte val' ≡ x) (value_loop fuel str 0 0 (x ∷ val) s)
unfolding value_loop
word_loop fuel str x val [] l h = returns refl
word_loop zero str x val (c ∷ s) l h = absurd (omega arith)
word_loop (suc fuel) str x val (c ∷ s) l h = elim (Bool-cases (is_read c)) [
  | inl e ↦
      rw (word_step str (x ∷ val) c s (ground arith))
        (word_loop fuel str x (val ++ c ∷ []) s (omega arith) (ground arith))
  | inr e ↦ rw (word_stop str (x ∷ val) c s e) (returns refl)
]

head-trim : (v : Bytes) → is_read (head_byte v) ≡ true → head_byte (trim v) ≡ head_byte v
unfolding trim
head-trim [] h = refl
head-trim (c ∷ v) h = ground arith

finish_head :
    (str : Bytes) (st : ℕ) (v s : Bytes)
    → is_read (head_byte v) ≡ true
    → head_byte (finish str st v s).val ≡ head_byte v
unfolding finish
finish_head str st v [] h = head-trim v h
finish_head str st v (c ∷ s) h = refl

skip_read : (v : Bytes) (c : ℕ) (s : Bytes) → (skip v).0 ≡ c ∷ s → is_read c ≡ true
unfolding skip
skip_read [] c s e = absurd (ground arith)
skip_read (d ∷ v) c s e = ground (arith, skip_read v c s)

skip_unread : (v : Bytes) → (skip v).0 ≡ [] → trim v ≡ []
unfolding skip trim
skip_unread [] e = refl
skip_unread (d ∷ v) e = ground (arith, skip_unread v)

-- A string is read as a string whose first byte opens no nested chunk.
getstrval_text :
    (v : Bytes) (c : ℕ) (s : Bytes) (i : ℕ)
    → skip v ≡ (c ∷ s, i)
    → is_read c ≡ true
    → starts_plain (c ∷ s) ≡ true
    → Yields (λ t. head_byte t.val ≡ c) (getstrval v 0 0)
unfolding getstrval
getstrval_text v c s i e r h =
    rw (e, loop-again 0 0 v [] (c ∷ []) s c s (length v) (word_step v [] c s (ground arith)))
      (Yields-bind
        (word_loop (length v) v c [] s (omega (arith, length-skip v, ap (λ x. length x.0) e))
          (ground arith))
        λ (val, rest) q. returns (finish_head v i val rest (rw (q, r) refl) ∙ q))

dispatch_text :
    (read_map : ℕ → Bytes → Result Values) (read_list : ℕ → Bytes → Result Items) (src : Source)
    (t : Strval) (val : Bytes) (c : ℕ)
    → head_byte val ≡ c
    → is_plain c ≡ true
    → dispatch read_map read_list src t val ≡ ok (chunkdat (at_source src) (chunk_string src.text))
unfolding dispatch is_read is_quote
dispatch_text read_map read_list src t [] c e h = absurd (ground arith)
dispatch_text read_map read_list src t (d ∷ val) c e h = ground arith

skip_cases :
    (x : Bytes × ℕ)
    → ((i : ℕ) × (x ≡ ([], i))) ⊎ ((c : ℕ) × (s : Bytes) × (i : ℕ) × (x ≡ (c ∷ s, i)))
skip_cases ([], i) = inl (i, refl)
skip_cases (c ∷ s, i) = inr (c, s, i, refl)

getstrval_blank : (v : Bytes) (i : ℕ) → skip v ≡ ([], i) → getstrval v 0 0 ≡ ok no_value
unfolding getstrval
getstrval_blank v i e = rw e refl

abbrev pub at : Bytes → ℤ → Option Parent → Source
at v o p = record { text = v; offset = o; parent = p }

pub text-reads :
    (f : ℕ) (v : Bytes) (o : ℤ) (p : Option Parent)
    → IsText v
    → Yields (λ d. bare d ≡ chunkdat no_trace (chunk_string v)) (set_fuel (suc f) (at v o p))
unfolding set_fuel
text-reads f v o p h = elim (skip_cases (skip v)) [
  | inl (i, e) ↦ rw (getstrval_blank v i e) (
      unfold dispatch in
      returns (
        ap (λ x. chunkdat no_trace (chunk_string x)) (sym (skip_unread v (ap (λ x. x.0) e)) ∙ h.1)))
  | inr (c, s, i, e) ↦
      let e0 = ap (λ x. x.0) e in
      let plain = ap starts_plain (sym e0) ∙ h.0 in
      Yields-bind (getstrval_text v c s i e (skip_read v c s e0) plain) λ t q.
        Yields-subst (dispatch_text _ _ (at v o p) t t.val c q (ground (arith, skip_read v c s e0)))
          (returns refl)
]

pub empty_list-reads :
    (f : ℕ) (o : ℤ) (p : Option Parent)
    → Yields
        (λ d. bare d ≡ chunkdat no_trace (chunk_list no_items))
        (set_fuel (suc f) (at (codes "[]") o p))
unfolding set_fuel getstrval value_loop round open_quote branch enclosed skip finish trim is_read
    dispatch content pop_back
empty_list-reads f o p = returns refl

pub pop_back_last : (u : Bytes) (c : ℕ) → pop_back (u ++ c ∷ []) ≡ ok u
unfolding pop_back
pop_back_last [] c = refl
pop_back_last (d ∷ []) c = refl
pop_back_last (d ∷ e ∷ u) c = rw (pop_back_last (e ∷ u) c) refl

pub brace_round :
    (str s t r : Bytes)
    → enclosed map_bracket 0 plain s ≡ closed t r
    → round str 0 0 [] (b'{' ∷ s) ≡ ok (again (b'{' ∷ t) r)
unfolding round open_quote branch
brace_round str s t r e = rw e refl

-- The text of a printed map, isolated as a value.
brace_text :
    (u : Bytes)
    → enclosed map_bracket 0 plain (u ++ b'}' ∷ []) ≡ closed (u ++ b'}' ∷ []) []
    → let w = b'{' ∷ (u ++ b'}' ∷ []) in
      getstrval w 0 0
      ≡ ok (record { val = w; rest = []; rest_start = length w; start = 0; delim_found = false })
unfolding getstrval finish value_loop skip is_read
brace_text u e =
    let w = b'{' ∷ (u ++ b'}' ∷ []) in
    rw
      (loop-again 0 0 w [] w [] b'{' (u ++ b'}' ∷ []) (length w)
        (brace_round w (u ++ b'}' ∷ []) (u ++ b'}' ∷ []) [] e))
      (rw (trim-readable (b'{' ∷ u) b'}' refl) refl)

dispatch_map :
    (read_map : ℕ → Bytes → Result Values) (read_list : ℕ → Bytes → Result Items) (src : Source)
    (t : Strval) (u : Bytes) (m : Values)
    → t.rest ≡ []
    → Yields
        (λ m'. bare_values m' ≡ bare_values m)
        (if is_empty (skip u).0 then ok no_values else read_map (t.start + 1) u)
    → Yields
        (λ d. bare d ≡ chunkdat no_trace (chunk_map (bare_values m)))
        (dispatch read_map read_list src t (b'{' ∷ (u ++ b'}' ∷ [])))
unfolding dispatch content skip
dispatch_map read_map read_list src t u m e y =
    rw (e, pop_back_last u b'}')
      (Yields-bind y λ m' q. returns (ap (λ x. chunkdat no_trace (chunk_map x)) q))

pub map-reads :
    (f a : ℕ) (m : Values) (o : ℤ) (p : Option Parent)
    → ValuesIsPrintable a m
    → ((src : Source)
        → Yields
            (λ m'. bare_values m' ≡ bare_values m)
            (if is_empty (skip (body a m)).0
              then ok no_values
              else map_loop f src 1 (body a m) no_values))
    → Yields
        (λ d. bare d ≡ chunkdat no_trace (chunk_map (bare_values m)))
        (set_fuel (suc f) (at (strval_map a tab m) o p))
unfolding set_fuel
map-reads f a m o p v y =
    Yields-subst (ap (λ w. set_fuel (suc f) (at w o p)) (strval_map-body a m)) (
      rw (brace_text (body a m) (enclosed-body a m [] v))
        (dispatch_map _ _ _ _ (body a m) m refl (y _)))
