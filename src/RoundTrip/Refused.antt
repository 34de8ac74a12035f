-- ===== src/RoundTrip/Refused.antt =====
-- A printed list with elements, read by `chunkdat::set` of src/filedat.cpp.
use ztd.Base.{
  ℕ, zero, suc, false, some, [], ◌∷◌, ◌++◌, ◌≡◌, ◌≢◌, refl, arith, ◌∙◌, ap, sym, length,
  append_assoc, Option, ◌+◌,
}
use ztd.Base.Int.{ℤ, pos, ◌+ℤ◌}
use ztd.Base.Text.{Bytes, codes}
use ztd.Chunk.{
  Trace, Chunkdat, Parent, Items, Values, chunkdat, null, chunk_string, chunk_map, chunk_list,
  no_items, item,
}
use ztd.Chunk.Containers.{push_back}
use ztd.Chunk.Print.{escape, default_strval, strval}
use ztd.Error.{Result, ok, fault, out_of_fuel, ◌>>=◌, Yields, returns, Yields-value}
use ztd.Parse.KeyValue.{is_empty}
use mathlib.Core.Path.{subst}
use ztd.Parse.Scan.Quotes.{quoted-escape, ends_with}
use ztd.Parse.Scan.{plain, closed, enclosed, list_bracket, quoted, blanks, skip, is_read}
use ztd.Parse.Set.Terminates.{set-ne-out_of_fuel}
use ztd.Parse.Set.{content, dispatch, Source, set, set_fuel, list_loop, list_round, part_of}
use ztd.Parse.Strval.{
  Strval, again, stopped, round, open_quote, branch, value_loop, getstrval, finish,
}
use ztd.RoundTrip.Lists.{
  AllTexts, quotation, later_lines, list_body, strval_list-list_body, enclosed-list_body,
}
use ztd.RoundTrip.Reads.{at, text-reads, pop_back_last}
use ztd.RoundTrip.Texts.{loop-again, trim-readable}
use ztd.RoundTrip.{IsText}

-- Undefined behaviour, or fuel that was not enough to reach it.
data Fails {A : Type 0} : Result A → Type 0 where
  faults : Fails fault
  exhausts : Fails out_of_fuel

Fails-bind : {A B : Type 0} {r : Result A} (k : A → Result B) → Fails r → Fails (r >>= k)
Fails-bind k faults = faults
Fails-bind k exhausts = exhausts

fault_left : {A : Type 0} (r : Result A) → Fails r → r ≢ out_of_fuel → r ≡ fault
fault_left r faults n = refl
fault_left r exhausts n = absurd (n refl)

quoted-quotation :
    (v s : Bytes)
    → ends_with b'\\' v ≡ false
    → quoted b'"' false ((escape v b'"' ++ b'"' ∷ []) ++ s) ≡ some (v, s)
quoted-quotation v s h =
    ap (quoted b'"' false) (append_assoc (escape v b'"') (b'"' ∷ []) s)
    ∙ quoted-escape b'"' v s (omega arith) h

-- A quoted element in front of a comma.
round-comma :
    (str v s : Bytes)
    → ends_with b'\\' v ≡ false
    → round str b',' b';' [] (quotation v ++ b',' ∷ s) ≡ ok (stopped v s)
unfolding round open_quote branch is_read
round-comma str v s h = rw (quoted-quotation v (b',' ∷ s) h) refl

-- A quoted element in front of the newline that ends the text between the brackets.
round-last :
    (str v : Bytes)
    → ends_with b'\\' v ≡ false
    → round str b',' b';' [] (quotation v ++ codes "\n") ≡ fault
unfolding round open_quote branch is_read blanks
round-last str v h = rw (quoted-quotation v (codes "\n") h) refl

bracket_round :
    (str s t r : Bytes)
    → enclosed list_bracket 0 plain s ≡ closed t r
    → round str 0 0 [] (b'[' ∷ s) ≡ ok (again (b'[' ∷ t) r)
unfolding round open_quote branch
bracket_round str s t r e = rw e refl

getstrval-comma :
    (v : Bytes) (c : ℕ) (s : Bytes)
    → ends_with b'\\' v ≡ false
    → Yields
        (λ t. (t.val ≡ v) × (t.rest ≡ c ∷ s))
        (getstrval (codes "\n\t" ++ (quotation v ++ b',' ∷ c ∷ s)) b',' b';')
unfolding getstrval skip is_read value_loop finish
getstrval-comma v c s h = rw (round-comma _ v (c ∷ s) h) (returns (refl, refl))

getstrval-last :
    (v : Bytes)
    → ends_with b'\\' v ≡ false
    → getstrval (codes "\n\t" ++ (quotation v ++ codes "\n")) b',' b';' ≡ fault
unfolding getstrval skip is_read value_loop
getstrval-last v h = rw (round-last _ v h) refl

module _ (f : ℕ) (src : Source) (i : ℕ) (str : Bytes) (l : Items) where
  list_loop_next :
      (t : Strval) (c : ℕ) (s : Bytes) (d : Chunkdat)
      → getstrval str b',' b';' ≡ ok t
      → t.rest ≡ c ∷ s
      → set_fuel f (part_of src t.val (pos (i + t.start))) ≡ ok d
      → list_loop (suc f) src i str l ≡ list_loop f src (i + t.rest_start) (c ∷ s) (push_back l d)
  unfolding list_loop list_round
  list_loop_next t c s d e r h = rw e (rw h (rw r refl))

  list_loop_exhausted :
      (t : Strval)
      → getstrval str b',' b';' ≡ ok t
      → set_fuel f (part_of src t.val (pos (i + t.start))) ≡ out_of_fuel
      → list_loop (suc f) src i str l ≡ out_of_fuel
  unfolding list_loop list_round
  list_loop_exhausted t e h = rw e (rw h refl)

  list_loop_faults : getstrval str b',' b';' ≡ fault → list_loop (suc f) src i str l ≡ fault
  unfolding list_loop list_round
  list_loop_faults e = rw e refl

set_fuel_zero : (src : Source) → set_fuel zero src ≡ out_of_fuel
unfolding set_fuel
set_fuel_zero src = refl

list_loop_zero :
    (src : Source) (i : ℕ) (str : Bytes) (l : Items) → list_loop zero src i str l ≡ out_of_fuel
unfolding list_loop
list_loop_zero src i str l = refl

Fails-subst : {A : Type 0} {r s : Result A} → r ≡ s → Fails s → Fails r
Fails-subst e h = subst Fails (sym e) h

-- What follows a first element that is not the last.
abbrev following : Bytes → Items → Bytes
following w l = (quotation w ++ later_lines l) ++ codes "\n"

list_loop-Fails :
    (l : Items) (f : ℕ) (src : Source) (i : ℕ) (v : Bytes) (acc : Items)
    → IsText v
    → AllTexts l
    → Fails (list_loop f src i (list_body v l) acc)
list_loop-Fails l zero src i v acc p h =
    Fails-subst (list_loop_zero src i (list_body v l) acc) exhausts
list_loop-Fails no_items (suc f) src i v acc p h =
    Fails-subst (list_loop_faults f src i (list_body v no_items) acc (getstrval-last v p.2)) faults
list_loop-Fails (item (chunkdat t null) l) (suc f) src i v acc p h = absurd h
list_loop-Fails (item (chunkdat t (chunk_map m)) l) (suc f) src i v acc p h = absurd h
list_loop-Fails (item (chunkdat t (chunk_list k)) l) (suc f) src i v acc p h = absurd h
list_loop-Fails (item (chunkdat t (chunk_string w)) l) (suc zero) src i v acc p h =
    let (r, e, q) = Yields-value (getstrval-comma v b'\n' (b'\t' ∷ following w l) p.2) in
    Fails-subst (list_loop_exhausted zero src i _ acc r e (set_fuel_zero _)) exhausts
list_loop-Fails (item (chunkdat t (chunk_string w)) l) (suc (suc f)) src i v acc p h =
    let (r, e, q) = Yields-value (getstrval-comma v b'\n' (b'\t' ∷ following w l) p.2) in
    let (d, e', q') =
      Yields-value (text-reads f v (src.offset +ℤ pos (i + r.start)) src.parent p) in
    Fails-subst
      (list_loop_next (suc f) src i _ acc r b'\n' (b'\t' ∷ following w l) d e q.1
        (ap (λ x. set_fuel (suc f) (part_of src x (pos (i + r.start)))) q.0 ∙ e'))
      (Fails-subst
        (ap (λ x. list_loop (suc f) src (i + r.rest_start) (codes "\n\t" ++ x) (push_back acc d))
          (append_assoc (quotation w) (later_lines l) (codes "\n")))
        (list_loop-Fails l (suc f) src (i + r.rest_start) w (push_back acc d) h.0 h.1))

-- The text of a printed list, isolated as a value.
bracket_text :
    (u : Bytes)
    → enclosed list_bracket 0 plain (u ++ b']' ∷ []) ≡ closed (u ++ b']' ∷ []) []
    → let w = b'[' ∷ (u ++ b']' ∷ []) in
      getstrval w 0 0
      ≡ ok (record { val = w; rest = []; rest_start = length w; start = 0; delim_found = false })
unfolding getstrval finish value_loop skip is_read
bracket_text u e =
    let w = b'[' ∷ (u ++ b']' ∷ []) in
    rw
      (loop-again 0 0 w [] w [] b'[' (u ++ b']' ∷ []) (length w)
        (bracket_round w (u ++ b']' ∷ []) (u ++ b']' ∷ []) [] e))
      (rw (trim-readable (b'[' ∷ u) b']' refl) refl)

dispatch_list :
    (read_map : ℕ → Bytes → Result Values) (read_list : ℕ → Bytes → Result Items) (src : Source)
    (t : Strval) (u : Bytes)
    → t.rest ≡ []
    → is_empty (skip u).0 ≡ false
    → Fails (read_list (t.start + 1) u)
    → Fails (dispatch read_map read_list src t (b'[' ∷ (u ++ b']' ∷ [])))
unfolding dispatch content skip
dispatch_list read_map read_list src t u e n y =
    rw (e, pop_back_last u b']') (rw n (Fails-bind _ y))

set_fuel-Fails :
    (f : ℕ) (v : Bytes) (l : Items) (o : ℤ) (p : Option Parent)
    → IsText v
    → AllTexts l
    → Fails (set_fuel f (at (b'[' ∷ (list_body v l ++ b']' ∷ [])) o p))
unfolding set_fuel
set_fuel-Fails zero v l o p i h = exhausts
set_fuel-Fails (suc f) v l o p i h =
    rw (bracket_text (list_body v l) (enclosed-list_body v l i h)) (
      dispatch_list _ _ _ _ (list_body v l) refl (unfold skip is_read in refl)
        (list_loop-Fails l f _ 1 v no_items i h))

set-Fails :
    (v : Bytes) (l : Items) (o : ℤ) (p : Option Parent)
    → IsText v
    → AllTexts l
    → Fails (set (at (b'[' ∷ (list_body v l ++ b']' ∷ [])) o p))
unfolding set
set-Fails v l o p i h = set_fuel-Fails _ v l o p i h

-- A list of one or more strings, printed by `strval` with its default arguments, is not read back:
-- `set` reads past the end of the text between the brackets. Strings end in neither a blank nor a
-- backslash, and have no quote, `{` and `[` in their first word.
pub set-strval_list :
    (t u : Trace) (v : Bytes) (l : Items) (offset : ℤ) (parent : Option Parent)
    → IsText v
    → AllTexts l
    → set (
        at
          (default_strval (chunkdat t (chunk_list (item (chunkdat u (chunk_string v)) l))))
          offset
          parent)
      ≡ fault
unfolding strval
set-strval_list t u v l offset parent i h =
    ap (λ w. set (at w offset parent)) (strval_list-list_body u v l h)
    ∙ fault_left _ (set-Fails v l offset parent i h)
        (set-ne-out_of_fuel (at (b'[' ∷ (list_body v l ++ b']' ∷ [])) offset parent))
