-- ===== src/RoundTrip/Lines.antt =====
-- A round of the loop of `chunkdat::set` over a map, in src/filedat.cpp, at a line of a printed map.
use ztd.Base.{ℕ, false, [], ◌∷◌, ◌++◌, ◌≡◌, refl, arith, ◌==◌, ◌∙◌, ap, length}
use ztd.Base.Int.{ℤ, pos, ◌+ℤ◌}
use ztd.Base.Text.{Bytes, head_byte}
use ztd.Chunk.{Chunkdat, Values, value, no_values}
use ztd.Chunk.Copy.{join, Before, insert-Before}
use ztd.Error.{Result, ok, Yields, returns, Yields-bind, Yields-rethrow, Yields-subst}
use ztd.Parse.KeyValue.{Keyval, getkeyval, after_key, get_value, is_empty}
use ztd.Parse.Scan.{skip}
use ztd.Parse.Set.{Source, part_of, insert_new, store, map_round, moved, moved_unnamed}
use ztd.Parse.Strval.{getstrval}
use ztd.Parse.Strval.Trailing.{IsUnread, skip-IsUnread}
use ztd.RoundTrip.Pairs.{getkeyval_line}
use ztd.RoundTrip.Texts.{IsValueText}
use ztd.RoundTrip.{IsKey, bare}

-- The map with one more pair, whose chunk is `d` but for the debugging fields.
abbrev pub IsAdded : Bytes → Chunkdat → Values → Values → Type 0
IsAdded k d m m' = (d' : Chunkdat) × (m' ≡ join m (value k d' no_values)) × (bare d' ≡ bare d)

insert_new-Before :
    (src : Source) (k : Bytes) (start : ℤ) (m : Values) (d : Chunkdat)
    → Before k m
    → insert_new src k start m d ≡ ok (join m (value k d no_values))
unfolding insert_new
insert_new-Before src k start m d b = rw (insert-Before k d m b, insert_new) refl

store_line :
    (make : Source → Result Chunkdat) (src : Source) (i : ℕ) (m : Values) (kv : Keyval)
    (k v : Bytes) (d : Chunkdat)
    → kv.key ≡ k
    → kv.value ≡ v
    → IsKey k
    → Before k m
    → ((o : ℤ) → Yields (λ d'. bare d' ≡ bare d) (make (part_of src v o)))
    → Yields (IsAdded k d m) (store make src i m kv)
unfolding store
store_line make src i m kv [] v d e e' h b y = absurd (h.1 refl)
store_line make src i m kv (c ∷ k) v d e e' h b y =
    let n : is_empty kv.key ≡ false = ap is_empty e in
    let start = pos i +ℤ kv.value_start in
    rw n (
      Yields-rethrow (moved_unnamed src start) (
        Yields-bind (Yields-subst (ap (λ x. make (part_of src x start)) e') (y start)) λ d' q.
          Yields-subst
            (ap (λ x. insert_new src x (pos i +ℤ kv.key_start) m d') e
              ∙ insert_new-Before src (c ∷ k) (pos i +ℤ kv.key_start) m d' b)
            (returns (d', refl, q))))

head_line :
    (u k s : Bytes) → IsUnread u → IsKey k → (head_byte (skip (u ++ (k ++ s))).0 == b'=') ≡ false
head_line u [] s n h = absurd (h.1 refl)
head_line u (c ∷ k) s n h = rw (skip-IsUnread u c (k ++ s) n (ground arith)) (ground arith)

pub map_round_line :
    (make : Source → Result Chunkdat) (src : Source) (i : ℕ) (m : Values) (u k w v s : Bytes)
    (d : Chunkdat)
    → IsUnread u
    → IsKey k
    → IsValueText w v
    → Before k m
    → ((o : ℤ) → Yields (λ d'. bare d' ≡ bare d) (make (part_of src v o)))
    → Yields
        (λ (m', kv). IsAdded k d m m' × (kv.rest ≡ s))
        (map_round make src i (u ++ (k ++ b' ' ∷ b'=' ∷ b' ' ∷ (w ++ b'\n' ∷ s))) m)
unfolding map_round
map_round_line make src i m u k w v s d n h t b y =
    let line = b' ' ∷ b'=' ∷ b' ' ∷ (w ++ b'\n' ∷ s) in
    rw (head_line u k line n h) (
      Yields-bind (Yields-rethrow (moved src (pos i)) (getkeyval_line u k w v s n h t)) λ kv e.
        Yields-bind (store_line make src i m kv k v d e.0 e.1 h b y) λ m' a. returns (a, e.2))

pub skip_blanks : (u : Bytes) → IsUnread u → skip u ≡ ([], length u)
unfolding skip
skip_blanks [] n = refl
skip_blanks (c ∷ u) n = rw (n.0, skip_blanks u n.1) refl

-- A round at blanks alone, which stand behind the last line of a nested map.
pub map_round_blanks :
    (make : Source → Result Chunkdat) (src : Source) (i : ℕ) (m : Values) (u : Bytes)
    → IsUnread u
    → Yields (λ (m', kv). (m' ≡ m) × (kv.rest ≡ [])) (map_round make src i u m)
unfolding map_round getkeyval getstrval after_key get_value store
map_round_blanks make src i m u n = rw (skip_blanks u n) (unfold skip in returns (refl, refl))
