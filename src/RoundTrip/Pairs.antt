-- ===== src/RoundTrip/Pairs.antt =====
-- `_getkeyval` of src/filedat.cpp at a line of a printed map.
use ztd.Base.{
  ℕ, suc, true, false, [], ◌∷◌, ◌++◌, ◌≡◌, ◌≢◌, refl, arith, ◌==◌, ap, length, length-append,
}
use ztd.Base.Text.{Bytes}
use ztd.Error.{ok, Yields, returns, Yields-bind, Yields-subst}
use ztd.Parse.KeyValue.{getkeyval, after_key, get_value}
use ztd.Parse.Scan.{is_read, trim}
use ztd.Parse.Strval.{Strval, finish, getstrval}
use ztd.Parse.Strval.Trailing.{IsUnread, skip-IsUnread}
use ztd.RoundTrip.{IsKey}
use ztd.RoundTrip.Texts.{key_loop, IsValueText}

finish-Yields :
    (str : Bytes) (st : ℕ) (v s : Bytes)
    → trim v ≡ v
    → Yields (λ t. (t.val ≡ v) × (t.rest ≡ s)) (ok (finish str st v s))
unfolding finish
finish-Yields str st v [] h = returns (h, refl)
finish-Yields str st v (c ∷ s) h = returns (refl, refl)

-- The value behind the blank that follows an equals sign.
getstrval_value :
    (w v s : Bytes)
    → IsValueText w v
    → Yields (λ t. (t.val ≡ v) × (t.rest ≡ s)) (getstrval (b' ' ∷ (w ++ b'\n' ∷ s)) b';' b'\n')
unfolding getstrval
getstrval_value [] v s i = absurd (unfold is_read in ground arith)
getstrval_value (c ∷ w) v s i =
    let str = b' ' ∷ c ∷ (w ++ b'\n' ∷ s) in
    rw
      (
        skip-IsUnread (b' ' ∷ []) c (w ++ b'\n' ∷ s) (unfold is_read in (refl, tt)) i.begins,
        i.reads (length str) str s (omega (arith, length-append w (b'\n' ∷ s))),
      )
      (finish-Yields str 1 v s i.trimmed)

getstrval_key :
    (u k s : Bytes)
    → IsUnread u
    → IsKey k
    → Yields
        (λ t. (t.val ≡ k) × (t.rest ≡ b' ' ∷ s) × (t.delim_found ≡ true))
        (getstrval (u ++ (k ++ b' ' ∷ b'=' ∷ b' ' ∷ s)) b'=' 0)
unfolding getstrval finish
getstrval_key u [] s i h = absurd (h.1 refl)
getstrval_key u (c ∷ k) s i h =
    let str = u ++ (c ∷ (k ++ b' ' ∷ b'=' ∷ b' ' ∷ s)) in
    rw
      (
        skip-IsUnread u c (k ++ b' ' ∷ b'=' ∷ b' ' ∷ s) i (ground arith),
        key_loop (suc (length str)) str [] (c ∷ k) (b' ' ∷ s)
            (omega (
              arith,
              length-append u (c ∷ (k ++ b' ' ∷ b'=' ∷ b' ' ∷ s)),
              length-append k (b' ' ∷ b'=' ∷ b' ' ∷ s),
            ))
            h.0,
      )
      (returns (refl, refl, refl))

after_key_value :
    (in_ : Bytes) (t : Strval) (c : ℕ) (k w v s : Bytes)
    → t.val ≡ c ∷ k
    → t.rest ≡ b' ' ∷ (w ++ b'\n' ∷ s)
    → t.delim_found ≡ true
    → c ≢ b';'
    → IsValueText w v
    → Yields (λ kv. (kv.key ≡ c ∷ k) × (kv.value ≡ v) × (kv.rest ≡ s)) (after_key in_ t (c ∷ k))
unfolding after_key get_value
after_key_value in_ t c k w v s e r d n i =
    let b : (c == b';') ≡ false = ground arith in
    rw (b, d, r) (Yields-bind (getstrval_value w v s i) λ u h. returns (e, h.0, h.1))

-- A line of a printed map, with blanks in front: the key, the value, and the text behind the line.
pub getkeyval_line :
    (u k w v s : Bytes)
    → IsUnread u
    → IsKey k
    → IsValueText w v
    → Yields
        (λ kv. (kv.key ≡ k) × (kv.value ≡ v) × (kv.rest ≡ s))
        (getkeyval (u ++ (k ++ b' ' ∷ b'=' ∷ b' ' ∷ (w ++ b'\n' ∷ s))))
unfolding getkeyval
getkeyval_line u [] w v s n h i = absurd (h.1 refl)
getkeyval_line u (c ∷ k) w v s n h i =
    Yields-bind (getstrval_key u (c ∷ k) (w ++ b'\n' ∷ s) n h)
      λ t e. Yields-subst (ap (after_key _ t) e.0) (after_key_value _ t c k w v s e.0 e.1 e.2 h.2 i)
