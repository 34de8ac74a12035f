-- ===== src/Options/Forms.antt =====
-- The ways to give an option its argument in `option_set::process` of src/options.cpp.
use ztd.Base.{
  ℕ, zero, suc, ◌≤◌, true, false, ◌&&◌, Option, none, some, List, [], ◌∷◌, ◌++◌, ◌≡◌, ◌≢◌, refl,
  ◌∙◌, arith, length, take-length, get_elem?, map, drop,
}
use ztd.Base.Text.{Bytes, find_byte}
use ztd.Options.Invariant.{Keeps, shape, activate-Keeps}
use ztd.Options.Process.{
  Outcome, Turn, next, over, activate, pointed, long_plain, long_equals, long_option,
  cluster_argument, cluster, after_cluster, short_option, turn, process_loop, process, is_digit,
  dashes,
}
use ztd.Options.Runs.{TurnKeeps, turn-TurnKeeps}
use ztd.Options.{CliOption, OptionSet, ProcessArguments, find_short, find_long}

pub find_byte-append :
    (c : ℕ) (name arg : Bytes)
    → find_byte c name ≡ none
    → find_byte c (name ++ c ∷ arg) ≡ some (length name)
find_byte-append c [] arg h = ground arith
find_byte-append c (d ∷ name) arg h = ground (arith, find_byte-append c name arg)

pub drop-length : (c : ℕ) (name arg : Bytes) → drop (suc (length name)) (name ++ c ∷ arg) ≡ arg
drop-length c [] arg = refl
drop-length c (d ∷ name) arg = drop-length c name arg

-- A loop with enough fuel does not depend on it.
turn_fuel :
    (shapes : List CliOption) (f g : ℕ) (b : ProcessArguments) (n : ℕ) (t : Turn)
    → ((s : OptionSet) (out args : List Bytes)
        → length args ≤ f
        → length args ≤ g
        → Keeps shapes s
        → process_loop f b s out args ≡ process_loop g b s out args)
    → n ≤ f
    → n ≤ g
    → TurnKeeps shapes n t
    → ◌≡◌ {A = Option Outcome}
        (elim t [ over o ↦ some o | next s' out' rest' ↦ process_loop f b s' out' rest' ])
        (elim t [ over o ↦ some o | next s' out' rest' ↦ process_loop g b s' out' rest' ])
turn_fuel shapes f g b n (next s out rest) same l k h =
    same s out rest (omega arith) (omega arith) h.0
turn_fuel shapes f g b n (over o) same l k h = refl

process_loop_fuel :
    (shapes : List CliOption) (f g : ℕ) (b : ProcessArguments) (s : OptionSet)
    (out args : List Bytes)
    → length args ≤ f
    → length args ≤ g
    → Keeps shapes s
    → process_loop f b s out args ≡ process_loop g b s out args
unfolding process_loop
process_loop_fuel shapes zero zero b s out [] l k h = refl
process_loop_fuel shapes zero (suc g) b s out [] l k h = refl
process_loop_fuel shapes (suc f) zero b s out [] l k h = refl
process_loop_fuel shapes (suc f) (suc g) b s out [] l k h = refl
process_loop_fuel shapes zero g b s out (a ∷ args) l k h = elim l [ ]
process_loop_fuel shapes (suc f) zero b s out (a ∷ args) l k h = elim k [ ]
process_loop_fuel shapes (suc f) (suc g) b s out (a ∷ args) l k h =
    turn_fuel shapes f g b (length args) (turn b s out a args) (process_loop_fuel shapes f g b)
      (omega arith) (omega arith) (turn-TurnKeeps shapes b s out a args h)

-- Two first turns that go on alike, one of which took an argument more.
process_same :
    (b : ProcessArguments) (s : OptionSet) (x y v : Bytes) (rest : List Bytes) (s' : OptionSet)
    → let start = record s { option_sequence = [] } in
      turn b start [] x rest ≡ next s' [] rest
      → turn b start [] y (v ∷ rest) ≡ next s' [] rest
      → Keeps (map shape s.option_vec) s'
      → process b s (x ∷ rest) ≡ process b s (y ∷ v ∷ rest)
unfolding process
process_same b s x y v rest s' p q k =
    rw (p, process_loop)
      (rw (q, process_loop)
        (process_loop_fuel (map shape s.option_vec) (length rest) (suc (length rest)) b s' [] rest
          (omega arith) (omega arith) k))

-- What `find` gives: the option, at its index, and it takes an argument.
abbrev pub FindsArgument : OptionSet → Option ℕ → ℕ → CliOption → Type 0
FindsArgument s p i o =
    (p ≡ some i) × (get_elem? s.option_vec i ≡ some o) × (o.takes_argument ≡ true)

pub pointed-some :
    (s : OptionSet) {p : Option ℕ} {i : ℕ} {o : CliOption}
    → p ≡ some i
    → get_elem? s.option_vec i ≡ some o
    → pointed s p ≡ some (i, o)
unfolding pointed
pointed-some s e h = rw e (rw (h, pointed))

module _ (b : ProcessArguments) (s : OptionSet) (i : ℕ) (o : CliOption) where
  long_plain_argument :
      (out : List Bytes) (whole name v : Bytes) (rest : List Bytes)
      → FindsArgument s (find_long s name) i o
      → long_plain b s out whole name (v ∷ rest) ≡ next (activate s i o (some v)) out rest
  unfolding long_plain
  long_plain_argument out whole name v rest h = rw (pointed-some s h.0 h.1, long_plain) (rw h.2)

  long_equals_argument :
      (out : List Bytes) (whole name v : Bytes) (rest : List Bytes)
      → FindsArgument s (find_long s name) i o
      → long_equals b s out whole name v rest ≡ next (activate s i o (some v)) out rest
  unfolding long_equals
  long_equals_argument out whole name v rest h = rw (pointed-some s h.0 h.1, long_equals) (rw h.2)

  turn_long :
      (out : List Bytes) (c : ℕ) (name v : Bytes) (rest : List Bytes)
      → find_byte b'=' (c ∷ name) ≡ none
      → FindsArgument s (find_long s (c ∷ name)) i o
      → turn b s out (dashes (c ∷ name)) (v ∷ rest) ≡ next (activate s i o (some v)) out rest
  unfolding turn
  turn_long out c name v rest e h =
      rw (e, long_option) (long_plain_argument out _ (c ∷ name) v rest h)

  turn_long_equals :
      (out : List Bytes) (c : ℕ) (name v : Bytes) (rest : List Bytes)
      → find_byte b'=' (c ∷ name) ≡ none
      → FindsArgument s (find_long s (c ∷ name)) i o
      → turn b s out (dashes ((c ∷ name) ++ b'=' ∷ v)) rest
        ≡ next (activate s i o (some v)) out rest
  unfolding turn
  turn_long_equals out c name v rest e h =
      rw (find_byte-append b'=' (c ∷ name) v e, long_option)
        (rw (take-length (c ∷ name) (b'=' ∷ v))
          (rw (drop-length b'=' (c ∷ name) v) (long_equals_argument out _ (c ∷ name) v rest h)))

  cluster_opens :
      (c : ℕ) (chars : Bytes) (rest : List Bytes)
      → FindsArgument s (find_short s c) i o
      → cluster b s [] (c ∷ chars) rest ≡ cluster_argument s [] i o chars rest
  unfolding cluster
  cluster_opens c chars rest h = rw (pointed-some s h.0 h.1, cluster) (simp h.2)

  short_opens :
      (out : List Bytes) (c : ℕ) (chars : Bytes) (rest : List Bytes)
      → (b.ignore_numbers && is_digit c) ≡ false
      → FindsArgument s (find_short s c) i o
      → short_option b s out c chars rest ≡ after_cluster out (cluster_argument s [] i o chars rest)
  unfolding short_option
  short_opens out c chars rest n h = rw n (rw (cluster_opens c chars rest h))

  turn-short_option :
      (out : List Bytes) (c : ℕ) (chars : Bytes) (rest : List Bytes)
      → c ≢ b'-'
      → turn b s out (b'-' ∷ c ∷ chars) rest ≡ short_option b s out c chars rest
  unfolding turn
  turn-short_option out c chars rest d = ground arith

  -- The second and the third form of a char option with its argument, and the first.
  turn_short :
      (out : List Bytes) (c : ℕ) (v : Bytes) (rest : List Bytes)
      → c ≢ b'-'
      → (b.ignore_numbers && is_digit c) ≡ false
      → FindsArgument s (find_short s c) i o
      → turn b s out (b'-' ∷ c ∷ []) (v ∷ rest) ≡ next (activate s i o (some v)) out rest
  turn_short out c v rest d n h =
      turn-short_option out c [] (v ∷ rest) d
      ∙ short_opens out c [] (v ∷ rest) n h
      ∙ unfold cluster_argument in refl

  turn_short_equals :
      (out : List Bytes) (c : ℕ) (v : Bytes) (rest : List Bytes)
      → c ≢ b'-'
      → (b.ignore_numbers && is_digit c) ≡ false
      → FindsArgument s (find_short s c) i o
      → turn b s out (b'-' ∷ c ∷ b'=' ∷ v) rest ≡ next (activate s i o (some v)) out rest
  turn_short_equals out c v rest d n h =
      turn-short_option out c (b'=' ∷ v) rest d
      ∙ short_opens out c (b'=' ∷ v) rest n h
      ∙ unfold cluster_argument in refl

  turn_short_joined :
      (out : List Bytes) (c a : ℕ) (v : Bytes) (rest : List Bytes)
      → c ≢ b'-'
      → a ≢ b'='
      → (b.ignore_numbers && is_digit c) ≡ false
      → FindsArgument s (find_short s c) i o
      → turn b s out (b'-' ∷ c ∷ a ∷ v) rest ≡ next (activate s i o (some (a ∷ v))) out rest
  turn_short_joined out c a v rest d e n h =
      turn-short_option out c (a ∷ v) rest d
      ∙ short_opens out c (a ∷ v) rest n h
      ∙ unfold cluster_argument in ground arith

abbrev pub started : OptionSet → OptionSet
started s = record s { option_sequence = [] }

started-Keeps : (s : OptionSet) → Keeps (map shape s.option_vec) (started s)
started-Keeps s = record { declared = refl; active = tt }

-- `--name=value` and `--name value` do the same, in front of any arguments: where the first option
-- called `name` takes an argument and the name, which is not empty, holds no `=`.
pub process_long_forms :
    (b : ProcessArguments) (s : OptionSet) (c : ℕ) (name v : Bytes) (rest : List Bytes) (i : ℕ)
    (o : CliOption)
    → find_byte b'=' (c ∷ name) ≡ none
    → FindsArgument s (find_long s (c ∷ name)) i o
    → process b s (dashes ((c ∷ name) ++ b'=' ∷ v) ∷ rest)
      ≡ process b s (dashes (c ∷ name) ∷ v ∷ rest)
process_long_forms b s c name v rest i o e h =
    process_same b s (dashes ((c ∷ name) ++ b'=' ∷ v)) (dashes (c ∷ name)) v rest
      (activate (started s) i o (some v)) (turn_long_equals b (started s) i o [] c name v rest e h')
      (turn_long b (started s) i o [] c name v rest e h')
      (activate-Keeps (started s) i o (some v) (started-Keeps s) h.1)
  where
    h' : FindsArgument (started s) (find_long (started s) (c ∷ name)) i o
    h' = unfold find_long in h

process_short_equals :
    (b : ProcessArguments) (s : OptionSet) (c : ℕ) (v : Bytes) (rest : List Bytes) (i : ℕ)
    (o : CliOption)
    → c ≢ b'-'
    → (b.ignore_numbers && is_digit c) ≡ false
    → FindsArgument s (find_short s c) i o
    → process b s ((b'-' ∷ c ∷ b'=' ∷ v) ∷ rest) ≡ process b s ((b'-' ∷ c ∷ []) ∷ v ∷ rest)
process_short_equals b s c v rest i o d n h =
    process_same b s (b'-' ∷ c ∷ b'=' ∷ v) (b'-' ∷ c ∷ []) v rest
      (activate (started s) i o (some v)) (turn_short_equals b (started s) i o [] c v rest d n h')
      (turn_short b (started s) i o [] c v rest d n h')
      (activate-Keeps (started s) i o (some v) (started-Keeps s) h.1)
  where
    h' : FindsArgument (started s) (find_short (started s) c) i o
    h' = unfold find_short in h

process_short_joined :
    (b : ProcessArguments) (s : OptionSet) (c a : ℕ) (v : Bytes) (rest : List Bytes) (i : ℕ)
    (o : CliOption)
    → c ≢ b'-'
    → a ≢ b'='
    → (b.ignore_numbers && is_digit c) ≡ false
    → FindsArgument s (find_short s c) i o
    → process b s ((b'-' ∷ c ∷ a ∷ v) ∷ rest) ≡ process b s ((b'-' ∷ c ∷ []) ∷ (a ∷ v) ∷ rest)
process_short_joined b s c a v rest i o d e n h =
    process_same b s (b'-' ∷ c ∷ a ∷ v) (b'-' ∷ c ∷ []) (a ∷ v) rest
      (activate (started s) i o (some (a ∷ v)))
      (turn_short_joined b (started s) i o [] c a v rest d e n h')
      (turn_short b (started s) i o [] c (a ∷ v) rest d n h')
      (activate-Keeps (started s) i o (some (a ∷ v)) (started-Keeps s) h.1)
  where
    h' : FindsArgument (started s) (find_short (started s) c) i o
    h' = unfold find_short in h

-- `-c=value` and `-c value` do the same, in front of any arguments, and `-cvalue` does the same if the
-- value is not empty and does not begin with `=`: where the first option with the char `c`, which is no
-- dash and no digit that is to be a number, takes an argument.
pub process_short_forms :
    (b : ProcessArguments) (s : OptionSet) (c : ℕ) (w v : Bytes) (a : ℕ) (rest : List Bytes) (i : ℕ)
    (o : CliOption)
    → c ≢ b'-'
    → a ≢ b'='
    → (b.ignore_numbers && is_digit c) ≡ false
    → FindsArgument s (find_short s c) i o
    → (process b s ((b'-' ∷ c ∷ b'=' ∷ w) ∷ rest) ≡ process b s ((b'-' ∷ c ∷ []) ∷ w ∷ rest))
      × (process b s ((b'-' ∷ c ∷ a ∷ v) ∷ rest) ≡ process b s ((b'-' ∷ c ∷ []) ∷ (a ∷ v) ∷ rest))
process_short_forms b s c w v a rest i o d e n h =
    (process_short_equals b s c w rest i o d n h, process_short_joined b s c a v rest i o d e n h)
