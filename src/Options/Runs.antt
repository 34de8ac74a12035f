-- ===== src/Options/Runs.antt =====
-- The runs of `option_set::process` of src/options.cpp: their end, and the declarations of the set.
use ztd.Base.{
  take, drop, ℕ, zero, suc, ◌≤◌, Bool, true, false, not, ◌&&◌, Option, none, some, List, [], ◌∷◌,
  ◌++◌, ◌≡◌, refl, arith, if◌then◌else◌, length, get_elem?, map, Option-cases, Bool-cases, inl, inr,
  ◌==◌,
}
use ztd.Base.Text.{Bytes, codes, equal, find_byte}
use ztd.Options.Invariant.{Keeps, shape, activate-Keeps, pointed-cases}
use ztd.Options.Process.{
  Outcome, returns, throws, Turn, next, over, activate, long_argument, long_plain, long_equals,
  long_option, Cluster, ended, broken, cluster_argument, cluster, after_cluster, short_option,
  plain_argument, turn, process_loop, process, is_digit,
}
use ztd.Options.{CliOption, OptionSet, ProcessArguments, find_short, find_long}

-- The set of an outcome keeps its declarations, whether the call returns or throws.
abbrev pub OutcomeKeeps : List CliOption → Outcome → Type 0
OutcomeKeeps shapes (returns s out) = Keeps shapes s
OutcomeKeeps shapes (throws s e) = Keeps shapes s

-- So does the set of a turn, which leaves at most `n` arguments.
abbrev pub TurnKeeps : List CliOption → ℕ → Turn → Type 0
TurnKeeps shapes n (next s out rest) = Keeps shapes s × (length rest ≤ n)
TurnKeeps shapes n (over o) = OutcomeKeeps shapes o

abbrev ClusterKeeps : List CliOption → ℕ → Cluster → Type 0
ClusterKeeps shapes n (ended s ropt rest) = Keeps shapes s × (length rest ≤ n)
ClusterKeeps shapes n (broken s e) = Keeps shapes s

module _ (shapes : List CliOption) where
  if-TurnKeeps :
      (n : ℕ) (b : Bool) (x y : Turn)
      → TurnKeeps shapes n x
      → TurnKeeps shapes n y
      → TurnKeeps shapes n (if b then x else y)
  if-TurnKeeps n true x y hx hy = hx
  if-TurnKeeps n false x y hx hy = hy

  if-ClusterKeeps :
      (n : ℕ) (b : Bool) (x y : Cluster)
      → ClusterKeeps shapes n x
      → ClusterKeeps shapes n y
      → ClusterKeeps shapes n (if b then x else y)
  if-ClusterKeeps n true x y hx hy = hx
  if-ClusterKeeps n false x y hx hy = hy

  long_argument-TurnKeeps :
      (s : OptionSet) (out : List Bytes) (i : ℕ) (o : CliOption) (rest : List Bytes)
      → Keeps shapes s
      → get_elem? s.option_vec i ≡ some o
      → TurnKeeps shapes (length rest) (long_argument s out i o rest)
  long_argument-TurnKeeps s out i o [] k h = k
  long_argument-TurnKeeps s out i o (a ∷ rest) k h =
      (activate-Keeps s i o (some a) k h, omega arith)

  long_plain-TurnKeeps :
      (b : ProcessArguments) (s : OptionSet) (out : List Bytes) (whole name : Bytes)
      (rest : List Bytes)
      → Keeps shapes s
      → TurnKeeps shapes (length rest) (long_plain b s out whole name rest)
  unfolding long_plain
  long_plain-TurnKeeps b s out whole name rest k = elim (pointed-cases s (find_long s name)) [
    | inl e ↦
        rw (e, long_plain) (if-TurnKeeps (length rest) b.ignore_unknown _ _ (k, omega arith) k)
    | inr (i, o, e, h) ↦
        rw (e, long_plain)
          (if-TurnKeeps (length rest) o.takes_argument _ _
            (long_argument-TurnKeeps s out i o rest k h)
            (activate-Keeps s i o none k h, omega arith))
  ]

  long_equals-TurnKeeps :
      (b : ProcessArguments) (s : OptionSet) (out : List Bytes) (whole name arg : Bytes)
      (rest : List Bytes)
      → Keeps shapes s
      → TurnKeeps shapes (length rest) (long_equals b s out whole name arg rest)
  unfolding long_equals
  long_equals-TurnKeeps b s out whole name arg rest k = elim (pointed-cases s (find_long s name)) [
    | inl e ↦
        rw (e, long_equals) (if-TurnKeeps (length rest) b.ignore_unknown _ _ (k, omega arith) k)
    | inr (i, o, e, h) ↦
        rw (e, long_equals)
          (if-TurnKeeps (length rest) (not o.takes_argument) _ _ k
            (activate-Keeps s i o (some arg) k h, omega arith))
  ]

  cluster_argument-ClusterKeeps :
      (s : OptionSet) (ropt : Bytes) (i : ℕ) (o : CliOption) (chars : Bytes) (rest : List Bytes)
      → Keeps shapes s
      → get_elem? s.option_vec i ≡ some o
      → ClusterKeeps shapes (length rest) (cluster_argument s ropt i o chars rest)
  unfolding cluster_argument
  cluster_argument-ClusterKeeps s ropt i o [] [] k h = k
  cluster_argument-ClusterKeeps s ropt i o [] (a ∷ rest) k h =
      (activate-Keeps s i o (some a) k h, omega arith)
  cluster_argument-ClusterKeeps s ropt i o (c ∷ chars) rest k h =
      (activate-Keeps s i o _ k h, omega arith)

  cluster-ClusterKeeps :
      (b : ProcessArguments) (s : OptionSet) (ropt chars : Bytes) (rest : List Bytes)
      → Keeps shapes s
      → ClusterKeeps shapes (length rest) (cluster b s ropt chars rest)
  unfolding cluster
  cluster-ClusterKeeps b s ropt [] rest k = (k, omega arith)
  cluster-ClusterKeeps b s ropt (c ∷ chars) rest k = elim (pointed-cases s (find_short s c)) [
    | inl e ↦
        rw (e, cluster)
          (if-ClusterKeeps (length rest) (not b.ignore_unknown) _ _ k
            (cluster-ClusterKeeps b s (ropt ++ c ∷ []) chars rest k))
    | inr (i, o, e, h) ↦ elim (Bool-cases o.takes_argument) [
      | inl t ↦ rw (e, cluster) (rw t (cluster_argument-ClusterKeeps s ropt i o chars rest k h))
      | inr t ↦
          rw (e, cluster)
            (rw t (
              cluster-ClusterKeeps b (activate s i o none) ropt chars rest
                (activate-Keeps s i o none k h)))
    ]
  ]

  after_cluster-TurnKeeps :
      (out : List Bytes) (n : ℕ) (c : Cluster)
      → ClusterKeeps shapes n c
      → TurnKeeps shapes n (after_cluster out c)
  after_cluster-TurnKeeps out n (broken s e) k = k
  after_cluster-TurnKeeps out n (ended s [] rest) k = k
  after_cluster-TurnKeeps out n (ended s (c ∷ ropt) rest) k = k

  plain_argument-TurnKeeps :
      (b : ProcessArguments) (s : OptionSet) (out : List Bytes) (whole : Bytes) (rest : List Bytes)
      → Keeps shapes s
      → TurnKeeps shapes (length rest) (plain_argument b s out whole rest)
  unfolding plain_argument
  plain_argument-TurnKeeps b s out whole rest k =
      if-TurnKeeps (length rest) b.stop_on_argument _ _ k (
        if-TurnKeeps (length rest) (b.stop_on_doubledash && equal whole (codes "--")) _ _ k
          (k, omega arith))

  short_option-TurnKeeps :
      (b : ProcessArguments) (s : OptionSet) (out : List Bytes) (c : ℕ) (chars : Bytes)
      (rest : List Bytes)
      → Keeps shapes s
      → TurnKeeps shapes (length rest) (short_option b s out c chars rest)
  unfolding short_option
  short_option-TurnKeeps b s out c chars rest k =
      if-TurnKeeps (length rest) (b.ignore_numbers && is_digit c) _ _
        (if-TurnKeeps (length rest) b.stop_on_argument _ _ k (k, omega arith))
        (after_cluster-TurnKeeps out (length rest) _
          (cluster-ClusterKeeps b s [] (c ∷ chars) rest k))

  long_option-TurnKeeps :
      (b : ProcessArguments) (s : OptionSet) (out : List Bytes) (whole body : Bytes)
      (rest : List Bytes)
      → Keeps shapes s
      → TurnKeeps shapes (length rest) (long_option b s out whole body rest)
  unfolding long_option
  long_option-TurnKeeps b s out whole body rest k = elim (Option-cases (find_byte b'=' body)) [
    | inl e ↦ rw (e, long_option) (long_plain-TurnKeeps b s out whole body rest k)
    | inr (i, e) ↦
        rw (e, long_option)
          (long_equals-TurnKeeps b s out whole (take i body) (drop (suc i) body) rest k)
  ]

  pub turn-TurnKeeps :
      (b : ProcessArguments) (s : OptionSet) (out : List Bytes) (a : Bytes) (rest : List Bytes)
      → Keeps shapes s
      → TurnKeeps shapes (length rest) (turn b s out a rest)
  unfolding turn
  turn-TurnKeeps b s out [] rest k = plain_argument-TurnKeeps b s out [] rest k
  turn-TurnKeeps b s out (x ∷ []) rest k = plain_argument-TurnKeeps b s out (x ∷ []) rest k
  turn-TurnKeeps b s out (x ∷ y ∷ []) rest k =
      if-TurnKeeps (length rest) (x == b'-' && y == b'-') _ _
        (plain_argument-TurnKeeps b s out (x ∷ y ∷ []) rest k)
        (if-TurnKeeps (length rest) (x == b'-') _ _ (short_option-TurnKeeps b s out y [] rest k)
          (plain_argument-TurnKeeps b s out (x ∷ y ∷ []) rest k))
  turn-TurnKeeps b s out (x ∷ y ∷ z ∷ zs) rest k =
      if-TurnKeeps (length rest) (x == b'-' && y == b'-') _ _
        (long_option-TurnKeeps b s out (x ∷ y ∷ z ∷ zs) (z ∷ zs) rest k)
        (if-TurnKeeps (length rest) (x == b'-') _ _
          (short_option-TurnKeeps b s out y (z ∷ zs) rest k)
          (plain_argument-TurnKeeps b s out (x ∷ y ∷ z ∷ zs) rest k))

  -- The loop ends in an outcome that keeps the declarations.
  abbrev Finishes : Option Outcome → Type 0
  Finishes none = ⊥
  Finishes (some o) = OutcomeKeeps shapes o

  -- The loop behind a turn, by the statement about the fuel that is left.
  turn-Finishes :
      (fuel : ℕ) (b : ProcessArguments) (n : ℕ) (t : Turn)
      → ((s : OptionSet) (out args : List Bytes)
          → length args ≤ fuel
          → Keeps shapes s
          → Finishes (process_loop fuel b s out args))
      → n ≤ fuel
      → TurnKeeps shapes n t
      → Finishes
          (elim t [ over o ↦ some o | next s' out' rest' ↦ process_loop fuel b s' out' rest' ])
  turn-Finishes fuel b n (next s out rest) ih l k = ih s out rest (omega arith) k.0
  turn-Finishes fuel b n (over o) ih l k = k

  process_loop-Finishes :
      (fuel : ℕ) (b : ProcessArguments) (s : OptionSet) (out args : List Bytes)
      → length args ≤ fuel
      → Keeps shapes s
      → Finishes (process_loop fuel b s out args)
  unfolding process_loop
  process_loop-Finishes zero b s out [] l k = k
  process_loop-Finishes (suc fuel) b s out [] l k = k
  process_loop-Finishes zero b s out (a ∷ rest) l k = elim l [ ]
  process_loop-Finishes (suc fuel) b s out (a ∷ rest) l k =
      turn-Finishes fuel b (length rest) (turn b s out a rest) (process_loop-Finishes fuel b)
        (omega arith) (turn-TurnKeeps b s out a rest k)

-- `process` ends on every list of arguments. Whether it returns or throws, the options of the set are
-- declared as before, only their status may differ, and every option of the sequence is active and, up
-- to its status, one of those declared.
pub process-Keeps :
    (b : ProcessArguments) (s : OptionSet) (args : List Bytes)
    → (o : Outcome) × (process b s args ≡ some o) × OutcomeKeeps (map shape s.option_vec) o
unfolding process
process-Keeps b s args = finished (process_loop (length args) b start [] args) (
    process_loop-Finishes (map shape s.option_vec) (length args) b start [] args (omega arith)
      (record { declared = refl; active = tt }))
  where
    start : OptionSet
    start = record s { option_sequence = [] }

    finished :
        (r : Option Outcome)
        → Finishes (map shape s.option_vec) r
        → (o : Outcome) × (r ≡ some o) × OutcomeKeeps (map shape s.option_vec) o
    finished none h = absurd h
    finished (some o) h = (o, refl, h)
