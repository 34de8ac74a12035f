-- ===== src/Options/Process.antt =====
-- `option_set::process` of src/options.cpp. The iterator is the list of the arguments that are left.
-- The outcome has the set as it stands when the call returns or throws.
use ztd.Base.{
  ℕ, zero, suc, Bool, true, false, not, ◌&&◌, Option, none, some, List, [], ◌∷◌, ◌++◌, ◌==◌, leb,
  if◌then◌else◌, length, get_elem?, set, drop, take,
}
use ztd.Base.Text.{Bytes, codes, equal, find_byte}
use ztd.Options.{
  CliOption, OptionSet, ProcessArguments, OptionError, option_error, unknown_option, takes_no_arg,
  missing_arg, find_short, find_long,
}

pub data Outcome : Type 0 where
  returns : OptionSet → List Bytes → Outcome
  throws : OptionSet → OptionError → Outcome

-- What one argument leads to: the next arguments, or the end of the call.
pub data Turn : Type 0 where
  next : OptionSet → List Bytes → List Bytes → Turn
  over : Outcome → Turn

-- `popt->activated = true; popt->argument = arg; option_sequence.push_back(*popt);`, where `none`
-- leaves the argument as it is.
unfoldable pub activate : OptionSet → ℕ → CliOption → Option Bytes → OptionSet
activate s i o arg =
    let o' = record o {
      activated = true;
      argument = elim arg [ none ↦ o.argument | some a ↦ a ];
    } in
    record { option_vec = set s.option_vec i o'; option_sequence = s.option_sequence ++ o' ∷ [] }

abbrev pub dashes : Bytes → Bytes
dashes name = b'-' ∷ b'-' ∷ name

-- The option that a pointer of `find` stands for.
unfoldable pub pointed : OptionSet → Option ℕ → Option (ℕ × CliOption)
pointed s none = none
pointed s (some i) = elim (get_elem? s.option_vec i) [ none ↦ none | some o ↦ some (i, o) ]

-- A `--` option whose argument is to follow.
abbrev pub long_argument : OptionSet → List Bytes → ℕ → CliOption → List Bytes → Turn
long_argument s out i o [] = over (throws s (option_error missing_arg (dashes o.str_name)))
long_argument s out i o (a ∷ rest) = next (activate s i o (some a)) out rest

-- `--name`: no `=` in the argument.
unfoldable pub long_plain :
    ProcessArguments → OptionSet → List Bytes → Bytes → Bytes → List Bytes → Turn
unfolding pointed find_long
long_plain behavior s out whole name rest = elim (pointed s (find_long s name)) [
  | none ↦
      if behavior.ignore_unknown
      then next s (out ++ whole ∷ []) rest
      else over (throws s (option_error unknown_option (dashes name)))
  | some (i, o) ↦
      if o.takes_argument then long_argument s out i o rest else next (activate s i o none) out rest
]

-- `--name=arg`.
unfoldable pub long_equals :
    ProcessArguments → OptionSet → List Bytes → Bytes → Bytes → Bytes → List Bytes → Turn
unfolding pointed find_long
long_equals behavior s out whole name arg rest = elim (pointed s (find_long s name)) [
  | none ↦
      if behavior.ignore_unknown
      then next s (out ++ whole ∷ []) rest
      else over (throws s (option_error unknown_option (dashes name)))
  | some (i, o) ↦
      if not o.takes_argument
      then over (throws s (option_error takes_no_arg (dashes o.str_name)))
      else next (activate s i o (some arg)) out rest
]

-- An argument that begins with `--` and is longer: `whole`, of which `body` is behind the dashes.
unfoldable pub long_option :
    ProcessArguments → OptionSet → List Bytes → Bytes → Bytes → List Bytes → Turn
unfolding long_plain long_equals
long_option behavior s out whole body rest = elim (find_byte b'=' body) [
  | none ↦ long_plain behavior s out whole body rest
  | some eqn ↦ long_equals behavior s out whole (take eqn body) (drop (suc eqn) body) rest
]

-- The loop over the chars of a `-` argument: the ignored ones, and the arguments that are left.
pub data Cluster : Type 0 where
  ended : OptionSet → Bytes → List Bytes → Cluster
  broken : OptionSet → OptionError → Cluster

-- An option char that needs an argument: the next argument, or the rest of this one without a `=`.
unfoldable pub cluster_argument : OptionSet → Bytes → ℕ → CliOption → Bytes → List Bytes → Cluster
cluster_argument s ropt i o [] [] = broken s (option_error missing_arg (b'-' ∷ o.char_name ∷ []))
cluster_argument s ropt i o [] (a ∷ rest) = ended (activate s i o (some a)) ropt rest
cluster_argument s ropt i o (c ∷ chars) rest =
    ended (activate s i o (some (if c == b'=' then chars else c ∷ chars))) ropt rest

unfoldable pub cluster : ProcessArguments → OptionSet → Bytes → Bytes → List Bytes → Cluster
unfolding pointed find_short cluster_argument
cluster behavior s ropt [] rest = ended s ropt rest
cluster behavior s ropt (c ∷ chars) rest = elim (pointed s (find_short s c)) [
  | none ↦
      if not behavior.ignore_unknown
      then broken s (option_error unknown_option (b'-' ∷ c ∷ []))
      else cluster behavior s (ropt ++ c ∷ []) chars rest
  | some (i, o) ↦ elim o.takes_argument [
    | true ↦ cluster_argument s ropt i o chars rest
    | false ↦ cluster behavior (activate s i o none) ropt chars rest
  ]
]

abbrev pub after_cluster : List Bytes → Cluster → Turn
after_cluster out (broken s e) = over (throws s e)
after_cluster out (ended s [] rest) = next s out rest
after_cluster out (ended s (c ∷ ropt) rest) = next s (out ++ (b'-' ∷ c ∷ ropt) ∷ []) rest

unfoldable pub is_digit : ℕ → Bool
is_digit c = leb b'0' c && leb c b'9'

-- An argument that begins with one dash and is longer; its second char is `c`.
unfoldable pub short_option :
    ProcessArguments → OptionSet → List Bytes → ℕ → Bytes → List Bytes → Turn
unfolding cluster is_digit
short_option behavior s out c chars rest =
    if behavior.ignore_numbers && is_digit c
    then (if behavior.stop_on_argument
        then over (returns s ((b'-' ∷ c ∷ chars) ∷ rest))
        else next s (out ++ (b'-' ∷ c ∷ chars) ∷ []) rest)
    else after_cluster out (cluster behavior s [] (c ∷ chars) rest)

-- Any other argument.
unfoldable pub plain_argument :
    ProcessArguments → OptionSet → List Bytes → Bytes → List Bytes → Turn
plain_argument behavior s out whole rest =
    if behavior.stop_on_argument
    then over (returns s (whole ∷ rest))
    else if behavior.stop_on_doubledash && equal whole (codes "--")
    then over (returns s (if behavior.output_doubledash then out ++ rest else out))
    else next s (out ++ whole ∷ []) rest

-- One argument.
unfoldable pub turn : ProcessArguments → OptionSet → List Bytes → Bytes → List Bytes → Turn
unfolding long_option short_option plain_argument
turn behavior s out [] rest = plain_argument behavior s out [] rest
turn behavior s out (a ∷ []) rest = plain_argument behavior s out (a ∷ []) rest
turn behavior s out (a ∷ b ∷ body) rest =
    if a == b'-' && b == b'-'
    then elim body [
      | [] ↦ plain_argument behavior s out (a ∷ b ∷ []) rest
      | c ∷ cs ↦ long_option behavior s out (a ∷ b ∷ c ∷ cs) (c ∷ cs) rest
    ]
    else if a == b'-'
    then short_option behavior s out b body rest
    else plain_argument behavior s out (a ∷ b ∷ body) rest

-- The loop, on fuel: one unit for each argument.
unfoldable pub process_loop :
    ℕ → ProcessArguments → OptionSet → List Bytes → List Bytes → Option Outcome
unfolding turn
process_loop fuel behavior s out [] = some (returns s out)
process_loop zero behavior s out (a ∷ rest) = none
process_loop (suc fuel) behavior s out (a ∷ rest) = elim (turn behavior s out a rest) [
  | over o ↦ some o
  | next s' out' rest' ↦ process_loop fuel behavior s' out' rest'
]

-- `process(arguments, behavior)`; `none` would be a loop that does not end.
unfoldable pub process : ProcessArguments → OptionSet → List Bytes → Option Outcome
unfolding process_loop
process behavior s arguments =
    process_loop (length arguments) behavior (record s { option_sequence = [] }) [] arguments
