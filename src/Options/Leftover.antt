-- ===== src/Options/Leftover.antt =====
-- What `process` does behind arguments that are no options: a double dash, and
-- errors of a `--` option.
use ztd.Base.{
  ℕ, suc, true, false, Option, none, some, List, [], ◌∷◌, ◌++◌, Bool-cases, inl, inr, ◌≡◌, ◌≢◌,
  refl, ◌∙◌, arith, length, if◌then◌else◌, append_assoc, append-nil,
}
use ztd.Base.Text.{Bytes, codes, find_byte}
use ztd.Options.Forms.{FindsArgument, pointed-some, started}
use ztd.Options.Invariant.{All}
use ztd.Options.Process.{
  Outcome, returns, throws, next, over, pointed, long_plain, long_option, plain_argument, turn,
  process_loop, process, dashes,
}
use ztd.Options.{
  CliOption, OptionSet, ProcessArguments, option_error, unknown_option, missing_arg, find_long,
}

-- An argument that is no option: shorter than two bytes, or without a dash at its front.
abbrev pub IsPlain : Bytes → Type 0
IsPlain [] = Unit
IsPlain (c ∷ []) = Unit
IsPlain (c ∷ d ∷ arg) = c ≢ b'-'

plain_argument-next :
    (b : ProcessArguments) (s : OptionSet) (out : List Bytes) (a : Bytes) (rest : List Bytes)
    → b.stop_on_argument ≡ false
    → IsPlain a
    → turn b s out a rest ≡ next s (out ++ a ∷ []) rest
unfolding turn
plain_argument-next b s out [] rest h p = ground arith
plain_argument-next b s out (c ∷ []) rest h p = ground arith
plain_argument-next b s out (c ∷ d ∷ []) rest h p = ground arith
plain_argument-next b s out (c ∷ d ∷ e ∷ arg) rest h p = ground arith

process_loop-plain :
    (b : ProcessArguments) (s : OptionSet) (out args rest : List Bytes)
    → b.stop_on_argument ≡ false
    → All IsPlain args
    → process_loop (length (args ++ rest)) b s out (args ++ rest)
      ≡ process_loop (length rest) b s (out ++ args) rest
unfolding process_loop
process_loop-plain b s out [] rest h p = rw append-nil
process_loop-plain b s out (a ∷ args) rest h p =
    rw (plain_argument-next b s out a (args ++ rest) h p.0, process_loop)
      (process_loop-plain b s (out ++ a ∷ []) args rest h p.1 ∙ rw append_assoc)

-- `process` at the end of arguments that are no options, with these to be returned.
process-plain :
    (b : ProcessArguments) (s : OptionSet) (args rest : List Bytes)
    → b.stop_on_argument ≡ false
    → All IsPlain args
    → process b s (args ++ rest) ≡ process_loop (length rest) b (started s) args rest
unfolding process
process-plain b s args rest h p = process_loop-plain b (started s) [] args rest h p

process_loop-over :
    (b : ProcessArguments) (s : OptionSet) (f : ℕ) (out : List Bytes) (a : Bytes)
    (rest : List Bytes) (o : Outcome)
    → turn b s out a rest ≡ over o
    → process_loop (suc f) b s out (a ∷ rest) ≡ some o
unfolding process_loop
process_loop-over b s f out a rest o e = rw (e, process_loop)

process_loop-next :
    (b : ProcessArguments) (s s' : OptionSet) (f : ℕ) (out out' : List Bytes) (a : Bytes)
    (rest rest' : List Bytes)
    → turn b s out a rest ≡ next s' out' rest'
    → process_loop (suc f) b s out (a ∷ rest) ≡ process_loop f b s' out' rest'
unfolding process_loop
process_loop-next b s s' f out out' a rest rest' e = rw (e, process_loop)

process_loop-plain_end :
    (b : ProcessArguments) (s : OptionSet) (out args : List Bytes)
    → b.stop_on_argument ≡ false
    → All IsPlain args
    → process_loop (length args) b s out args ≡ some (returns s (out ++ args))
process_loop-plain_end b s out args h p =
    rw append-nil at (process_loop-plain b s out args [] h p) ∙ unfold process_loop in refl

-- A first argument behind them that ends the processing.
process-over :
    (b : ProcessArguments) (s : OptionSet) (args : List Bytes) (a : Bytes) (rest : List Bytes)
    (o : Outcome)
    → b.stop_on_argument ≡ false
    → All IsPlain args
    → turn b (started s) args a rest ≡ over o
    → process b s (args ++ a ∷ rest) ≡ some o
process-over b s args a rest o h p e =
    process-plain b s args (a ∷ rest) h p ∙ process_loop-over b (started s) _ args a rest o e

-- A first argument behind them that is returned, and only such arguments behind it.
process-next :
    (b : ProcessArguments) (s : OptionSet) (args : List Bytes) (a : Bytes) (rest : List Bytes)
    → b.stop_on_argument ≡ false
    → All IsPlain args
    → All IsPlain rest
    → turn b (started s) args a rest ≡ next (started s) (args ++ a ∷ []) rest
    → process b s (args ++ a ∷ rest) ≡ some (returns (started s) (args ++ a ∷ rest))
process-next b s args a rest h p q e =
    process-plain b s args (a ∷ rest) h p
    ∙ process_loop-next b (started s) (started s) _ args _ a rest rest e
    ∙ process_loop-plain_end b (started s) (args ++ a ∷ []) rest h q
    ∙ rw append_assoc

pointed-none : (s : OptionSet) {p : Option ℕ} → p ≡ none → pointed s p ≡ none
unfolding pointed
pointed-none s e = rw e

module _ (b : ProcessArguments) (s : OptionSet) (out rest : List Bytes) (c : ℕ) (name : Bytes)
    (e : find_byte b'=' (c ∷ name) ≡ none) (f : find_long s (c ∷ name) ≡ none) where
  turn_unknown :
      turn b s out (dashes (c ∷ name)) rest ≡ long_plain b s out (dashes (c ∷ name)) (c ∷ name) rest
  unfolding turn
  turn_unknown = rw (e, long_option)

  turn_ignored :
      b.ignore_unknown ≡ true
      → turn b s out (dashes (c ∷ name)) rest ≡ next s (out ++ dashes (c ∷ name) ∷ []) rest
  turn_ignored t = turn_unknown ∙ unfold long_plain in rw (pointed-none s f, long_plain) (simp t)

  turn_refused :
      b.ignore_unknown ≡ false
      → turn b s out (dashes (c ∷ name)) rest
        ≡ over (throws s (option_error unknown_option (dashes (c ∷ name))))
  turn_refused t = turn_unknown ∙ unfold long_plain in rw (pointed-none s f, long_plain) (simp t)

-- Where the behavior does not stop on an argument but stops on `--`: behind arguments that are no
-- options a `--` ends the processing. The arguments in front are returned, those behind only if the
-- double dash is to be output, and the `--` itself never.
pub process_doubledash :
    (b : ProcessArguments) (s : OptionSet) (args rest : List Bytes)
    → b.stop_on_argument ≡ false
    → b.stop_on_doubledash ≡ true
    → All IsPlain args
    → process b s (args ++ codes "--" ∷ rest)
      ≡ some (returns (started s) (if b.output_doubledash then args ++ rest else args))
process_doubledash b s args rest h d p =
    process-over b s args (codes "--") rest _ h p (unfold turn plain_argument in simp (h, d))

-- Where the behavior does not stop on an argument: a `--name` behind arguments that are no options,
-- of a name that is not empty, holds no `=` and is no option's, makes `process` throw that it is
-- unknown. If unknown options are ignored, it is returned with the arguments around it instead.
process_unknown :
    (b : ProcessArguments) (s : OptionSet) (args rest : List Bytes) (c : ℕ) (name : Bytes)
    → b.stop_on_argument ≡ false
    → All IsPlain args
    → All IsPlain rest
    → find_byte b'=' (c ∷ name) ≡ none
    → find_long s (c ∷ name) ≡ none
    → process b s (args ++ dashes (c ∷ name) ∷ rest)
      ≡ some (
          if b.ignore_unknown
          then returns (started s) (args ++ dashes (c ∷ name) ∷ rest)
          else throws (started s) (option_error unknown_option (dashes (c ∷ name))))
process_unknown b s args rest c name h p q e f = elim (Bool-cases b.ignore_unknown) [
  | inl t ↦
      process-next b s args (dashes (c ∷ name)) rest h p q
        (turn_ignored b (started s) args rest c name e (unfold find_long in f) t)
      ∙ simp t
  | inr t ↦
      process-over b s args (dashes (c ∷ name)) rest _ h p
        (turn_refused b (started s) args rest c name e (unfold find_long in f) t)
      ∙ simp t
]

-- Where the behavior does not stop on an argument: a `--name` of an option that takes an argument,
-- the last one behind arguments that are no options, makes `process` throw that the argument is
-- missing. The name is not empty and holds no `=`.
process_missing :
    (b : ProcessArguments) (s : OptionSet) (args : List Bytes) (c : ℕ) (name : Bytes) (i : ℕ)
    (o : CliOption)
    → b.stop_on_argument ≡ false
    → All IsPlain args
    → find_byte b'=' (c ∷ name) ≡ none
    → FindsArgument s (find_long s (c ∷ name)) i o
    → process b s (args ++ dashes (c ∷ name) ∷ [])
      ≡ some (throws (started s) (option_error missing_arg (dashes o.str_name)))
process_missing b s args c name i o h p e f = process-over b s args (dashes (c ∷ name)) [] _ h p (
    unfold turn in rw (e, long_option) (rw (pointed-some (started s) f.0 f.1, long_plain) (rw f.2)))
