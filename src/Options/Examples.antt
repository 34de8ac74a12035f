-- ===== src/Options/Examples.antt =====
-- Command lines that are run through a set of options, and the theorems at these.
use ztd.Base.{
  length, leb, ◌+◌, ◌-◌, if◌then◌else◌, true, false, some, [], ◌∷◌, ◌≡◌, refl, arith, map, List,
}
use ztd.Base.Text.{Bytes, codes}
use ztd.Options.Forms.{process_long_forms, process_short_forms}
use ztd.Base.Int.{pos}
use ztd.Options.Help.{width, help_head, length-help_head}
use ztd.Options.Invariant.{shape}
use ztd.Options.Leftover.{process_doubledash}
use ztd.Options.Process.{Outcome, process, returns}
use ztd.Options.Runs.{OutcomeKeeps, process-Keeps}
use ztd.Options.{
  CliOption, OptionSet, both_option, char_option, default_process_args, find_long, find_short,
}

abbrev output_option : CliOption
output_option = both_option b'o' (codes "output") true (codes "output file") (codes "path")

abbrev some_set : OptionSet
some_set = record {
  option_vec = char_option b'v' false (codes "verbose") [] ∷ output_option ∷ [];
  option_sequence = [];
}

abbrev command_line : List Bytes
command_line = codes "in" ∷ codes "-vo" ∷ codes "x" ∷ codes "--" ∷ codes "y" ∷ []

process-Keeps_example :
    (o : Outcome) × (process default_process_args some_set command_line ≡ some o)
    × OutcomeKeeps (map shape some_set.option_vec) o
process-Keeps_example = process-Keeps default_process_args some_set command_line

process_long_forms_example :
    process default_process_args some_set (codes "--output=a=b" ∷ codes "-v" ∷ [])
    ≡ process default_process_args some_set (codes "--output" ∷ codes "a=b" ∷ codes "-v" ∷ [])
process_long_forms_example =
    process_long_forms default_process_args some_set b'o' (codes "utput") (codes "a=b")
      (codes "-v" ∷ []) 1 output_option refl (unfold find_long in (refl, refl, refl))

process_short_forms_example :
    (process default_process_args some_set (codes "-o=" ∷ codes "-v" ∷ [])
      ≡ process default_process_args some_set (codes "-o" ∷ [] ∷ codes "-v" ∷ []))
    × (process default_process_args some_set (codes "-ox" ∷ codes "-v" ∷ [])
        ≡ process default_process_args some_set (codes "-o" ∷ codes "x" ∷ codes "-v" ∷ []))
process_short_forms_example =
    process_short_forms default_process_args some_set b'o' [] [] b'x' (codes "-v" ∷ []) 1
      output_option (omega arith) (omega arith) refl (unfold find_short in (refl, refl, refl))

process_doubledash_example :
    process default_process_args some_set (codes "in" ∷ codes "--" ∷ codes "-v" ∷ [])
    ≡ some (returns some_set (codes "in" ∷ []))
process_doubledash_example =
    process_doubledash default_process_args some_set (codes "in" ∷ []) (codes "-v" ∷ []) refl refl
      ((omega arith), tt)

length-help_head_example :
    length (help_head (pos 2) (pos 25) output_option)
    ≡ 2
      + (if leb (width output_option) 25
          then 25
          else width output_option + (width output_option - 25))
length-help_head_example = length-help_head 2 25 output_option
