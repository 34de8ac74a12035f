-- ===== src/Options.antt =====
-- `option_set` of include/options.hpp and src/options.cpp: the state, `find`, and the constructors.
-- A pointer into `option_vec` is an index.
mod Examples
pub mod Process
pub mod Invariant
pub mod Runs
pub mod Forms
pub mod Leftover
pub mod Help
use ztd.Base.{
  ℕ, zero, suc, Bool, true, false, ◌&&◌, Option, none, some, List, [], ◌∷◌, ◌++◌, ◌==◌,
  if◌then◌else◌,
}
use ztd.Base.Text.{Bytes, codes, equal}

pub record CliOption : Type 0 where
  pub short_def : Bool
  pub char_name : ℕ
  pub long_def : Bool
  pub str_name : Bytes
  pub takes_argument : Bool
  pub help_text : Bytes
  pub arg_name : Bytes
  pub activated : Bool
  pub argument : Bytes

-- `option()`.
abbrev pub no_option : CliOption
no_option = record {
  short_def = false;
  char_name = 0;
  long_def = false;
  str_name = [];
  takes_argument = false;
  help_text = [];
  arg_name = [];
  activated = false;
  argument = [];
}

-- `option(opt)`.
abbrev pub copied_option : CliOption → CliOption
copied_option opt = record {
  short_def = opt.short_def;
  char_name = opt.char_name;
  long_def = opt.long_def;
  str_name = opt.str_name;
  takes_argument = opt.takes_argument;
  help_text = opt.help_text;
  arg_name = opt.arg_name;
  activated = opt.activated;
  argument = opt.argument;
}

-- The constructors by char, by string, and by both.
abbrev pub char_option : ℕ → Bool → Bytes → Bytes → CliOption
char_option c arg helptext argname = record {
  short_def = true;
  char_name = c;
  long_def = false;
  str_name = [];
  takes_argument = arg;
  help_text = helptext;
  arg_name = argname;
  activated = false;
  argument = [];
}

abbrev pub string_option : Bytes → Bool → Bytes → Bytes → CliOption
string_option str arg helptext argname = record {
  short_def = false;
  char_name = 0;
  long_def = true;
  str_name = str;
  takes_argument = arg;
  help_text = helptext;
  arg_name = argname;
  activated = false;
  argument = [];
}

abbrev pub both_option : ℕ → Bytes → Bool → Bytes → Bytes → CliOption
both_option c str arg helptext argname = record {
  short_def = true;
  char_name = c;
  long_def = true;
  str_name = str;
  takes_argument = arg;
  help_text = helptext;
  arg_name = argname;
  activated = false;
  argument = [];
}

pub record OptionSet : Type 0 where
  pub option_vec : List CliOption
  pub option_sequence : List CliOption

-- `add(option opt)`.
unfoldable pub add : OptionSet → CliOption → OptionSet
add s opt = record s { option_vec = s.option_vec ++ opt ∷ [] }

-- `struct process_arguments`, and its default.
pub record ProcessArguments : Type 0 where
  pub ignore_numbers : Bool
  pub stop_on_argument : Bool
  pub ignore_unknown : Bool
  pub stop_on_doubledash : Bool
  pub output_doubledash : Bool

abbrev pub default_process_args : ProcessArguments
default_process_args = record {
  ignore_numbers = false;
  stop_on_argument = false;
  ignore_unknown = false;
  stop_on_doubledash = true;
  output_doubledash = false;
}

-- `option_error`.
pub data ErrorType : Type 0 where
  unknown_option takes_no_arg missing_arg : ErrorType

pub record OptionError : Type 0 where
  pub errtype : ErrorType
  pub opt : Bytes
  pub msg : Bytes

message : ErrorType → Bytes → Bytes
message unknown_option opt = codes "Unknown option: " ++ opt
message takes_no_arg opt = codes "Option " ++ (opt ++ codes " doesn't take an argument")
message missing_arg opt = codes "Option " ++ (opt ++ codes " needs an argument")

unfoldable pub option_error : ErrorType → Bytes → OptionError
unfolding message
option_error type option = record { errtype = type; opt = option; msg = message type option }

-- `find(const char)` and `find(const std::string&)`: the first option that `test` accepts.
unfoldable pub find_index : (CliOption → Bool) → List CliOption → Option ℕ
find_index test [] = none
find_index test (o ∷ opts) =
    if test o then some 0 else elim (find_index test opts) [ none ↦ none | some i ↦ some (suc i) ]

unfoldable pub is_short : ℕ → CliOption → Bool
is_short c o = o.short_def && o.char_name == c

unfoldable pub is_long : Bytes → CliOption → Bool
is_long str o = o.long_def && equal o.str_name str

unfoldable pub find_short : OptionSet → ℕ → Option ℕ
unfolding find_index is_short
find_short s c = find_index (is_short c) s.option_vec

unfoldable pub find_long : OptionSet → Bytes → Option ℕ
unfolding find_index is_long
find_long s str = find_index (is_long str) s.option_vec
