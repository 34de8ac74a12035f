-- ===== src/Parse/KeyValue.antt =====
-- `_getkeyval` of src/filedat.cpp.
use ztd.Base.{
  ℕ, ◌+◌, ◌%◌, Bool, true, false, not, none, some, [], ◌∷◌, ◌++◌, ◌==◌, if◌then◌else◌, length,
  Option,
}
use ztd.Base.Int.{ℤ, pos, minus_one}
use ztd.Base.Text.{Bytes, codes, find_byte}
use ztd.Error.{FormatError, format_error, Result, ok, thrown, ◌>>=◌}
use ztd.Parse.Scan.{skip}
use ztd.Parse.Strval.{Strval, getstrval}

-- key, value, rest, start of rest, start of value, start of key.
pub record Keyval : Type 0 where
  pub key : Bytes
  pub value : Bytes
  pub rest : Bytes
  pub rest_start : ℕ
  pub value_start : ℤ
  pub key_start : ℤ

abbrev pub is_empty : Bytes → Bool
is_empty [] = true
is_empty (c ∷ s) = false

-- `(int) in.find(dpos)`, where `dpos` is converted to a `char`.
abbrev found_at : Option ℕ → ℤ
found_at none = minus_one
found_at (some i) = pos i

abbrev no_key : Bytes → ℕ → FormatError
no_key in_ dpos =
    format_error (codes "Value has no Key") [] in_ (found_at (find_byte (dpos % 256) in_))

abbrev keyless_value : Bytes → Bytes → ℕ → FormatError
keyless_value in_ key keystart =
    format_error (codes "Key '" ++ (key ++ codes "' has no value")) [] in_
      (pos (keystart + length key))

-- The value behind the key; an exception goes out as it is.
unfoldable pub get_value : Strval → Result Keyval
get_value k = getstrval k.rest b';' b'\n' >>= λ v. ok (record {
  key = k.val;
  value = v.val;
  rest = v.rest;
  rest_start = k.rest_start + v.rest_start;
  value_start = pos v.start;
  key_start = pos k.start;
})

-- The tests between the key and the value.
unfoldable pub after_key : Bytes → Strval → Bytes → Result Keyval
unfolding get_value
after_key in_ k [] =
    if not (is_empty (skip k.rest).0) then thrown (no_key in_ k.rest_start) else get_value k
after_key in_ k (c ∷ key) =
    if c == b';'
    then ok (record {
      key = [];
      value = [];
      rest = key ++ k.rest;
      rest_start = k.start + 1;
      value_start = minus_one;
      key_start = minus_one;
    })
    else if not k.delim_found
    then thrown (keyless_value in_ (c ∷ key) k.start)
    else get_value k

unfoldable pub getkeyval : Bytes → Result Keyval
unfolding after_key
getkeyval in_ = getstrval in_ b'=' 0 >>= λ k. after_key in_ k k.val
