-- ===== src/RoundTrip.antt =====
-- The printer and the reader of src/filedat.cpp together: `chunkdat::strval` and `chunkdat::set`.
pub mod Crossing
pub mod Nested
pub mod Lists
pub mod Refused
pub mod Texts
pub mod Pairs
pub mod Lines
pub mod Reads
pub mod Bodies
pub mod Chunks
pub mod Stays
pub mod Comments
pub mod Files
pub mod Exported
mod Examples
use ztd.Base.{
  ℕ, suc, ◌<◌, Bool, true, false, not, ◌&&◌, ◌||◌, [], ◌∷◌, ◌≡◌, ◌≢◌, ◌==◌, if◌then◌else◌,
}
use ztd.Base.Text.{Bytes, head_byte}
use ztd.Chunk.{
  Chunkdat, ChunkAbstract, Values, Items, chunkdat, null, chunk_string, chunk_map, chunk_list,
  value, no_values, item, no_items, no_trace,
}
use ztd.Parse.Scan.{is_read, is_quote, skip, trim, counter_mod}
use ztd.Parse.Scan.Quotes.{ends_with}

-- A chunk without its debugging fields.
abbrev mutual
  pub bare : Chunkdat → Chunkdat
  bare (chunkdat t c) = chunkdat no_trace (bare_content c)

  pub bare_content : ChunkAbstract → ChunkAbstract
  bare_content null = null
  bare_content (chunk_string v) = chunk_string v
  bare_content (chunk_map m) = chunk_map (bare_values m)
  bare_content (chunk_list l) = chunk_list (bare_items l)

  pub bare_values : Values → Values
  bare_values no_values = no_values
  bare_values (value k c m) = value k (bare c) (bare_values m)

  pub bare_items : Items → Items
  bare_items no_items = no_items
  bare_items (item c l) = item (bare c) (bare_items l)

-- A readable byte that is no quote and opens no nested chunk.
abbrev pub is_plain : ℕ → Bool
is_plain c = is_read c && not (is_quote c || (c == b'{' || c == b'['))

-- The bytes in front of the first unreadable one are plain.
abbrev pub starts_plain : Bytes → Bool
starts_plain [] = true
starts_plain (c ∷ s) = if is_read c then is_plain c && starts_plain s else true

-- A byte of a key.
abbrev pub is_key_byte : ℕ → Bool
is_key_byte c = is_plain c && not (c == b'=' || c == b'}')

abbrev pub AllKeyBytes : Bytes → Type 0
AllKeyBytes [] = Unit
AllKeyBytes (c ∷ s) = (is_key_byte c ≡ true) × AllKeyBytes s

-- A key that the reader takes for one: not empty, and no semicolon in front.
abbrev pub IsKey : Bytes → Type 0
IsKey k = AllKeyBytes k × (k ≢ []) × (head_byte k ≢ b';')

-- A string that stays what it is between quotes and as a value: its first word holds no quote and no
-- opening bracket, it does not end in a blank, and it does not end in a backslash.
abbrev pub IsText : Bytes → Type 0
IsText v = (starts_plain (skip v).0 ≡ true) × (trim v ≡ v) × (ends_with b'\\' v ≡ false)

-- Maps of strings, of empty lists and of such maps, printed at the level `n` of nesting.
abbrev mutual
  pub IsPrintable : ℕ → Chunkdat → Type 0
  IsPrintable n (chunkdat t c) = ContentIsPrintable n c

  pub ContentIsPrintable : ℕ → ChunkAbstract → Type 0
  ContentIsPrintable n null = ⊥
  ContentIsPrintable n (chunk_string v) = IsText v
  ContentIsPrintable n (chunk_map m) = (n < counter_mod) × ValuesIsPrintable n m
  ContentIsPrintable n (chunk_list no_items) = Unit
  ContentIsPrintable n (chunk_list (item c l)) = ⊥

  pub ValuesIsPrintable : ℕ → Values → Type 0
  ValuesIsPrintable n no_values = Unit
  ValuesIsPrintable n (value k c m) = IsKey k × IsPrintable (suc n) c × ValuesIsPrintable n m
