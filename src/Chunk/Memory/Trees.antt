-- ===== src/Chunk/Memory/Trees.antt =====
-- A chunk with the addresses of its objects: what a `chunkdat` of include/filedat.hpp owns in memory.
use ztd.Base.{
  ℕ, suc, ◌+◌, Bool, true, false, ◌||◌, Option, none, some, List, [], ◌∷◌, ◌≡◌, arith, ◌==◌, ◌∙◌,
}
use ztd.Base.Text.{Bytes}
use ztd.Chunk.Memory.{Object, Pointers, dat, string_object, map_object, list_object}
use ztd.Chunk.{
  Chunkdat, ChunkAbstract, Trace, Values, Items, chunkdat, null, chunk_string, chunk_map,
  chunk_list, value, no_values, item, no_items,
}

mutual
  pub data Owned : Type 0 where
    owned : ℕ → Trace → OwnedContent → Owned

  pub data OwnedContent : Type 0 where
    no_content : OwnedContent
    string_at : ℕ → Bytes → OwnedContent
    map_at : ℕ → OwnedValues → OwnedContent
    list_at : ℕ → OwnedItems → OwnedContent

  pub data OwnedValues : Type 0 where
    no_pairs : OwnedValues
    pair : Bytes → Owned → OwnedValues → OwnedValues

  pub data OwnedItems : Type 0 where
    no_elements : OwnedItems
    element : Owned → OwnedItems → OwnedItems

abbrev pub root : Owned → ℕ
root (owned a t c) = a

abbrev pub content_pointer : OwnedContent → Option ℕ
content_pointer no_content = none
content_pointer (string_at a v) = some a
content_pointer (map_at a m) = some a
content_pointer (list_at a l) = some a

abbrev pub pointers : OwnedValues → Pointers
pointers no_pairs = []
pointers (pair k d m) = (k, root d) ∷ pointers m

abbrev pub item_pointers : OwnedItems → List ℕ
item_pointers no_elements = []
item_pointers (element d l) = root d ∷ item_pointers l

-- The chunk without the addresses.
abbrev mutual
  pub forget : Owned → Chunkdat
  forget (owned a t c) = chunkdat t (forget_content c)

  pub forget_content : OwnedContent → ChunkAbstract
  forget_content no_content = null
  forget_content (string_at a v) = chunk_string v
  forget_content (map_at a m) = chunk_map (forget_values m)
  forget_content (list_at a l) = chunk_list (forget_items l)

  pub forget_values : OwnedValues → Values
  forget_values no_pairs = no_values
  forget_values (pair k d m) = value k (forget d) (forget_values m)

  pub forget_items : OwnedItems → Items
  forget_items no_elements = no_items
  forget_items (element d l) = item (forget d) (forget_items l)

-- Whether an address is one of the chunk's.
abbrev mutual
  pub owns : ℕ → Owned → Bool
  owns x (owned a t c) = a == x || owns_content x c

  pub owns_content : ℕ → OwnedContent → Bool
  owns_content x no_content = false
  owns_content x (string_at a v) = a == x
  owns_content x (map_at a m) = a == x || owns_values x m
  owns_content x (list_at a l) = a == x || owns_items x l

  pub owns_values : ℕ → OwnedValues → Bool
  owns_values x no_pairs = false
  owns_values x (pair k d m) = owns x d || owns_values x m

  pub owns_items : ℕ → OwnedItems → Bool
  owns_items x no_elements = false
  owns_items x (element d l) = owns x d || owns_items x l

-- The objects of the chunk stand in memory.
abbrev mutual
  pub Holds : (ℕ → Option Object) → Owned → Type 0
  Holds m (owned a t c) = (m a ≡ some (dat t (content_pointer c))) × HoldsContent m c

  pub HoldsContent : (ℕ → Option Object) → OwnedContent → Type 0
  HoldsContent m no_content = Unit
  HoldsContent m (string_at a v) = m a ≡ some (string_object v)
  HoldsContent m (map_at a vs) = (m a ≡ some (map_object (pointers vs))) × HoldsValues m vs
  HoldsContent m (list_at a l) = (m a ≡ some (list_object (item_pointers l))) × HoldsItems m l

  pub HoldsValues : (ℕ → Option Object) → OwnedValues → Type 0
  HoldsValues m no_pairs = Unit
  HoldsValues m (pair k d vs) = Holds m d × HoldsValues m vs

  pub HoldsItems : (ℕ → Option Object) → OwnedItems → Type 0
  HoldsItems m no_elements = Unit
  HoldsItems m (element d l) = Holds m d × HoldsItems m l

-- No address in both.
abbrev pub Apart : (ℕ → Bool) → (ℕ → Bool) → Type 0
Apart p q = (x : ℕ) → p x ≡ true → q x ≡ false

-- No address twice.
abbrev mutual
  pub IsSeparate : Owned → Type 0
  IsSeparate (owned a t c) = (owns_content a c ≡ false) × ContentIsSeparate c

  pub ContentIsSeparate : OwnedContent → Type 0
  ContentIsSeparate no_content = Unit
  ContentIsSeparate (string_at a v) = Unit
  ContentIsSeparate (map_at a m) = (owns_values a m ≡ false) × ValuesIsSeparate m
  ContentIsSeparate (list_at a l) = (owns_items a l ≡ false) × ItemsIsSeparate l

  pub ValuesIsSeparate : OwnedValues → Type 0
  ValuesIsSeparate no_pairs = Unit
  ValuesIsSeparate (pair k d m) =
      Apart (λ x. owns x d) (λ x. owns_values x m) × IsSeparate d × ValuesIsSeparate m

  pub ItemsIsSeparate : OwnedItems → Type 0
  ItemsIsSeparate no_elements = Unit
  ItemsIsSeparate (element d l) =
      Apart (λ x. owns x d) (λ x. owns_items x l) × IsSeparate d × ItemsIsSeparate l

-- The number of chunks in a chunk, itself included: more fuel is never used up.
abbrev mutual
  pub weight : Owned → ℕ
  weight (owned a t c) = suc (content_weight c)

  pub content_weight : OwnedContent → ℕ
  content_weight no_content = 0
  content_weight (string_at a v) = 0
  content_weight (map_at a m) = values_weight m
  content_weight (list_at a l) = items_weight l

  pub values_weight : OwnedValues → ℕ
  values_weight no_pairs = 0
  values_weight (pair k d m) = weight d + values_weight m

  pub items_weight : OwnedItems → ℕ
  items_weight no_elements = 0
  items_weight (element d l) = weight d + items_weight l

module _ (m m' : ℕ → Option Object) where
  -- The memories agree on the addresses of `p`.
  abbrev Agree : (ℕ → Bool) → Type 0
  Agree p = (x : ℕ) → p x ≡ true → m' x ≡ m x

  Agree-left : (p q : ℕ → Bool) → Agree (λ x. p x || q x) → Agree p
  Agree-left p q a x e = a x (ground arith)

  Agree-right : (p q : ℕ → Bool) → Agree (λ x. p x || q x) → Agree q
  Agree-right p q a x e = a x (ground arith)

  mutual
    pub Holds-Agree : (d : Owned) → Agree (λ x. owns x d) → Holds m d → Holds m' d
    Holds-Agree (owned a t c) g h = (
      g a (ground arith) ∙ h.0,
      Holds-content c (Agree-right (λ x. a == x) (λ x. owns_content x c) g) h.1,
    )

    pub Holds-content :
        (c : OwnedContent) → Agree (λ x. owns_content x c) → HoldsContent m c → HoldsContent m' c
    Holds-content no_content g h = tt
    Holds-content (string_at a v) g h = g a (ground arith) ∙ h
    Holds-content (map_at a vs) g h = (
      g a (ground arith) ∙ h.0,
      Holds-values vs (Agree-right (λ x. a == x) (λ x. owns_values x vs) g) h.1,
    )
    Holds-content (list_at a l) g h = (
      g a (ground arith) ∙ h.0,
      Holds-items l (Agree-right (λ x. a == x) (λ x. owns_items x l) g) h.1,
    )

    pub Holds-values :
        (vs : OwnedValues) → Agree (λ x. owns_values x vs) → HoldsValues m vs → HoldsValues m' vs
    Holds-values no_pairs g h = tt
    Holds-values (pair k d vs) g h = (
      Holds-Agree d (Agree-left (λ x. owns x d) (λ x. owns_values x vs) g) h.0,
      Holds-values vs (Agree-right (λ x. owns x d) (λ x. owns_values x vs) g) h.1,
    )

    pub Holds-items :
        (l : OwnedItems) → Agree (λ x. owns_items x l) → HoldsItems m l → HoldsItems m' l
    Holds-items no_elements g h = tt
    Holds-items (element d l) g h = (
      Holds-Agree d (Agree-left (λ x. owns x d) (λ x. owns_items x l) g) h.0,
      Holds-items l (Agree-right (λ x. owns x d) (λ x. owns_items x l) g) h.1,
    )
