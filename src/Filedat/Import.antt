-- ===== src/Filedat/Import.antt =====
-- What importing a text leaves behind.
use ztd.Base.{true, false, none, some, [], ◌∷◌, ◌++◌, ◌≡◌, ◌≢◌, refl}
use ztd.Base.Int.{pos}
use ztd.Base.Text.{Bytes}
use ztd.Error.{Result, ok, thrown, fault, out_of_fuel}
use ztd.Chunk.{Chunkdat}
use ztd.Chunk.Copy.{copy}
use ztd.Filedat.Members.{set_data}
use ztd.Filedat.{Filedat, chunk_made, make_chunk, comments_removed, generate_chunk}
use ztd.Parse.Comments.{Place, checked, unchecked, in_comment, in_quote, strip, remove_comments}
use ztd.Parse.Set.{set}
use ztd.Parse.Set.Terminates.{set-ne-out_of_fuel}

-- The object and the outcome fit: a chunk exactly behind a return, and an exception tells of the file
-- and of the data of the object. The call ends.
abbrev pub Fits : Bytes → Filedat → Result (Unit {0}) → Type 0
Fits path f (ok u) =
    (f.file_path ≡ path)
    × (f.data_chunk ≢ none)
    × ((c : Chunkdat) → set_data f c ≡ ok (record f { data_chunk = some (copy c) }))
Fits path f (thrown e) =
    (f.file_path ≡ path)
    × (f.data_chunk ≡ none)
    × (e.filename ≡ path)
    × (e.sdat ≡ f.m_data)
    × ((c : Chunkdat) → set_data f c ≡ fault)
Fits path f fault = Unit
Fits path f out_of_fuel = ⊥

-- Removing comments ends, and is never undefined.
abbrev Settles : {A : Type 0} → Result A → Type 0
Settles (ok x) = Unit
Settles (thrown e) = Unit
Settles fault = ⊥
Settles out_of_fuel = ⊥

strip-Settles : (str : Bytes) (p : Place) (out : Bytes) → Settles (strip p out str)
unfolding strip
strip-Settles [] checked out = tt
strip-Settles [] unchecked out = tt
strip-Settles [] in_comment out = tt
strip-Settles [] (in_quote q e j) out = tt
strip-Settles (c ∷ str) checked out = strip-Settles str _ _
strip-Settles (c ∷ str) unchecked out = strip-Settles str checked (out ++ c ∷ [])
strip-Settles (c ∷ str) in_comment out = strip-Settles str _ _
strip-Settles (c ∷ str) (in_quote q true j) out =
    strip-Settles str (in_quote q false j) (out ++ c ∷ [])
strip-Settles (c ∷ str) (in_quote q false j) out = strip-Settles str _ _

chunk_made-Fits :
    (f : Filedat) (text : Bytes) (r : Result Chunkdat)
    → r ≢ out_of_fuel
    → let i = chunk_made f text r in Fits f.file_path i.filedat i.outcome
unfolding set_data
chunk_made-Fits f text (ok c) h = (refl, λ e. cc, λ d. refl)
chunk_made-Fits f text (thrown e) h = (refl, refl, refl, refl, λ d. refl)
chunk_made-Fits f text fault h = tt
chunk_made-Fits f text out_of_fuel h = absurd (h refl)

comments_removed-Fits :
    (f : Filedat) (r : Result Bytes)
    → Settles r
    → let i = comments_removed f r in Fits f.file_path i.filedat i.outcome
unfolding comments_removed set_data
comments_removed-Fits f (ok text) s =
    unfold make_chunk in
    chunk_made-Fits f text (set (record { text = text; offset = pos 0; parent = none }))
      (set-ne-out_of_fuel (record { text = text; offset = pos 0; parent = none }))
comments_removed-Fits f (thrown e) s = (refl, refl, refl, refl, λ d. refl)
comments_removed-Fits f fault s = tt
comments_removed-Fits f out_of_fuel s = s

-- `generateChunk` ends on every text, and keeps the name of the file. Where it returns the object has
-- a chunk, and set_data replaces it by a copy of its argument. Where it throws the object has none, so
-- that set_data is undefined behaviour, and the exception names the file of the object and holds its
-- text, without the comments if these could be removed.
pub generate_chunk-Fits :
    (f : Filedat) → let i = generate_chunk f in Fits f.file_path i.filedat i.outcome
unfolding generate_chunk remove_comments
generate_chunk-Fits f =
    comments_removed-Fits f (remove_comments f.m_data) (strip-Settles f.m_data checked [])
