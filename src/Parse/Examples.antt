-- ===== src/Parse/Examples.antt =====
-- Texts that the reader is run on, and the theorems about it at these texts.
use ztd.Base.{false, none, some, [], ◌∷◌, ◌++◌, ◌≡◌, ◌≢◌, ◌↔◌, refl, arith, map, List}
use ztd.Base.Int.{pos}
use ztd.Base.Text.{Bytes, codes}
use ztd.Chunk.Print.{escape}
use ztd.Error.{ok, out_of_fuel}
use ztd.Parse.Comments.Lines.{unlines, cut, remove_comments-unlines}
use ztd.Parse.Comments.{remove_comments}
use ztd.Parse.Strval.{getstrval}
use ztd.Parse.Strval.Trailing.{getstrval-trailing}
use ztd.Parse.Scan.{is_read}
use ztd.Error.{fault}
use ztd.Parse.Scan.Nesting.{balanced, enclosed_both}
use ztd.Parse.Scan.Quotes.{ends_with, quoted-escape_iff}
use ztd.Parse.Scan.{is_quote, quoted, enclosed, map_bracket, list_bracket, plain, closed}
use ztd.Parse.Set.Terminates.{set-ne-out_of_fuel}
use ztd.Parse.Set.{Source, set}

abbrev source : Bytes → Source
source text = record { text = text; offset = pos 0; parent = none }

set-ne-out_of_fuel_example : set (source (codes "{a=[x,{b=c}];d=\"e\"\n}")) ≢ out_of_fuel
set-ne-out_of_fuel_example = set-ne-out_of_fuel (source (codes "{a=[x,{b=c}];d=\"e\"\n}"))

enclosed_both_example :
    (enclosed map_bracket 0 plain (codes "a={b=c};" ++ b'}' ∷ codes ",")
      ≡ closed (codes "a={b=c};" ++ b'}' ∷ []) (codes ","))
    × (enclosed list_bracket 0 plain (codes "a,[[b],c]" ++ b']' ∷ codes ",")
        ≡ closed (codes "a,[[b],c]" ++ b']' ∷ []) (codes ","))
enclosed_both_example =
    enclosed_both (codes "a={b=c};") (codes "a,[[b],c]") (codes ",")
      (unfold balanced is_quote in refl) (unfold balanced is_quote in refl) (omega arith)
      (omega arith)

getstrval-trailing_example :
    getstrval (codes " " ++ b'b' ∷ (codes "c" ++ b' ' ∷ [])) b';' b'\n' ≡ fault
unfolding is_read is_quote
getstrval-trailing_example =
    getstrval-trailing b';' b'\n' (codes " ") b'b' (codes "c") b' ' [] (omega arith) (omega arith)
      (refl, tt) (refl, (refl, tt)) (refl, (omega arith), (omega arith), tt)

quoted-escape_iff_example :
    (quoted b'"' false (escape (codes "say \"x\"") b'"' ++ b'"' ∷ codes "\n")
      ≡ some (codes "say \"x\"", codes "\n"))
    ↔ (ends_with b'\\' (codes "say \"x\"") ≡ false)
quoted-escape_iff_example = quoted-escape_iff (codes "say \"x\"") (codes "\n")

abbrev commented : List Bytes
commented = codes "a=b#1" ∷ codes "c//" ∷ []

remove_comments-unlines_example :
    remove_comments (unlines commented) ≡ ok (unlines (map cut commented))
remove_comments-unlines_example =
    remove_comments-unlines commented
      ((refl, (refl, (refl, (refl, (refl, tt))))), ((refl, (refl, (refl, tt))), tt))

-- A comment directly behind a closing quote stays.
remove_comments_behind_quote : remove_comments (codes "\"a\"#b\n") ≡ ok (codes "\"a\"#b\n")
unfolding remove_comments
remove_comments_behind_quote = refl
