-- ===== src/Display/Examples.antt =====
-- A place in a text, and an option, at which the theorems are applied.
use ztd.Base.{List, [], ◌∷◌, ◌++◌, ◌≡◌, refl, arith, length, ◌+◌}
use ztd.Base.Int.{pos}
use ztd.Base.Text.{Bytes, codes}
use ztd.Chunk.Print.{repeat_string}
use ztd.Display.Position.{print_error_index-line}
use ztd.Display.{print_error_index}
use ztd.Error.{to_string}
use ztd.Parse.Comments.Lines.{unlines}

abbrev before : List Bytes
before = codes "{" ∷ codes "  a = 1" ∷ []

print_error_index-line_example :
    print_error_index
      (unlines before ++ (codes "  b" ++ codes "\n}"))
      (pos (length (unlines before) + 2))
      (codes "no value")
      (codes "f")
    ≡ codes "f"
      ++ (codes ": Error\nLine "
          ++ (to_string (1 + length before)
              ++ (codes " col "
                  ++ (to_string (2 + 1)
                      ++ (codes ": "
                          ++ (codes "no value"
                              ++ (b'\n'
                                  ∷ (codes "  b"
                                      ++ (b'\n'
                                          ∷ (repeat_string (codes " ") 2
                                              ++ (b'^' ∷ b'\n' ∷ [])))))))))))
print_error_index-line_example =
    print_error_index-line before (codes "  b") (codes "\n}") 2 (codes "no value") b'f' []
      (omega arith) (omega arith) refl (omega arith)
