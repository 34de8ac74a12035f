-- ===== src/Color/Examples.antt =====
-- Colors at which the theorems are applied.
use ztd.Base.{◌≡◌, ◌-◌, refl, arith}
use ztd.Base.Text.{codes}
use ztd.Color.Lookup.{Absent, documented, color_code_named-documented}
use ztd.Color.Name.{ColorName, number}
use ztd.Color.{color_name_index, color_code_at, color_code_of, color_code_named}
use ztd.Error.{fault}

bold-Absent : Absent (codes "bold") color_name_index
bold-Absent = (
  refl,
  (
    refl,
    (
      refl,
      (
        refl,
        (
          refl,
          (
            refl,
            (
              refl,
              (
                refl,
                (
                  refl,
                  (
                    refl,
                    (
                      refl,
                      (
                        refl,
                        (
                          refl,
                          (
                            refl,
                            (
                              refl,
                              (refl, (refl, (refl, (refl, (refl, (refl, (refl, (refl, tt)))))))),
                            ),
                          ),
                        ),
                      ),
                    ),
                  ),
                ),
              ),
            ),
          ),
        ),
      ),
    ),
  ),
)

color_code_named-documented_example :
    (color_code_named (documented ColorName.b_red) ≡ color_code_of ColorName.b_red)
    × (color_code_named (documented ColorName.italic) ≡ color_code_at (number ColorName.italic - 1))
    × (color_code_named (codes "bold") ≡ fault)
color_code_named-documented_example =
    color_code_named-documented ColorName.b_red ColorName.italic (codes "bold")
      (unfold number in omega arith) (unfold number in omega arith) bold-Absent
