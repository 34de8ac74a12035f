-- ===== src/Options/Invariant.antt =====
-- The invariant of an option set during `process` of src/options.cpp.
use ztd.Base.{
  ℕ, zero, suc, true, false, Option, none, some, List, [], ◌∷◌, ◌++◌, ◌≡◌, refl, ap, ◌∙◌, arith,
  ◌⊎◌, get_elem?, set, map, Option-cases, inl, inr,
}
use ztd.Base.Text.{Bytes}
use ztd.Options.Process.{activate, pointed}
use ztd.Options.{CliOption, OptionSet}

-- What the caller declared of an option: all of it but the processing status.
abbrev pub shape : CliOption → CliOption
shape o = record o { activated = false; argument = [] }

abbrev pub All {ℓ κ} : {A : Type ℓ} → (A → Type κ) → List A → Type κ
All P [] = Unit
All P (x ∷ xs) = P x × All P xs

-- An option of the sequence: active, and declared.
abbrev pub IsActive : List CliOption → CliOption → Type 0
IsActive shapes o = (o.activated ≡ true) × ((i : ℕ) × (get_elem? shapes i ≡ some (shape o)))

-- The declarations of the set are `shapes`, and its sequence holds active options.
pub record Keeps (shapes : List CliOption) (s : OptionSet) : Type 0 where
  pub declared : map shape s.option_vec ≡ shapes
  pub active : All (IsActive shapes) s.option_sequence

All-concat {ℓ κ} :
    {A : Type ℓ} (P : A → Type κ) (xs : List A) (x : A) → All P xs → P x → All P (xs ++ x ∷ [])
All-concat P [] x a p = (p, tt)
All-concat P (y ∷ xs) x a p = (a.0, All-concat P xs x a.1 p)

map-shape-set :
    (opts : List CliOption) (i : ℕ) (o o' : CliOption)
    → get_elem? opts i ≡ some o
    → shape o' ≡ shape o
    → map shape (set opts i o') ≡ map shape opts
map-shape-set [] i o o' h e = refl
map-shape-set (p ∷ opts) zero o o' h e = ground arith
map-shape-set (p ∷ opts) (suc i) o o' h e = ap (◌∷◌ (shape p)) (map-shape-set opts i o o' h e)

get_elem?-map-shape :
    (opts : List CliOption) (i : ℕ) (o : CliOption)
    → get_elem? opts i ≡ some o
    → get_elem? (map shape opts) i ≡ some (shape o)
get_elem?-map-shape [] i o h = cc
get_elem?-map-shape (p ∷ opts) zero o h = ground arith
get_elem?-map-shape (p ∷ opts) (suc i) o h = get_elem?-map-shape opts i o h

module _ {shapes : List CliOption} where
  pub activate-Keeps :
      (s : OptionSet) (i : ℕ) (o : CliOption) (arg : Option Bytes)
      → Keeps shapes s
      → get_elem? s.option_vec i ≡ some o
      → Keeps shapes (activate s i o arg)
  unfolding activate
  activate-Keeps s i o arg k h = record {
    declared = map-shape-set s.option_vec i o _ h refl ∙ k.declared;
    active =
        All-concat (IsActive shapes) s.option_sequence _ k.active
          (refl, (i, rw (← k.declared) (get_elem?-map-shape s.option_vec i o h)));
  }

-- An option that `find` points at is there.
pub pointed-cases :
    (s : OptionSet) (p : Option ℕ)
    → (pointed s p ≡ none)
      ⊎ ((i : ℕ) × (o : CliOption) × (pointed s p ≡ some (i, o))
          × (get_elem? s.option_vec i ≡ some o))
unfolding pointed
pointed-cases s none = inl refl
pointed-cases s (some i) = elim (Option-cases (get_elem? s.option_vec i)) [
  | inl e ↦ inl (rw (e, pointed))
  | inr (o, e) ↦ inr (i, o, rw (e, pointed), e)
]
