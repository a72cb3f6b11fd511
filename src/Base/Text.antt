-- ===== src/Base/Text.antt =====
-- The order of Python's `str`: by code points, the prefix first.
use Prim.Native.Nat.{ℕ, zero, suc}
use Prim.Native.Char.{code}
use Prim.Native.String.{String}
use mathlib.Core.Path.{◌≡◌, refl}
use mathlib.Core.Bool.{Bool, true, false}
use mathlib.Core.List.{List, [], ◌∷◌}
use mathlib.Core.Logic.{◌⊎◌, inl, inr}
use native.Mathlib.Omega.{arith}
use forge_os.Base.Tests.{ltb, nat_beq, if◌then◌else◌}

abbrev pub codes : String → List ℕ
codes String.[] = []
codes (String.◌∷◌ c s) = code c ∷ codes s

-- `a <= b` for the code points of two texts
pub codes_leb : List ℕ → List ℕ → Bool
codes_leb [] ys = true
codes_leb (x ∷ xs) [] = false
codes_leb (x ∷ xs) (y ∷ ys) =
    if ltb x y then true else if nat_beq x y then codes_leb xs ys else false

pub codes_leb_total : (xs ys : List ℕ) → (codes_leb xs ys ≡ true) ⊎ (codes_leb ys xs ≡ true)
unfolding codes_leb
codes_leb_total [] ys = inl refl
codes_leb_total (x ∷ xs) [] = inr refl
codes_leb_total (x ∷ xs) (y ∷ ys) = ground (arith, codes_leb_total xs ys)

pub codes_leb_trans :
    (xs ys zs : List ℕ) → codes_leb xs ys ≡ true → codes_leb ys zs ≡ true → codes_leb xs zs ≡ true
unfolding codes_leb
codes_leb_trans [] ys zs h k = refl
codes_leb_trans (x ∷ xs) [] zs h k = absurd (ground arith)
codes_leb_trans (x ∷ xs) (y ∷ ys) [] h k = absurd (ground arith)
codes_leb_trans (x ∷ xs) (y ∷ ys) (z ∷ zs) h k = ground (arith, codes_leb_trans xs ys zs)

unfoldable pub str_leb : String → String → Bool
unfolding codes_leb
str_leb s t = codes_leb (codes s) (codes t)

pub str_leb_total : (s t : String) → (str_leb s t ≡ true) ⊎ (str_leb t s ≡ true)
unfolding str_leb
str_leb_total s t = codes_leb_total (codes s) (codes t)

pub str_leb_trans : (s t u : String) → str_leb s t ≡ true → str_leb t u ≡ true → str_leb s u ≡ true
unfolding str_leb
str_leb_trans s t u = codes_leb_trans (codes s) (codes t) (codes u)

-- `s[:n]`
abbrev pub first_chars : ℕ → String → String
first_chars zero s = String.[]
first_chars (suc n) String.[] = String.[]
first_chars (suc n) (String.◌∷◌ c s) = String.◌∷◌ c (first_chars n s)
