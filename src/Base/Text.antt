-- ===== src/Base/Text.antt =====
-- Texts by their code points, for the programs' walks over characters.
use Prim.Native.Char.{code}
use aero_risk_ai.Base.{
  ℕ, zero, suc, ◌+◌, ◌-◌, String, Bool, true, false, ◌&&◌, List, [], ◌∷◌, leb, ◌==◌, if◌then◌else◌,
  map,
}
use aero_risk_ai.Base.Lists.{length}

abbrev pub codes : String → List ℕ
codes String.[] = []
codes (String.◌∷◌ c s) = code c ∷ codes s

-- `str.lower` on the letters of ASCII.
abbrev pub lower_code : ℕ → ℕ
lower_code c = if leb 65 c && leb c 90 then c + 32 else c

abbrev pub same_codes : List ℕ → List ℕ → Bool
same_codes [] [] = true
same_codes (x ∷ xs) (y ∷ ys) = x == y && same_codes xs ys
same_codes _ _ = false

-- `s.lower() == t`, for a `t` of lower-case ASCII letters other than k.
abbrev pub lower_is : String → String → Bool
lower_is s t = same_codes (map lower_code (codes s)) (codes t)

abbrev pub starts_with : String → String → Bool
starts_with String.[] s = true
starts_with (String.◌∷◌ c t) String.[] = false
starts_with (String.◌∷◌ c t) (String.◌∷◌ d s) = code c == code d && starts_with t s

-- `s.replace(t, "")` for a `t` that is not empty, past the next `skip` characters.
abbrev pub remove_from : ℕ → String → String → String
remove_from skip t String.[] = String.[]
remove_from zero t (String.◌∷◌ c s) =
    let kept = String.◌∷◌ c (remove_from zero t s) in
    let gone = remove_from (length (codes t) - 1) t s in
    if starts_with t (String.◌∷◌ c s) then gone else kept
remove_from (suc skip) t (String.◌∷◌ c s) = remove_from skip t s

abbrev pub remove : String → String → String
remove t s = remove_from 0 t s
