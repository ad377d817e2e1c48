-- ===== src/Base/CString.antt =====
-- C strings as lists of bytes: comparison, the copy into an array, and the text in front of a NUL.
use Prim.Native.Nat.{ℕ, ◌-◌}
use Prim.Native.Char.{code}
use Prim.Native.String.{String}
use mathlib.Core.Path.{◌≡◌, refl, ap₂}
use native.Mathlib.Omega.{arith}
use mathlib.Core.Bool.{Bool, true, false, ◌&&◌}
use mathlib.Core.List.{List, [], ◌∷◌}
use smolmux.Base.Tests.{◌==◌, if◌then◌else◌}
use smolmux.Base.Lists.{take}

-- `strcmp(a, b) == 0`
abbrev pub same_text : List ℕ → List ℕ → Bool
same_text [] [] = true
same_text [] (b ∷ t) = false
same_text (a ∷ s) [] = false
same_text (a ∷ s) (b ∷ t) = a == b && same_text s t

pub same_text_eq : (s t : List ℕ) → same_text s t ≡ true → s ≡ t
same_text_eq [] [] e = refl
same_text_eq [] (b ∷ t) e = absurd (ground arith)
same_text_eq (a ∷ s) [] e = absurd (ground arith)
same_text_eq (a ∷ s) (b ∷ t) e =
    ap₂ (λ x xs. x ∷ xs) (ground arith) (same_text_eq s t (ground arith))

pub same_text_refl : (s : List ℕ) → same_text s s ≡ true
same_text_refl [] = refl
same_text_refl (a ∷ s) = ground (arith, same_text_refl s)

-- `snprintf(out, size, "%s", s)`
abbrev pub copied : ℕ → List ℕ → List ℕ
copied size s = take (size - 1) s

-- What a function reads that stops at the first NUL.
abbrev pub until_nul : List ℕ → List ℕ
until_nul [] = []
until_nul (c ∷ cs) = let rest = until_nul cs in if c == 0 then [] else c ∷ rest

-- A literal as the list of its bytes.
abbrev pub codes : String → List ℕ
codes String.[] = []
codes (String.◌∷◌ c s) = code c ∷ codes s
