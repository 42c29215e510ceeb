-- ===== src/Prelude/Text.antt =====
-- Texts as the bytes that a `std::string` holds, where they are ASCII.
use Prim.Native.Nat.{ℕ, compare, Ordering, ◌<◌}
use Prim.Native.Char.{Char, char, code, nul}
use Prim.Native.String.{String}
use mathlib.Core.Path.{◌≡◌, refl, ap₂}
use mathlib.Core.List.{List, [], ◌∷◌}
use native.Mathlib.Omega.{arith}
use hump.Prelude.Lists.{All}

abbrev pub codes : String → List ℕ
codes String.[] = []
codes (String.◌∷◌ c s) = code c ∷ codes s

-- The character of a number below the surrogates.
abbrev char_below : (n : ℕ) (o : Ordering) → compare n 55296 ≡ o → Char
char_below n Ordering.lt e = char n (rw e tt)
char_below n _ e = nul

abbrev char_of : ℕ → Char
char_of n = char_below n (compare n 55296) refl

abbrev pub to_text : List ℕ → String
to_text [] = String.[]
to_text (n ∷ ns) = String.◌∷◌ (char_of n) (to_text ns)

code-char_below :
    (n : ℕ) (o : Ordering) (e : compare n 55296 ≡ o) → n < 55296 → code (char_below n o e) ≡ n
code-char_below n Ordering.lt e h = refl
code-char_below n Ordering.eq e h = absurd (ground arith)
code-char_below n Ordering.gt e h = absurd (ground arith)

pub codes-to_text : (ns : List ℕ) → All (λ n. n < 55296) ns → codes (to_text ns) ≡ ns
codes-to_text [] h = refl
codes-to_text (n ∷ ns) h =
    ap₂ (λ m ms. m ∷ ms) (code-char_below n (compare n 55296) refl h.0) (codes-to_text ns h.1)
