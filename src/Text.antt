-- ===== src/Text.antt =====
-- Texts (`String`, `&str`, `Vec<u8>`) as lists of bytes, and `std::str::from_utf8`, which both
-- services call on the bytes of a prompt.
use dynamo_router.Base.{
  ℕ, Bool, true, false, ◌&&◌, Option, none, some, List, [], ◌∷◌, ltb, leb, ◌==◌, if◌then◌else◌,
}
use Prim.Native.Char.{code}
use Prim.Native.String.{String}

abbrev pub Text : Type 0
Text = List ℕ

-- The bytes of a literal in ASCII.
abbrev pub codes : String → Text
codes String.[] = []
codes (String.◌∷◌ c s) = code c ∷ codes s

unfoldable pub text_eq : Text → Text → Bool
text_eq [] [] = true
text_eq [] (y ∷ ys) = false
text_eq (x ∷ xs) [] = false
text_eq (x ∷ xs) (y ∷ ys) = let rest = text_eq xs ys in if x == y then rest else false

-- A bound on a byte that is still to come.
abbrev Bounds : Type 0
Bounds = ℕ × ℕ

abbrev tail : Bounds
tail = (128, 191)

-- The bounds on the bytes that follow a first byte; `none` if no sequence starts with it.
unfoldable after_first : ℕ → Option (List Bounds)
after_first b =
    if ltb b 128
    then some []
    else if ltb b 194
    then none
    else if ltb b 224
    then some (tail ∷ [])
    else if b == 224
    then some ((160, 191) ∷ tail ∷ [])
    else if b == 237
    then some ((128, 159) ∷ tail ∷ [])
    else if ltb b 240
    then some (tail ∷ tail ∷ [])
    else if b == 240
    then some ((144, 191) ∷ tail ∷ tail ∷ [])
    else if ltb b 244
    then some (tail ∷ tail ∷ tail ∷ [])
    else if b == 244
    then some ((128, 143) ∷ tail ∷ tail ∷ [])
    else none

unfoldable utf8_loop : List Bounds → Text → Bool
unfolding after_first
utf8_loop [] [] = true
utf8_loop (p ∷ pending) [] = false
utf8_loop [] (b ∷ bytes) = elim (after_first b) [
  | none ↦ false
  | some pending ↦ utf8_loop pending bytes
]
utf8_loop ((low, high) ∷ pending) (b ∷ bytes) =
    let rest = utf8_loop pending bytes in if leb low b && leb b high then rest else false

unfoldable pub is_utf8 : Text → Bool
unfolding utf8_loop
is_utf8 bytes = utf8_loop [] bytes
