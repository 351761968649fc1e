-- ===== src/Negotiate/Utf8.antt =====
-- `String::from_utf8` of the standard library: which bytes are UTF-8.
use gentlsa.Prelude.{
  ℕ, zero, suc, Bool, true, false, ◌&&◌, Option, none, some, List, [], ◌∷◌, ◌≡◌, refl, All, arith,
  leb, ◌<◌, ◌==◌, if◌then◌else◌,
}

-- The number of bytes behind a lead byte, and the range of the first of them.
unfoldable pub lead : ℕ → Option (ℕ × ℕ × ℕ)
lead b =
    if leb b 0x7f
    then some (0, 0, 0)
    else if leb 0xc2 b && leb b 0xdf
    then some (1, 0x80, 0xbf)
    else if b == 0xe0
    then some (2, 0xa0, 0xbf)
    else if b == 0xed
    then some (2, 0x80, 0x9f)
    else if leb 0xe1 b && leb b 0xef
    then some (2, 0x80, 0xbf)
    else if b == 0xf0
    then some (3, 0x90, 0xbf)
    else if leb 0xf1 b && leb b 0xf3
    then some (3, 0x80, 0xbf)
    else if b == 0xf4
    then some (3, 0x80, 0x8f)
    else none

-- Bytes with `n` still to come, the next of them in a range.
unfoldable pub utf8_from : ℕ → ℕ → ℕ → List ℕ → Bool
unfolding lead
utf8_from zero lo hi [] = true
utf8_from (suc n) lo hi [] = false
utf8_from zero lo hi (b ∷ bytes) = elim (lead b) [
  | none ↦ false
  | some (n, lo', hi') ↦ utf8_from n lo' hi' bytes
]
utf8_from (suc n) lo hi (b ∷ bytes) = leb lo b && leb b hi && utf8_from n 0x80 0xbf bytes

unfoldable pub is_utf8 : List ℕ → Bool
unfolding utf8_from
is_utf8 bytes = utf8_from 0 0 0 bytes

abbrev pub IsAscii : ℕ → Type 0
IsAscii b = b < 0x80

pub is_utf8_of_ascii : (bytes : List ℕ) → All IsAscii bytes → is_utf8 bytes ≡ true
unfolding is_utf8 utf8_from lead
is_utf8_of_ascii [] h = refl
is_utf8_of_ascii (b ∷ bytes) (hb, h) = ground (arith, is_utf8_of_ascii bytes h)

euro : is_utf8 (0xe2 ∷ 0x82 ∷ 0xac ∷ []) ≡ true
unfolding is_utf8
euro = refl

surrogate : is_utf8 (0xed ∷ 0xa0 ∷ 0x80 ∷ []) ≡ false
unfolding is_utf8
surrogate = refl
