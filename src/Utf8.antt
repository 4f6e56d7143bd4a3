-- ===== src/Utf8.antt =====
-- `String::from_utf8_lossy` of the standard library, which internals.rs calls on topics, messages
-- and error texts, and the UTF-8 encoding that every `String` and `&str` holds.
pub mod Valid
use mip_clients.Common.{
  ℕ, zero, suc, ◌+◌, ◌*◌, ◌/◌, ◌%◌, ◌≤◌, ◌<◌, ◌≡◌, ◌⊎◌, Bool, ◌&&◌, Text, Bytes, List, [], ◌∷◌,
  ◌++◌, ltb, leb, ◌==◌, if◌then◌else◌, All,
}

-- U+FFFD
abbrev pub replacement : Text
replacement = 0xEF ∷ 0xBF ∷ 0xBD ∷ []

-- Inside a character: the bytes read, the range of the next byte, and how many follow that one.
pub data Scan : Type 0 where
  idle : Scan
  inside : Bytes → ℕ → ℕ → ℕ → Scan

abbrev within : ℕ → ℕ → ℕ → Bool
within lo hi b = leb lo b && leb b hi

-- The first byte of a character. It writes text, and leaves a state.
start : ℕ → Text × Scan
start b =
    if ltb b 0x80
    then (b ∷ [], idle)
    else if within 0xC2 0xDF b
    then ([], inside (b ∷ []) 0x80 0xBF 0)
    else if b == 0xE0
    then ([], inside (b ∷ []) 0xA0 0xBF 1)
    else if b == 0xED
    then ([], inside (b ∷ []) 0x80 0x9F 1)
    else if within 0xE1 0xEF b
    then ([], inside (b ∷ []) 0x80 0xBF 1)
    else if b == 0xF0
    then ([], inside (b ∷ []) 0x90 0xBF 2)
    else if b == 0xF4
    then ([], inside (b ∷ []) 0x80 0x8F 2)
    else if within 0xF1 0xF3 b
    then ([], inside (b ∷ []) 0x80 0xBF 2)
    else (replacement, idle)

-- A byte in range inside a character.
advance : Bytes → ℕ → Text × Scan
advance seen zero = (seen, idle)
advance seen (suc more) = ([], inside seen 0x80 0xBF more)

-- A byte out of range replaces what was read of the character, and is read anew.
restart : Text × Scan → Text × Scan
restart (out, s) = (replacement ++ out, s)

feed : Scan → ℕ → Text × Scan
unfolding start advance restart
feed idle b = start b
feed (inside seen lo hi more) b =
    if within lo hi b then advance (seen ++ (b ∷ [])) more else restart (start b)

flush : Scan → Text
flush idle = []
flush (inside seen lo hi more) = replacement

lossy : Scan → Bytes → Text
unfolding feed flush
lossy s [] = flush s
lossy s (b ∷ bs) = (feed s b).0 ++ lossy (feed s b).1 bs

unfoldable pub from_utf8_lossy : Bytes → Text
unfolding lossy
from_utf8_lossy bs = lossy idle bs

-- A Unicode scalar value, and its bytes.
pub record IsScalar (c : ℕ) : Type 0 where
  pub in_range : c < 0x110000
  pub not_surrogate : (c < 0xD800) ⊎ (0xDFFF < c)

unfoldable pub encode_scalar : ℕ → Bytes
encode_scalar c =
    if ltb c 0x80
    then c ∷ []
    else if ltb c 0x800
    then (0xC0 + c / 64) ∷ (0x80 + c % 64) ∷ []
    else if ltb c 0x10000
    then (0xE0 + c / 4096) ∷ (0x80 + c / 64 % 64) ∷ (0x80 + c % 64) ∷ []
    else (0xF0 + c / 262144) ∷ (0x80 + c / 4096 % 64) ∷ (0x80 + c / 64 % 64) ∷ (0x80 + c % 64) ∷ []

unfoldable pub encode_utf8 : List ℕ → Text
encode_utf8 [] = []
encode_utf8 (c ∷ cs) = encode_scalar c ++ encode_utf8 cs

-- What a `String` and a `&str` promise of their bytes.
pub record IsUtf8 (s : Text) : Type 0 where
  pub chars : List ℕ
  pub scalars : All IsScalar chars
  pub encoded : s ≡ encode_utf8 chars
