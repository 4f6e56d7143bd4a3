-- ===== src/Common/Strings.antt =====
-- Rust's `String` and `&str`: the bytes that they hold. `as_bytes` is then the identity.
use Prim.Native.Nat.{ℕ}
use Prim.Native.Char.{code}
use Prim.Native.String.{String}
use mathlib.Core.List.{List, [], ◌∷◌}

abbrev pub Text : Type 0
Text = List ℕ

abbrev pub as_bytes : Text → List ℕ
as_bytes s = s

-- An ASCII literal.
abbrev pub ascii : String → Text
ascii String.[] = []
ascii (String.◌∷◌ c s) = code c ∷ ascii s
