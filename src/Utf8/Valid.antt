-- ===== src/Utf8/Valid.antt =====
-- `from_utf8_lossy` keeps text that is UTF-8.
use mip_clients.Common.{ℕ, ◌≡◌, refl, ◌∙◌, ap, Text, Bytes, List, [], ◌∷◌, ◌++◌, All, arith}
use mip_clients.Utf8.{idle, lossy, from_utf8_lossy, IsScalar, IsUtf8, encode_scalar, encode_utf8}

lossy-encode_scalar :
    (c : ℕ) (rest : Bytes)
    → IsScalar c
    → lossy idle (encode_scalar c ++ rest) ≡ encode_scalar c ++ lossy idle rest
unfolding lossy encode_scalar
lossy-encode_scalar c rest s = ground arith

lossy-encode_utf8 : (cs : List ℕ) → All IsScalar cs → lossy idle (encode_utf8 cs) ≡ encode_utf8 cs
unfolding encode_utf8
lossy-encode_utf8 [] s = unfold lossy in refl
lossy-encode_utf8 (c ∷ cs) s =
    lossy-encode_scalar c (encode_utf8 cs) s.0
    ∙ ap (λ t. encode_scalar c ++ t) (lossy-encode_utf8 cs s.1)

-- Text that is UTF-8 comes out unchanged.
pub from_utf8_lossy-IsUtf8 : (s : Text) → IsUtf8 s → from_utf8_lossy s ≡ s
unfolding from_utf8_lossy
from_utf8_lossy-IsUtf8 s v = rw v.encoded (lossy-encode_utf8 v.chars v.scalars)
