-- ===== src/Common/BigEndian.antt =====
-- `to_be_bytes` and `from_be_bytes` of the unsigned integers, for every width in bytes.
use Prim.Native.Nat.{ℕ, zero, suc, ◌+◌, ◌*◌, ◌/◌, ◌%◌, ◌^◌, ◌<◌}
use mathlib.Core.Path.{◌≡◌, refl, ap, ◌∙◌}
use mathlib.Core.List.{List, [], ◌∷◌, ◌++◌, append-nil, append_assoc}
use native.Mathlib.Omega.{arith}
use native.Mathlib.Nat.{pow-suc, zero-add}
use mip_clients.Common.Lists.{length, length-append, get_or, All, All-append}

abbrev pub IsByte : ℕ → Type 0
IsByte b = b < 256

abbrev pub Bytes : Type 0
Bytes = List ℕ

-- The `w` bytes of `n`, the most significant first.
abbrev pub to_be_bytes : ℕ → ℕ → List ℕ
to_be_bytes zero n = []
to_be_bytes (suc w) n = to_be_bytes w (n / 256) ++ (n % 256 ∷ [])

abbrev pub from_be_acc : ℕ → List ℕ → ℕ
from_be_acc acc [] = acc
from_be_acc acc (b ∷ bs) = from_be_acc (acc * 256 + b) bs

abbrev pub from_be_bytes : List ℕ → ℕ
from_be_bytes bs = from_be_acc 0 bs

pub length-to_be_bytes : (w n : ℕ) → length (to_be_bytes w n) ≡ w
length-to_be_bytes zero n = refl
length-to_be_bytes (suc w) n =
    omega (
      arith,
      length-append (to_be_bytes w (n / 256)) (n % 256 ∷ []),
      length-to_be_bytes w (n / 256),
    )

pub All-to_be_bytes : (w n : ℕ) → All IsByte (to_be_bytes w n)
All-to_be_bytes zero n = tt
All-to_be_bytes (suc w) n =
    All-append IsByte (to_be_bytes w (n / 256)) (n % 256 ∷ []) (All-to_be_bytes w (n / 256))
      (omega arith)

from_be_acc-snoc :
    (xs : List ℕ) (b acc : ℕ) → from_be_acc acc (xs ++ (b ∷ [])) ≡ from_be_acc acc xs * 256 + b
from_be_acc-snoc [] b acc = refl
from_be_acc-snoc (x ∷ xs) b acc = from_be_acc-snoc xs b (acc * 256 + x)

-- A number that fits `w` bytes is read back from them.
pub from_be_bytes-to_be_bytes : (w n : ℕ) → n < 256 ^ w → from_be_bytes (to_be_bytes w n) ≡ n
from_be_bytes-to_be_bytes zero n h = omega arith
from_be_bytes-to_be_bytes (suc w) n h = omega (
  arith,
  from_be_acc-snoc (to_be_bytes w (n / 256)) (n % 256) 0,
  from_be_bytes-to_be_bytes w (n / 256) (omega (arith, pow-suc 256 w)),
)

to_be_bytes-from_be_acc :
    (bs : List ℕ) (k acc : ℕ)
    → All IsByte bs
    → to_be_bytes (length bs + k) (from_be_acc acc bs) ≡ to_be_bytes k acc ++ bs
to_be_bytes-from_be_acc [] k acc h = rw (zero-add, append-nil)
to_be_bytes-from_be_acc (b ∷ bs) k acc h =
    let size : suc (length bs) + k ≡ length bs + suc k = omega arith in
    let high : (acc * 256 + b) / 256 ≡ acc = omega arith in
    let low : (acc * 256 + b) % 256 ≡ b = omega arith in
    rw size (to_be_bytes-from_be_acc bs (suc k) (acc * 256 + b) h.1 ∙ rw (high, low, append_assoc))

-- Bytes are written back from the number that they stand for.
pub to_be_bytes-from_be_bytes :
    (bs : List ℕ) → All IsByte bs → to_be_bytes (length bs) (from_be_bytes bs) ≡ bs
to_be_bytes-from_be_bytes bs h =
    let size : length bs ≡ length bs + 0 = omega arith in
    ap (λ (w : ℕ). to_be_bytes w (from_be_bytes bs)) size ∙ to_be_bytes-from_be_acc bs 0 0 h

from_be_acc-lt :
    (bs : List ℕ) (acc k : ℕ)
    → All IsByte bs
    → acc < 256 ^ k
    → from_be_acc acc bs < 256 ^ (length bs + k)
from_be_acc-lt [] acc k h lt = rw zero-add lt
from_be_acc-lt (b ∷ bs) acc k h lt =
    let size : suc (length bs) + k ≡ length bs + suc k = omega arith in
    rw size (from_be_acc-lt bs (acc * 256 + b) (suc k) h.1 (omega (arith, pow-suc 256 k)))

pub from_be_bytes-lt : (bs : List ℕ) → All IsByte bs → from_be_bytes bs < 256 ^ length bs
from_be_bytes-lt bs h =
    let size : length bs + 0 ≡ length bs = omega arith in
    rw size at (from_be_acc-lt bs 0 0 h (omega arith))

pub get_or-IsByte : (bs : List ℕ) (i : ℕ) → All IsByte bs → get_or bs i 0 < 256
get_or-IsByte [] i h = omega arith
get_or-IsByte (b ∷ bs) zero h = h.0
get_or-IsByte (b ∷ bs) (suc i) h = get_or-IsByte bs i h.1
