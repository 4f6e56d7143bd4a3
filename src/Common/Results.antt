-- ===== src/Common/Results.antt =====
-- Rust's `Result`, its `?` as a bind, and its `map_err`.
use mathlib.Core.Bool.{Bool, true, false}

pub data Result {ℓ} (E : Type 0) (A : Type ℓ) : Type ℓ where
  ok : A → Result E A
  err : E → Result E A

-- `match m { Ok(a) => f(a), Err(e) => Err(e) }`, which `?` stands for.
infixl 5 ◌>>=◌ ◌>>◌
abbrev pub ◌>>=◌ {ℓ κ} :
    {E : Type 0} {A : Type ℓ} {B : Type κ} → Result E A → (A → Result E B) → Result E B
◌>>=◌ m f = elim m [ err e ↦ err e | ok a ↦ f a ]

abbrev pub ◌>>◌ {ℓ} : {E : Type 0} {B : Type ℓ} → Result E (Unit {0}) → Result E B → Result E B
◌>>◌ m k = elim m [ err e ↦ err e | ok _ ↦ k ]

abbrev pub map_err {ℓ} : {E F : Type 0} {A : Type ℓ} → (E → F) → Result E A → Result F A
map_err f (ok a) = ok a
map_err f (err e) = err (f e)

-- `if !test { return Err(e); }`
abbrev pub require : {E : Type 0} → Bool → E → Result E (Unit {0})
require test e = elim test [ false ↦ err e | true ↦ ok tt ]
