-- ===== src/Base/Maybe.antt =====
-- `do` blocks of optional values, as the operator `?` on an `Option` has them.
use mathlib.Core.Bool.{Bool, true, false}
use mathlib.Core.Option.{Option, none, some}

infixl 5 ◌>>=◌ ◌>>◌
abbrev pub ◌>>=◌ : {A B : Type 0} → Option A → (A → Option B) → Option B
none >>= f = none
some a >>= f = f a

abbrev pub ◌>>◌ : {B : Type 0} → Option (Unit {0}) → Option B → Option B
m >> k = m >>= λ _. k

abbrev pub ensure : Bool → Option (Unit {0})
ensure true = some tt
ensure false = none
