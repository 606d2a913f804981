-- ===== src/Common/Keys.antt =====
-- Types whose values can be compared: the keys of dictionaries.
use Prim.Native.Nat.{ℕ}
use Prim.Native.String.{String}
use mathlib.Core.Path.{◌≡◌}
use mathlib.Core.Logic.{inl, inr}
use mathlib.Core.Bool.{false}
use text.Mathlib.Text.{◌==◌ as str_eq}
use text.Mathlib.TextEquality.{eq_iff}
use native.Mathlib.Decide.{ℕ_discrete}
use distributed_tickit_syste.Common.Tests.{Bool-cases}

pub record Key {ℓ} (K : Type ℓ) : Type ℓ where
  pub same : Discrete K

instance abbrev pub nat_key : Key ℕ
nat_key = record { same = ℕ_discrete }

no_of_false : (a b : String) → str_eq a b ≡ false → ¬ (a ≡ b)
no_of_false a b e p = cc (e, (eq_iff a b).1 p)

unfoldable pub string_same : Discrete String
unfolding Bool-cases no_of_false
string_same a b = elim (Bool-cases (str_eq a b)) [
  | inl e ↦ yes ((eq_iff a b).0 e)
  | inr e ↦ no (no_of_false a b e)
]

instance abbrev pub string_key : Key String
string_key = record { same = string_same }
