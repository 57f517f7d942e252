-- ===== src/Prelude/Keys.antt =====
-- Types that can be the key of a hash map: a test for equality that decides it.
use Prim.Native.Nat.{ℕ}
use Prim.Native.String.{String}
use mathlib.Core.Path.{◌≡◌}
use mathlib.Core.Logic.{◌↔◌}
use mathlib.Core.Bool.{Bool, true, ◌&&◌}
use native.Mathlib.Omega.{arith}
use text.Mathlib.Text.{◌==◌ as str_eq}
use text.Mathlib.TextEquality.{eq_iff}
use composable_rust.Prelude.Tests.{◌==◌, ==_iff}

pub record Key {ℓ} (K : Type ℓ) : Type ℓ where
  pub same : K → K → Bool
  pub same_iff : (a b : K) → (same a b ≡ true) ↔ (a ≡ b)

instance abbrev pub number_key : Key ℕ
number_key = record { same = ◌==◌; same_iff = ==_iff }

instance abbrev pub text_key : Key String
text_key = record { same = str_eq; same_iff = eq_iff }

abbrev pub both_same : ℕ × String → ℕ × String → Bool
both_same a b = a.0 == b.0 && str_eq a.1 b.1

pub both_same_iff : (a b : ℕ × String) → (both_same a b ≡ true) ↔ (a ≡ b)
both_same_iff (a, s) (b, t) = grind (arith, ==_iff a b, eq_iff s t)

instance abbrev pub pair_key : Key (ℕ × String)
pair_key = record { same = both_same; same_iff = both_same_iff }
