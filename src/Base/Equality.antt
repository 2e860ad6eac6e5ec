-- ===== src/Base/Equality.antt =====
-- Boolean equality as an interface, with the instances that the dictionaries of the program need.
use Prim.Native.Nat.{ℕ}
use Prim.Native.String.{String}
use mathlib.Core.Path.{◌≡◌, refl}
use mathlib.Core.Logic.{◌↔◌}
use mathlib.Core.Bool.{Bool, true, false, ◌&&◌, not}
use mathlib.Core.List.{List, [], ◌∷◌}
use mathlib.Core.Option.{Option, none, some}
use native.Mathlib.Omega.{arith}
use text.Mathlib.Text.{◌==◌ as text_eq}
use text.Mathlib.TextEquality.{eq_iff}
use dynvar_sync.Base.Tests.{◌==◌, ==_iff}

pub record Eq {ℓ} (A : Type ℓ) : Type ℓ where
  pub beq : A → A → Bool
  pub beq_iff : (a b : A) → (beq a b ≡ true) ↔ (a ≡ b)

-- Texts are compared by the native comparison.
abbrev pub str_eq : String → String → Bool
str_eq = text_eq

pub str_eq_iff : (s t : String) → (str_eq s t ≡ true) ↔ (s ≡ t)
str_eq_iff = eq_iff

infix 50 ◌=?◌
abbrev pub ◌=?◌ {ℓ} : {A : Type ℓ} ⦃e : Eq A⦄ → A → A → Bool
◌=?◌ ⦃e⦄ = e.beq

abbrev pub pair_eq {ℓ κ} : {A : Type ℓ} {B : Type κ} (a : Eq A) (b : Eq B) → A × B → A × B → Bool
pair_eq a b x y = a.beq x.0 y.0 && b.beq x.1 y.1

pub pair_eq_iff {ℓ κ} :
    {A : Type ℓ} {B : Type κ} (a : Eq A) (b : Eq B) (x y : A × B)
    → (pair_eq a b x y ≡ true) ↔ (x ≡ y)
pair_eq_iff a b x y = ground (arith, a.beq_iff x.0 y.0, b.beq_iff x.1 y.1)

instance abbrev pub nat_eq : Eq ℕ
nat_eq = record { beq = ◌==◌; beq_iff = ==_iff }

instance abbrev pub string_eq : Eq String
string_eq = record { beq = str_eq; beq_iff = str_eq_iff }

instance abbrev pub nat_pair_eq : Eq (ℕ × ℕ)
nat_pair_eq = record { beq = pair_eq nat_eq nat_eq; beq_iff = pair_eq_iff nat_eq nat_eq }

pub beq_refl {ℓ} : {A : Type ℓ} ⦃e : Eq A⦄ (a : A) → (a =? a) ≡ true
beq_refl ⦃e⦄ a = (e.beq_iff a a).1 refl

abbrev pub bool_beq : Bool → Bool → Bool
bool_beq true b = b
bool_beq false b = not b

abbrev pub option_beq {ℓ} : {A : Type ℓ} → Eq A → Option A → Option A → Bool
option_beq e none none = true
option_beq e none (some b) = false
option_beq e (some a) none = false
option_beq e (some a) (some b) = e.beq a b

abbrev pub list_beq {ℓ} : {A : Type ℓ} → (A → A → Bool) → List A → List A → Bool
list_beq same [] [] = true
list_beq same [] (y ∷ ys) = false
list_beq same (x ∷ xs) [] = false
list_beq same (x ∷ xs) (y ∷ ys) = same x y && list_beq same xs ys

pub list_beq_refl {ℓ} :
    {A : Type ℓ} (same : A → A → Bool)
    → ((a : A) → same a a ≡ true)
    → (xs : List A) → list_beq same xs xs ≡ true
list_beq_refl same h [] = refl
list_beq_refl same h (x ∷ xs) = rw (h x) (list_beq_refl same h xs)
