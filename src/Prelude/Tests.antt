-- ===== src/Prelude/Tests.antt =====
-- Boolean tests on numbers, texts and optional values, and the conditional.
use Prim.Native.Nat.{ℕ, compare, Ordering}
use Prim.Native.String.{String}
use mathlib.Core.Path.{◌≡◌, refl}
use mathlib.Core.Logic.{◌≢◌, ◌⊎◌, inl, inr}
use mathlib.Core.Bool.{Bool, true, false}
use mathlib.Core.Option.{Option, none, some}
use native.Mathlib.Omega.{arith}
use text.Mathlib.Text.{◌==◌ as text_eq}
use text.Mathlib.TextEquality.{eq_iff as text_eq_iff}

abbrev pub ltb : ℕ → ℕ → Bool
ltb a b = elim (compare a b) [ Ordering.lt ↦ true | _ ↦ false ]

abbrev pub leb : ℕ → ℕ → Bool
leb a b = elim (compare a b) [ Ordering.gt ↦ false | _ ↦ true ]

infix 50 ◌==◌ ◌≈◌
abbrev pub ◌==◌ : ℕ → ℕ → Bool
a == b = elim (compare a b) [ Ordering.eq ↦ true | _ ↦ false ]

-- `==` of two texts.
unfoldable pub ◌≈◌ : String → String → Bool
s ≈ t = text_eq s t

pub ≈_iff : (s t : String) → ((s ≈ t) ≡ true → s ≡ t) × (s ≡ t → (s ≈ t) ≡ true)
unfolding ◌≈◌
≈_iff s t = text_eq_iff s t

pub ≈_refl : (s : String) → (s ≈ s) ≡ true
≈_refl s = (≈_iff s s).1 refl

pub ≈_ne : (s t : String) → s ≢ t → (s ≈ t) ≡ false
≈_ne s t h = ground (arith, ≈_iff s t)

infix 1 if◌then◌else◌
abbrev pub if◌then◌else◌ {ℓ} : {A : Type ℓ} → Bool → A → A → A
if true then x else y = x
if false then x else y = y

-- `x is None`
abbrev pub is_none {ℓ} : {A : Type ℓ} → Option A → Bool
is_none none = true
is_none (some _) = false

-- A column or argument that is NULL, or holds the given text.
abbrev pub holds : Option String → String → Bool
holds none t = false
holds (some s) t = s ≈ t

-- To split on a computed value and keep the equation.
pub Bool-cases : (b : Bool) → (b ≡ true) ⊎ (b ≡ false)
Bool-cases true = inl refl
Bool-cases false = inr refl

pub Option-cases {ℓ} : {A : Type ℓ} (o : Option A) → (o ≡ none) ⊎ ((a : A) × (o ≡ some a))
Option-cases none = inl refl
Option-cases (some a) = inr (a, refl)

pub holds_iff : (o : Option String) (t : String) → holds o t ≡ true → o ≡ some t
holds_iff none t h = cc
holds_iff (some s) t h = ground (arith, ≈_iff s t)
