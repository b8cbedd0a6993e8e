-- ===== src/Prelude/Sorting.antt =====
-- `order_by(key.asc())`, and `sorted(set(names))` of Python.
use Prim.Native.Nat.{ℕ, zero, suc}
use Prim.Native.String.{String}
use mathlib.Core.Path.{◌≡◌, refl, sym}
use mathlib.Core.Logic.{◌≢◌}
use mathlib.Core.Bool.{Bool}
use mathlib.Core.List.{List, [], ◌∷◌}
use native.Mathlib.Omega.{arith}
use omnibioai_auth.Prelude.Tests.{leb, if◌then◌else◌}
use omnibioai_auth.Prelude.Tables.{All, All-take, All-select, count, length, take, select}

module _ {ℓ} {A : Type ℓ} (key : A → ℕ) where
  abbrev pub insert_by : A → List A → List A
  insert_by a [] = a ∷ []
  insert_by a (x ∷ xs) = if leb (key a) (key x) then a ∷ x ∷ xs else x ∷ insert_by a xs

  -- Rows with equal keys stay in the order of the table.
  abbrev pub sort_by : List A → List A
  sort_by [] = []
  sort_by (x ∷ xs) = insert_by x (sort_by xs)

  All-insert_by {κ} :
      (P : A → Type κ) (a : A) (xs : List A) → P a → All P xs → All P (insert_by a xs)
  All-insert_by P a [] p h = (p, tt)
  All-insert_by P a (x ∷ xs) p h = ground (arith, All-insert_by P a xs p h.1)

  pub All-sort_by {κ} : (P : A → Type κ) (xs : List A) → All P xs → All P (sort_by xs)
  All-sort_by P [] h = tt
  All-sort_by P (x ∷ xs) h = All-insert_by P x (sort_by xs) h.0 (All-sort_by P xs h.1)

  length-insert_by : (a : A) (xs : List A) → length (insert_by a xs) ≡ suc (length xs)
  length-insert_by a [] = refl
  length-insert_by a (x ∷ xs) = ground (arith, length-insert_by a xs)

  pub length-sort_by : (xs : List A) → length (sort_by xs) ≡ length xs
  length-sort_by [] = refl
  length-sort_by (x ∷ xs) = omega (arith, length-insert_by x (sort_by xs), length-sort_by xs)

  count-insert_by :
      (p : A → Bool) (a : A) (xs : List A) → count p (insert_by a xs) ≡ count p (a ∷ xs)
  count-insert_by p a [] = refl
  count-insert_by p a (x ∷ xs) = ground (arith, count-insert_by p a xs)

  pub count-sort_by : (p : A → Bool) (xs : List A) → count p (sort_by xs) ≡ count p xs
  count-sort_by p [] = refl
  count-sort_by p (x ∷ xs) = ground (arith, count-insert_by p x (sort_by xs), count-sort_by p xs)

-- No two rows of a table have one name.
module _ {ℓ} {A : Type ℓ} (name : A → String) where
  abbrev pub Distinct : List A → Type 0
  Distinct [] = Unit
  Distinct (x ∷ xs) = All (λ y. name x ≢ name y) xs × Distinct xs

  pub Distinct-take : (n : ℕ) (xs : List A) → Distinct xs → Distinct (take n xs)
  Distinct-take zero xs h = tt
  Distinct-take (suc n) [] h = tt
  Distinct-take (suc n) (x ∷ xs) h =
      (All-take (λ y. name x ≢ name y) n xs h.0, Distinct-take n xs h.1)

  Distinct-insert_by :
      (key : A → ℕ) (a : A) (xs : List A) → Distinct (a ∷ xs) → Distinct (insert_by key a xs)
  Distinct-insert_by key a [] h = h
  Distinct-insert_by key a (x ∷ xs) h =
      let apart : name x ≢ name a = λ e. h.0.0 (sym e) in
      ground (
        arith,
        Distinct-insert_by key a xs (h.0.1, h.1.1),
        All-insert_by key (λ y. name x ≢ name y) a xs apart h.1.0,
      )

  pub Distinct-sort_by : (key : A → ℕ) (xs : List A) → Distinct xs → Distinct (sort_by key xs)
  Distinct-sort_by key [] h = tt
  Distinct-sort_by key (x ∷ xs) h =
      Distinct-insert_by key x (sort_by key xs)
        (All-sort_by key (λ y. name x ≢ name y) xs h.0, Distinct-sort_by key xs h.1)

  pub Distinct-select : (p : A → Bool) (xs : List A) → Distinct xs → Distinct (select p xs)
  Distinct-select p [] h = tt
  Distinct-select p (x ∷ xs) h =
      ground (arith, All-select (λ y. name x ≢ name y) p xs h.0, Distinct-select p xs h.1)
