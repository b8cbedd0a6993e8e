-- ===== src/Prelude/Tables.antt =====
-- A database table as the list of its rows in the order of insertion, and the queries on it.
use Prim.Native.Nat.{ℕ, zero, suc, ◌+◌, ◌≤◌}
use mathlib.Core.Path.{◌≡◌, refl}
use mathlib.Core.Bool.{Bool, true, false, ◌&&◌}
use mathlib.Core.Option.{Option, none, some}
use mathlib.Core.List.{List, [], ◌∷◌, ◌++◌}
use native.Mathlib.Omega.{arith}
use Prim.Native.String.{String}
use omnibioai_auth.Prelude.Tests.{if◌then◌else◌, ◌≈◌, ≈_iff}

module _ {ℓ} {A : Type ℓ} where
  abbrev pub length : List A → ℕ
  length [] = 0
  length (x ∷ xs) = suc (length xs)

  abbrev pub take : ℕ → List A → List A
  take zero xs = []
  take (suc n) [] = []
  take (suc n) (x ∷ xs) = x ∷ take n xs

  -- `query.filter(p).first()`
  abbrev pub first : (A → Bool) → List A → Option A
  first p [] = none
  first p (x ∷ xs) = if p x then some x else first p xs

  -- `query.filter(p).all()`
  abbrev pub select : (A → Bool) → List A → List A
  select p [] = []
  select p (x ∷ xs) = let rest = select p xs in if p x then x ∷ rest else rest

  -- `query.filter(p).count()`
  abbrev pub count : (A → Bool) → List A → ℕ
  count p [] = 0
  count p (x ∷ xs) = let rest = count p xs in if p x then suc rest else rest

  -- Assignment to the attributes of the row that `first` returns.
  abbrev pub update_first : (A → Bool) → (A → A) → List A → List A
  update_first p f [] = []
  update_first p f (x ∷ xs) = if p x then f x ∷ xs else x ∷ update_first p f xs

  -- `query.filter(p).update(f)`
  abbrev pub update_all : (A → Bool) → (A → A) → List A → List A
  update_all p f [] = []
  update_all p f (x ∷ xs) = (if p x then f x else x) ∷ update_all p f xs

  -- `db.delete` of the row that `first` returns.
  abbrev pub delete_first : (A → Bool) → List A → List A
  delete_first p [] = []
  delete_first p (x ∷ xs) = if p x then xs else x ∷ delete_first p xs

  abbrev pub All {κ} : (A → Type κ) → List A → Type κ
  All P [] = Unit
  All P (x ∷ xs) = P x × All P xs

  pub All-map {κ} : (P Q : A → Type κ) (xs : List A) → ((x : A) → P x → Q x) → All P xs → All Q xs
  All-map P Q [] f h = tt
  All-map P Q (x ∷ xs) f h = (f x h.0, All-map P Q xs f h.1)

  pub All-take {κ} : (P : A → Type κ) (n : ℕ) (xs : List A) → All P xs → All P (take n xs)
  All-take P zero xs h = tt
  All-take P (suc n) [] h = tt
  All-take P (suc n) (x ∷ xs) h = (h.0, All-take P n xs h.1)

  pub length-take-le : (n : ℕ) (xs : List A) → n ≤ length xs → length (take n xs) ≡ n
  length-take-le zero xs h = refl
  length-take-le (suc n) [] h = absurd (omega arith)
  length-take-le (suc n) (x ∷ xs) h = omega (arith, length-take-le n xs (omega arith))

  pub length-select : (p : A → Bool) (xs : List A) → length (select p xs) ≡ count p xs
  length-select p [] = refl
  length-select p (x ∷ xs) = ground (arith, length-select p xs)

  pub count-append : (p : A → Bool) (xs ys : List A) → count p (xs ++ ys) ≡ count p xs + count p ys
  count-append p [] ys = omega arith
  count-append p (x ∷ xs) ys = ground (arith, count-append p xs ys)

  pub first-append :
      (p : A → Bool) (xs : List A) (y : A)
      → first p xs ≡ none
      → first p (xs ++ y ∷ []) ≡ (if p y then some y else none)
  first-append p [] y h = refl
  first-append p (x ∷ xs) y h = ground (arith, first-append p xs y)

  pub first-append_some :
      (p : A → Bool) (xs ys : List A) (r : A) → first p xs ≡ some r → first p (xs ++ ys) ≡ some r
  first-append_some p [] ys r h = cc
  first-append_some p (x ∷ xs) ys r h = ground (arith, first-append_some p xs ys r)

  pub first-holds : (p : A → Bool) (xs : List A) (r : A) → first p xs ≡ some r → p r ≡ true
  first-holds p [] r h = cc
  first-holds p (x ∷ xs) r h = ground (arith, first-holds p xs r)

  -- The row that `update_first` wrote is found again, if it still fits.
  pub first-update_first_self :
      (p : A → Bool) (f : A → A) (xs : List A)
      → ((x : A) → p (f x) ≡ p x)
      → first p (update_first p f xs) ≡ elim (first p xs) [ none ↦ none | some r ↦ some (f r) ]
  first-update_first_self p f [] keep = refl
  first-update_first_self p f (x ∷ xs) keep =
      ground (arith, keep x, first-update_first_self p f xs keep)

  -- A write to the first row of `p` that does not touch what `q` reads.
  pub count-update_first_keep :
      (q p : A → Bool) (f : A → A) (xs : List A)
      → ((x : A) → q (f x) ≡ q x)
      → count q (update_first p f xs) ≡ count q xs
  count-update_first_keep q p f [] keep = refl
  count-update_first_keep q p f (x ∷ xs) keep =
      ground (arith, keep x, count-update_first_keep q p f xs keep)

  -- A write that takes the row out of `q`.
  pub count-update_first_le :
      (q p : A → Bool) (f : A → A) (xs : List A)
      → ((x : A) → q (f x) ≡ false)
      → count q (update_first p f xs) ≤ count q xs
  count-update_first_le q p f [] gone = omega arith
  count-update_first_le q p f (x ∷ xs) gone =
      ground (arith, gone x, count-update_first_le q p f xs gone)

  pub count-update_first_out :
      (q p : A → Bool) (f : A → A) (xs : List A) (r : A)
      → ((x : A) → q (f x) ≡ false)
      → first p xs ≡ some r
      → q r ≡ true
      → count q (update_first p f xs) + 1 ≡ count q xs
  count-update_first_out q p f [] r gone e h = cc
  count-update_first_out q p f (x ∷ xs) r gone e h =
      ground (arith, gone x, count-update_first_out q p f xs r gone)

  pub count-update_all_le :
      (q p : A → Bool) (f : A → A) (xs : List A)
      → ((x : A) → q (f x) ≡ true → q x ≡ true)
      → count q (update_all p f xs) ≤ count q xs
  count-update_all_le q p f [] keep = omega arith
  count-update_all_le q p f (x ∷ xs) keep =
      ground (arith, keep x, count-update_all_le q p f xs keep)

  -- A bulk update that takes every row it meets out of `q`.
  pub count-update_all_zero :
      (q p : A → Bool) (f : A → A) (xs : List A)
      → ((x : A) → q x ≡ true → p x ≡ true)
      → ((x : A) → q (f x) ≡ false)
      → count q (update_all p f xs) ≡ 0
  count-update_all_zero q p f [] meets gone = refl
  count-update_all_zero q p f (x ∷ xs) meets gone =
      ground (arith, meets x, gone x, count-update_all_zero q p f xs meets gone)

  -- What one deleted or rewritten row changes in a count.
  pub count-delete_first :
      (q p : A → Bool) (xs : List A) (r : A)
      → first p xs ≡ some r
      → count q (delete_first p xs) + (if q r then 1 else 0) ≡ count q xs
  count-delete_first q p [] r e = cc
  count-delete_first q p (x ∷ xs) r e = ground (arith, count-delete_first q p xs r)

  pub count-update_first :
      (q p : A → Bool) (f : A → A) (xs : List A) (r : A)
      → first p xs ≡ some r
      → count q (update_first p f xs) + (if q r then 1 else 0)
        ≡ count q xs + (if q (f r) then 1 else 0)
  count-update_first q p f [] r e = cc
  count-update_first q p f (x ∷ xs) r e = ground (arith, count-update_first q p f xs r)

  pub count-select_zero :
      (q p : A → Bool) (xs : List A)
      → ((x : A) → p x ≡ true → q x ≡ false)
      → count q (select p xs) ≡ 0
  count-select_zero q p [] h = refl
  count-select_zero q p (x ∷ xs) h = ground (arith, h x, count-select_zero q p xs h)

  pub All-append {κ} : (P : A → Type κ) (xs ys : List A) → All P xs → All P ys → All P (xs ++ ys)
  All-append P [] ys hx hy = hy
  All-append P (x ∷ xs) ys hx hy = (hx.0, All-append P xs ys hx.1 hy)

  -- A write that the query `q` does not see is seen in the row that `q` finds.
  pub first-update_all :
      (q p : A → Bool) (f : A → A) (xs : List A)
      → ((x : A) → q (f x) ≡ q x)
      → first q (update_all p f xs)
        ≡ elim (first q xs) [ none ↦ none | some r ↦ some (if p r then f r else r) ]
  first-update_all q p f [] keep = refl
  first-update_all q p f (x ∷ xs) keep = ground (arith, keep x, first-update_all q p f xs keep)

  -- Tables with a text for a key.
  pub first-update_first_key :
      (key : A → String) (i j : String) (f : A → A) (xs : List A)
      → ((x : A) → key (f x) ≡ key x)
      → first (λ x. key x ≈ j) (update_first (λ x. key x ≈ i) f xs) ≡ (
          if i ≈ j
          then elim (first (λ x. key x ≈ i) xs) [ none ↦ none | some r ↦ some (f r) ]
          else first (λ x. key x ≈ j) xs)
  first-update_first_key key i j f [] keep = ground arith
  first-update_first_key key i j f (x ∷ xs) keep = ground (
    arith,
    keep x,
    ≈_iff i j,
    ≈_iff (key x) i,
    ≈_iff (key x) j,
    first-update_first_key key i j f xs keep,
  )

  pub All-zip {κ μ ν} :
      (P : A → Type κ) (Q : A → Type μ) (R : A → Type ν) (xs : List A)
      → ((x : A) → P x → Q x → R x)
      → All P xs
      → All Q xs
      → All R xs
  All-zip P Q R [] f p q = tt
  All-zip P Q R (x ∷ xs) f p q = (f x p.0 q.0, All-zip P Q R xs f p.1 q.1)

  pub All-select {κ} :
      (P : A → Type κ) (p : A → Bool) (xs : List A) → All P xs → All P (select p xs)
  All-select P p [] h = tt
  All-select P p (x ∷ xs) h = ground (arith, All-select P p xs h.1)

  -- What passed a filter fits it.
  pub All-select_fits : (p : A → Bool) (xs : List A) → All (λ x. p x ≡ true) (select p xs)
  All-select_fits p [] = tt
  All-select_fits p (x ∷ xs) = ground (arith, All-select_fits p xs)

  pub count-select :
      (p q : A → Bool) (xs : List A) → count p (select q xs) ≡ count (λ x. q x && p x) xs
  count-select p q [] = refl
  count-select p q (x ∷ xs) = ground (arith, count-select p q xs)

  pub count-append_one-le :
      (p : A → Bool) (xs : List A) (y : A) → count p (xs ++ y ∷ []) ≤ count p xs + 1
  count-append_one-le p [] y = ground arith
  count-append_one-le p (x ∷ xs) y = ground (arith, count-append_one-le p xs y)

  -- A bulk update that changes nothing that `q` reads.
  pub count-update_all_keep :
      (q p : A → Bool) (f : A → A) (xs : List A)
      → ((x : A) → p x ≡ true → q (f x) ≡ q x)
      → count q (update_all p f xs) ≡ count q xs
  count-update_all_keep q p f [] keep = refl
  count-update_all_keep q p f (x ∷ xs) keep =
      ground (arith, keep x, count-update_all_keep q p f xs keep)
