-- ===== src/Mfa/Email/Weights.antt =====
-- Rows of mailed codes, counted and weighed under bulk updates.
use omnibioai_auth.Prelude.{
  ℕ, ◌+◌, ◌≤◌, ◌<◌, ◌≡◌, refl, Bool, true, not, ◌&&◌, none, some, List, [], ◌∷◌, ◌++◌, arith, ltb,
  count, select, update_all, count-select_zero, Option-cases, inl, inr,
}
use omnibioai_auth.Models.{EmailOtp}
use omnibioai_auth.Mfa.Email.{latest}

unfoldable pub weigh : (EmailOtp → ℕ) → List EmailOtp → ℕ
weigh w [] = 0
weigh w (o ∷ os) = w o + weigh w os

pub weigh-append :
    (w : EmailOtp → ℕ) (xs ys : List EmailOtp) → weigh w (xs ++ ys) ≡ weigh w xs + weigh w ys
unfolding weigh
weigh-append w [] ys = omega arith
weigh-append w (x ∷ xs) ys = omega (arith, weigh-append w xs ys)

-- A bulk update under which no row grows, and one row shrinks.
pub weigh-update_all :
    (w : EmailOtp → ℕ) (p : EmailOtp → Bool) (f : EmailOtp → EmailOtp) (xs : List EmailOtp)
    → ((x : EmailOtp) → p x ≡ true → w (f x) ≤ w x)
    → weigh w (update_all p f xs) ≤ weigh w xs
unfolding weigh
weigh-update_all w p f [] less = omega arith
weigh-update_all w p f (x ∷ xs) less = ground (arith, less x, weigh-update_all w p f xs less)

pub weigh-update_all-lt :
    (w : EmailOtp → ℕ) (p : EmailOtp → Bool) (f : EmailOtp → EmailOtp) (xs : List EmailOtp)
    → ((x : EmailOtp) → p x ≡ true → w (f x) ≤ w x)
    → 1 ≤ count (λ x. p x && ltb (w (f x)) (w x)) xs
    → weigh w (update_all p f xs) + 1 ≤ weigh w xs
unfolding weigh
weigh-update_all-lt w p f [] less some_one = omega arith
weigh-update_all-lt w p f (x ∷ xs) less some_one =
    ground (arith, less x, weigh-update_all w p f xs less, weigh-update_all-lt w p f xs less)

-- The row found is one of the table.
pub latest-count :
    (q : EmailOtp → Bool) (xs : List EmailOtp) (o : EmailOtp)
    → latest xs ≡ some o
    → q o ≡ true
    → 1 ≤ count q xs
unfolding latest
latest-count q [] o e h = cc
latest-count q (x ∷ xs) o e h = elim (Option-cases (latest xs)) [
  | inl none_left ↦ ground arith
  | inr (p, found) ↦ ground (arith, latest-count q xs p found)
]

pub count-select-le :
    (p q : EmailOtp → Bool) (xs : List EmailOtp) → count q (select p xs) ≤ count q xs
count-select-le p q [] = omega arith
count-select-le p q (x ∷ xs) = ground (arith, count-select-le p q xs)

-- The newest of the rows that fit is a row of the table that fits.
pub latest-select-count :
    (p q : EmailOtp → Bool) (xs : List EmailOtp) (o : EmailOtp)
    → latest (select p xs) ≡ some o
    → q o ≡ true
    → 1 ≤ count q xs
latest-select-count p q xs o e h =
    omega (arith, latest-count q (select p xs) o e h, count-select-le p q xs)

pub latest-select-fits :
    (p : EmailOtp → Bool) (xs : List EmailOtp) (o : EmailOtp)
    → latest (select p xs) ≡ some o
    → p o ≡ true
latest-select-fits p xs o e = ground (
  arith,
  latest-count (λ x. not (p x)) (select p xs) o e,
  count-select_zero (λ x. not (p x)) p xs (λ x h. ground arith),
)

pub weigh-drop :
    (w : EmailOtp → ℕ) (s p : EmailOtp → Bool) (f : EmailOtp → EmailOtp) (xs : List EmailOtp)
    (o : EmailOtp)
    → ((x : EmailOtp) → p x ≡ true → w (f x) ≤ w x)
    → latest (select s xs) ≡ some o
    → p o ≡ true
    → w (f o) < w o
    → weigh w (update_all p f xs) + 1 ≤ weigh w xs
weigh-drop w s p f xs o less found here lower =
    weigh-update_all-lt w p f xs less
      (latest-select-count s (λ x. p x && ltb (w (f x)) (w x)) xs o found (ground arith))

-- A bulk update that takes no row into `q`.
pub count-update_all-le :
    (q p : EmailOtp → Bool) (f : EmailOtp → EmailOtp) (xs : List EmailOtp)
    → ((x : EmailOtp) → p x ≡ true → q (f x) ≡ true → q x ≡ true)
    → count q (update_all p f xs) ≤ count q xs
count-update_all-le q p f [] stays = omega arith
count-update_all-le q p f (x ∷ xs) stays =
    ground (arith, stays x, count-update_all-le q p f xs stays)

pub weigh-positive :
    (w : EmailOtp → ℕ) (xs : List EmailOtp) → 1 ≤ count (λ o. ltb 0 (w o)) xs → 1 ≤ weigh w xs
unfolding weigh
weigh-positive w [] h = omega arith
weigh-positive w (x ∷ xs) h = ground (arith, weigh-positive w xs)

pub weigh-zero :
    (w : EmailOtp → ℕ) (xs : List EmailOtp) → count (λ o. ltb 0 (w o)) xs ≡ 0 → weigh w xs ≡ 0
unfolding weigh
weigh-zero w [] h = refl
weigh-zero w (x ∷ xs) h = ground (arith, weigh-zero w xs)

-- If one row at most is in `p`, a row of `p` outside of `q` leaves none in `q`.
pub count-split :
    (p q : EmailOtp → Bool) (xs : List EmailOtp)
    → ((x : EmailOtp) → q x ≡ true → p x ≡ true)
    → count q xs + count (λ x. p x && not (q x)) xs ≡ count p xs
count-split p q [] inside = refl
count-split p q (x ∷ xs) inside = ground (arith, inside x, count-split p q xs inside)

pub latest-none : (xs : List EmailOtp) → latest xs ≡ none → xs ≡ []
unfolding latest
latest-none [] e = refl
latest-none (x ∷ xs) e = elim (Option-cases (latest xs)) [
  | inl none_left ↦ ground (arith, none_left, e)
  | inr (o, found) ↦ ground (arith, found, e)
]

pub count-select_none :
    (p : EmailOtp → Bool) (xs : List EmailOtp) → select p xs ≡ [] → count p xs ≡ 0
count-select_none p [] e = refl
count-select_none p (x ∷ xs) e = ground (arith, count-select_none p xs)
