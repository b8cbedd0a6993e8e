-- ===== src/Prelude/Texts.antt =====
-- Sets of texts as lists: `s in names`, and `sorted(set(names))` of Python; and its `strip`,
-- `upper` and `lower`.
use Prim.Native.Nat.{Ordering}
use Prim.Native.Char.{Char, code as code_point}
use Prim.Native.String.{String, compare, [] as no_text, ◌∷◌ as cons_text}
use mathlib.Core.Path.{◌≡◌, refl}
use mathlib.Core.Bool.{Bool, true, false, ◌||◌, ◌&&◌}
use mathlib.Core.List.{List, [], ◌∷◌, ◌++◌}
use native.Mathlib.Omega.{arith}
use omnibioai_auth.Prelude.Tables.{select}
use omnibioai_auth.Prelude.Tests.{leb, ◌==◌, ◌≈◌, ≈_iff, if◌then◌else◌}

abbrev pub contains : String → List String → Bool
contains s [] = false
contains s (x ∷ xs) = s ≈ x || contains s xs

text_lt : String → String → Bool
text_lt s t = elim (compare s t) [ Ordering.lt ↦ true | _ ↦ false ]

insert_text : String → List String → List String
insert_text s [] = s ∷ []
insert_text s (x ∷ xs) =
    if s ≈ x then x ∷ xs else if text_lt s x then s ∷ x ∷ xs else x ∷ insert_text s xs

-- By code points, each text once.
unfoldable pub sorted_set : List String → List String
unfolding insert_text text_lt ◌≈◌
sorted_set [] = []
sorted_set (x ∷ xs) = insert_text x (sorted_set xs)

insert_text_again : String → List String → List String
insert_text_again s [] = s ∷ []
insert_text_again s (x ∷ xs) = if text_lt x s then x ∷ insert_text_again s xs else s ∷ x ∷ xs

-- `sorted(names)`, repetitions kept.
unfoldable pub sorted_texts : List String → List String
unfolding insert_text_again text_lt
sorted_texts [] = []
sorted_texts (x ∷ xs) = insert_text_again x (sorted_texts xs)

pub contains-append :
    (s : String) (xs ys : List String) → contains s (xs ++ ys) ≡ (contains s xs || contains s ys)
contains-append s [] ys = refl
contains-append s (x ∷ xs) ys = ground (arith, contains-append s xs ys)

contains-insert_text :
    (s x : String) (xs : List String) → contains s (insert_text x xs) ≡ (s ≈ x || contains s xs)
unfolding insert_text
contains-insert_text s x [] = refl
contains-insert_text s x (y ∷ ys) = ground (arith, ≈_iff x y, contains-insert_text s x ys)

-- Sorting and dropping repetitions changes no membership.
pub contains-sorted_set :
    (s : String) (xs : List String) → contains s (sorted_set xs) ≡ contains s xs
unfolding sorted_set
contains-sorted_set s [] = refl
contains-sorted_set s (x ∷ xs) =
    ground (arith, contains-insert_text s x (sorted_set xs), contains-sorted_set s xs)

-- `c.isspace()`
is_space : Char → Bool
is_space c =
    let n = code_point c in
    (leb 9 n && leb n 13)
    || (leb 28 n && leb n 32)
    || n == 133
    || n == 160
    || n == 5760
    || (leb 8192 n && leb n 8202)
    || n == 8232
    || n == 8233
    || n == 8239
    || n == 8287
    || n == 12288

unfoldable pub is_ascii : String → Bool
is_ascii no_text = true
is_ascii (cons_text c s) = leb (code_point c) 127 && is_ascii s

strip_left : String → String
unfolding is_space
strip_left no_text = no_text
strip_left (cons_text c s) = let rest = strip_left s in if is_space c then rest else cons_text c s

strip_right : String → String
unfolding is_space
strip_right no_text = no_text
strip_right (cons_text c s) =
    let rest = strip_right s in if is_space c && rest ≈ "" then "" else cons_text c rest

-- The character of the second text at the place where the first has `c`.
translate : String → String → Char → Char
translate (cons_text a ls) (cons_text b us) c =
    let rest = translate ls us c in if code_point a == code_point c then b else rest
translate no_text us c = c
translate (cons_text a ls) no_text c = c

upper_case : String
upper_case = "ABCDEFGHIJKLMNOPQRSTUVWXYZ"

lower_case : String
lower_case = "abcdefghijklmnopqrstuvwxyz"

-- `strip()` of a text, and `upper()` and `lower()` of one in ASCII.
unfoldable pub stripped : String → String
unfolding strip_left strip_right is_space
stripped s = strip_right (strip_left s)

unfoldable pub upper : String → String
unfolding translate upper_case lower_case
upper no_text = no_text
upper (cons_text c s) = cons_text (translate lower_case upper_case c) (upper s)

unfoldable pub lower : String → String
unfolding translate upper_case lower_case
lower no_text = no_text
lower (cons_text c s) = cons_text (translate upper_case lower_case c) (lower s)

pub contains-select :
    (s : String) (p : String → Bool) (xs : List String)
    → contains s (select p xs) ≡ (contains s xs && p s)
contains-select s p [] = refl
contains-select s p (x ∷ xs) = ground (arith, ≈_iff s x, contains-select s p xs)
