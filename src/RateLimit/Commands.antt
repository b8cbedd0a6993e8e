-- ===== src/RateLimit/Commands.antt =====
-- Redis as app/core/rate_limit.py uses it. What is relied on is the documented behaviour of the
-- commands INCR, EXPIRE, SET with EX and DEL on the value and the lifetime of each key, and the
-- passing of whole seconds.
use omnibioai_auth.Prelude.{
  ℕ, ◌+◌, ◌-◌, ◌≤◌, String, ◌≡◌, Option, none, some, leb, ◌≈◌, if◌then◌else◌,
}

-- A number, and the seconds that it has left; 0 for one that does not expire.
pub record Entry : Type 0 where
  pub value : ℕ
  pub ttl : ℕ

abbrev pub bumped : Option Entry → Entry
bumped none = record { value = 1; ttl = 0 }
bumped (some e) = record e { value = e.value + 1 }

abbrev pub lasting : ℕ → Option Entry → Option Entry
lasting n none = none
lasting n (some e) = some (record e { ttl = n })

abbrev pub aged : ℕ → Option Entry → Option Entry
aged n none = none
aged n (some e) =
    if leb e.ttl 0
    then some e
    else if leb e.ttl n
    then none
    else some (record e { ttl = e.ttl - n })

pub record Redis : Type 1 where
  pub Store : Type 0
  pub look : String → Store → Option Entry
  pub incr : String → Store → Store
  pub expire : String → ℕ → Store → Store
  pub set_ex : String → ℕ → Store → Store
  pub delete : String → Store → Store
  pub wait : ℕ → Store → Store
  pub look-incr :
      (k j : String) (s : Store)
      → look j (incr k s) ≡ (if k ≈ j then some (bumped (look k s)) else look j s)
  pub look-expire :
      (k j : String) (n : ℕ) (s : Store)
      → 1 ≤ n
      → look j (expire k n s) ≡ (if k ≈ j then lasting n (look k s) else look j s)
  pub look-set_ex :
      (k j : String) (n : ℕ) (s : Store)
      → 1 ≤ n
      → look j (set_ex k n s) ≡ (if k ≈ j then some (record { value = 1; ttl = n }) else look j s)
  pub look-delete :
      (k j : String) (s : Store) → look j (delete k s) ≡ (if k ≈ j then none else look j s)
  pub look-wait : (j : String) (n : ℕ) (s : Store) → look j (wait n s) ≡ aged n (look j s)
