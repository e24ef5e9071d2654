-- ===== src/Base/Maps.antt =====
-- `std::map` as an association list with one entry to a key. The order of the entries stands for
-- the order of iteration.
use mathlib.Core.Bool.{Bool, true, false}
use Prim.Native.Nat.{ℕ, ◌+◌}
use mathlib.Core.Path.{◌≡◌, refl}
use mathlib.Core.List.{List, [], ◌∷◌}
use mathlib.Core.Option.{Option, none, some}
use native.Mathlib.Omega.{arith}
use neshare.Base.Tests.{Key, ◌==◌, if◌then◌else◌}

abbrev pub Dict {ℓ κ} : Type ℓ → Type κ → Type (ℓ ⊔ κ)
Dict K V = List (K × V)

module _ {ℓ κ} {K : Type ℓ} {V : Type κ} ⦃e : Key K⦄ where
  -- `m.find(k)`
  abbrev pub lookup : K → Dict K V → Option V
  lookup k [] = none
  lookup k ((j, v) ∷ m) = if j == k then some v else lookup k m

  -- `m[k] = v`
  abbrev pub insert : K → V → Dict K V → Dict K V
  insert k v [] = (k, v) ∷ []
  insert k v ((j, w) ∷ m) = if j == k then (j, v) ∷ m else (j, w) ∷ insert k v m

  -- `m.erase(m.find(k))`
  abbrev pub remove : K → Dict K V → Dict K V
  remove k [] = []
  remove k ((j, w) ∷ m) = if j == k then m else (j, w) ∷ remove k m

  abbrev pub keys : Dict K V → List K
  keys [] = []
  keys ((j, v) ∷ m) = j ∷ keys m

  -- No key has two entries.
  abbrev pub IsDict : Dict K V → Type (ℓ ⊔ κ)
  IsDict [] = Unit
  IsDict ((j, v) ∷ m) = (lookup j m ≡ none) × IsDict m

  pub lookup-insert :
      (k j : K) (v : V) (m : Dict K V)
      → lookup j (insert k v m) ≡ (if k == j then some v else lookup j m)
  lookup-insert k j v [] = refl
  lookup-insert k j v ((i, w) ∷ m) =
      ground (arith, e.same_iff k j, e.same_iff i k, e.same_iff i j, lookup-insert k j v m)

  pub lookup-remove :
      (k j : K) (m : Dict K V)
      → IsDict m
      → lookup j (remove k m) ≡ (if k == j then none else lookup j m)
  lookup-remove k j [] d = ground arith
  lookup-remove k j ((i, w) ∷ m) d =
      ground (arith, e.same_iff k j, e.same_iff i k, e.same_iff i j, lookup-remove k j m d.1)

  absent-remove : (k j : K) (m : Dict K V) → lookup j m ≡ none → lookup j (remove k m) ≡ none
  absent-remove k j [] h = refl
  absent-remove k j ((i, w) ∷ m) h = ground (arith, absent-remove k j m)

  pub remove-insert :
      (k : K) (v : V) (m : Dict K V) → lookup k m ≡ none → remove k (insert k v m) ≡ m
  remove-insert k v [] h = rw ((e.same_iff k k).1 refl) refl
  remove-insert k v ((j, w) ∷ m) h = ground (arith, remove-insert k v m)

  pub insert-IsDict : (k : K) (v : V) (m : Dict K V) → IsDict m → IsDict (insert k v m)
  insert-IsDict k v [] d = (refl, tt)
  insert-IsDict k v ((i, w) ∷ m) d =
      ground (arith, insert-IsDict k v m d.1, lookup-insert k i v m, e.same_iff i k, e.same_iff k i)

  pub remove-IsDict : (k : K) (m : Dict K V) → IsDict m → IsDict (remove k m)
  remove-IsDict k [] d = tt
  remove-IsDict k ((i, w) ∷ m) d = ground (arith, remove-IsDict k m d.1, absent-remove k i m)

-- Sums over the values.
module _ {ℓ κ} {K : Type ℓ} {V : Type κ} ⦃e : Key K⦄ (f : V → ℕ) where
  abbrev pub sum_by : Dict K V → ℕ
  sum_by [] = 0
  sum_by ((j, v) ∷ m) = f v + sum_by m

  pub sum_by-insert_new :
      (k : K) (v : V) (m : Dict K V) → lookup k m ≡ none → sum_by (insert k v m) ≡ sum_by m + f v
  sum_by-insert_new k v [] h = omega arith
  sum_by-insert_new k v ((j, w) ∷ m) h = ground (arith, sum_by-insert_new k v m)

  pub sum_by-insert_old :
      (k : K) (v w : V) (m : Dict K V)
      → lookup k m ≡ some w
      → sum_by (insert k v m) + f w ≡ sum_by m + f v
  sum_by-insert_old k v w [] h = cc
  sum_by-insert_old k v w ((j, x) ∷ m) h = ground (arith, sum_by-insert_old k v w m)

  pub sum_by-remove :
      (k : K) (w : V) (m : Dict K V) → lookup k m ≡ some w → sum_by (remove k m) + f w ≡ sum_by m
  sum_by-remove k w [] h = cc
  sum_by-remove k w ((j, x) ∷ m) h = ground (arith, sum_by-remove k w m)

-- Whether a key is there.
abbrev pub known {ℓ} : {A : Type ℓ} → Option A → Bool
known none = false
known (some x) = true

-- Steps that may fail, `none` standing for an access to an object that is gone.
infixl 5 ◌>>=◌
abbrev pub ◌>>=◌ {ℓ κ} : {A : Type ℓ} {B : Type κ} → Option A → (A → Option B) → Option B
none >>= f = none
some a >>= f = f a

-- A step whose value is not used, before a fixed result.
pub bind_const-eq-some {ℓ κ} :
    {A : Type ℓ} {B : Type κ} (o : Option A) {x y : B} → (o >>= (λ _. some x)) ≡ some y → x ≡ y
bind_const-eq-some none h = cc
bind_const-eq-some (some a) h = cc

-- A chain that ends well has a first step that ends well.
pub bind-eq-some {ℓ κ} :
    {A : Type ℓ} {B : Type κ} (o : Option A) (f : A → Option B) {y : B}
    → (o >>= f) ≡ some y
    → (a : A) × (o ≡ some a) × (f a ≡ some y)
bind-eq-some none f h = cc
bind-eq-some (some a) f h = (a, refl, h)

pub some-inj {ℓ} : {A : Type ℓ} {x y : A} → some x ≡ some y → x ≡ y
some-inj h = cc

pub bind_assoc {ℓ κ μ} :
    {A : Type ℓ} {B : Type κ} {C : Type μ} (o : Option A) (f : A → Option B) (g : B → Option C)
    → (o >>= (λ a. f a >>= g)) ≡ (o >>= f >>= g)
bind_assoc none f g = refl
bind_assoc (some a) f g = refl
