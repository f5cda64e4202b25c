-- ===== src/Common/Maps.antt =====
-- The language's `Set` and `Map`: both iterate in the order of first insertion. A set is the list
-- of its elements, a map the list of its entries; `set` on a key that is there replaces the value
-- and keeps the place.
use mathlib.Core.Path.{◌≡◌, refl}
use mathlib.Core.Logic.{inl, inr}
use mathlib.Core.Bool.{Bool, true, false, ◌||◌}
use mathlib.Core.Option.{Option, none, some}
use mathlib.Core.List.{List, [], ◌∷◌, ◌++◌}
use native.Mathlib.Omega.{arith}
use phan_tan_dkron_giuaky.Common.Tests.{if◌then◌else◌, Bool-cases, Option-cases}
use phan_tan_dkron_giuaky.Common.Classes.{Key, ◌==◌, ==_iff}

module _ {ℓ} {K : Type ℓ} ⦃e : Key K⦄ where
  unfoldable pub has : List K → K → Bool
  has [] a = false
  has (x ∷ xs) a = x == a || has xs a

  -- `Set.add`
  unfoldable pub add : List K → K → List K
  add [] a = a ∷ []
  add (x ∷ xs) a = if x == a then x ∷ xs else x ∷ add xs a

  pub has-add : (xs : List K) (a b : K) → has (add xs a) b ≡ (a == b || has xs b)
  unfolding has add
  has-add [] a b = refl
  has-add (x ∷ xs) a b = ground (arith, ==_iff x a, ==_iff x b, ==_iff a b, has-add xs a b)

  pub has-append : (xs ys : List K) (a : K) → has (xs ++ ys) a ≡ (has xs a || has ys a)
  unfolding has
  has-append [] ys a = refl
  has-append (x ∷ xs) ys a = ground (arith, has-append xs ys a)

  -- `new Set(xs)`, added to `s`
  unfoldable pub add_all : List K → List K → List K
  add_all s [] = s
  add_all s (x ∷ xs) = add_all (add s x) xs

  pub has-add_all : (s xs : List K) (a : K) → has (add_all s xs) a ≡ (has s a || has xs a)
  unfolding has add_all
  has-add_all s [] a = ground arith
  has-add_all s (x ∷ xs) a = ground (arith, has-add s x a, has-add_all (add s x) xs a)

  abbrev pub Distinct : List K → Type 0
  Distinct [] = Unit
  Distinct (x ∷ xs) = (has xs x ≡ false) × Distinct xs

  pub add-Distinct : (xs : List K) (a : K) → Distinct xs → Distinct (add xs a)
  unfolding has add
  add-Distinct [] a h = (refl, tt)
  add-Distinct (x ∷ xs) a h =
      ground (arith, ==_iff a x, ==_iff x a, has-add xs a x, add-Distinct xs a h.1)

  pub add_all-Distinct : (s xs : List K) → Distinct s → Distinct (add_all s xs)
  unfolding add_all
  add_all-Distinct s [] h = h
  add_all-Distinct s (x ∷ xs) h = add_all-Distinct (add s x) xs (add-Distinct s x h)

module _ {ℓ κ} {K : Type ℓ} {V : Type κ} ⦃e : Key K⦄ where
  -- `Map.get`
  unfoldable pub get : List (K × V) → K → Option V
  get [] k = none
  get ((j, v) ∷ m) k = if j == k then some v else get m k

  -- `Map.set`
  unfoldable pub put : List (K × V) → K → V → List (K × V)
  put [] k v = (k, v) ∷ []
  put ((j, w) ∷ m) k v = if j == k then (j, v) ∷ m else (j, w) ∷ put m k v

  abbrev pub keys : List (K × V) → List K
  keys [] = []
  keys ((k, v) ∷ m) = k ∷ keys m

  -- `Map.has`
  unfoldable pub has_key : List (K × V) → K → Bool
  has_key m k = has (keys m) k

  pub get-put :
      (m : List (K × V)) (k j : K) (v : V)
      → get (put m k v) j ≡ (if k == j then some v else get m j)
  unfolding get put
  get-put [] k j v = refl
  get-put ((i, w) ∷ m) k j v = ground (arith, ==_iff i k, ==_iff i j, ==_iff k j, get-put m k j v)

  pub keys-put : (m : List (K × V)) (k : K) (v : V) → keys (put m k v) ≡ add (keys m) k
  unfolding put add
  keys-put [] k v = refl
  keys-put ((j, w) ∷ m) k v = ground (arith, keys-put m k v)

  pub get_of_has_key :
      (m : List (K × V)) (k : K) → has_key m k ≡ true → (v : V) × (get m k ≡ some v)
  unfolding get has has_key
  get_of_has_key [] k h = cc
  get_of_has_key ((j, w) ∷ m) k h = elim (Bool-cases (j == k)) [
    | inl same ↦ (w, ground arith)
    | inr other ↦ let (v, p) = get_of_has_key m k (ground arith) in (v, ground arith)
  ]

  pub has_key_of_get : (m : List (K × V)) (k : K) (v : V) → get m k ≡ some v → has_key m k ≡ true
  unfolding get has has_key
  has_key_of_get [] k v h = cc
  has_key_of_get ((j, w) ∷ m) k v h = ground (arith, has_key_of_get m k v)

module _ {ℓ} {K : Type ℓ} ⦃e : Key K⦄ where
  pub Distinct-append :
      (xs ys : List K)
      → Distinct xs
      → Distinct ys
      → ((a : K) → has xs a ≡ true → has ys a ≡ false)
      → Distinct (xs ++ ys)
  unfolding has
  Distinct-append [] ys h k apart = k
  Distinct-append (x ∷ xs) ys h k apart = (
    ground (arith, has-append xs ys x, apart x, ==_iff x x),
    Distinct-append xs ys h.1 k (λ a p. apart a (ground arith)),
  )

module _ {ℓ κ} {K : Type ℓ} {V : Type κ} ⦃e : Key K⦄ where
  pub get_of_not_has_key : (m : List (K × V)) (k : K) → has_key m k ≡ false → get m k ≡ none
  get_of_not_has_key m k h = elim (Option-cases (get m k)) [
    | inl absent ↦ absent
    | inr (v, found) ↦ cc (has_key_of_get m k v found)
  ]

  pub has-keys-put :
      (m : List (K × V)) (k j : K) (v : V) → has (keys (put m k v)) j ≡ (k == j || has (keys m) j)
  has-keys-put m k j v = rw (keys-put m k v) (has-add (keys m) k j)

  pub keys-put-Distinct :
      (m : List (K × V)) (k : K) (v : V) → Distinct (keys m) → Distinct (keys (put m k v))
  keys-put-Distinct m k v h = rw (keys-put m k v) (add-Distinct (keys m) k h)

  pub has_key_of_get-none : (m : List (K × V)) (k : K) → get m k ≡ none → has_key m k ≡ false
  has_key_of_get-none m k h = elim (Bool-cases (has_key m k)) [
    | inl there ↦ let (v, found) = get_of_has_key m k there in cc found
    | inr missing ↦ missing
  ]

-- `Map.delete`
unfoldable pub erase {ℓ κ} : {K : Type ℓ} {V : Type κ} ⦃e : Key K⦄ → List (K × V) → K → List (K × V)
erase [] k = []
erase ((j, v) ∷ m) k = if j == k then erase m k else (j, v) ∷ erase m k

pub get-erase {ℓ κ} :
    {K : Type ℓ} {V : Type κ} ⦃e : Key K⦄ (m : List (K × V)) (k j : K)
    → get (erase m k) j ≡ (if k == j then none else get m j)
unfolding get erase
get-erase [] k j = ground arith
get-erase ((i, v) ∷ m) k j = ground (arith, ==_iff i k, ==_iff i j, ==_iff k j, get-erase m k j)

pub keys-erase {ℓ κ} :
    {K : Type ℓ} {V : Type κ} ⦃e : Key K⦄ (m : List (K × V)) (k j : K)
    → has (keys (erase m k)) j ≡ (if k == j then false else has (keys m) j)
unfolding has erase
keys-erase [] k j = ground arith
keys-erase ((i, v) ∷ m) k j = ground (arith, ==_iff i k, ==_iff i j, ==_iff k j, keys-erase m k j)

pub keys-erase-Distinct {ℓ κ} :
    {K : Type ℓ} {V : Type κ} ⦃e : Key K⦄ (m : List (K × V)) (k : K)
    → Distinct (keys m)
    → Distinct (keys (erase m k))
unfolding erase
keys-erase-Distinct [] k h = h
keys-erase-Distinct ((i, v) ∷ m) k h = ground (arith, keys-erase m k i, keys-erase-Distinct m k h.1)

pub put-put {ℓ κ} :
    {K : Type ℓ} {V : Type κ} ⦃e : Key K⦄ (m : List (K × V)) (k : K) (v w : V)
    → put (put m k v) k w ≡ put m k w
unfolding put
put-put [] k v w = ground (arith, ==_iff k k)
put-put ((i, u) ∷ m) k v w = ground (arith, ==_iff i k, put-put m k v w)
