-- ===== src/Server/Targets/Arrays.antt =====
-- Reads, writes and swaps in the arrays of nodes of `dkron/dkron/agent.go`, at a place in the middle.
use phan_tan_dkron_giuaky.Common.{
  ℕ, zero, suc, ◌+◌, ◌-◌, ◌≡◌, ◌≤◌, ◌<◌, refl, sym, ap, ◌∙◌, inl, inr, some, List, [], ◌∷◌, ◌++◌,
  length, length-append, Option-cases, subst, arith,
}
use phan_tan_dkron_giuaky.Server.Targets.{Node, get_elem?, set, first, from, copy}
use mathlib.Core.List.{Permᴰ}
use mathlib.Core.List.Permᴰ

pub get_elem?-middle :
    (xs : List Node) (y : Node) (ys : List Node) → get_elem? (xs ++ y ∷ ys) (length xs) ≡ some y
get_elem?-middle [] y ys = refl
get_elem?-middle (x ∷ xs) y ys = get_elem?-middle xs y ys

pub set-middle :
    (xs : List Node) (y v : Node) (ys : List Node) → set (xs ++ y ∷ ys) (length xs) v ≡ xs ++ v ∷ ys
set-middle [] y v ys = refl
set-middle (x ∷ xs) y v ys = ap (λ zs. x ∷ zs) (set-middle xs y v ys)

pub first-append : (xs ys : List Node) → first (length xs) (xs ++ ys) ≡ xs
first-append [] ys = refl
first-append (x ∷ xs) ys = ap (λ zs. x ∷ zs) (first-append xs ys)

pub first_all : (xs : List Node) → first (length xs) xs ≡ xs
first_all [] = refl
first_all (x ∷ xs) = ap (λ zs. x ∷ zs) (first_all xs)

pub first-from : (n : ℕ) (xs : List Node) → first n xs ++ from n xs ≡ xs
first-from zero xs = refl
first-from (suc n) [] = refl
first-from (suc n) (x ∷ xs) = ap (λ zs. x ∷ zs) (first-from n xs)

pub length-first : (n : ℕ) (xs : List Node) → n ≤ length xs → length (first n xs) ≡ n
length-first zero xs h = refl
length-first (suc n) [] h = elim h [ ]
length-first (suc n) (x ∷ xs) h = ap suc (length-first n xs (omega arith))

pub length-from : (n : ℕ) (xs : List Node) → length (from n xs) ≡ length xs - n
length-from zero xs = omega arith
length-from (suc n) [] = omega arith
length-from (suc n) (x ∷ xs) = omega (arith, length-from n xs)

pub length-Perm : (xs ys : List Node) → Permᴰ xs ys → length xs ≡ length ys
length-Perm xs ys Permᴰ.nil = refl
length-Perm (x ∷ xs) (y ∷ ys) (Permᴰ.cons same p) = ap suc (length-Perm xs ys p)
length-Perm (x ∷ y ∷ xs) (y' ∷ x' ∷ ys) (Permᴰ.swap p q) = refl
length-Perm xs ys (Permᴰ.trans p q) = length-Perm xs _ p ∙ length-Perm _ ys q

-- An array is what is before a place, what is there, and what is behind it.
pub split_at :
    (arr : List Node) (i : ℕ)
    → i < length arr
    → (xs : List Node) × (y : Node) × (ys : List Node) × (arr ≡ xs ++ y ∷ ys) × (length xs ≡ i)
split_at [] i h = absurd (omega arith)
split_at (x ∷ arr) zero h = ([], x, arr, refl, refl)
split_at (x ∷ arr) (suc i) h =
    let (xs, y, ys, same, at) = split_at arr i (omega arith) in
    (x ∷ xs, y, ys, ap (λ zs. x ∷ zs) same, ap suc at)

-- The last of an array
pub split_last :
    (y : Node) (ys : List Node)
    → (xs : List Node) × (z : Node) × (y ∷ ys ≡ xs ++ z ∷ []) × (length xs ≡ length ys)
split_last y [] = ([], y, refl, refl)
split_last y (x ∷ ys) =
    let (xs, z, same, at) = split_last x ys in (y ∷ xs, z, ap (λ zs. y ∷ zs) same, ap suc at)

copy-cons :
    (x : Node) (arr : List Node) (i j : ℕ) → copy (x ∷ arr) (suc i) (suc j) ≡ x ∷ copy arr i j
copy-cons x arr i j = elim (Option-cases (get_elem? arr j)) [
  | inl out ↦ rw (copy, out) refl
  | inr (v, there) ↦ rw (copy, there) refl
]

-- The last takes the place of the first.
copy_first :
    (y : Node) (ys : List Node) → Permᴰ (first (length ys) (copy (y ∷ ys) 0 (length ys))) ys
copy_first y [] = Permᴰ.nil
copy_first y (x ∷ ys) =
    let (xs, z, same, at) = split_last x ys in
    let moved : first (length (xs ++ z ∷ [])) (copy (y ∷ (xs ++ z ∷ [])) 0 (length (xs ++ z ∷ [])))
        ≡ z ∷ xs =
      rw (length-append xs (z ∷ [])) (rw (snoc (length xs)) (moved_last xs z)) in
    subst (λ zs. Permᴰ (first (length zs) (copy (y ∷ zs) 0 (length zs))) zs) (sym same)
      (subst (λ zs. Permᴰ zs (xs ++ z ∷ [])) (sym moved)
        (Permᴰ.symm (Permᴰ.trans (Permᴰ.middle z xs []) (Permᴰ.cons refl (Permᴰ.append-nil xs)))))
  where
    snoc : (n : ℕ) → n + suc 0 ≡ suc n
    snoc n = omega arith

    moved_last :
        (xs : List Node) (z : Node)
        → first (suc (length xs)) (copy (y ∷ (xs ++ z ∷ [])) 0 (suc (length xs))) ≡ z ∷ xs
    moved_last xs z =
        rw (copy, get_elem?-middle xs z []) (ap (λ zs. z ∷ zs) (first-append xs (z ∷ [])))

copy_middle :
    (xs : List Node) (y : Node) (ys : List Node)
    → first (length xs + length ys) (copy (xs ++ y ∷ ys) (length xs) (length xs + length ys))
      ≡ xs ++ first (length ys) (copy (y ∷ ys) 0 (length ys))
copy_middle [] y ys = rw (zero_add (length ys)) refl
  where
    zero_add : (n : ℕ) → 0 + n ≡ n
    zero_add n = omega arith
copy_middle (x ∷ xs) y ys = rw (suc_add (length xs) (length ys)) (
    rw (copy-cons x (xs ++ y ∷ ys) (length xs) (length xs + length ys))
      (ap (λ zs. x ∷ zs) (copy_middle xs y ys)))
  where
    suc_add : (n m : ℕ) → suc n + m ≡ suc (n + m)
    suc_add n m = omega arith

-- What `filterArray` does with a node that fails takes out just this node.
pub removed-Perm :
    (xs : List Node) (y : Node) (ys : List Node)
    → (zs : List Node) × (first
          (length (xs ++ y ∷ ys) - 1)
          (copy (xs ++ y ∷ ys) (length xs) (length (xs ++ y ∷ ys) - 1))
        ≡ xs ++ zs)
      × Permᴰ zs ys
removed-Perm xs y ys =
    let size : length (xs ++ y ∷ ys) - 1 ≡ length xs + length ys =
      omega (arith, length-append xs (y ∷ ys)) in
    (
      first (length ys) (copy (y ∷ ys) 0 (length ys)),
      rw size (copy_middle xs y ys),
      copy_first y ys,
    )
