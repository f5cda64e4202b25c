-- ===== src/Server/Targets/Filter.antt =====
-- `filterArray` of `dkron/dkron/agent.go` against a filter that keeps the order.
use phan_tan_dkron_giuaky.Common.{
  ℕ, zero, suc, ◌+◌, ◌-◌, ◌≡◌, ◌≤◌, refl, sym, ap, Bool, true, false, inl, inr, List, [], ◌∷◌, ◌++◌,
  if◌then◌else◌, length, length-append, Bool-cases, subst, arith,
}
use phan_tan_dkron_giuaky.Server.Targets.{Node, first, copy, filter_below, filter_array}
use phan_tan_dkron_giuaky.Server.Targets.Arrays.{get_elem?-middle, split_last, removed-Perm}
use mathlib.Core.List.{Permᴰ}
use mathlib.Core.List.{append-nil, append_assoc}
use mathlib.Core.List.Permᴰ

-- The nodes that pass the test, in order
pub keep : (Node → Bool) → List Node → List Node
keep f [] = []
keep f (x ∷ xs) = if f x then x ∷ keep f xs else keep f xs

keep-snoc :
    (f : Node → Bool) (xs : List Node) (y : Node) (ys : List Node)
    → keep f (xs ++ y ∷ []) ++ ys ≡ keep f xs ++ (if f y then y ∷ ys else ys)
unfolding keep
keep-snoc f [] y ys = elim (Bool-cases (f y)) [ inl pass ↦ rw pass refl | inr fail ↦ rw fail refl ]
keep-snoc f (x ∷ xs) y ys = elim (Bool-cases (f x)) [
  | inl pass ↦ rw pass (ap (λ zs. x ∷ zs) (keep-snoc f xs y ys))
  | inr fail ↦ rw fail (keep-snoc f xs y ys)
]

filter_below-zero : (f : Node → Bool) (arr : List Node) → filter_below f zero arr ≡ arr
unfolding filter_below
filter_below-zero f arr = refl

filter_below-pass :
    (f : Node → Bool) (xs : List Node) (y : Node) (ys : List Node)
    → f y ≡ true
    → filter_below f (suc (length xs)) (xs ++ y ∷ ys) ≡ filter_below f (length xs) (xs ++ y ∷ ys)
unfolding filter_below
filter_below-pass f xs y ys pass = rw (filter_below, get_elem?-middle xs y ys) (rw pass refl)

filter_below-fail :
    (f : Node → Bool) (xs : List Node) (y : Node) (ys : List Node)
    → f y ≡ false
    → filter_below f (suc (length xs)) (xs ++ y ∷ ys)
      ≡ filter_below f (length xs) (
          first
            (length (xs ++ y ∷ ys) - 1)
            (copy (xs ++ y ∷ ys) (length xs) (length (xs ++ y ∷ ys) - 1)))
unfolding filter_below
filter_below-fail f xs y ys fail = rw (filter_below, get_elem?-middle xs y ys) (rw fail refl)

-- One round of the loop
filter_below-step :
    (f : Node → Bool) (ws : List Node) (z : Node) (ys : List Node)
    → ((zs : List Node) → Permᴰ (filter_below f (length ws) (ws ++ zs)) (keep f ws ++ zs))
    → Permᴰ
        (filter_below f (suc (length ws)) (ws ++ z ∷ ys))
        (keep f ws ++ (if f z then z ∷ ys else ys))
filter_below-step f ws z ys rest = elim (Bool-cases (f z)) [
  | inl pass ↦ rw (filter_below-pass f ws z ys pass) (rw pass (rest (z ∷ ys)))
  | inr fail ↦
      let (zs, removed, perm) = removed-Perm ws z ys in
      rw (filter_below-fail f ws z ys fail)
        (rw removed (rw fail (Permᴰ.trans (rest zs) (Permᴰ.append_left (keep f ws) perm))))
]

-- What is behind the index has been tested.
filter_below_lem :
    (f : Node → Bool) (i : ℕ) (xs ys : List Node)
    → length xs ≡ i
    → Permᴰ (filter_below f (length xs) (xs ++ ys)) (keep f xs ++ ys)
unfolding keep
filter_below_lem f i [] ys at = rw (filter_below-zero f ys) (Permᴰ.refl ys)
filter_below_lem f zero (x ∷ xs) ys at = absurd (omega (arith, at))
filter_below_lem f (suc i) (x ∷ xs) ys at =
    let (ws, z, same, size) = split_last x xs in
    let step : Permᴰ (filter_below f (suc (length ws)) (ws ++ z ∷ ys))
        (keep f (ws ++ z ∷ []) ++ ys) =
      rw (keep-snoc f ws z ys) (
        filter_below-step f ws z ys (λ zs. filter_below_lem f i ws zs (omega (arith, at, size)))) in
    let regroup : (ws ++ z ∷ []) ++ ys ≡ ws ++ z ∷ ys = append_assoc ws (z ∷ []) ys in
    subst (λ us. Permᴰ (filter_below f (length us) (us ++ ys)) (keep f us ++ ys)) (sym same)
      (rw regroup (rw (length-append ws (z ∷ [])) (rw (snoc (length ws)) step)))
  where
    snoc : (n : ℕ) → n + suc 0 ≡ suc n
    snoc n = omega arith

pub keep_same :
    (f g : Node → Bool) (nodes : List Node) → ((x : Node) → f x ≡ g x) → keep f nodes ≡ keep g nodes
unfolding keep
keep_same f g [] same = refl
keep_same f g (x ∷ nodes) same = ground (arith, same x, keep_same f g nodes same)

pub keep-le : (f : Node → Bool) (nodes : List Node) → length (keep f nodes) ≤ length nodes
unfolding keep
keep-le f [] = omega arith
keep-le f (x ∷ nodes) = ground (arith, keep-le f nodes)

pub filter_array-Perm :
    (f : Node → Bool) (arr : List Node) → Permᴰ (filter_array f arr) (keep f arr)
unfolding filter_array
filter_array-Perm f arr =
    subst (λ zs. Permᴰ (filter_below f (length arr) zs) (keep f arr)) (append-nil arr)
      (subst (λ zs. Permᴰ (filter_below f (length arr) (arr ++ [])) zs) (append-nil (keep f arr))
        (filter_below_lem f (length arr) arr [] refl))
