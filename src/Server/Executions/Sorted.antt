-- ===== src/Server/Executions/Sorted.antt =====
-- The keys of executions that a sort puts in another order, and of the first of them.
use phan_tan_dkron_giuaky.Common.{
  ℕ, zero, suc, ◌≡◌, refl, sym, ap, ◌∙◌, true, List, [], ◌∷◌, ==_iff, codes_eq, has, Distinct,
  length, take, subst, arith,
}
use phan_tan_dkron_giuaky.Server.Executions.{Execution, key_of}
use mathlib.Core.List.{Permᴰ}

abbrev pub keys_of : List Execution → List (List ℕ)
keys_of [] = []
keys_of (e ∷ es) = key_of e ∷ keys_of es

pub has-Perm :
    (es ds : List Execution) (k : List ℕ) → Permᴰ es ds → has (keys_of es) k ≡ has (keys_of ds) k
unfolding has
has-Perm es ds k Permᴰ.nil = refl
has-Perm (a ∷ es) (b ∷ ds) k (Permᴰ.cons same p) =
    ground (arith, ap key_of same, has-Perm es ds k p)
has-Perm (a ∷ b ∷ es) (a' ∷ b' ∷ es') k (Permᴰ.swap p q) = ground (arith, ap key_of p, ap key_of q)
has-Perm es ds k (Permᴰ.trans p q) = has-Perm es _ k p ∙ has-Perm _ ds k q

swapped-Distinct :
    (a b : Execution) (es : List Execution)
    → Distinct (keys_of (a ∷ b ∷ es))
    → Distinct (keys_of (b ∷ a ∷ es))
unfolding has
swapped-Distinct a b es d =
    ground (arith, ==_iff (key_of a) (key_of b), ==_iff (key_of b) (key_of a))

pub Distinct-Perm :
    (es ds : List Execution) → Permᴰ es ds → Distinct (keys_of es) → Distinct (keys_of ds)
unfolding has
Distinct-Perm es ds Permᴰ.nil d = d
Distinct-Perm (a ∷ es) (b ∷ ds) (Permᴰ.cons same p) d = (
  ap (λ i. has (keys_of ds) (key_of i)) (sym same) ∙ sym (has-Perm es ds (key_of a) p) ∙ d.0,
  Distinct-Perm es ds p d.1,
)
Distinct-Perm (a ∷ b ∷ es) (a' ∷ b' ∷ es') (Permᴰ.swap p q) d =
    subst (λ i. Distinct (keys_of (a' ∷ i ∷ es))) p
      (subst (λ i. Distinct (keys_of (i ∷ a ∷ es))) q (swapped-Distinct a b es d))
Distinct-Perm es ds (Permᴰ.trans p q) d = Distinct-Perm _ ds q (Distinct-Perm es _ p d)

pub length-Perm : (es ds : List Execution) → Permᴰ es ds → length es ≡ length ds
length-Perm es ds Permᴰ.nil = refl
length-Perm (a ∷ es) (b ∷ ds) (Permᴰ.cons same p) = ap suc (length-Perm es ds p)
length-Perm (a ∷ b ∷ es) (a' ∷ b' ∷ es') (Permᴰ.swap p q) = refl
length-Perm es ds (Permᴰ.trans p q) = length-Perm es _ p ∙ length-Perm _ ds q

pub has-take :
    (n : ℕ) (es : List Execution) (k : List ℕ)
    → has (keys_of (take n es)) k ≡ true
    → has (keys_of es) k ≡ true
unfolding has
has-take zero es k found = cc found
has-take (suc n) [] k found = cc found
has-take (suc n) (e ∷ es) k found = ground (arith, has-take n es k)

pub take-Distinct :
    (n : ℕ) (es : List Execution) → Distinct (keys_of es) → Distinct (keys_of (take n es))
unfolding has
take-Distinct zero es d = tt
take-Distinct (suc n) [] d = tt
take-Distinct (suc n) (e ∷ es) d =
    (ground (arith, has-take n es (key_of e)), take-Distinct n es d.1)
