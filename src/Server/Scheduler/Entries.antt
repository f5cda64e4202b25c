-- ===== src/Server/Scheduler/Entries.antt =====
-- Counting entries of the cron engine.
use phan_tan_dkron_giuaky.Common.{
  ℕ, ◌-◌, ◌≡◌, ◌≤◌, ◌<◌, inl, inr, refl, ap, ◌∙◌, Bool, some, none, List, [], ◌∷◌, String, ◌==◌,
  ==_iff, string_eq, if◌then◌else◌, Bool-cases, arith,
}
use phan_tan_dkron_giuaky.Server.Scheduler.{Entry, has_id, without_id, tally, get_entry_job}
use mathlib.Core.List.{Permᴰ}

abbrev pub named : String → Entry → Bool
named n x = x.1.name == n

pub tally-Perm :
    {A : Type 0} (test : A → Bool) (xs ys : List A) → Permᴰ xs ys → tally test xs ≡ tally test ys
unfolding tally
tally-Perm test xs ys Permᴰ.nil = refl
tally-Perm test (x ∷ xs) (y ∷ ys) (Permᴰ.cons same p) =
    ground (arith, ap test same, tally-Perm test xs ys p)
tally-Perm test (x ∷ y ∷ xs) (y' ∷ x' ∷ xs') (Permᴰ.swap p q) = ground (arith, ap test p, ap test q)
tally-Perm test xs ys (Permᴰ.trans p q) = tally-Perm test xs _ p ∙ tally-Perm test _ ys q

-- What stands under other numbers stays.
pub without_id_absent :
    (id : ℕ) (xs : List Entry) → tally (has_id id) xs ≡ 0 → without_id id xs ≡ xs
unfolding tally without_id
without_id_absent id [] absent = refl
without_id_absent id (x ∷ xs) absent = ground (arith, without_id_absent id xs)

pub tally-without_id-le :
    (test : Entry → Bool) (id : ℕ) (xs : List Entry) → tally test (without_id id xs) ≤ tally test xs
unfolding tally without_id
tally-without_id-le test id [] = omega arith
tally-without_id-le test id (x ∷ xs) = ground (arith, tally-without_id-le test id xs)

-- A search by name finds nothing exactly where no entry has the name.
pub get_entry_job-none :
    (xs : List Entry) (n : String) → get_entry_job xs n ≡ none → tally (named n) xs ≡ 0
unfolding tally get_entry_job
get_entry_job-none [] n gone = refl
get_entry_job-none (x ∷ xs) n gone = ground (arith, get_entry_job-none xs n)

pub get_entry_job-named :
    (xs : List Entry) (n : String) (x : Entry)
    → get_entry_job xs n ≡ some x
    → (x.1.name ≡ n) × (0 < tally (has_id x.0) xs)
unfolding tally get_entry_job
get_entry_job-named [] n x found = cc found
get_entry_job-named (y ∷ ys) n x found =
    ground (arith, get_entry_job-named ys n x, ==_iff y.1.name n)

-- With each number used once, the entry that the search by name finds is the one that goes.
pub tally-without_id :
    (xs : List Entry) (n : String) (x : Entry) (c : String)
    → get_entry_job xs n ≡ some x
    → ((id : ℕ) → tally (has_id id) xs ≤ 1)
    → tally (named c) (without_id x.0 xs)
      ≡ (if n == c then tally (named c) xs - 1 else tally (named c) xs)
unfolding tally get_entry_job without_id
tally-without_id [] n x c found once = cc found
tally-without_id (y ∷ ys) n x c found once = elim (Bool-cases (y.1.name == n)) [
  | inl here ↦
      ground (
        arith,
        once y.0,
        without_id_absent y.0 ys,
        ==_iff y.1.name n,
        ==_iff y.1.name c,
        ==_iff n c,
      )
  | inr later ↦
      let there : get_entry_job ys n ≡ some x = ground arith in
      ground (
        arith,
        once x.0,
        get_entry_job-named ys n x there,
        tally-without_id ys n x c there (λ id. ground (arith, once id)),
        ==_iff y.1.name n,
        ==_iff y.1.name c,
        ==_iff n c,
      )
]
