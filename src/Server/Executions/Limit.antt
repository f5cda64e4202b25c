-- ===== src/Server/Executions/Limit.antt =====
-- `SetExecution` of `dkron/dkron/store.go` keeps at most `MaxExecutions` executions of a job.
use phan_tan_dkron_giuaky.Common.{
  ℕ, suc, ◌+◌, ◌-◌, ◌≤◌, ◌≡◌, refl, sym, ap, ◌∙◌, true, false, inl, inr, List, [], ◌∷◌, ◌==◌,
  ==_iff, codes_eq, get, put, has, keys, keys-put-Distinct, Distinct, erase, keys-erase,
  keys-erase-Distinct, length, take, length-take_of_le, ltb, arith, Bool-cases,
}
use phan_tan_dkron_giuaky.Server.Executions.{
  Execution, Executions, key_of, stored_execution, is_listed, list_executions, delete_all,
  set_execution_tx, set_execution, keep_newest, is_later, list_prefix,
}
use mathlib.Core.List.{Permᴰ}
use phan_tan_dkron_giuaky.Server.Executions.Sorted.{
  keys_of, has-Perm, Distinct-Perm, length-Perm, has-take, take-Distinct,
}

-- Every execution stands under its own key.
abbrev pub OwnKeys : Executions → Type 0
OwnKeys [] = Unit
OwnKeys ((key, e) ∷ m) = (key ≡ key_of e) × OwnKeys m

erased_absent :
    (prefix key : List ℕ) (m : Executions)
    → has (keys m) key ≡ false
    → length (list_executions prefix (erase m key)) ≡ length (list_executions prefix m)
unfolding erase has list_executions
erased_absent prefix key [] away = refl
erased_absent prefix key ((i, e) ∷ m) away = ground (arith, erased_absent prefix key m)

has-erased :
    (prefix key : List ℕ) (m : Executions)
    → Distinct (keys m)
    → has (keys m) key ≡ true
    → is_listed prefix key ≡ true
    → suc (length (list_executions prefix (erase m key))) ≡ length (list_executions prefix m)
unfolding erase has list_executions
has-erased prefix key [] d there listed = cc there
has-erased prefix key ((i, e) ∷ m) d there listed = elim (Bool-cases (i == key)) [
  | inl same ↦ ground (arith, erased_absent prefix key m, ==_iff i key)
  | inr other ↦ ground (arith, has-erased prefix key m d.1)
]

-- Deletes of listed executions, each of which is there
delete_all_lem :
    (prefix : List ℕ) (ds : List Execution) (m : Executions)
    → Distinct (keys m)
    → Distinct (keys_of ds)
    → ((k : List ℕ)
        → has (keys_of ds) k ≡ true
        → (has (keys m) k ≡ true) × (is_listed prefix k ≡ true))
    → length (list_executions prefix (delete_all ds m)) + length ds
      ≡ length (list_executions prefix m)
unfolding delete_all has
delete_all_lem prefix [] m d apart there = omega arith
delete_all_lem prefix (e ∷ es) m d apart there =
    let key = key_of e in
    let own = there key (ground (arith, ==_iff key key)) in
    let rest =
      delete_all_lem prefix es (erase m key) (keys-erase-Distinct m key d) apart.1
        (λ k later. ground (arith, there k, keys-erase m key k, ==_iff key k)) in
    let first = has-erased prefix key m d own.0 own.1 in omega (arith, rest, first)

listed_there :
    (prefix : List ℕ) (m : Executions) (k : List ℕ)
    → OwnKeys m
    → has (keys_of (list_executions prefix m)) k ≡ true
    → (has (keys m) k ≡ true) × (is_listed prefix k ≡ true)
unfolding has list_executions
listed_there prefix [] k own found = cc found
listed_there prefix ((i, e) ∷ m) k own found =
    ground (arith, listed_there prefix m k own.1, ==_iff (key_of e) k, ==_iff i k)

listed-Distinct :
    (prefix : List ℕ) (m : Executions)
    → OwnKeys m
    → Distinct (keys m)
    → Distinct (keys_of (list_executions prefix m))
unfolding has list_executions
listed-Distinct prefix [] own d = tt
listed-Distinct prefix ((i, e) ∷ m) own d = elim (Bool-cases (is_listed prefix i)) [
  | inl listed ↦ rw listed (
    ground (arith, listed_there prefix m (key_of e) own.1, ap (has (keys m)) own.0),
    listed-Distinct prefix m own.1 d.1,
  )
  | inr other ↦ rw other (listed-Distinct prefix m own.1 d.1)
]

put-OwnKeys :
    (m : Executions) (k : List ℕ) (e : Execution) → OwnKeys m → k ≡ key_of e → OwnKeys (put m k e)
unfolding put
put-OwnKeys [] k e own same = (same, tt)
put-OwnKeys ((i, v) ∷ m) k e own same = elim (Bool-cases (i == k)) [
  | inl found ↦ rw found ((==_iff i k).0 found ∙ same, own.1)
  | inr other ↦ rw other (own.0, put-OwnKeys m k e own.1 same)
]

key_of-stored_execution : (e : Execution) → key_of (stored_execution e) ≡ key_of e
unfolding key_of
key_of-stored_execution e = refl

set_execution_tx-OwnKeys :
    (m : Executions) (e : Execution)
    → OwnKeys m
    → Distinct (keys m)
    → OwnKeys (set_execution_tx e m) × Distinct (keys (set_execution_tx e m))
unfolding set_execution_tx
set_execution_tx-OwnKeys m e own d = elim (Bool-cases (is_later (get m (key_of e)) e)) [
  | inl later ↦ rw (set_execution_tx, later) (own, d)
  | inr now ↦
      rw (set_execution_tx, now)
        (
          put-OwnKeys m (key_of e) (stored_execution e) own (sym (key_of-stored_execution e)),
          keys-put-Distinct m (key_of e) (stored_execution e) d,
        )
]

module _ (sort : List Execution → List Execution)
    (permutes : (es : List Execution) → Permᴰ es (sort es)) where
  -- The executions that `SetExecution` deletes
  limit_lem :
      (prefix : List ℕ) (m : Executions)
      → OwnKeys m
      → Distinct (keys m)
      → (n : ℕ) → n ≤ length (list_executions prefix m)
      → length (list_executions prefix (delete_all (take n (sort (list_executions prefix m))) m))
          + n
        ≡ length (list_executions prefix m)
  limit_lem prefix m own d n h =
      let es = list_executions prefix m in
      let size = length-Perm es (sort es) (permutes es) in
      let taken = length-take_of_le n (sort es) (omega (arith, size, h)) in
      let deleted =
        delete_all_lem prefix (take n (sort es)) m d
          (take-Distinct n (sort es)
            (Distinct-Perm es (sort es) (permutes es) (listed-Distinct prefix m own d)))
          (λ k found.
            listed_there prefix m k own
              (has-Perm es (sort es) k (permutes es) ∙ has-take n (sort es) k found)) in
      omega (arith, deleted, taken)

  over_limit :
      (prefix : List ℕ) (m : Executions)
      → OwnKeys m
      → Distinct (keys m)
      → ltb 100 (length (list_executions prefix m)) ≡ true
      → length (
          list_executions prefix (
            delete_all
              (take (length (list_executions prefix m) - 100) (sort (list_executions prefix m)))
              m))
        ≤ 100
  over_limit prefix m own d over =
      ground (arith, limit_lem prefix m own d (length (list_executions prefix m) - 100))

  keep_newest-limit :
      (prefix : List ℕ) (m : Executions)
      → OwnKeys m
      → Distinct (keys m)
      → length (list_executions prefix (keep_newest sort prefix m)) ≤ 100
  unfolding keep_newest
  keep_newest-limit prefix m own d =
      elim (Bool-cases (ltb 100 (length (list_executions prefix m)))) [
        | inl over ↦ rw (keep_newest, over) (over_limit prefix m own d over)
        | inr within ↦ rw (keep_newest, within) (ground arith)
      ]

  -- Where every execution stands once, under its own key, at most 100 executions of a job are listed
  -- after `SetExecution` saved one of it, with every sort that gives the executions it is given.
  pub set_execution-limit :
      (m : Executions) (e : Execution)
      → OwnKeys m
      → Distinct (keys m)
      → length (list_executions (list_prefix e.job_name) (set_execution sort m e)) ≤ 100
  unfolding set_execution
  set_execution-limit m e own d =
      let kept = set_execution_tx-OwnKeys m e own d in
      keep_newest-limit (list_prefix e.job_name) (set_execution_tx e m) kept.0 kept.1
