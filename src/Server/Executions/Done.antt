-- ===== src/Server/Executions/Done.antt =====
-- `SetExecutionDone` of `dkron/dkron/store.go`: its branches, and a result that arrives twice.
use phan_tan_dkron_giuaky.Common.{
  ◌≡◌, refl, ap, ◌∙◌, Bool, true, false, ◌⊎◌, inl, inr, Option, some, none, String, ==_iff,
  string_eq, nat_eq, int_eq, codes_eq, get, get-put, put-put, arith, Bool-cases, Option-cases,
}
use phan_tan_dkron_giuaky.Server.Job.{Job, execution_done_for_deleted_job}
use phan_tan_dkron_giuaky.Server.Store.{Result, ok, err}
use phan_tan_dkron_giuaky.Server.Executions.{
  Execution, Db, key_of, stored_execution, should_count, is_later, is_last, save_execution,
  count_execution, set_execution_done, counted, compute_status,
}

module _ (db : Db) (e : Execution) where
  done_deleted :
      get db.jobs e.job_name ≡ none
      → set_execution_done db e ≡ (db, err execution_done_for_deleted_job)
  unfolding set_execution_done
  done_deleted gone = rw (set_execution_done, gone) refl

  done_later :
      (j : Job)
      → get db.jobs e.job_name ≡ some j
      → is_later (get db.executions (key_of e)) e ≡ true
      → set_execution_done db e ≡ (db, ok false)
  unfolding set_execution_done
  done_later j found later = rw (set_execution_done, found) (rw later refl)

  done_uncounted :
      (j : Job)
      → get db.jobs e.job_name ≡ some j
      → is_later (get db.executions (key_of e)) e ≡ false
      → should_count (get db.executions (key_of e)) j e ≡ false
      → set_execution_done db e ≡ (save_execution db e, ok false)
  unfolding set_execution_done
  done_uncounted j found earlier seen = rw (set_execution_done, found) (rw earlier (rw seen refl))

  done_counted :
      (j : Job)
      → get db.jobs e.job_name ≡ some j
      → is_later (get db.executions (key_of e)) e ≡ false
      → should_count (get db.executions (key_of e)) j e ≡ true
      → set_execution_done db e ≡ (count_execution db j e, ok true)
  unfolding set_execution_done
  done_counted j found earlier fresh = rw (set_execution_done, found) (rw earlier (rw fresh refl))

jobs-save_execution : (db : Db) (e : Execution) → (save_execution db e).jobs ≡ db.jobs
unfolding save_execution
jobs-save_execution db e = refl

-- The jobs stay as they are, or the result is counted.
pub done_cases :
    (db : Db) (e : Execution)
    → ((set_execution_done db e).0.jobs ≡ db.jobs)
      ⊎ ((j : Job) × (get db.jobs e.job_name ≡ some j)
          × ((set_execution_done db e).0 ≡ count_execution db j e))
done_cases db e = elim (Option-cases (get db.jobs e.job_name)) [
  | inl gone ↦ inl (ap (λ r. r.0.jobs) (done_deleted db e gone))
  | inr (j, found) ↦ elim (Bool-cases (is_later (get db.executions (key_of e)) e)) [
    | inl later ↦ inl (ap (λ r. r.0.jobs) (done_later db e j found later))
    | inr earlier ↦ elim (Bool-cases (should_count (get db.executions (key_of e)) j e)) [
      | inl fresh ↦ inr (j, found, ap (λ r. r.0) (done_counted db e j found earlier fresh))
      | inr seen ↦
          inl (
            ap (λ r. r.0.jobs) (done_uncounted db e j found earlier seen)
            ∙ jobs-save_execution db e)
    ]
  ]
]

same_later : (e : Execution) → is_later (some (stored_execution e)) e ≡ false
unfolding is_later
same_later e = ground arith

still_seen :
    (o : Option Execution) (j : Job) (e : Execution)
    → should_count o j e ≡ false
    → should_count (some (stored_execution e)) j e ≡ false
unfolding should_count
still_seen none j e seen = ground arith
still_seen (some previous) j e seen = ground (arith, ==_iff e.finished_at e.finished_at)

counted_seen :
    (j : Job) (e : Execution) (s : String)
    → should_count (some (stored_execution e)) (record (counted j e) { status = s }) e ≡ false
unfolding should_count counted is_last
counted_seen j e s = ground (arith, ==_iff e.finished_at e.finished_at)

get-save_execution :
    (db : Db) (e : Execution)
    → get (save_execution db e).executions (key_of e) ≡ some (stored_execution e)
unfolding save_execution
get-save_execution db e = ground (
  arith,
  get-put db.executions (key_of e) (key_of e) (stored_execution e),
  ==_iff (key_of e) (key_of e),
)

save_again :
    (db : Db) (e : Execution) → save_execution (save_execution db e) e ≡ save_execution db e
unfolding save_execution
save_again db e =
    ap (λ m. record db { executions = m })
      (put-put db.executions (key_of e) (stored_execution e) (stored_execution e))

found_saved :
    (db : Db) (e : Execution) (j : Job)
    → get db.jobs e.job_name ≡ some j
    → get (save_execution db e).jobs e.job_name ≡ some j
unfolding save_execution
found_saved db e j found = found

-- The answer to a result that was there before
pub again : Result Bool → Result Bool
again (ok b) = ok false
again (err x) = err x

name-counted : (j : Job) (e : Execution) → (counted j e).name ≡ j.name
unfolding counted
name-counted j e = ground arith

done_twice_at :
    (db db' : Db) (e : Execution) (r : Result Bool)
    → set_execution_done db e ≡ (db', r)
    → set_execution_done db' e ≡ (db', again r)
    → set_execution_done (set_execution_done db e).0 e
      ≡ ((set_execution_done db e).0, again (set_execution_done db e).1)
done_twice_at db db' e r first second = rw first second

-- The execution is there with this result, and was counted.
done_second :
    (db : Db) (e : Execution) (j : Job)
    → get db.jobs e.job_name ≡ some j
    → get db.executions (key_of e) ≡ some (stored_execution e)
    → should_count (some (stored_execution e)) j e ≡ false
    → save_execution db e ≡ db
    → set_execution_done db e ≡ (db, ok false)
done_second db e j found there seen same =
    done_uncounted db e j found (ap (λ o. is_later o e) there ∙ same_later e)
      (ap (λ o. should_count o j e) there ∙ seen)
    ∙ ap (λ d. (d, ok false)) same

count_again :
    (db : Db) (e : Execution) (j : Job)
    → save_execution (count_execution db j e) e ≡ count_execution db j e
unfolding save_execution count_execution
count_again db e j =
    ap (λ m. record (count_execution db j e) { executions = m })
      (put-put db.executions (key_of e) (stored_execution e) (stored_execution e))

executions-count_execution :
    (db : Db) (e : Execution) (j : Job)
    → (count_execution db j e).executions ≡ (save_execution db e).executions
unfolding count_execution
executions-count_execution db e j = refl

get-count_execution :
    (db : Db) (e : Execution) (j : Job)
    → j.name ≡ e.job_name
    → (s : String) × (get (count_execution db j e).jobs e.job_name
        ≡ some (record (counted j e) { status = s }))
unfolding count_execution
get-count_execution db e j same =
    let s = compute_status j.name e.group (save_execution db e).executions in
    (
      s,
      get-put db.jobs j.name e.job_name (record (counted j e) { status = s })
          ∙ rw ((==_iff j.name e.job_name).1 same) refl,
    )

-- Where every job stands under its name, a result that `SetExecutionDone` gets twice in a row, with
-- nothing in between, changes nothing the second time, and is answered as not counted, or with the same
-- error: the counters, the status and the numbers of the day count it once.
pub set_execution_done_twice :
    (db : Db) (e : Execution)
    → ((n : String) (j : Job) → get db.jobs n ≡ some j → j.name ≡ n)
    → set_execution_done (set_execution_done db e).0 e
      ≡ ((set_execution_done db e).0, again (set_execution_done db e).1)
unfolding again
set_execution_done_twice db e named = elim (Option-cases (get db.jobs e.job_name)) [
  | inl gone ↦ done_twice_at db db e _ (done_deleted db e gone) (done_deleted db e gone)
  | inr (j, found) ↦ elim (Bool-cases (is_later (get db.executions (key_of e)) e)) [
    | inl later ↦
        done_twice_at db db e _ (done_later db e j found later) (done_later db e j found later)
    | inr earlier ↦ elim (Bool-cases (should_count (get db.executions (key_of e)) j e)) [
      | inl fresh ↦
          let (s, counted_job) = get-count_execution db e j (named e.job_name j found) in
          done_twice_at db (count_execution db j e) e _ (done_counted db e j found earlier fresh) (
            done_second (count_execution db j e) e _ counted_job
              (ap (λ m. get m (key_of e)) (executions-count_execution db e j)
                ∙ get-save_execution db e)
              (counted_seen j e s) (count_again db e j))
      | inr seen ↦
          done_twice_at db (save_execution db e) e _ (done_uncounted db e j found earlier seen) (
            done_second (save_execution db e) e j (found_saved db e j found)
              (get-save_execution db e) (still_seen (get db.executions (key_of e)) j e seen)
              (save_again db e))
    ]
  ]
]
