-- ===== src/Jobs/Linear.antt =====
-- backend/services/upload_jobs.py: the optimistic transaction against the store under a lock.
use paper_rag.Base.{
  ℕ, zero, suc, ◌≤◌, String, ◌≡◌, refl, ap, Option, none, some, List, [], ◌∷◌, arith, string_eq,
  Result, ok, raise, Option-cases, Result-cases, Bool-cases, inl, inr, ◌⊎◌,
}
use paper_rag.Base.Dict
use paper_rag.Jobs.Job.{Job, JobError, runtime_error, Change, is_terminal}
use paper_rag.Jobs.Manager
use paper_rag.Jobs.Manager.{Jobs, stamped, stored}
use paper_rag.Jobs.Redis
use paper_rag.Jobs.Redis.{
  Round, Write, Reply, apply_write, first_round, later_rounds, mutate_rounds,
}

-- The answer of the store in memory, in the form of the other's reply.
abbrev pub as_reply : Jobs → Result JobError (Jobs × Option Job) → Reply
as_reply jobs (ok (jobs', o)) = (jobs', ok o)
as_reply jobs (raise e) = (jobs, raise e)

-- The server after the writes that made the first rounds fail.
unfoldable pub after_rounds : String → ℕ → List Round → Jobs → Jobs
after_rounds id zero rounds jobs = jobs
after_rounds id (suc k) [] jobs = jobs
after_rounds id (suc k) (none ∷ rounds) jobs = jobs
after_rounds id (suc k) (some w ∷ rounds) jobs = after_rounds id k rounds (apply_write id w jobs)

-- What another client does in round `k`, counted from 0.
abbrev pub round_at : ℕ → List Round → Round
round_at zero rounds = first_round rounds
round_at (suc k) rounds = round_at k (later_rounds rounds)

abbrev pub conflict : JobError
conflict = runtime_error "任务状态并发冲突，请重试"

module _ (id : String) (change : Change) (now : ℕ) where
  -- One round answers as the store in memory would on what the server holds, or a write of another
  -- client makes it fail and the next round sees that write.
  one_round :
      (n : ℕ) (rounds : List Round) (jobs : Jobs)
      → ((mutate_rounds (suc n) id change now rounds jobs
            ≡ as_reply jobs (Manager.mutate id change now jobs))
          × ((first_round rounds ≡ none)
              ⊎ ((mutate_rounds (suc n) id change now rounds jobs).0 ≡ jobs)))
        ⊎ ((w : Write) × (first_round rounds ≡ some w)
            × (mutate_rounds (suc n) id change now rounds jobs
                ≡ mutate_rounds n id change now (later_rounds rounds) (apply_write id w jobs)))
  unfolding mutate_rounds Manager.mutate
  one_round n rounds jobs = elim (Option-cases (Dict.get id jobs)) [
    | inl missing ↦ inl (rw (missing, mutate_rounds, Manager.mutate) (refl, inr refl))
    | inr (job, found) ↦ elim (Bool-cases (is_terminal job.status)) [
      | inl ended ↦ inl (rw (found, mutate_rounds, Manager.mutate) (rw ended (refl, inr refl)))
      | inr live ↦ elim (Result-cases (stamped now (change job))) [
        | inr (e, raised) ↦
            inl (rw (found, mutate_rounds, Manager.mutate) (rw live (rw raised (refl, inr refl))))
        | inl (job', changed) ↦ elim (Option-cases (first_round rounds)) [
          | inl quiet ↦ inl (
              rw (found, mutate_rounds, Manager.mutate)
                (rw live (rw changed (rw quiet (refl, inl refl)))))
          | inr (w, conflict) ↦
              inr (w, conflict, rw (found, mutate_rounds) (rw live (rw changed (rw conflict refl))))
        ]
      ]
    ]
  ]

  -- After `k` rounds that other clients' writes have made fail, the transaction either answers, and
  -- leaves the server, as the store in memory does on what the server then holds, and in that round no
  -- other client writes or the server keeps what it held; or it has used up
  -- its rounds, all of them failed, and it raises with only the other clients' writes made.
  abbrev pub Settles : ℕ → List Round → Jobs → Reply → Type 0
  Settles n rounds jobs reply =
      (k : ℕ) × (k ≤ n)
      × (((reply
              ≡ as_reply (after_rounds id k rounds jobs)
                  (Manager.mutate id change now (after_rounds id k rounds jobs)))
            × ((round_at k rounds ≡ none) ⊎ (reply.0 ≡ after_rounds id k rounds jobs)))
          ⊎ ((k ≡ n) × (reply ≡ (after_rounds id k rounds jobs, raise conflict))))

  settle_later :
      (n : ℕ) (rounds : List Round) (w : Write) (jobs : Jobs) (reply : Reply)
      → first_round rounds ≡ some w
      → Settles n (later_rounds rounds) (apply_write id w jobs) reply
      → Settles (suc n) rounds jobs reply
  unfolding after_rounds
  settle_later n [] w jobs reply e (k, le, h) = cc
  settle_later n (none ∷ rounds) w jobs reply e (k, le, h) = cc
  settle_later n (some v ∷ rounds) w jobs reply e (k, le, h) =
      let q : v ≡ w = cc in
      rw q (suc k, omega arith, elim h [ inl a ↦ inl a | inr (last, a) ↦ inr (ap suc last, a) ])

  settles :
      (n : ℕ) (rounds : List Round) (jobs : Jobs)
      → Settles n rounds jobs (mutate_rounds n id change now rounds jobs)
  settles zero rounds jobs = (0, omega arith, inr (refl, unfold mutate_rounds after_rounds in refl))
  settles (suc n) rounds jobs = elim (one_round n rounds jobs) [
    | inl now_done ↦ (0, omega arith, inl (unfold after_rounds in now_done))
    | inr (w, first, later) ↦ rw later (
        settle_later n rounds w jobs _ first
          (settles n (later_rounds rounds) (apply_write id w jobs)))
  ]

  -- The transaction of eight rounds, whatever other clients write to its key in the meantime: it
  -- answers and writes as the store under a lock would after the writes of the rounds before, and it
  -- writes only in a round in which no other client does, so that none of their writes is lost; or all
  -- eight rounds were overtaken, and it raises and writes nothing.
  pub mutate-Settles :
      (rounds : List Round) (jobs : Jobs)
      → Settles 8 rounds jobs (Redis.mutate id change now rounds jobs)
  unfolding Redis.mutate
  mutate-Settles rounds jobs = settles 8 rounds jobs
