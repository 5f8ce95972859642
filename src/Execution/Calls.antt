-- ===== src/Execution/Calls.antt =====
-- A history of the store: the calls of its methods by any number of threads, in the order in which
-- the lock lets them in. (`reset` is for tests of the program and is not among them.)
use paper_rag.Base.{
  ℕ, String, ◌≡◌, ◌≢◌, Bool, true, false, none, some, List, [], ◌∷◌, arith, ==_iff, string_eq,
  option_eq, pair_eq, Result, ok, raise, Option-cases, inl, inr, ◌⊎◌,
}
use paper_rag.Base.Dict
use paper_rag.Base.Dict.{get-put, get-put_self}
use paper_rag.Base.Json.{Json}
use paper_rag.Execution.Row.{Execution, ExecuteRequest, Readings, new_execution}
use paper_rag.Execution.Ops.{Op, after, change_of}
use paper_rag.Execution.Store
use paper_rag.Execution.Store.{Store, StoreError, key_of, existing, submit, mutate}
use paper_rag.Execution.Indexed.{
  IsIndexed, row_key, SameIdentity, after-SameIdentity, submitted, mutate_missing, mutate_found,
  mutate-IsIndexed, submitted-IsIndexed, no_key, row_after,
}

pub data Call : Type 0 where
  submit_call : String → ℕ → ExecuteRequest → Call
  op_call : String → Op → Readings → Call

abbrev state_after : Store → Result StoreError (Store × Execution × Bool) → Store
state_after s (ok (s', row, replayed)) = s'
state_after s (raise e) = s

-- The execution is in the store, under its identifier and with its identity.
pub record Holds (id : String) (old : Execution) (s : Store) : Type 0 where
  pub row : Execution
  pub found : Dict.get id s.rows ≡ some row
  pub same : SameIdentity row old

SameIdentity-trans : (a b c : Execution) → SameIdentity a b → SameIdentity b c → SameIdentity a c
SameIdentity-trans a b c p q = ground arith

mutate-Holds :
    (id : String) (old : Execution) (j : String) (op : Op) (now : Readings) (s : Store)
    → Holds id old s
    → Holds id old (mutate j (change_of op now) s).0
mutate-Holds id old j op now s k = elim (Option-cases (Dict.get j s.rows)) [
  | inl missing ↦ rw (mutate_missing j (change_of op now) s missing) k
  | inr (row, there) ↦
      let (r', found', same') =
        row_after s j row (after op now row) there (after-SameIdentity op now row) id k.row
          k.found in
      rw (mutate_found j (change_of op now) s row there)
        (record { row = r'; found = found'; same = SameIdentity-trans r' k.row old same' k.same })
]

module _ (dump : ExecuteRequest → Json) where
  abbrev pub perform : Call → Store → Store
  perform (submit_call fresh now req) s = state_after s (submit dump fresh now req s)
  perform (op_call id op now) s = (mutate id (change_of op now) s).0

  unfoldable pub perform_all : List Call → Store → Store
  perform_all [] s = s
  perform_all (c ∷ cs) s = perform_all cs (perform c s)

  -- `uuid4` gives an identifier that is not empty and not in use.
  abbrev pub IsFreshCall : Call → Store → Type 0
  IsFreshCall (submit_call fresh now req) s = (fresh ≢ "") × (Dict.get fresh s.rows ≡ none)
  IsFreshCall (op_call id op now) s = Unit

  abbrev pub IsFresh : List Call → Store → Type 0
  IsFresh [] s = Unit
  IsFresh (c ∷ cs) s = IsFreshCall c s × IsFresh cs (perform c s)

  pub submit_new :
      (fresh : String) (now : ℕ) (req : ExecuteRequest) (s : Store)
      → existing s req ≡ none
      → submit dump fresh now req s
        ≡ ok (submitted dump fresh now req s, new_execution dump fresh now req, false)
  unfolding submit new_execution
  submit_new fresh now req s e = rw (e, submit)

  pub submit_old :
      (fresh : String) (now : ℕ) (req : ExecuteRequest) (s : Store) (id : String) (row : Execution)
      → existing s req ≡ some id
      → Dict.get id s.rows ≡ some row
      → submit dump fresh now req s ≡ ok (s, row, true)
  unfolding submit
  submit_old fresh now req s id row e found = rw (e, submit) (rw found)

  submit_lost :
      (fresh : String) (now : ℕ) (req : ExecuteRequest) (s : Store) (id : String)
      → existing s req ≡ some id
      → Dict.get id s.rows ≡ none
      → submit dump fresh now req s ≡ raise Store.key_error
  unfolding submit
  submit_lost fresh now req s id e lost = rw (e, submit) (rw lost)

  -- A submission puts one new row into the store, or leaves the store as it is.
  pub submit_state :
      (fresh : String) (now : ℕ) (req : ExecuteRequest) (s : Store)
      → (perform (submit_call fresh now req) s ≡ submitted dump fresh now req s)
        ⊎ (perform (submit_call fresh now req) s ≡ s)
  submit_state fresh now req s = elim (Option-cases (existing s req)) [
    | inl e ↦ inl (rw (submit_new fresh now req s e))
    | inr (id, e) ↦ elim (Option-cases (Dict.get id s.rows)) [
      | inl lost ↦ inr (rw (submit_lost fresh now req s id e lost))
      | inr (row, found) ↦ inr (rw (submit_old fresh now req s id row e found))
    ]
  ]

  -- An identifier that the indexes give has a row, with the key or the task of the request.
  pub existing_row :
      (s : Store) (req : ExecuteRequest) (id : String)
      → IsIndexed s
      → existing s req ≡ some id
      → (row : Execution) × (Dict.get id s.rows ≡ some row)
        × ((row_key row ≡ key_of req) ⊎ (row.task_id ≡ req.task_id))
  unfolding existing
  existing_row s req id h e = elim (Option-cases (Dict.get (key_of req) s.by_idempotency)) [
    | inl no_key ↦
        let there : Dict.get req.task_id s.by_task_id ≡ some id = ground arith in
        let (row, found, same) = h.task_to_row req.task_id id there in (row, found, inr same)
    | inr (j, there) ↦
        let (row, found, same) = h.key_to_row (key_of req) j there in
        let (_, named) = h.named j row found in
        let q : j ≡ id = ground (arith, ==_iff j "") in (row, ground arith, inl same)
  ]

  -- Every call keeps the indexes right.
  pub perform-IsIndexed :
      (c : Call) (s : Store) → IsFreshCall c s → IsIndexed s → IsIndexed (perform c s)
  perform-IsIndexed (op_call id op now) s f h = mutate-IsIndexed id op now s h
  perform-IsIndexed (submit_call fresh now req) s f h = elim (Option-cases (existing s req)) [
    | inl e ↦
        rw (submit_new fresh now req s e) (submitted-IsIndexed dump fresh now req s h f.0 f.1 e)
    | inr (id, e) ↦
        let (row, found, _) = existing_row s req id h e in
        rw (submit_old fresh now req s id row e found) h
  ]

  pub perform_all-IsIndexed :
      (cs : List Call) (s : Store) → IsFresh cs s → IsIndexed s → IsIndexed (perform_all cs s)
  unfolding perform_all
  perform_all-IsIndexed [] s f h = h
  perform_all-IsIndexed (c ∷ cs) s f h =
      perform_all-IsIndexed cs (perform c s) f.1 (perform-IsIndexed c s f.0 h)

  -- Every call keeps an execution that is there.
  pub perform-Holds :
      (id : String) (old : Execution) (c : Call) (s : Store)
      → IsFreshCall c s
      → IsIndexed s
      → Holds id old s
      → Holds id old (perform c s)
  perform-Holds id old (op_call j op now) s f h k = mutate-Holds id old j op now s k
  perform-Holds id old (submit_call fresh now req) s f h k = elim (Option-cases (existing s req)) [
    | inl e ↦ rw (submit_new fresh now req s e) (record {
      row = k.row;
      found = ground (
        arith,
        get-put fresh id (new_execution dump fresh now req) s.rows,
        ==_iff fresh id,
        k.found,
      );
      same = k.same;
    })
    | inr (j, e) ↦
        let (row, there, _) = existing_row s req j h e in
        rw (submit_old fresh now req s j row e there) k
  ]

  pub perform_all-Holds :
      (id : String) (old : Execution) (cs : List Call) (s : Store)
      → IsFresh cs s
      → IsIndexed s
      → Holds id old s
      → Holds id old (perform_all cs s)
  unfolding perform_all
  perform_all-Holds id old [] s f h k = k
  perform_all-Holds id old (c ∷ cs) s f h k =
      perform_all-Holds id old cs (perform c s) f.1 (perform-IsIndexed c s f.0 h)
        (perform-Holds id old c s f.0 h k)
