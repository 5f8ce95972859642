-- ===== src/Execution/Indexed.antt =====
-- backend/internal_api/executions.py: the indexes of `ExecutionStore` against its rows.
use paper_rag.Base.{
  ℕ, String, ◌≡◌, ◌≢◌, Option, none, some, arith, ◌==◌, ==_iff, string_eq, option_eq, pair_eq,
  Option-cases, Bool-cases, inl, inr,
}
use paper_rag.Base.Dict
use paper_rag.Base.Dict.{Dict, get-put}
use paper_rag.Base.Json.{Json}
use paper_rag.Execution.Row.{
  Execution, ExecuteRequest, Readings, Change, new_execution, read_change, start_change,
  succeed_change, fail_change, cancel_change, fail_locked,
}
use paper_rag.Execution.Ops.{Op, read, start, succeed, fail, cancel, after, change_of}
use paper_rag.Execution.Store
use paper_rag.Execution.Store.{Store, key_of, existing, mutate}

abbrev pub row_key : Execution → Option String × String
row_key row = (row.run_id, row.idempotency_key)

pub record IsIndexed (s : Store) : Type 0 where
  pub named :
      (id : String) (row : Execution)
      → Dict.get id s.rows ≡ some row
      → (row.execution_id ≡ id) × (id ≢ "")
  pub key_to_row :
      (k : Option String × String) (id : String)
      → Dict.get k s.by_idempotency ≡ some id
      → (row : Execution) × (Dict.get id s.rows ≡ some row) × (row_key row ≡ k)
  pub task_to_row :
      (t id : String)
      → Dict.get t s.by_task_id ≡ some id
      → (row : Execution) × (Dict.get id s.rows ≡ some row) × (row.task_id ≡ t)
  pub row_to_key :
      (id : String) (row : Execution)
      → Dict.get id s.rows ≡ some row
      → Dict.get (row_key row) s.by_idempotency ≡ some id
  pub row_to_task :
      (id : String) (row : Execution)
      → Dict.get id s.rows ≡ some row
      → Dict.get row.task_id s.by_task_id ≡ some id

-- What no change of a row touches.
pub record SameIdentity (a b : Execution) : Type 0 where
  pub execution_id : a.execution_id ≡ b.execution_id
  pub task_id : a.task_id ≡ b.task_id
  pub run_id : a.run_id ≡ b.run_id
  pub idempotency_key : a.idempotency_key ≡ b.idempotency_key
  pub request_payload : a.request_payload ≡ b.request_payload
  pub deadline : a.deadline ≡ b.deadline

pub SameIdentity-refl : (row : Execution) → SameIdentity row row
SameIdentity-refl row = ground arith

pub after-SameIdentity :
    (op : Op) (now : Readings) (row : Execution) → SameIdentity (after op now row) row
unfolding read_change start_change succeed_change fail_change cancel_change fail_locked
after-SameIdentity read now row = ground arith
after-SameIdentity (start lease recover) now row = ground arith
after-SameIdentity (succeed s) now row = ground arith
after-SameIdentity (fail f) now row = ground arith
after-SameIdentity cancel now row = ground arith

pub IsIndexed-empty : IsIndexed Store.empty
unfolding Dict.get
IsIndexed-empty = record {
  named = λ id row h. cc;
  key_to_row = λ k id h. cc;
  task_to_row = λ t id h. cc;
  row_to_key = λ id row h. cc;
  row_to_task = λ id row h. cc;
}

abbrev pub with_row : Store → String → Execution → Store
with_row s id row = record s { rows = Dict.put id row s.rows }

module _ (s : Store) (id : String) (old new : Execution) (found : Dict.get id s.rows ≡ some old)
    (same : SameIdentity new old) where
  -- The row under a key after the write: the new one if the old one stood there.
  pub row_after :
      (j : String) (r : Execution)
      → Dict.get j s.rows ≡ some r
      → (r' : Execution) × (Dict.get j (with_row s id new).rows ≡ some r') × SameIdentity r' r
  row_after j r p = elim (Bool-cases (id == j)) [
    | inl e ↦ (new, rw (get-put, e), ground (arith, ==_iff id j))
    | inr e ↦ (r, rw (get-put, e) p, search)
  ]

  pub row_before :
      (j : String) (r' : Execution)
      → Dict.get j (with_row s id new).rows ≡ some r'
      → (r : Execution) × (Dict.get j s.rows ≡ some r) × SameIdentity r' r
  row_before j r' p = elim (Bool-cases (id == j)) [
    | inl e ↦
        (old, ground (arith, ==_iff id j), ground (arith, ==_iff id j, get-put id j new s.rows))
    | inr e ↦
        let q : Dict.get j s.rows ≡ some r' = ground (arith, get-put id j new s.rows) in
        (r', q, SameIdentity-refl r')
  ]

  replace-IsIndexed : IsIndexed s → IsIndexed (with_row s id new)
  replace-IsIndexed h = record {
    named = λ j r p. let (r0, q, e) = row_before j r p in ground (arith, h.named j r0 q);
    key_to_row = λ k j p.
        let (r, q, e) = h.key_to_row k j p in
        let (r', q', e') = row_after j r q in (r', q', ground arith);
    task_to_row = λ t j p.
        let (r, q, e) = h.task_to_row t j p in
        let (r', q', e') = row_after j r q in (r', q', ground arith);
    row_to_key = λ j r p. let (r0, q, e) = row_before j r p in ground (arith, h.row_to_key j r0 q);
    row_to_task =
        λ j r p. let (r0, q, e) = row_before j r p in ground (arith, h.row_to_task j r0 q);
  }

pub mutate_missing :
    (id : String) (change : Change) (s : Store)
    → Dict.get id s.rows ≡ none
    → mutate id change s ≡ (s, none)
unfolding mutate
mutate_missing id change s missing = rw (missing, mutate)

pub mutate_found :
    (id : String) (change : Change) (s : Store) (row : Execution)
    → Dict.get id s.rows ≡ some row
    → mutate id change s ≡ (with_row s id (change row).0, (change row).1)
unfolding mutate
mutate_found id change s row found = rw (found, mutate)

-- A change of one row, at any identifier, keeps the indexes right.
pub mutate-IsIndexed :
    (id : String) (op : Op) (now : Readings) (s : Store)
    → IsIndexed s
    → IsIndexed (mutate id (change_of op now) s).0
mutate-IsIndexed id op now s h = elim (Option-cases (Dict.get id s.rows)) [
  | inl missing ↦ rw (mutate_missing id (change_of op now) s missing) h
  | inr (row, found) ↦
      rw (mutate_found id (change_of op now) s row found)
        (replace-IsIndexed s id row (after op now row) found (after-SameIdentity op now row) h)
]

-- The store after `submit` has made a new row.
abbrev pub submitted : (ExecuteRequest → Json) → String → ℕ → ExecuteRequest → Store → Store
submitted dump fresh now req s =
    let row = new_execution dump fresh now req in
    record s {
      rows = Dict.put fresh row s.rows;
      by_idempotency = Dict.put (key_of req) fresh s.by_idempotency;
      by_task_id = Dict.put req.task_id fresh s.by_task_id;
    }

module _ (dump : ExecuteRequest → Json) (fresh : String) (now : ℕ) (req : ExecuteRequest)
    (s : Store) (h : IsIndexed s) (nonempty : fresh ≢ "")
    (unused : Dict.get fresh s.rows ≡ none) where
  pub no_key : existing s req ≡ none → Dict.get (key_of req) s.by_idempotency ≡ none
  unfolding existing
  no_key e = elim (Option-cases (Dict.get (key_of req) s.by_idempotency)) [
    | inl none_there ↦ none_there
    | inr (id, there) ↦
        let (row, found, _) = h.key_to_row (key_of req) id there in
        let (_, named) = h.named id row found in absurd (ground (arith, ==_iff id ""))
  ]

  pub no_task : existing s req ≡ none → Dict.get req.task_id s.by_task_id ≡ none
  unfolding existing
  no_task e = elim (Option-cases (Dict.get req.task_id s.by_task_id)) [
    | inl none_there ↦ none_there
    | inr (id, there) ↦ absurd (ground (arith, no_key e))
  ]

  pub submitted-IsIndexed : existing s req ≡ none → IsIndexed (submitted dump fresh now req s)
  unfolding new_execution
  submitted-IsIndexed e = record {
    named = λ j r p. ground (arith, get-put fresh j row s.rows, ==_iff fresh j, h.named j r);
    key_to_row = λ k j p. elim (Bool-cases (key_of req == k)) [
      | inl same ↦ (
        row,
        ground (
          arith,
          get-put (key_of req) k fresh s.by_idempotency,
          get-put fresh j row s.rows,
          ==_iff fresh j,
        ),
        (==_iff (key_of req) k).0 same,
      )
      | inr other ↦
          let q : Dict.get k s.by_idempotency ≡ some j =
            ground (arith, get-put (key_of req) k fresh s.by_idempotency) in
          let (r, found, e') = h.key_to_row k j q in
          (r, ground (arith, get-put fresh j row s.rows, ==_iff fresh j), e')
    ];
    task_to_row = λ t j p. elim (Bool-cases (req.task_id == t)) [
      | inl same ↦ (
        row,
        ground (
          arith,
          get-put req.task_id t fresh s.by_task_id,
          get-put fresh j row s.rows,
          ==_iff fresh j,
        ),
        (==_iff req.task_id t).0 same,
      )
      | inr other ↦
          let q : Dict.get t s.by_task_id ≡ some j =
            ground (arith, get-put req.task_id t fresh s.by_task_id) in
          let (r, found, e') = h.task_to_row t j q in
          (r, ground (arith, get-put fresh j row s.rows, ==_iff fresh j), e')
    ];
    row_to_key = λ j r p. ground (
      arith,
      no_key e,
      get-put fresh j row s.rows,
      ==_iff fresh j,
      h.row_to_key j r,
      get-put (key_of req) (row_key r) fresh s.by_idempotency,
      ==_iff (key_of req) (row_key r),
    );
    row_to_task = λ j r p. ground (
      arith,
      no_task e,
      get-put fresh j row s.rows,
      ==_iff fresh j,
      h.row_to_task j r,
      get-put req.task_id r.task_id fresh s.by_task_id,
      ==_iff req.task_id r.task_id,
    );
  }
    where
      row : Execution
      row = new_execution dump fresh now req
