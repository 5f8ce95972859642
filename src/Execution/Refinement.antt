-- ===== src/Execution/Refinement.antt =====
-- The two stores of executions agree: the table of the production store against the store in memory.
use paper_rag.Base.{
  String, ◌≡◌, ◌≢◌, refl, ap, subst, ◌∙◌, Option, none, some, List, [], ◌∷◌, map, arith, ◌==◌,
  ==_iff, string_discrete, string_eq, option_eq, inl, inr, Bool-cases, Option-cases,
}
use mathlib.Core.Logic.{ite, if_pos, if_neg}
use native.Mathlib.Decide.{ℕ_discrete}
use paper_rag.Base.Dict
use paper_rag.Base.Dict.{Dict, get-put}
use paper_rag.Base.Json.{Json-discrete}
use paper_rag.Execution.Row.{
  Execution, ErrorDetail, Usage, Change, Readings, read_change, start_change, succeed_change,
  fail_change, cancel_change, fail_locked,
}
use paper_rag.Execution.Ops.{Op, read, start, succeed, fail, cancel, after, change_of}
use paper_rag.Execution.Store
use paper_rag.Execution.Store.{Store}
use paper_rag.Execution.Indexed.{mutate_missing, mutate_found}
use paper_rag.Execution.Postgres
use paper_rag.Execution.Postgres.{Record, Codec, decode, encode, opt_map, or_none, or_empty}

-- The table's text columns cannot tell the empty text from an absent one.
pub record IsStorable (row : Execution) : Type 0 where
  pub run_id : row.run_id ≢ some ""
  pub trace_id : row.trace_id ≢ some ""
  pub lease_token : row.lease_token ≢ some ""

pub Record-discrete : Discrete Record
Record-discrete = hlevel (ℕ_discrete, string_discrete, Json-discrete)

load-dump_errors : (c : Codec) (es : List ErrorDetail) → map c.load_error (map c.dump_error es) ≡ es
load-dump_errors c [] = refl
load-dump_errors c (e ∷ es) = cc (c.load-dump_error e, load-dump_errors c es)

load-dump_option :
    (c : Codec) (u : Option Usage) → opt_map c.load_usage (opt_map c.dump_usage u) ≡ u
load-dump_option c none = refl
load-dump_option c (some u) = ap some (c.load-dump_usage u)

or_none-or_empty : (o : Option String) → o ≢ some "" → or_none (or_empty o) ≡ o
or_none-or_empty none h = refl
or_none-or_empty (some s) h = ground (arith, ==_iff s "")

-- What is written for a storable row reads back as that row.
pub decode-encode : (c : Codec) (row : Execution) → IsStorable row → decode c (encode c row) ≡ row
unfolding decode encode
decode-encode c row h = cc (
  or_none-or_empty row.run_id h.run_id,
  or_none-or_empty row.trace_id h.trace_id,
  or_none-or_empty row.lease_token h.lease_token,
  load-dump_errors c row.errors,
  load-dump_option c row.usage,
)

-- The table holds exactly the rows of the store, encoded, and they are storable.
pub record Represents (c : Codec) (table : Dict String Record) (s : Store) : Type 0 where
  pub reads : (id : String) → Dict.get id table ≡ opt_map (encode c) (Dict.get id s.rows)
  pub storable : (id : String) (row : Execution) → Dict.get id s.rows ≡ some row → IsStorable row

-- `start` is given a lease that is not the empty text (`uuid4().hex`).
abbrev pub HasLease : Op → Type 0
HasLease (start lease recover) = lease ≢ some ""
HasLease _ = Unit

after-IsStorable :
    (op : Op) (now : Readings) (row : Execution)
    → HasLease op
    → IsStorable row
    → IsStorable (after op now row)
unfolding read_change start_change succeed_change fail_change cancel_change fail_locked
after-IsStorable read now row l h = ground arith
after-IsStorable (start lease recover) now row l h = ground arith
after-IsStorable (succeed s) now row l h = ground arith
after-IsStorable (fail f) now row l h = ground arith
after-IsStorable cancel now row l h = ground arith

module _ (c : Codec) (dec : Discrete Record) where
  pg_missing :
      (id : String) (change : Change) (table : Dict String Record)
      → Dict.get id table ≡ none
      → Postgres.mutate c dec id change table ≡ (table, none)
  unfolding Postgres.mutate
  pg_missing id change table e = rw (e, Postgres.mutate)

  pg_found :
      (id : String) (change : Change) (table : Dict String Record) (row : Execution)
      → Dict.get id table ≡ some (encode c row)
      → IsStorable row
      → Postgres.mutate c dec id change table ≡ (
        ite
            (dec (encode c (change row).0) (encode c row))
            table
            (Dict.put id (encode c (change row).0) table),
        (change row).1,
      )
  unfolding Postgres.mutate
  pg_found id change table row e h = rw (e, Postgres.mutate) (rw (decode-encode c row h))

  -- Whether or not the write is skipped, the table then reads as if it had been made.
  skipped_write :
      (id j : String) (new old : Record) (table : Dict String Record)
      → Dict.get id table ≡ some old
      → Dict.get j (ite (dec new old) table (Dict.put id new table))
        ≡ Dict.get j (Dict.put id new table)
  skipped_write id j new old table e = elim (dec new old) [
    | yes same ↦ rw (if_pos _ same) (ground (arith, get-put id j new table, ==_iff id j))
    | no other ↦ rw (if_neg _ other)
  ]

  reads_put :
      (id j : String) (new : Execution) (table : Dict String Record) (s : Store)
      → Represents c table s
      → Dict.get j (Dict.put id (encode c new) table)
        ≡ opt_map (encode c) (Dict.get j (Dict.put id new s.rows))
  reads_put id j new table s h =
      ground (arith, get-put id j (encode c new) table, get-put id j new s.rows, h.reads j)

  IsStorable-put :
      (id j : String) (new r : Execution) (s : Store)
      → IsStorable new
      → ((i : String) (row : Execution) → Dict.get i s.rows ≡ some row → IsStorable row)
      → Dict.get j (Dict.put id new s.rows) ≡ some r
      → IsStorable r
  IsStorable-put id j new r s hn hs p = elim (Bool-cases (id == j)) [
    | inl e ↦ let q : new ≡ r = ground (arith, get-put id j new s.rows) in subst IsStorable q hn
    | inr e ↦ hs j r (ground (arith, get-put id j new s.rows))
  ]

  -- On one identifier, with any change of a row, the production store answers what the store in
  -- memory answers, and the table then holds what that store holds.
  pub mutate-Represents :
      (id : String) (op : Op) (now : Readings) (table : Dict String Record) (s : Store)
      → HasLease op
      → Represents c table s
      → Represents c
          (Postgres.mutate c dec id (change_of op now) table).0
          (Store.mutate id (change_of op now) s).0
        × ((Postgres.mutate c dec id (change_of op now) table).1
            ≡ (Store.mutate id (change_of op now) s).1)
  mutate-Represents id op now table s l h = elim (Option-cases (Dict.get id s.rows)) [
    | inl missing ↦ rw (mutate_missing id (change_of op now) s missing) (
        let e : Dict.get id table ≡ none = h.reads id ∙ ap (opt_map (encode c)) missing in
        rw (pg_missing id (change_of op now) table e) (h, refl))
    | inr (row, found) ↦ rw (mutate_found id (change_of op now) s row found) (
        let e : Dict.get id table ≡ some (encode c row) =
          h.reads id ∙ ap (opt_map (encode c)) found in
        rw (pg_found id (change_of op now) table row e (h.storable id row found)) (
          record {
            reads =
                λ j. skipped_write id j _ _ table e ∙ reads_put id j (after op now row) table s h;
            storable = λ j r p.
                IsStorable-put id j (after op now row) r s
                  (after-IsStorable op now row l (h.storable id row found)) h.storable p;
          },
          refl,
        ))
  ]
