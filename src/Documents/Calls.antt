-- ===== src/Documents/Calls.antt =====
-- backend/services/document_jobs.py: what the operations of the index read and write, and calls of
-- the services, any of which may fail before, within or after its work. A failure is an exception or
-- the end of the process: the operations do nothing more in either case.
use paper_rag.Base.{ℕ, zero, suc, String, Bool, Option, none, some, List, [], ◌∷◌, if◌then◌else◌}
use paper_rag.Base.Dict.{Dict}
use paper_rag.Loader.Chunk.{Chunk}

-- `pending` of a record: what has been begun.
pub data Pending : Type 0 where
  index : String → String → String → Pending
  delete : Pending

-- A record of the ingested state.
pub record Row : Type 0 where
  pub hash : String
  pub path : String
  pub pending : Option Pending

-- The types are those of a file's content, of the table of parent chunks and of the statistics.
pub record World (B P S : Type 0) : Type 0 where
  pub ingested : Dict String Row
  pub files : Dict String B
  pub vectors : List Chunk
  pub parents : P
  pub stats : S

pub data DocError : Type 0 where
  service_failed file_missing file_changed parse_failed no_leaves changed_while_parsed : DocError
  recovery_refused operation_pending invalid_filename : DocError

pub data Answer (A : Type 0) : Type 0 where
  ok : A → Answer A
  raise : DocError → Answer A

-- For each of the calls to come: it works, or it fails after a part of its work.
abbrev pub Faults : Type 0
Faults = List (Option ℕ)

pub record Outcome (B P S A : Type 0) : Type 0 where
  pub answer : Answer A
  pub world : World B P S
  pub faults : Faults

abbrev pub Action : Type 0 → Type 0 → Type 0 → Type 0 → Type 0
Action B P S A = World B P S → Faults → Outcome B P S A

module _ {B P S : Type 0} where
  abbrev pub pure : {A : Type 0} → A → Action B P S A
  pure a w φ = record { answer = ok a; world = w; faults = φ }

  abbrev pub fail : {A : Type 0} → DocError → Action B P S A
  fail e w φ = record { answer = raise e; world = w; faults = φ }

  abbrev pub then_do :
      {A C : Type 0} → Answer A → (A → Action B P S C) → World B P S → Faults → Outcome B P S C
  then_do (ok a) f w φ = f a w φ
  then_do (raise e) f w φ = record { answer = raise e; world = w; faults = φ }

  infixl 5 ◌>>=◌ ◌>>◌
  abbrev pub ◌>>=◌ : {A C : Type 0} → Action B P S A → (A → Action B P S C) → Action B P S C
  ◌>>=◌ m f w φ = let o = m w φ in then_do o.answer f o.world o.faults

  abbrev pub ◌>>◌ : {A C : Type 0} → Action B P S A → Action B P S C → Action B P S C
  m >> k = m >>= λ _. k

  abbrev pub look : {A : Type 0} → (World B P S → A) → Action B P S A
  look f w φ = record { answer = ok (f w); world = w; faults = φ }

  abbrev pub reject_if : Bool → DocError → Action B P S (Unit {0})
  reject_if test e w φ = record { answer = if test then raise e else ok tt; world = w; faults = φ }

  -- A call with its effect, and the effect of its first parts when it fails.
  unfoldable pub call :
      (World B P S → World B P S) → (ℕ → World B P S → World B P S) → Action B P S (Unit {0})
  call whole part w [] = record { answer = ok tt; world = whole w; faults = [] }
  call whole part w (none ∷ φ) = record { answer = ok tt; world = whole w; faults = φ }
  call whole part w (some n ∷ φ) = record {
    answer = raise service_failed;
    world = part n w;
    faults = φ;
  }

  -- A write that is made whole or not at all, and may fail after it.
  abbrev pub atomically : (World B P S → World B P S) → ℕ → World B P S → World B P S
  atomically whole zero w = w
  atomically whole (suc n) w = whole w

  abbrev pub write : (World B P S → World B P S) → Action B P S (Unit {0})
  write whole = call whole (atomically whole)

  -- A call that changes nothing that is modelled.
  abbrev pub visit : Action B P S (Unit {0})
  visit = call (λ w. w) (λ n w. w)

  -- What holds at the end of an action: of an answer and the world, or of the world after a failure.
  abbrev pub EndsBy :
      {A : Type 0}
      → (A → World B P S → Type 0)
      → (World B P S → Type 0)
      → Answer A
      → World B P S
      → Type 0
  EndsBy Q R (ok a) w = Q a w
  EndsBy Q R (raise e) w = R w

  pub record Ends {A : Type 0} (Q : A → World B P S → Type 0) (R : World B P S → Type 0)
      (o : Outcome B P S A) : Type 0 where
    pub holds : EndsBy Q R o.answer o.world

  -- The rule for a sequence.
  pub then-Ends :
      {A C : Type 0} {Q : A → World B P S → Type 0} {Q' : C → World B P S → Type 0}
      {R : World B P S → Type 0} (m : Action B P S A) (f : A → Action B P S C) (w : World B P S)
      (φ : Faults)
      → Ends Q R (m w φ)
      → ((a : A) (v : World B P S) (ψ : Faults) → Q a v → Ends Q' R (f a v ψ))
      → Ends Q' R ((m >>= f) w φ)
  then-Ends {A} {C} {Q} {Q'} {R} m f w φ e k =
      by_answer (m w φ).answer (m w φ).world (m w φ).faults e.holds
    where
      by_answer :
          (r : Answer A) (v : World B P S) (ψ : Faults)
          → EndsBy Q R r v
          → Ends Q' R (then_do r f v ψ)
      by_answer (ok a) v ψ h = k a v ψ h
      by_answer (raise e) v ψ h = record { holds = h }

  -- A call keeps what each part of its work keeps.
  pub call-Ends :
      {Q : Unit {0} → World B P S → Type 0} {R : World B P S → Type 0}
      (whole : World B P S → World B P S) (part : ℕ → World B P S → World B P S) (w : World B P S)
      (φ : Faults)
      → Q tt (whole w)
      → ((n : ℕ) → R (part n w))
      → Ends Q R (call whole part w φ)
  unfolding call
  call-Ends whole part w [] q r = record { holds = q }
  call-Ends whole part w (none ∷ φ) q r = record { holds = q }
  call-Ends whole part w (some n ∷ φ) q r = record { holds = r n }

  pub write-Ends :
      {Q : Unit {0} → World B P S → Type 0} {R : World B P S → Type 0}
      (whole : World B P S → World B P S) (w : World B P S) (φ : Faults)
      → Q tt (whole w)
      → R w
      → R (whole w)
      → Ends Q R (write whole w φ)
  write-Ends {Q} {R} whole w φ q old new = call-Ends whole (atomically whole) w φ q by_part
    where
      by_part : (n : ℕ) → R (atomically whole n w)
      by_part zero = old
      by_part (suc n) = new

  pub visit-Ends :
      {Q : Unit {0} → World B P S → Type 0} {R : World B P S → Type 0} (w : World B P S)
      (φ : Faults)
      → Q tt w
      → R w
      → Ends Q R (visit w φ)
  visit-Ends w φ q r = call-Ends (λ v. v) (λ n v. v) w φ q (λ n. r)

  pub weaken-Ends :
      {A : Type 0} {Q Q' : A → World B P S → Type 0} {R R' : World B P S → Type 0}
      (o : Outcome B P S A)
      → ((a : A) (w : World B P S) → Q a w → Q' a w)
      → ((w : World B P S) → R w → R' w)
      → Ends Q R o
      → Ends Q' R' o
  weaken-Ends {A} {Q} {Q'} {R} {R'} o f g e = record { holds = by_answer o.answer o.world e.holds }
    where
      by_answer : (r : Answer A) (w : World B P S) → EndsBy Q R r w → EndsBy Q' R' r w
      by_answer (ok a) w h = f a w h
      by_answer (raise e) w h = g w h
