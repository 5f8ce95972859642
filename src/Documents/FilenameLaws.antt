-- ===== src/Documents/FilenameLaws.antt =====
-- backend/services/document_jobs.py: the names that `validate_document_filename` accepts.
use paper_rag.Base.{
  ℕ, ◌≡◌, ◌≢◌, ◌≤◌, refl, sym, Bool, true, false, not, ◌||◌, none, some, List, [], ◌∷◌, All, ltb,
  if◌then◌else◌, arith, ◌⊎◌, inl, inr, subst, ◌++◌, ◌∙◌, Option-cases,
}
use paper_rag.Documents.Filename.{
  Names, FilenameError, empty_name, path_segments, invalid_characters, too_long_or_dot,
  reserved_name, same, is_one_of, any_invalid, utf8_length, ends_in_dot, is_reserved, before_dot,
  validate_document_filename,
}
use paper_rag.Documents.FilenameParts.{
  same_refl, same-true, same-false, is_one_of-none, IsPlain, All-IsPlain, any_invalid-none,
  no_dot_ends, ends_in_dot-none, IsFree, is_reserved-IsFree, IsFree-none,
}

-- What the callers rely on when they join the name to a directory.
pub record IsSegment (names : Names) (filename : List ℕ) : Type 0 where
  pub some_name : filename ≢ []
  pub no_dot : filename ≢ 46 ∷ []
  pub no_parent : filename ≢ 46 ∷ 46 ∷ []
  pub stripped : names.strip filename ≡ filename
  pub one_segment : names.path_name filename ≡ filename
  pub plain : All IsPlain filename
  pub no_last_dot : (cs : List ℕ) → filename ≢ cs ++ (46 ∷ [])
  pub short : utf8_length filename ≤ 255
  pub no_device : IsFree (names.upper (names.rstrip (before_dot filename)))

-- The checks stand one after another.
all_passed :
    (a b c d e : Bool)
    → (if a
        then some empty_name
        else if b
        then some path_segments
        else if c
        then some invalid_characters
        else if d
        then some too_long_or_dot
        else if e
        then some reserved_name
        else none)
      ≡ none
    → (a ≡ false) × ((b ≡ false) × ((c ≡ false) × ((d ≡ false) × (e ≡ false))))
all_passed a b c d e h = (
  ground (arith, h),
  (ground (arith, h), (ground (arith, h), (ground (arith, h), ground (arith, h)))),
)

or-false : (a b : Bool) → (a || b) ≡ false → (a ≡ false) × (b ≡ false)
or-false a b h = (ground (arith, h), ground (arith, h))

not-false : (a : Bool) → not a ≡ false → a ≡ true
not-false a h = ground (arith, h)

valid-IsSegment :
    (names : Names) (filename : List ℕ)
    → validate_document_filename names filename ≡ none
    → IsSegment names filename
unfolding validate_document_filename
valid-IsSegment names filename h =
    let c =
      all_passed (same filename [] || same (names.strip filename) [])
        (not (same filename (names.strip filename))
          || (not (same (names.path_name filename) filename)
              || is_one_of filename ((46 ∷ []) ∷ (46 ∷ 46 ∷ []) ∷ [])))
        (any_invalid filename) (ends_in_dot filename || ltb 255 (utf8_length filename))
        (is_reserved (names.upper (names.rstrip (before_dot filename)))) h in
    let empties = or-false _ _ c.0 in
    let segments = or-false _ _ c.1.0 in
    let dots = or-false _ _ segments.1 in
    let ends = or-false _ _ c.1.1.1.0 in
    record {
      some_name = λ e. differ filename [] e empties.0;
      no_dot = λ e. differ filename (46 ∷ []) e (or-false _ _ dots.1).0;
      no_parent = λ e. differ filename (46 ∷ 46 ∷ []) e (or-false _ _ (or-false _ _ dots.1).1).0;
      stripped = sym (same-true filename (names.strip filename) (not-false _ segments.0));
      one_segment = same-true _ _ (not-false _ dots.0);
      plain = All-IsPlain filename c.1.1.0;
      no_last_dot = λ cs. no_dot_ends filename cs ends.0;
      short = ground (arith, ends.1);
      no_device = is_reserved-IsFree _ c.1.1.1.1;
    }
  where
    differ : (cs ds : List ℕ) → cs ≡ ds → same cs ds ≡ false → ⊥
    differ cs ds e f = ground (arith, subst (λ x. same cs x ≡ true) e (same_refl cs))

IsSegment-valid :
    (names : Names) (filename : List ℕ)
    → IsSegment names filename
    → validate_document_filename names filename ≡ none
unfolding validate_document_filename
IsSegment-valid names filename s =
    let some_strip : same (names.strip filename) [] ≡ false =
      same-false _ _ (λ e. s.some_name (sym s.stripped ∙ e)) in
    let is_stripped : same filename (names.strip filename) ≡ true =
      subst (λ x. same filename x ≡ true) (sym s.stripped) (same_refl filename) in
    let is_name : same (names.path_name filename) filename ≡ true =
      subst (λ x. same x filename ≡ true) (sym s.one_segment) (same_refl filename) in
    let short : ltb 255 (utf8_length filename) ≡ false = ground (arith, s.short) in
    rw (same-false filename [] s.some_name) (
      rw some_strip (
        rw is_stripped (
          rw is_name (
            rw
              (is_one_of-none filename ((46 ∷ []) ∷ (46 ∷ 46 ∷ []) ∷ [])
                (s.no_dot, (s.no_parent, tt)))
              (rw (any_invalid-none filename s.plain) (
                rw (ends_in_dot-none filename s.no_last_dot)
                  (rw short (rw (IsFree-none _ s.no_device) refl))))))))

-- A name is accepted just when it is one segment of a path: not empty, a dot or two dots, stripped and its
-- own last part, at most 255 bytes long, without a last dot and without `/`, `\`, `:`, `<`, `>`, `"`, `|`, `?`,
-- `*`, control characters and surrogates, and when what stands before its first dot, without the spaces at
-- its end and in capitals, is not CON, PRN, AUX, NUL or COM or LPT with a digit that is not 0, plain or raised
-- 1, 2 or 3. Otherwise there is an error.
pub accepted-IsSegment :
    (names : Names) (filename : List ℕ)
    → ((validate_document_filename names filename ≡ none) × IsSegment names filename)
      ⊎ ((e : FilenameError) × (validate_document_filename names filename ≡ some e)
          × ¬ (IsSegment names filename))
accepted-IsSegment names filename =
    elim (Option-cases (validate_document_filename names filename)) [
      | inl accepted ↦ inl (accepted, valid-IsSegment names filename accepted)
      | inr (e, refused) ↦
          inr (e, refused, (λ s. ground (arith, refused, IsSegment-valid names filename s)))
    ]
