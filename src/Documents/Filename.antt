-- ===== src/Documents/Filename.antt =====
-- backend/services/document_jobs.py: `validate_document_filename`, on code points.
use paper_rag.Base.{
  ℕ, ◌+◌, Bool, true, false, not, ◌||◌, ◌&&◌, Option, none, some, List, [], ◌∷◌, ◌==◌, ltb, leb,
  nat_eq, if◌then◌else◌,
}

pub data FilenameError : Type 0 where
  empty_name path_segments invalid_characters too_long_or_dot reserved_name : FilenameError

-- The methods of strings and of paths.
pub record Names : Type 0 where
  pub strip : List ℕ → List ℕ
  pub rstrip : List ℕ → List ℕ
  pub upper : List ℕ → List ℕ
  pub path_name : List ℕ → List ℕ

abbrev pub same : List ℕ → List ℕ → Bool
same [] [] = true
same [] (d ∷ ds) = false
same (c ∷ cs) [] = false
same (c ∷ cs) (d ∷ ds) = (c == d) && same cs ds

abbrev pub is_one_of : List ℕ → List (List ℕ) → Bool
is_one_of name [] = false
is_one_of name (n ∷ ns) = same name n || is_one_of name ns

abbrev pub is_among : ℕ → List ℕ → Bool
is_among c [] = false
is_among c (d ∷ ds) = (c == d) || is_among c ds

-- `/\:<>"|?*`
abbrev pub forbidden : List ℕ
forbidden = 47 ∷ 92 ∷ 58 ∷ 60 ∷ 62 ∷ 34 ∷ 124 ∷ 63 ∷ 42 ∷ []

abbrev pub is_control : ℕ → Bool
is_control c = ltb c 32 || (leb 55296 c && leb c 57343)

abbrev pub is_invalid : ℕ → Bool
is_invalid c = is_among c forbidden || is_control c

abbrev pub any_invalid : List ℕ → Bool
any_invalid [] = false
any_invalid (c ∷ cs) = is_invalid c || any_invalid cs

abbrev pub utf8_width : ℕ → ℕ
utf8_width c = if ltb c 128 then 1 else if ltb c 2048 then 2 else if ltb c 65536 then 3 else 4

abbrev pub utf8_length : List ℕ → ℕ
utf8_length [] = 0
utf8_length (c ∷ cs) = utf8_width c + utf8_length cs

abbrev pub ends_in_dot : List ℕ → Bool
ends_in_dot [] = false
ends_in_dot (c ∷ []) = c == 46
ends_in_dot (c ∷ d ∷ cs) = ends_in_dot (d ∷ cs)

-- `filename.split(".", 1)[0]`
abbrev pub before_dot : List ℕ → List ℕ
before_dot [] = []
before_dot (c ∷ cs) = if c == 46 then [] else c ∷ before_dot cs

-- CON, PRN, AUX and NUL; COM or LPT with a digit, which may be raised
abbrev pub is_numbered : List ℕ → Bool
is_numbered (a ∷ b ∷ c ∷ d ∷ []) =
    is_one_of (a ∷ b ∷ c ∷ []) ((67 ∷ 79 ∷ 77 ∷ []) ∷ (76 ∷ 80 ∷ 84 ∷ []) ∷ [])
    && is_among d (49 ∷ 50 ∷ 51 ∷ 52 ∷ 53 ∷ 54 ∷ 55 ∷ 56 ∷ 57 ∷ 185 ∷ 178 ∷ 179 ∷ [])
is_numbered name = false

abbrev pub is_reserved : List ℕ → Bool
is_reserved stem =
    is_one_of stem
      ((67 ∷ 79 ∷ 78 ∷ []) ∷ (80 ∷ 82 ∷ 78 ∷ []) ∷ (65 ∷ 85 ∷ 88 ∷ []) ∷ (78 ∷ 85 ∷ 76 ∷ []) ∷ [])
    || is_numbered stem

-- The error with which a name is refused, if it is.
unfoldable pub validate_document_filename : Names → List ℕ → Option FilenameError
validate_document_filename names filename =
    if same filename [] || same (names.strip filename) []
    then some empty_name
    else if not (same filename (names.strip filename))
        || (not (same (names.path_name filename) filename)
            || is_one_of filename ((46 ∷ []) ∷ (46 ∷ 46 ∷ []) ∷ []))
    then some path_segments
    else if any_invalid filename
    then some invalid_characters
    else if ends_in_dot filename || ltb 255 (utf8_length filename)
    then some too_long_or_dot
    else if is_reserved (names.upper (names.rstrip (before_dot filename)))
    then some reserved_name
    else none
