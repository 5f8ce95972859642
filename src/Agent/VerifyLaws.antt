-- ===== src/Agent/VerifyLaws.antt =====
-- backend/agent/verify.py: which citations an answer keeps.
use paper_rag.Base.{
  ℕ, ◌+◌, String, string_eq, ◌≡◌, Bool, true, false, ◌||◌, Option, none, some, List, [], ◌∷◌,
  length, any, All, ◌==◌, if◌then◌else◌,
}
use paper_rag.Base.Dict
use paper_rag.Base.Dict.{Dict}
use paper_rag.Agent.Verify.{
  Citation, Locator, no_place, place, is_seen, label_of, extract_citations, Verified, AnswerOutcome,
}

abbrev pub cites : String → List Citation → Bool
cites label cs = any (λ c. c.cited_text == label) cs

abbrev pub distinct_labels : List Citation → Bool
distinct_labels [] = true
distinct_labels (c ∷ cs) = if cites c.cited_text cs then false else distinct_labels cs

abbrev pub has_place : Option Locator → Bool
has_place none = false
has_place (some no_place) = false
has_place (some (place f p k)) = true

-- What the check promises of the citations that were found.
pub record IsChecked (mapping : Dict String Locator) (matches : List (String × (ℕ × ℕ)))
    (o : AnswerOutcome) : Type 0 where
  pub verified_found :
      All
        (λ v. Dict.get v.citation.cited_text mapping ≡ some (place v.file v.at_page v.chunk))
        o.supported
  pub unsupported_missing :
      All (λ c. has_place (Dict.get c.cited_text mapping) ≡ false) o.unsupported
  pub each_once : distinct_labels (extract_citations matches) ≡ true
  pub each_cited : All (λ m. cites (label_of m.0) (extract_citations matches) ≡ true) matches
  pub none_lost : o.verified_count + o.unsupported_count ≡ length (extract_citations matches)

abbrev Cited : List String → List Citation → String × (ℕ × ℕ) → Type 0
Cited seen cs m = (is_seen (label_of m.0) seen || cites (label_of m.0) cs) ≡ true

-- The two parts of a check.
record IsSorted (mapping : Dict String Locator) (cs : List Citation)
    (r : List Verified × List Citation) : Type 0 where
  found :
      All (λ v. Dict.get v.citation.cited_text mapping ≡ some (place v.file v.at_page v.chunk)) r.0
  missing : All (λ c. has_place (Dict.get c.cited_text mapping) ≡ false) r.1
  lengths : length r.0 + length r.1 ≡ length cs
