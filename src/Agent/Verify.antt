-- ===== src/Agent/Verify.antt =====
-- backend/agent/verify.py. What the regular expression finds in an answer, and the search for
-- `out_of_scope` in a content, are arguments.
use Prim.Native.String.{◌++◌ as ◌++ₜ◌}
use paper_rag.Base.{
  ℕ, String, string_eq, Bool, true, false, not, ◌&&◌, Option, none, some, List, [], ◌∷◌, length,
  any, ◌==◌, if◌then◌else◌,
}
use paper_rag.Base.Dict
use paper_rag.Base.Dict.{Dict}
use paper_rag.Base.Text.{is_empty}

pub record Citation : Type 0 where
  pub cited_text : String
  pub span : ℕ × ℕ

-- A place of the source map: no key at all, or what `get` finds.
pub data Locator : Type 0 where
  no_place : Locator
  place : Option String → Option ℕ → Option String → Locator

-- `label in seen`
abbrev pub is_seen : String → List String → Bool
is_seen label seen = any (λ s. s == label) seen

abbrev pub label_of : String → String
label_of number = "Source " ++ₜ number

unfoldable pub cite : List String → List (String × (ℕ × ℕ)) → List Citation
cite seen [] = []
cite seen ((number, at) ∷ matches) =
    let again = cite seen matches in
    let first = cite (label_of number ∷ seen) matches in
    if is_seen (label_of number) seen
    then again
    else record { cited_text = label_of number; span = at } ∷ first

unfoldable pub extract_citations : List (String × (ℕ × ℕ)) → List Citation
unfolding cite
extract_citations matches = cite [] matches

-- A citation with its place.
pub record Verified : Type 0 where
  pub citation : Citation
  pub file : Option String
  pub at_page : Option ℕ
  pub chunk : Option String

abbrev pub sources : Option (Dict String Locator) → Dict String Locator
sources none = []
sources (some d) = d

abbrev pub sort_out :
    Citation → Option Locator → List Verified × List Citation → List Verified × List Citation
sort_out c none rest = (rest.0, c ∷ rest.1)
sort_out c (some no_place) rest = (rest.0, c ∷ rest.1)
sort_out c (some (place f p k)) rest =
    (record { citation = c; file = f; at_page = p; chunk = k } ∷ rest.0, rest.1)

unfoldable pub verify_citations :
    Dict String Locator → List Citation → List Verified × List Citation
verify_citations mapping [] = ([], [])
verify_citations mapping (c ∷ cs) =
    sort_out c (Dict.get c.cited_text mapping) (verify_citations mapping cs)

pub record ToolCall : Type 0 where
  pub name : String
  pub answer_arg : String
  pub question_arg : String

pub data Content : Type 0 where
  text_content : String → Content
  blocks_content : List (Option String) → Content

pub record Message : Type 0 where
  pub tool_calls : List ToolCall
  pub is_ai : Bool
  pub content : Content

-- The argument of the first call of `Answer` or `Question`.
abbrev pub call_answer : List ToolCall → String
call_answer [] = ""
call_answer (tc ∷ tcs) =
    if tc.name == "Answer"
    then tc.answer_arg
    else if tc.name == "Question"
    then tc.question_arg
    else call_answer tcs

-- The messages are the last first.
abbrev pub from_calls : List Message → String
from_calls [] = ""
from_calls (m ∷ ms) =
    let earlier = from_calls ms in
    if is_empty (call_answer m.tool_calls) then earlier else call_answer m.tool_calls

abbrev pub has_content : Content → Bool
has_content (text_content t) = not (is_empty t)
has_content (blocks_content []) = false
has_content (blocks_content (b ∷ bs)) = true

-- The blocks of text are joined, others left out.
abbrev pub joined : List (Option String) → String
joined [] = ""
joined (none ∷ bs) = joined bs
joined (some b ∷ bs) = b ++ₜ joined bs

abbrev pub text_of : Content → String
text_of (text_content t) = t
text_of (blocks_content bs) = joined bs

abbrev pub from_ai : (Content → Bool) → List Message → String
from_ai out_of_scope [] = ""
from_ai out_of_scope (m ∷ ms) =
    let earlier = from_ai out_of_scope ms in
    if m.is_ai && (has_content m.content && not (out_of_scope m.content))
    then text_of m.content
    else earlier

pub record AnswerOutcome : Type 0 where
  pub final_answer : String
  pub supported : List Verified
  pub unsupported : List Citation
  pub verified_count : ℕ
  pub unsupported_count : ℕ

abbrev pub outcome_of : String → List Verified × List Citation → AnswerOutcome
outcome_of text checked = record {
  final_answer = text;
  supported = checked.0;
  unsupported = checked.1;
  verified_count = length checked.0;
  unsupported_count = length checked.1;
}

abbrev pub final_of : (Content → Bool) → List Message → String
final_of out_of_scope ms =
    if is_empty (from_calls ms) then from_ai out_of_scope ms else from_calls ms

unfoldable pub extract_outcome :
    (String → List (String × (ℕ × ℕ)))
    → (Content → Bool)
    → List Message
    → Option (Dict String Locator)
    → AnswerOutcome
unfolding extract_citations verify_citations
extract_outcome find out_of_scope ms source_map =
    outcome_of (final_of out_of_scope ms)
      (verify_citations (sources source_map) (extract_citations (find (final_of out_of_scope ms))))
