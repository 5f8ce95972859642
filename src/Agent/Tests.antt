-- ===== src/Agent/Tests.antt =====
-- Runs of backend/agent/verify.py.
use paper_rag.Base.{ℕ, String, string_eq, ◌≡◌, refl, true, false, Option, none, some, List, [], ◌∷◌}
use paper_rag.Base.Dict
use paper_rag.Base.Dict.{Dict}
use paper_rag.Agent.Verify.{Locator, place, text_content, Message, extract_outcome}

-- Two sources in a text, one of them twice.
abbrev found_in : String → List (String × (ℕ × ℕ))
found_in text = ("1", (0, 10)) ∷ ("7", (12, 22)) ∷ ("1", (30, 40)) ∷ []

abbrev one_source : Option (Dict String Locator)
one_source = some (("Source 1", place (some "a.pdf") (some 3) none) ∷ [])

abbrev said : List Message
said =
    record {
      tool_calls = [];
      is_ai = true;
      content = text_content "as [Source 1] and [Source 7] say";
    }
    ∷ []

verified_run : (extract_outcome found_in (λ c. false) said one_source).verified_count ≡ 1
unfolding extract_outcome Dict.get
verified_run = refl
