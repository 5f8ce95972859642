-- ===== src/Loader/Identifiers.antt =====
-- backend/rag/document_loader.py: the identifiers of the chunks tell them apart.
use Prim.Native.String.{[] as no_text, ◌∷◌ as ◌∷ₜ◌, ◌++◌ as ◌++ₜ◌}
use Prim.Native.Char.{Char}
use text.Mathlib.TextLemmas.{
  nil-append, cons-append, append_cancel_left, head-eq_of_cons-eq, tail-eq_of_cons-eq,
}
use paper_rag.Base.{ℕ, String, ◌≡◌, ◌≢◌, refl, sym, ap, ◌∙◌}
use paper_rag.Loader.Levels.{build_chunk_id}

-- A text without a character.
abbrev pub Without : Char → String → Type 0
Without m no_text = Unit {0}
Without m (c ∷ₜ s) = (c ≢ m) × Without m s

-- `str(n)` of a natural number: digits, and another text for another number.
pub record IsDecimal (str : ℕ → String) : Type 0 where
  pub apart : (m n : ℕ) → str m ≡ str n → m ≡ n
  pub no_colon : (n : ℕ) → Without ":" (str n)
  pub no_underscore : (n : ℕ) → Without "_" (str n)

-- Before the first mark the texts are equal, and after it.
pub split_once :
    (m : Char) (a b s t : String)
    → Without m a
    → Without m b
    → a ++ₜ (m ∷ₜ s) ≡ b ++ₜ (m ∷ₜ t)
    → (a ≡ b) × (s ≡ t)
split_once m no_text no_text s t u v e =
    (refl, tail-eq_of_cons-eq (sym (nil-append (m ∷ₜ s)) ∙ (e ∙ nil-append (m ∷ₜ t))))
split_once m no_text (c ∷ₜ b) s t u v e =
    absurd
      (v.0 (sym (head-eq_of_cons-eq (sym (nil-append (m ∷ₜ s)) ∙ (e ∙ cons-append c b (m ∷ₜ t))))))
split_once m (c ∷ₜ a) no_text s t u v e =
    absurd (u.0 (head-eq_of_cons-eq (sym (cons-append c a (m ∷ₜ s)) ∙ (e ∙ nil-append (m ∷ₜ t)))))
split_once m (c ∷ₜ a) (d ∷ₜ b) s t u v e =
    let step = sym (cons-append c a (m ∷ₜ s)) ∙ (e ∙ cons-append d b (m ∷ₜ t)) in
    let head : c ≡ d = head-eq_of_cons-eq step in
    let rest = split_once m a b s t u.1 v.1 (tail-eq_of_cons-eq step) in
    (ap (λ x. x ∷ₜ a) head ∙ ap (◌∷ₜ◌ d) rest.0, rest.1)

colons : (s : String) → "::" ++ₜ s ≡ ":" ∷ₜ (":" ∷ₜ s)
colons s =
    cons-append ":" ":" s ∙ ap (◌∷ₜ◌ ":") (cons-append ":" "" s ∙ ap (◌∷ₜ◌ ":") (nil-append s))

pub build_chunk_id_inj :
    (str : ℕ → String) (filename : String) (page l l' i i' : ℕ)
    → IsDecimal str
    → build_chunk_id str filename page l i ≡ build_chunk_id str filename page l' i'
    → (l ≡ l') × (i ≡ i')
build_chunk_id_inj str filename page l l' i i' d e =
    let tail = append_cancel_left "::l" _ _ (
      append_cancel_left (str page) _ _
        (append_cancel_left "::p" _ _ (append_cancel_left filename _ _ e))) in
    let parts =
      split_once ":" (str l) (str l') (":" ∷ₜ str i) (":" ∷ₜ str i') (d.no_colon l) (d.no_colon l')
        (ap (λ r. str l ++ₜ r) (sym (colons (str i)))
          ∙ (tail ∙ ap (λ r. str l' ++ₜ r) (colons (str i')))) in
    (d.apart l l' parts.0, d.apart i i' (tail-eq_of_cons-eq parts.1))
