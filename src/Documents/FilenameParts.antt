-- ===== src/Documents/FilenameParts.antt =====
-- backend/services/document_jobs.py: the parts of a name that `validate_document_filename` looks at.
use paper_rag.Base.{
  ℕ, ◌≡◌, ◌≢◌, ◌≤◌, ◌<◌, refl, sym, ap, Bool, true, false, ◌&&◌, List, [], ◌∷◌, ◌++◌, All, ==_iff,
  ==_refl, ◌==◌, nat_eq, arith, ◌⊎◌, inl, inr, subst, Bool-cases,
}
use paper_rag.Documents.Filename.{
  same, is_one_of, is_among, forbidden, is_control, any_invalid, is_invalid, ends_in_dot,
  is_numbered, is_reserved,
}

pub same_refl : (cs : List ℕ) → same cs cs ≡ true
same_refl [] = refl
same_refl (c ∷ cs) = ground (arith, same_refl cs, ==_refl c)

pub same-true : (cs ds : List ℕ) → same cs ds ≡ true → cs ≡ ds
same-true [] [] h = refl
same-true [] (d ∷ ds) h = ground arith
same-true (c ∷ cs) [] h = ground arith
same-true (c ∷ cs) (d ∷ ds) h =
    let tails : cs ≡ ds = same-true cs ds (ground (arith, h)) in
    let heads : c ≡ d = ground (arith, h, ==_iff c d) in cc

pub same-false : (cs ds : List ℕ) → cs ≢ ds → same cs ds ≡ false
same-false cs ds h = elim (Bool-cases (same cs ds)) [
  | inl e ↦ absurd (h (same-true cs ds e))
  | inr e ↦ e
]

-- A code point that is no separator, no drive mark, no pattern, no control and no half of a pair.
pub record IsPlain (c : ℕ) : Type 0 where
  pub no_slash : c ≢ 47
  pub no_backslash : c ≢ 92
  pub no_colon : c ≢ 58
  pub no_less : c ≢ 60
  pub no_greater : c ≢ 62
  pub no_quote : c ≢ 34
  pub no_bar : c ≢ 124
  pub no_question : c ≢ 63
  pub no_star : c ≢ 42
  pub printable : 32 ≤ c
  pub no_surrogate : (c < 55296) ⊎ (57343 < c)

IsPlain-if : (c : ℕ) → is_invalid c ≡ false → IsPlain c
IsPlain-if c h = record {
  no_slash = ground (arith, h);
  no_backslash = ground (arith, h);
  no_colon = ground (arith, h);
  no_less = ground (arith, h);
  no_greater = ground (arith, h);
  no_quote = ground (arith, h);
  no_bar = ground (arith, h);
  no_question = ground (arith, h);
  no_star = ground (arith, h);
  printable = ground (arith, h);
  no_surrogate = ground (arith, h);
}

is_among-none : (c : ℕ) (ds : List ℕ) → All (λ d. c ≢ d) ds → is_among c ds ≡ false
is_among-none c [] a = refl
is_among-none c (d ∷ ds) a = ground (arith, a.0, ==_iff c d, is_among-none c ds a.1)

is_control-none : (c : ℕ) → 32 ≤ c → (c < 55296) ⊎ (57343 < c) → is_control c ≡ false
is_control-none c p q = ground (arith, p, q)

if-IsPlain : (c : ℕ) → IsPlain c → is_invalid c ≡ false
if-IsPlain c p = ground (
  arith,
  is_among-none c forbidden (
    p.no_slash,
    (
      p.no_backslash,
      (
        p.no_colon,
        (p.no_less, (p.no_greater, (p.no_quote, (p.no_bar, (p.no_question, (p.no_star, tt)))))),
      ),
    ),
  ),
  is_control-none c p.printable p.no_surrogate,
)

pub All-IsPlain : (cs : List ℕ) → any_invalid cs ≡ false → All IsPlain cs
All-IsPlain [] h = tt
All-IsPlain (c ∷ cs) h = (IsPlain-if c (ground (arith, h)), All-IsPlain cs (ground (arith, h)))

pub any_invalid-none : (cs : List ℕ) → All IsPlain cs → any_invalid cs ≡ false
any_invalid-none [] a = refl
any_invalid-none (c ∷ cs) a = ground (arith, if-IsPlain c a.0, any_invalid-none cs a.1)

dot_ends : (cs : List ℕ) → ends_in_dot (cs ++ (46 ∷ [])) ≡ true
dot_ends [] = refl
dot_ends (c ∷ []) = refl
dot_ends (c ∷ d ∷ cs) = dot_ends (d ∷ cs)

pub no_dot_ends : (name cs : List ℕ) → ends_in_dot name ≡ false → name ≢ cs ++ (46 ∷ [])
no_dot_ends name cs h e = ground (arith, subst (λ n. ends_in_dot n ≡ false) e h, dot_ends cs)

pub ends_in_dot-none :
    (name : List ℕ) → ((cs : List ℕ) → name ≢ cs ++ (46 ∷ [])) → ends_in_dot name ≡ false
ends_in_dot-none [] h = refl
ends_in_dot-none (c ∷ []) h = elim (Bool-cases (c == 46)) [
  | inl e ↦ absurd (h [] (ap (λ x. x ∷ []) ((==_iff c 46).0 e)))
  | inr e ↦ e
]
ends_in_dot-none (c ∷ d ∷ cs) h = ends_in_dot-none (d ∷ cs) (λ ds e. h (c ∷ ds) (ap (◌∷◌ c) e))

-- CON, PRN, AUX, NUL
abbrev pub devices : List (List ℕ)
devices = (67 ∷ 79 ∷ 78 ∷ []) ∷ (80 ∷ 82 ∷ 78 ∷ []) ∷ (65 ∷ 85 ∷ 88 ∷ []) ∷ (78 ∷ 85 ∷ 76 ∷ []) ∷ []

-- 1 to 9, and the raised 1, 2 and 3
abbrev pub ports : List ℕ
ports = 49 ∷ 50 ∷ 51 ∷ 52 ∷ 53 ∷ 54 ∷ 55 ∷ 56 ∷ 57 ∷ 185 ∷ 178 ∷ 179 ∷ []

-- COM and LPT with this digit
abbrev pub com_port : ℕ → List ℕ
com_port d = 67 ∷ 79 ∷ 77 ∷ d ∷ []

abbrev pub lpt_port : ℕ → List ℕ
lpt_port d = 76 ∷ 80 ∷ 84 ∷ d ∷ []

-- Not the name of a device, and not COM or LPT with a digit.
pub record IsFree (stem : List ℕ) : Type 0 where
  pub no_device : All (λ name. stem ≢ name) devices
  pub no_port : All (λ d. (stem ≢ com_port d) × (stem ≢ lpt_port d)) ports

other_than : (stem name : List ℕ) → is_reserved stem ≡ false → is_reserved name ≡ true → stem ≢ name
other_than stem name h t e = ground (arith, subst (λ n. is_reserved n ≡ false) e h, t)

other_port :
    (stem : List ℕ) (d : ℕ)
    → is_reserved stem ≡ false
    → is_reserved (com_port d) && is_reserved (lpt_port d) ≡ true
    → (stem ≢ com_port d) × (stem ≢ lpt_port d)
other_port stem d h t = (
  other_than stem (com_port d) h (ground (arith, t)),
  other_than stem (lpt_port d) h (ground (arith, t)),
)

pub is_reserved-IsFree : (stem : List ℕ) → is_reserved stem ≡ false → IsFree stem
is_reserved-IsFree stem h = record {
  no_device = (
    other_than stem _ h refl,
    (other_than stem _ h refl, (other_than stem _ h refl, (other_than stem _ h refl, tt))),
  );
  no_port = every ports refl;
}
  where
    all_ports : List ℕ → Bool
    all_ports [] = true
    all_ports (d ∷ ds) = (is_reserved (com_port d) && is_reserved (lpt_port d)) && all_ports ds

    every :
        (ds : List ℕ)
        → all_ports ds ≡ true
        → All (λ d. (stem ≢ com_port d) × (stem ≢ lpt_port d)) ds
    every [] e = tt
    every (d ∷ ds) e = (other_port stem d h (ground (arith, e)), every ds (ground (arith, e)))

pub is_one_of-none :
    (name : List ℕ) (ns : List (List ℕ)) → All (λ n. name ≢ n) ns → is_one_of name ns ≡ false
is_one_of-none name [] a = refl
is_one_of-none name (n ∷ ns) a = ground (arith, same-false name n a.0, is_one_of-none name ns a.1)

is_numbered-none :
    (stem : List ℕ)
    → All (λ d. (stem ≢ com_port d) × (stem ≢ lpt_port d)) ports
    → is_numbered stem ≡ false
is_numbered-none [] a = refl
is_numbered-none (p ∷ []) a = refl
is_numbered-none (p ∷ q ∷ []) a = refl
is_numbered-none (p ∷ q ∷ r ∷ []) a = refl
is_numbered-none (p ∷ q ∷ r ∷ d ∷ e ∷ es) a = refl
is_numbered-none (p ∷ q ∷ r ∷ d ∷ []) a = elim (Bool-cases (is_among d ports)) [
  | inr no_digit ↦ ground (arith, no_digit)
  | inl digit ↦
      let apart =
        is_among-All (λ x. (p ∷ q ∷ r ∷ d ∷ [] ≢ com_port x) × (p ∷ q ∷ r ∷ d ∷ [] ≢ lpt_port x)) d
          ports digit a in
      ground (
        arith,
        is_one_of-none (p ∷ q ∷ r ∷ []) ((67 ∷ 79 ∷ 77 ∷ []) ∷ (76 ∷ 80 ∷ 84 ∷ []) ∷ []) (
          (λ e. apart.0 (ap (λ l. l ++ (d ∷ [])) e)),
          ((λ e. apart.1 (ap (λ l. l ++ (d ∷ [])) e)), tt),
        ),
      )
]
  where
    is_among-All : (Q : ℕ → Type 0) (c : ℕ) (ds : List ℕ) → is_among c ds ≡ true → All Q ds → Q c
    is_among-All Q c [] h b = absurd (ground (arith, h))
    is_among-All Q c (x ∷ xs) h b = elim (Bool-cases (c == x)) [
      | inl e ↦ subst Q (sym ((==_iff c x).0 e)) b.0
      | inr e ↦ is_among-All Q c xs (ground (arith, h, e)) b.1
    ]

pub IsFree-none : (stem : List ℕ) → IsFree stem → is_reserved stem ≡ false
IsFree-none stem f =
    ground (arith, is_one_of-none stem devices f.no_device, is_numbered-none stem f.no_port)
