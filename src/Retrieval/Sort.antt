-- ===== src/Retrieval/Sort.antt =====
-- `list.sort` and `sorted` of Python, which are stable, by an order that says what stands strictly
-- before what.
use paper_rag.Base.{
  suc, ◌≡◌, refl, Bool, true, false, List, [], ◌∷◌, length, arith, if◌then◌else◌, Bool-cases, inl,
  inr, All,
}

module _ {A : Type 0} (before : A → A → Bool) where
  unfoldable pub place : A → List A → List A
  place x [] = x ∷ []
  place x (y ∷ ys) = if before y x then y ∷ place x ys else x ∷ y ∷ ys

  unfoldable pub sort : List A → List A
  sort [] = []
  sort (x ∷ xs) = place x (sort xs)

  -- Nothing of the list stands before the element.
  abbrev pub Leads : A → List A → Type 0
  Leads x ys = All (λ y. before y x ≡ false) ys

  abbrev pub IsSorted : List A → Type 0
  IsSorted [] = Unit
  IsSorted (x ∷ xs) = Leads x xs × IsSorted xs

  length-place : (x : A) (ys : List A) → length (place x ys) ≡ suc (length ys)
  unfolding place
  length-place x [] = refl
  length-place x (y ∷ ys) = ground (arith, length-place x ys)

  pub length-sort : (xs : List A) → length (sort xs) ≡ length xs
  unfolding sort
  length-sort [] = refl
  length-sort (x ∷ xs) = ground (arith, length-place x (sort xs), length-sort xs)

  pub All-place : (P : A → Type 0) (x : A) (ys : List A) → P x → All P ys → All P (place x ys)
  unfolding place
  All-place P x [] p a = (p, tt)
  All-place P x (y ∷ ys) p a = elim (Bool-cases (before y x)) [
    | inl e ↦ rw e (a.0, All-place P x ys p a.1)
    | inr e ↦ rw e (p, a)
  ]

  pub All-sort : (P : A → Type 0) (xs : List A) → All P xs → All P (sort xs)
  unfolding sort
  All-sort P [] a = tt
  All-sort P (x ∷ xs) a = All-place P x (sort xs) a.0 (All-sort P xs a.1)

  module _ (asym : (x y : A) → before x y ≡ true → before y x ≡ false)
      (cotrans : (x y z : A) → before y x ≡ false → before z y ≡ false → before z x ≡ false) where
    Leads-under : (x y : A) (ys : List A) → before y x ≡ false → Leads y ys → Leads x ys
    Leads-under x y [] e l = tt
    Leads-under x y (z ∷ ys) e l = (cotrans x y z e l.0, Leads-under x y ys e l.1)

    place-IsSorted : (x : A) (ys : List A) → IsSorted ys → IsSorted (place x ys)
    unfolding place
    place-IsSorted x [] s = (tt, tt)
    place-IsSorted x (y ∷ ys) s = elim (Bool-cases (before y x)) [
      | inl e ↦
          rw e (All-place (λ z. before z y ≡ false) x ys (asym y x e) s.0, place-IsSorted x ys s.1)
      | inr e ↦ rw e ((e, Leads-under x y ys e s.0), s)
    ]

    pub sort-IsSorted : (xs : List A) → IsSorted (sort xs)
    unfolding sort
    sort-IsSorted [] = tt
    sort-IsSorted (x ∷ xs) = place-IsSorted x (sort xs) (sort-IsSorted xs)
