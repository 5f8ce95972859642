-- ===== src/Base/Dict.antt =====
-- Python's `dict`: an association list in the order of insertion. A write to a key that is there
-- keeps its place.
use mathlib.Core.Path.{◌≡◌, refl}
use mathlib.Core.Bool.{Bool, true, false}
use mathlib.Core.Logic.{inl, inr, ◌≢◌}
use mathlib.Core.Option.{Option, none, some}
use mathlib.Core.List.{List, [], ◌∷◌}
use native.Mathlib.Omega.{arith}
use paper_rag.Base.Tests.{if◌then◌else◌, Bool-cases}
use paper_rag.Base.Equality.{Key, ◌==◌, ==_iff, ==_refl}

abbrev pub Dict : Type 0 → Type 0 → Type 0
Dict K V = List (K × V)

module _ {K V : Type 0} ⦃e : Key K⦄ where
  -- d.get(k)
  unfoldable pub get : K → Dict K V → Option V
  get k [] = none
  get k ((j, v) ∷ d) = if j == k then some v else get k d

  -- d[k] = v
  unfoldable pub put : K → V → Dict K V → Dict K V
  put k v [] = (k, v) ∷ []
  put k v ((j, w) ∷ d) = if j == k then (j, v) ∷ d else (j, w) ∷ put k v d

  -- d.pop(k, None)
  unfoldable pub remove : K → Dict K V → Dict K V
  remove k [] = []
  remove k ((j, v) ∷ d) = if j == k then remove k d else (j, v) ∷ remove k d

  -- k in d
  abbrev pub member : K → Dict K V → Bool
  member k d = elim (get k d) [ none ↦ false | some v ↦ true ]

  pub get-put :
      (k j : K) (v : V) (d : Dict K V) → get j (put k v d) ≡ (if k == j then some v else get j d)
  unfolding get put
  get-put k j v [] = refl
  get-put k j v ((i, w) ∷ d) = ground (arith, ==_iff k j, ==_iff i k, ==_iff i j, get-put k j v d)

  pub get-put_self : (k : K) (v : V) (d : Dict K V) → get k (put k v d) ≡ some v
  get-put_self k v d = simp (get-put, ==_refl)

  pub get-remove :
      (k j : K) (d : Dict K V) → get j (remove k d) ≡ (if k == j then none else get j d)
  unfolding get remove
  get-remove k j [] = elim (Bool-cases (k == j)) [ inl h ↦ rw h | inr h ↦ rw h ]
  get-remove k j ((i, w) ∷ d) = ground (arith, ==_iff k j, ==_iff i k, ==_iff i j, get-remove k j d)

  pub get-put_ne : (k j : K) (v : V) (d : Dict K V) → k ≢ j → get j (put k v d) ≡ get j d
  get-put_ne k j v d h = ground (arith, get-put k j v d, ==_iff k j)

pub ruleset dict_laws = (get-put, get-put_self, get-remove)
