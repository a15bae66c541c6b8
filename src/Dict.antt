-- ===== src/Dict.antt =====
-- Python's `dict` with text keys, as its items in insertion order: the maps of a run snapshot.
use project_development_skil.Base.{
  ◌+◌, ◌≤◌, String, Bool, true, Option, none, some, List, [], ◌∷◌, ◌≡◌, refl, arith, str_eq, eq_iff,
  if◌then◌else◌, is_some, all, length, cons_if, not,
}

abbrev pub Dict {ℓ} : Type ℓ → Type ℓ
Dict V = List (String × V)

module _ {ℓ} {V : Type ℓ} where
  -- d.get(k)
  unfoldable pub get : String → Dict V → Option V
  get k [] = none
  get k ((j, v) ∷ d) = if str_eq j k then some v else get k d

  -- d[k] = v, in place for a known key
  unfoldable pub put : String → V → Dict V → Dict V
  put k v [] = (k, v) ∷ []
  put k v ((j, w) ∷ d) = if str_eq j k then (j, v) ∷ d else (j, w) ∷ put k v d

  -- d.pop(k, None)
  unfoldable pub pop : String → Dict V → Dict V
  pop k [] = []
  pop k ((j, w) ∷ d) = cons_if (not (str_eq j k)) (j, w) (pop k d)

  unfoldable pub has_key : String → Dict V → Bool
  unfolding get
  has_key k d = is_some (get k d)

  pub get-put :
      (k j : String) (v : V) (d : Dict V)
      → get j (put k v d) ≡ (if str_eq k j then some v else get j d)
  unfolding get put
  get-put k j v [] = refl
  get-put k j v ((i, w) ∷ d) = ground (arith, eq_iff k j, eq_iff i k, eq_iff i j, get-put k j v d)

  pub get-pop :
      (k j : String) (d : Dict V) → get j (pop k d) ≡ (if str_eq k j then none else get j d)
  unfolding get pop
  get-pop k j [] = ground arith
  get-pop k j ((i, w) ∷ d) = ground (arith, eq_iff k j, eq_iff i k, eq_iff i j, get-pop k j d)

  pub length-put_new :
      (k : String) (v : V) (d : Dict V) → get k d ≡ none → length (put k v d) ≡ length d + 1
  unfolding get put
  length-put_new k v [] h = ground arith
  length-put_new k v ((i, w) ∷ d) h = ground (arith, length-put_new k v d)

  pub length-pop : (k : String) (d : Dict V) → length (pop k d) ≤ length d
  unfolding pop
  length-pop k [] = ground arith
  length-pop k ((i, w) ∷ d) = ground (arith, length-pop k d)

  module _ (p : String × V → Bool) where
    pub all-put :
        (k : String) (v : V) (d : Dict V)
        → p (k, v) ≡ true
        → all p d ≡ true
        → all p (put k v d) ≡ true
    unfolding put
    all-put k v [] h g = ground arith
    all-put k v ((i, w) ∷ d) h g = ground (arith, eq_iff i k, all-put k v d)

    pub all-pop : (k : String) (d : Dict V) → all p d ≡ true → all p (pop k d) ≡ true
    unfolding pop
    all-pop k [] g = refl
    all-pop k ((i, w) ∷ d) g = ground (arith, all-pop k d)

    -- What holds of every item holds of the one that a key finds.
    pub all-get :
        (k : String) (v : V) (d : Dict V) → all p d ≡ true → get k d ≡ some v → p (k, v) ≡ true
    unfolding get
    all-get k v [] g h = ground arith
    all-get k v ((i, w) ∷ d) g h = ground (arith, eq_iff i k, all-get k v d)

pub get-put_self {ℓ} : {V : Type ℓ} (k : String) (v : V) (d : Dict V) → get k (put k v d) ≡ some v
get-put_self k v d = ground (arith, get-put k k v d, eq_iff k k)
