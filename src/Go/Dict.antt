-- ===== src/Go/Dict.antt =====
-- Go maps with string keys. A map is the list of its entries in the order of their keys, so that
-- equal maps are equal values; the order in which Go iterates over a map is a parameter of the
-- functions that depend on it.
use bapi.Base.{
  subst, inr, inl, true, Bool-cases, All, ℕ, ◌≡◌, refl, Option, none, some, List, [], ◌∷◌, arith,
  if◌then◌else◌,
}
use bapi.Go.Text.{Bytes}
use bapi.Go.Order.{
  bytes_lt_otherwise, eq_of_bytes_eq, bytes_lt_trans, bytes_eq, bytes_lt, bytes_eq_iff,
}

abbrev pub Dict : Type 0 → Type 0
Dict V = List (Bytes × V)

module _ {V : Type 0} where
  -- `v, ok := m[k]`
  unfoldable pub lookup : Bytes → Dict V → Option V
  lookup k [] = none
  lookup k ((j, v) ∷ d) = if bytes_eq j k then some v else lookup k d

  -- `m[k] = v`
  unfoldable pub insert : Bytes → V → Dict V → Dict V
  insert k v [] = (k, v) ∷ []
  insert k v ((j, w) ∷ d) =
      let rest = insert k v d in
      if bytes_eq j k
      then (k, v) ∷ d
      else if bytes_lt k j
      then (k, v) ∷ (j, w) ∷ d
      else (j, w) ∷ rest

  -- `delete(m, k)`
  unfoldable pub delete : Bytes → Dict V → Dict V
  delete k [] = []
  delete k ((j, w) ∷ d) = let rest = delete k d in if bytes_eq j k then rest else (j, w) ∷ rest

  pub lookup-insert :
      (k j : Bytes) (v : V) (d : Dict V)
      → lookup j (insert k v d) ≡ (if bytes_eq k j then some v else lookup j d)
  unfolding lookup insert
  lookup-insert k j v [] = refl
  lookup-insert k j v ((i, w) ∷ d) =
      ground (arith, bytes_eq_iff k j, bytes_eq_iff i k, bytes_eq_iff i j, lookup-insert k j v d)

  pub lookup-delete :
      (k j : Bytes) (d : Dict V)
      → lookup j (delete k d) ≡ (if bytes_eq k j then none else lookup j d)
  unfolding lookup delete
  lookup-delete k j [] = ground arith
  lookup-delete k j ((i, w) ∷ d) =
      ground (arith, bytes_eq_iff k j, bytes_eq_iff i k, bytes_eq_iff i j, lookup-delete k j d)

pub ruleset dict_laws = (lookup-insert, lookup-delete)

-- The value of a `map[string]uint64`, 0 for a key that is not there.
abbrev pub or_zero : Option ℕ → ℕ
or_zero none = 0
or_zero (some n) = n

-- The entries stand in the order of their keys, each key once.
unfoldable pub Sorted : {V : Type 0} → Dict V → Type 0
Sorted [] = Unit
Sorted ((k, v) ∷ d) = All (λ (e : Bytes × _). bytes_lt k e.0 ≡ true) d × Sorted d

module _ {V : Type 0} where
  Below : Bytes → Dict V → Type 0
  Below j d = All (λ (e : Bytes × V). bytes_lt j e.0 ≡ true) d

  Below-trans : (j k : Bytes) (d : Dict V) → bytes_lt j k ≡ true → Below k d → Below j d
  unfolding Below
  Below-trans j k [] h b = tt
  Below-trans j k ((i, w) ∷ d) h b = (bytes_lt_trans j k i h b.0, Below-trans j k d h b.1)

  Below-insert :
      (j k : Bytes) (v : V) (d : Dict V) → bytes_lt j k ≡ true → Below j d → Below j (insert k v d)
  unfolding Below insert
  Below-insert j k v [] h b = (h, tt)
  Below-insert j k v ((i, w) ∷ d) h b = ground (arith, Below-insert j k v d h b.1)

  pub insert-Sorted : (k : Bytes) (v : V) (d : Dict V) → Sorted d → Sorted (insert k v d)
  unfolding Sorted insert Below
  insert-Sorted k v [] s = (tt, tt)
  insert-Sorted k v ((j, w) ∷ d) s = elim (Bool-cases (bytes_eq j k)) [
    | inl e ↦ rw e (subst (λ z. Below z d) (eq_of_bytes_eq j k e) s.0, s.1)
    | inr e ↦ elim (Bool-cases (bytes_lt k j)) [
      | inl f ↦ rw (e, f) ((f, Below-trans k j d f s.0), s)
      | inr f ↦
          rw (e, f) (Below-insert j k v d (bytes_lt_otherwise k j e f) s.0, insert-Sorted k v d s.1)
    ]
  ]
