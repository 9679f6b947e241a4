-- ===== src/Example/Dex/Oracle/Median.antt =====
-- The price that the application publishes of a pair is the median of what was reported of it.
use bapi.Go.Sort.Numbers.{count, middle-within, within}
use bapi.Go.Sort.{sort_slice-All}
use mathlib.Core.List.{Permᴰ}
use bapi.Example.Dex.Determinism.{collect-Sorted, Visits}
use bapi.Example.Dex.Transactions.{is_void}
use bapi.Go.Order.{eq_of_bytes_eq, bytes_lt_irrefl, bytes_eq, bytes_eq_refl, bytes_lt}
use bapi.Types.{CommittedVoteExtension}
use bapi.Example.Dex.Oracle.{
  by_pair, median_of, median, aggregate, collect_prices, collect_decoded, collect,
}
use bapi.Example.Dex.State.{decoded, malformed, elements, OraclePrice, Decoded, World}
use bapi.Go.Dict.{lookup-insert, insert, Dict, lookup, Sorted}
use bapi.Go.Text.{Bytes}
use bapi.Base.{
  by_if, All_mono, ◌≤◌, ◌*◌, ◌<◌, subst, map, ◌∙◌, ap, inr, inl, ◌&&◌, Bool-cases, ◌==◌, sym, refl,
  false, arith, ◌++◌, true, not, length, [], ◌≡◌, ◌∷◌, if◌then◌else◌, All, ℕ, List, Bool,
}
use mathlib.Core.List.{append-nil, append_assoc}

-- The prices of a list that are reported of a pair, the void ones left out.
abbrev pub priced : Bytes → List OraclePrice → List ℕ
priced pair [] = []
priced pair (p ∷ ps) =
    let rest = priced pair ps in
    if not (is_void p) && bytes_eq p.pair pair then p.price ∷ rest else rest

abbrev priced_decoded : Bytes → Decoded (List OraclePrice) → List ℕ
priced_decoded pair (malformed e) = []
priced_decoded pair (decoded ps) = priced pair ps

-- All that the vote extensions report of a pair. One that is empty or malformed reports nothing.
abbrev pub reports : World → Bytes → List CommittedVoteExtension → List ℕ
reports w pair [] = []
reports w pair (x ∷ exts) =
    (if length x.extension == 0 then [] else priced_decoded pair (w.unmarshal_prices x.extension))
    ++ reports w pair exts

if_append :
    (b : Bool) (n : ℕ) (xs : List ℕ) → (if b then n ∷ [] else []) ++ xs ≡ (if b then n ∷ xs else xs)
if_append true n xs = refl
if_append false n xs = refl

elements-insert :
    (pair k : Bytes) (n : ℕ) (m : Dict (List ℕ))
    → elements (lookup pair (insert k (elements (lookup k m) ++ (n ∷ [])) m))
      ≡ elements (lookup pair m) ++ (if bytes_eq k pair then n ∷ [] else [])
elements-insert pair k n m = elim (Bool-cases (bytes_eq k pair)) [
  | inl e ↦
      rw (lookup-insert k pair (elements (lookup k m) ++ (n ∷ [])) m, e)
        (ap (λ j. elements (lookup j m) ++ (n ∷ [])) (eq_of_bytes_eq k pair e))
  | inr e ↦
      rw (lookup-insert k pair (elements (lookup k m) ++ (n ∷ [])) m, e)
        (sym (append-nil (elements (lookup pair m))))
]

collect_prices-priced :
    (pair : Bytes) (ps : List OraclePrice) (m : Dict (List ℕ))
    → elements (lookup pair (collect_prices ps m)) ≡ elements (lookup pair m) ++ priced pair ps
unfolding collect_prices
collect_prices-priced pair [] m = sym (append-nil (elements (lookup pair m)))
collect_prices-priced pair (p ∷ ps) m = elim (Bool-cases (is_void p)) [
  | inl e ↦ rw e (collect_prices-priced pair ps m)
  | inr e ↦
      let m' = insert p.pair (elements (lookup p.pair m) ++ (p.price ∷ [])) m in
      rw e (
        collect_prices-priced pair ps m'
        ∙ ap (λ xs. xs ++ priced pair ps) (elements-insert pair p.pair p.price m)
        ∙ append_assoc (elements (lookup pair m))
            (if bytes_eq p.pair pair then p.price ∷ [] else []) (priced pair ps)
        ∙ ap (λ xs. elements (lookup pair m) ++ xs)
            (if_append (bytes_eq p.pair pair) p.price (priced pair ps)))
]

collect_decoded-priced :
    (pair : Bytes) (d : Decoded (List OraclePrice)) (m : Dict (List ℕ))
    → elements (lookup pair (collect_decoded d m))
      ≡ elements (lookup pair m) ++ priced_decoded pair d
unfolding collect_decoded
collect_decoded-priced pair (malformed e) m = sym (append-nil (elements (lookup pair m)))
collect_decoded-priced pair (decoded ps) m = collect_prices-priced pair ps m

pub collect-reports :
    (w : World) (pair : Bytes) (exts : List CommittedVoteExtension) (m : Dict (List ℕ))
    → elements (lookup pair (collect w exts m)) ≡ elements (lookup pair m) ++ reports w pair exts
unfolding collect
collect-reports w pair [] m = sym (append-nil (elements (lookup pair m)))
collect-reports w pair (x ∷ exts) m = elim (Bool-cases (length x.extension == 0)) [
  | inl e ↦ rw e (collect-reports w pair exts m)
  | inr e ↦
      let d = w.unmarshal_prices x.extension in
      rw e (
        collect-reports w pair exts (collect_decoded d m)
        ∙ ap (λ xs. xs ++ reports w pair exts) (collect_decoded-priced pair d m)
        ∙ append_assoc (elements (lookup pair m)) (priced_decoded pair d) (reports w pair exts))
]

-- Each entry of a map is what a lookup finds.
found-Below :
    (k : Bytes) (v : List ℕ) (d d' : Dict (List ℕ))
    → All (λ (e : Bytes × List ℕ). bytes_lt k e.0 ≡ true) d
    → All (λ (e : Bytes × List ℕ). elements (lookup e.0 d') ≡ e.1) d
    → All (λ (e : Bytes × List ℕ). elements (lookup e.0 ((k, v) ∷ d')) ≡ e.1) d
unfolding lookup
found-Below k v [] d' b h = tt
found-Below k v (e ∷ d) d' b h = (
  ground (arith, b.0, h.0, bytes_lt_irrefl k, eq_of_bytes_eq k e.0),
  found-Below k v d d' b.1 h.1,
)

found :
    (d : Dict (List ℕ)) → Sorted d → All (λ (e : Bytes × List ℕ). elements (lookup e.0 d) ≡ e.1) d
unfolding Sorted lookup
found [] s = tt
found ((k, v) ∷ d) s = (rw (bytes_eq_refl k) refl, found-Below k v d d s.0 (found d s.1))

All-Permᴰ {ℓ κ} : {A : Type ℓ} (P : A → Type κ) {xs ys : List A} → Permᴰ xs ys → All P xs → All P ys
All-Permᴰ P Permᴰ.nil h = tt
All-Permᴰ P (Permᴰ.cons e p) h = (subst P e h.0, All-Permᴰ P p h.1)
All-Permᴰ P (Permᴰ.swap e e') h = (subst P e' h.1.0, (subst P e h.0, h.1.1))
All-Permᴰ P (Permᴰ.trans p q) h = All-Permᴰ P q (All-Permᴰ P p h)

-- The price of `p` is the median of what `m` holds for its pair.
abbrev Central : Dict (List ℕ) → OraclePrice → Type 0
Central m p = p.price ≡ median (elements (lookup p.pair m))

map-Central :
    (m d : Dict (List ℕ))
    → All (λ (e : Bytes × List ℕ). elements (lookup e.0 m) ≡ e.1) d
    → All (Central m) (map median_of d)
map-Central m [] h = tt
map-Central m (e ∷ d) h = (ap median (sym h.0), map-Central m d h.1)

aggregate-Central :
    (w : World) (m : Dict (List ℕ))
    → Visits (λ V. w.order)
    → Sorted m
    → All (Central m) (aggregate w m)
unfolding aggregate
aggregate-Central w m v s = sort_slice-All by_pair (Central m) (map median_of (w.order m)) (
    map-Central m (w.order m) (
      All-Permᴰ (λ (e : Bytes × List ℕ). elements (lookup e.0 m) ≡ e.1) (v (List ℕ) m) (found m s)))

-- A price is in bounds if it is one of the pair.
abbrev pub Fair : Bytes → ℕ → ℕ → OraclePrice → Type 0
Fair pair lo hi p = p.pair ≡ pair → (lo ≤ p.price) × (p.price ≤ hi)

-- More than half of what is reported of the pair lies between the bounds.
abbrev pub MostWithin : World → List CommittedVoteExtension → Bytes → ℕ → ℕ → Type 0
MostWithin w exts pair lo hi =
    length (reports w pair exts) < 2 * count (within lo hi) (reports w pair exts)

pub aggregate-Fair :
    (w : World) (exts : List CommittedVoteExtension) (pair : Bytes) (lo hi : ℕ)
    → Visits (λ V. w.order)
    → MostWithin w exts pair lo hi
    → All (Fair pair lo hi) (aggregate w (collect w exts []))
unfolding median lookup Sorted
aggregate-Fair w exts pair lo hi v m =
    let c = collect w exts [] in
    All_mono (Central c) (Fair pair lo hi)
      (λ p central same.
        let held : elements (lookup p.pair c) ≡ reports w pair exts =
          ap (λ k. elements (lookup k c)) same ∙ collect-reports w pair exts [] in
        let e : p.price ≡ median (reports w pair exts) = central ∙ ap median held in
        ground (arith, e, middle-within lo hi (reports w pair exts) m))
      (aggregate w c) (aggregate-Central w c v (collect-Sorted w exts [] tt))

-- Nothing is reported of a pair without a name.
priced-unnamed : (pair : Bytes) (ps : List OraclePrice) → length pair ≡ 0 → priced pair ps ≡ []
priced-unnamed pair [] h = refl
priced-unnamed pair (p ∷ ps) h =
    let same : p.pair ≡ pair → length p.pair ≡ length pair = ap length in
    ground (arith, h, eq_of_bytes_eq p.pair pair, same, priced-unnamed pair ps h)

priced_decoded-unnamed :
    (pair : Bytes) (d : Decoded (List OraclePrice)) → length pair ≡ 0 → priced_decoded pair d ≡ []
priced_decoded-unnamed pair (malformed e) h = refl
priced_decoded-unnamed pair (decoded ps) h = priced-unnamed pair ps h

pub reports-unnamed :
    (w : World) (pair : Bytes) (exts : List CommittedVoteExtension)
    → length pair ≡ 0
    → reports w pair exts ≡ []
reports-unnamed w pair [] h = refl
reports-unnamed w pair (x ∷ exts) h =
    let rest = reports-unnamed w pair exts h in
    let d = w.unmarshal_prices x.extension in
    by_if (λ xs. xs ++ reports w pair exts ≡ []) (length x.extension == 0) []
      (priced_decoded pair d) (λ e. rest)
      (λ e. ap (λ xs. xs ++ reports w pair exts) (priced_decoded-unnamed pair d h) ∙ rest)
