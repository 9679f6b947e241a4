-- ===== src/Go/Sort/Numbers.antt =====
-- sort.Slice on numbers: where a majority of them lies, the middle one lies.
use bapi.Base.{
  All_mono, zero, true, inr, ◌/◌, ◌+◌, ◌&&◌, suc, refl, inl, ◌≡◌, ◌*◌, leb, if◌then◌else◌, get_or,
  arith, [], Bool-cases, ◌≤◌, ◌∷◌, ◌<◌, ltb, length, Bool, All, ℕ, List,
}
use bapi.Go.Sort.{place, sort_slice, place-All, length-sort_slice}

abbrev pub count : (ℕ → Bool) → List ℕ → ℕ
count f [] = 0
count f (x ∷ xs) = (if f x then 1 else 0) + count f xs

-- The numbers from `lo` to `hi`.
abbrev pub within : ℕ → ℕ → ℕ → Bool
within lo hi x = leb lo x && leb x hi

Ascending : List ℕ → Type 0
Ascending [] = Unit
Ascending (x ∷ xs) = All (λ y. x ≤ y) xs × Ascending xs

count-place : (f : ℕ → Bool) (x : ℕ) (xs : List ℕ) → count f (place ltb x xs) ≡ count f (x ∷ xs)
unfolding place
count-place f x [] = refl
count-place f x (y ∷ ys) = ground (arith, count-place f x ys)

count-sort_slice : (f : ℕ → Bool) (xs : List ℕ) → count f (sort_slice ltb xs) ≡ count f xs
unfolding sort_slice
count-sort_slice f [] = refl
count-sort_slice f (x ∷ xs) =
    omega (arith, count-place f x (sort_slice ltb xs), count-sort_slice f xs)

at_least : (a b : ℕ) (xs : List ℕ) → a ≤ b → All (λ y. b ≤ y) xs → All (λ y. a ≤ y) xs
at_least a b xs l h = All_mono (λ y. b ≤ y) (λ y. a ≤ y) (λ y k. omega (arith, l, k)) xs h

place-Ascending : (x : ℕ) (xs : List ℕ) → Ascending xs → Ascending (place ltb x xs)
unfolding Ascending place
place-Ascending x [] h = (tt, tt)
place-Ascending x (y ∷ ys) h = elim (Bool-cases (ltb y x)) [
  | inl e ↦ rw e (place-All ltb (λ z. y ≤ z) x ys (ground arith) h.0, place-Ascending x ys h.1)
  | inr e ↦ rw e ((ground arith, at_least x y ys (ground arith) h.0), h)
]

sort_slice-Ascending : (xs : List ℕ) → Ascending (sort_slice ltb xs)
unfolding Ascending sort_slice
sort_slice-Ascending [] = tt
sort_slice-Ascending (x ∷ xs) = place-Ascending x (sort_slice ltb xs) (sort_slice-Ascending xs)

count-length : (f : ℕ → Bool) (xs : List ℕ) → count f xs ≤ length xs
count-length f [] = omega arith
count-length f (x ∷ xs) = ground (arith, count-length f xs)

get_or-least : (a k : ℕ) (xs : List ℕ) → k < length xs → All (λ y. a ≤ y) xs → a ≤ get_or xs k 0
get_or-least a k [] l h = absurd (omega arith)
get_or-least a zero (x ∷ xs) l h = h.0
get_or-least a (suc k) (x ∷ xs) l h = get_or-least a k xs (omega arith) h.1

-- Where the `k`-th is too small, all before it are.
count-below :
    (lo hi k : ℕ) (xs : List ℕ)
    → Ascending xs
    → k < length xs
    → get_or xs k 0 < lo
    → count (within lo hi) xs + k < length xs
unfolding Ascending
count-below lo hi k [] h l s = absurd (omega arith)
count-below lo hi zero (x ∷ xs) h l s = ground (arith, count-length (within lo hi) xs)
count-below lo hi (suc k) (x ∷ xs) h l s =
    ground (arith, get_or-least x k xs, h.0, count-below lo hi k xs h.1)

none-within : (lo hi : ℕ) (xs : List ℕ) → All (λ y. hi < y) xs → count (within lo hi) xs ≡ 0
none-within lo hi [] h = refl
none-within lo hi (x ∷ xs) h = ground (arith, h.0, none-within lo hi xs h.1)

-- Where the `k`-th is too large, all after it are.
count-above :
    (lo hi k : ℕ) (xs : List ℕ)
    → Ascending xs
    → k < length xs
    → hi < get_or xs k 0
    → count (within lo hi) xs ≤ k
unfolding Ascending
count-above lo hi k [] h l s = absurd (omega arith)
count-above lo hi zero (x ∷ xs) h l s =
    ground (arith, none-within lo hi xs (at_least (suc hi) x xs (omega arith) h.0))
count-above lo hi (suc k) (x ∷ xs) h l s = ground (arith, count-above lo hi k xs h.1)

pub middle-within :
    (lo hi : ℕ) (xs : List ℕ)
    → length xs < 2 * count (within lo hi) xs
    → within lo hi (get_or (sort_slice ltb xs) (length xs / 2) 0) ≡ true
middle-within lo hi xs m =
    let s = sort_slice ltb xs in
    let k = length xs / 2 in
    let asc = sort_slice-Ascending xs in
    ground (
      arith,
      count-sort_slice (within lo hi) xs,
      length-sort_slice ltb xs,
      count-length (within lo hi) xs,
      count-below lo hi k s asc,
      count-above lo hi k s asc,
    )
