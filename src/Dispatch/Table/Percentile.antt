-- ===== src/Dispatch/Table/Percentile.antt =====
-- `latency_p95_ms` of advice/dispatch.py against the definition of a percentile.
use kenaz_ml.Prelude.{
  ℕ, zero, suc, ◌*◌, ◌≤◌, ◌<◌, Bool, some, List, [], ◌∷◌, ◌≡◌, refl, arith, if◌then◌else◌, ltb, leb,
  length, get_elem?, Bool-cases, inl, inr, All, All-imp,
}
use kenaz_ml.Dispatch.Table.{insert_sorted, sorted, p95_index, p95}

-- How many entries pass a test.
abbrev pub count : (ℕ → Bool) → List ℕ → ℕ
count p [] = 0
count p (x ∷ xs) = if p x then suc (count p xs) else count p xs

count-insert_sorted :
    (p : ℕ → Bool) (x : ℕ) (xs : List ℕ) → count p (insert_sorted x xs) ≡ count p (x ∷ xs)
unfolding insert_sorted
count-insert_sorted p x [] = refl
count-insert_sorted p x (y ∷ ys) = ground (arith, count-insert_sorted p x ys)

count-sorted : (p : ℕ → Bool) (xs : List ℕ) → count p (sorted xs) ≡ count p xs
unfolding sorted
count-sorted p [] = refl
count-sorted p (x ∷ xs) = ground (arith, count-insert_sorted p x (sorted xs), count-sorted p xs)

length-insert_sorted : (x : ℕ) (xs : List ℕ) → length (insert_sorted x xs) ≡ suc (length xs)
unfolding insert_sorted
length-insert_sorted x [] = refl
length-insert_sorted x (y ∷ ys) = ground (arith, length-insert_sorted x ys)

length-sorted : (xs : List ℕ) → length (sorted xs) ≡ length xs
unfolding sorted
length-sorted [] = refl
length-sorted (x ∷ xs) = omega (arith, length-insert_sorted x (sorted xs), length-sorted xs)

-- No entry is below the bound.
abbrev Above : ℕ → List ℕ → Type 0
Above b xs = All (λ x. b ≤ x) xs

-- Ascending order.
abbrev IsSorted : List ℕ → Type 0
IsSorted [] = Unit
IsSorted (x ∷ xs) = Above x xs × IsSorted xs

Above-insert_sorted : (b x : ℕ) (xs : List ℕ) → b ≤ x → Above b xs → Above b (insert_sorted x xs)
unfolding insert_sorted
Above-insert_sorted b x [] le h = (le, tt)
Above-insert_sorted b x (y ∷ ys) le h = elim (Bool-cases (ltb y x)) [
  | inl e ↦ rw e (h.0, Above-insert_sorted b x ys le h.1)
  | inr e ↦ rw e (le, h)
]

insert_sorted-IsSorted : (x : ℕ) (xs : List ℕ) → IsSorted xs → IsSorted (insert_sorted x xs)
unfolding insert_sorted
insert_sorted-IsSorted x [] h = (tt, tt)
insert_sorted-IsSorted x (y ∷ ys) h = elim (Bool-cases (ltb y x)) [
  | inl e ↦ rw e (Above-insert_sorted y x ys (ground arith) h.0, insert_sorted-IsSorted x ys h.1)
  | inr e ↦ rw e ((ground arith, All-imp ys (λ z le. ground arith) h.0), h)
]

sorted-IsSorted : (xs : List ℕ) → IsSorted (sorted xs)
unfolding sorted
sorted-IsSorted [] = tt
sorted-IsSorted (x ∷ xs) = insert_sorted-IsSorted x (sorted xs) (sorted-IsSorted xs)

get_elem?-Above : (b i v : ℕ) (xs : List ℕ) → Above b xs → get_elem? xs i ≡ some v → b ≤ v
get_elem?-Above b i v [] h e = cc
get_elem?-Above b zero v (x ∷ xs) h e = ground (arith, h.0)
get_elem?-Above b (suc i) v (x ∷ xs) h e = get_elem?-Above b i v xs h.1 e

count-Above : (v : ℕ) (xs : List ℕ) → Above v xs → count (λ x. ltb x v) xs ≡ 0
count-Above v [] h = refl
count-Above v (x ∷ xs) h = ground (arith, h.0, count-Above v xs h.1)

-- In a sorted list, the entry at an index has at most that many entries below it, and it and all
-- before it are at most it.
get_elem?-IsSorted :
    (i v : ℕ) (xs : List ℕ)
    → IsSorted xs
    → get_elem? xs i ≡ some v
    → (count (λ x. ltb x v) xs ≤ i) × (i < count (λ x. leb x v) xs)
get_elem?-IsSorted i v [] h e = cc
get_elem?-IsSorted zero v (x ∷ xs) h e =
    let same : x ≡ v = ground arith in
    let above : Above v xs = rw same at h.0 in ground (arith, count-Above v xs above, same)
get_elem?-IsSorted (suc i) v (x ∷ xs) h e =
    ground (arith, get_elem?-Above x i v xs h.0 e, get_elem?-IsSorted i v xs h.1 e)

get_elem?-in_range : (i : ℕ) (xs : List ℕ) → i < length xs → (v : ℕ) × (get_elem? xs i ≡ some v)
get_elem?-in_range i [] h = absurd (omega (arith, h))
get_elem?-in_range zero (x ∷ xs) h = (x, refl)
get_elem?-in_range (suc i) (x ∷ xs) h = get_elem?-in_range i xs (omega (arith, h))

-- The percentile of a ring that is not empty is found, at least 19 of 20 samples are at most it,
-- and fewer than 19 of 20 are below it.
pub p95_percentile :
    (samples : List ℕ)
    → 0 < length samples
    → (v : ℕ) × (p95 samples ≡ some v)
      × (19 * length samples ≤ 20 * count (λ x. leb x v) samples)
      × (20 * count (λ x. ltb x v) samples < 19 * length samples)
unfolding p95 p95_index
p95_percentile samples h =
    let i = p95_index (length samples) in
    let (v, e) = get_elem?-in_range i (sorted samples) (omega (arith, h, length-sorted samples)) in
    let (below, upto) = get_elem?-IsSorted i v (sorted samples) (sorted-IsSorted samples) e in
    (
      v,
      e,
      omega (arith, h, upto, count-sorted (λ x. leb x v) samples),
      omega (arith, h, below, count-sorted (λ x. ltb x v) samples),
    )
