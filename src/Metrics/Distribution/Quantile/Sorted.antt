-- ===== src/Metrics/Distribution/Quantile/Sorted.antt =====
-- The sort: its result ascends and holds the same entries as often.
use esp_now_harness.Common.{
  ℕ, ◌+◌, ◌≤◌, ◌≡◌, refl, List, [], ◌∷◌, arith, ltb, leb, if◌then◌else◌, length, All, Bool-cases,
  inl, inr, leb→le, leb→lt,
}
use esp_now_harness.Metrics.Distribution.Quantile.{compare_u32, insert_by, qsort}

abbrev pub Ascending : List ℕ → Type 0
Ascending [] = Unit {0}
Ascending (x ∷ xs) = All (λ y. x ≤ y) xs × Ascending xs

-- How many entries are at most `x`, and how many are below it.
unfoldable pub count_le : ℕ → List ℕ → ℕ
count_le x [] = 0
count_le x (y ∷ ys) = (if leb y x then 1 else 0) + count_le x ys

unfoldable pub count_lt : ℕ → List ℕ → ℕ
count_lt x [] = 0
count_lt x (y ∷ ys) = (if ltb y x then 1 else 0) + count_lt x ys

insert : ℕ → List ℕ → List ℕ
insert x [] = x ∷ []
insert x (y ∷ ys) = if leb x y then x ∷ (y ∷ ys) else y ∷ insert x ys

insert_by-compare : (x : ℕ) (ys : List ℕ) → insert_by compare_u32 x ys ≡ insert x ys
unfolding insert_by compare_u32 insert
insert_by-compare x [] = refl
insert_by-compare x (y ∷ ys) = ground (arith, insert_by-compare x ys)

All-mono : (x y : ℕ) (zs : List ℕ) → x ≤ y → All (λ z. y ≤ z) zs → All (λ z. x ≤ z) zs
All-mono x y [] h a = tt
All-mono x y (z ∷ zs) h a = (omega arith, All-mono x y zs h a.1)

All-insert {ℓ} : (P : ℕ → Type ℓ) (x : ℕ) (ys : List ℕ) → P x → All P ys → All P (insert x ys)
unfolding insert
All-insert P x [] p a = (p, tt)
All-insert P x (y ∷ ys) p a = elim (Bool-cases (leb x y)) [
  | inl e ↦ rw e (p, a)
  | inr e ↦ rw e (a.0, All-insert P x ys p a.1)
]

insert-Ascending : (x : ℕ) (ys : List ℕ) → Ascending ys → Ascending (insert x ys)
unfolding insert
insert-Ascending x [] a = (tt, tt)
insert-Ascending x (y ∷ ys) a = elim (Bool-cases (leb x y)) [
  | inl e ↦ rw e ((leb→le x y e, All-mono x y ys (leb→le x y e) a.0), a)
  | inr e ↦
      rw e
        (All-insert (λ z. y ≤ z) x ys (omega (arith, leb→lt x y e)) a.0, insert-Ascending x ys a.1)
]

qsort-nil : qsort compare_u32 [] ≡ []
unfolding qsort
qsort-nil = refl

qsort-cons : (x : ℕ) (xs : List ℕ) → qsort compare_u32 (x ∷ xs) ≡ insert x (qsort compare_u32 xs)
unfolding qsort
qsort-cons x xs = insert_by-compare x (qsort compare_u32 xs)

pub qsort-Ascending : (xs : List ℕ) → Ascending (qsort compare_u32 xs)
unfolding qsort
qsort-Ascending [] = tt
qsort-Ascending (x ∷ xs) = rw insert_by-compare (insert-Ascending x _ (qsort-Ascending xs))

pub All-qsort {ℓ} : (P : ℕ → Type ℓ) (xs : List ℕ) → All P xs → All P (qsort compare_u32 xs)
unfolding qsort
All-qsort P [] a = a
All-qsort P (x ∷ xs) a = rw insert_by-compare (All-insert P x _ a.0 (All-qsort P xs a.1))

insert_counts :
    (p x : ℕ) (ys : List ℕ)
    → (count_le p (insert x ys) ≡ count_le p (x ∷ ys))
      × (count_lt p (insert x ys) ≡ count_lt p (x ∷ ys))
      × (length (insert x ys) ≡ length (x ∷ ys))
unfolding insert count_le count_lt
insert_counts p x [] = (refl, refl, refl)
insert_counts p x (y ∷ ys) = ground (arith, insert_counts p x ys)

pub qsort_counts :
    (p : ℕ) (xs : List ℕ)
    → (count_le p (qsort compare_u32 xs) ≡ count_le p xs)
      × (count_lt p (qsort compare_u32 xs) ≡ count_lt p xs)
      × (length (qsort compare_u32 xs) ≡ length xs)
unfolding count_le count_lt
qsort_counts p [] = rw qsort-nil (refl, refl, refl)
qsort_counts p (x ∷ xs) =
    rw (qsort-cons x xs)
      (ground (arith, insert_counts p x (qsort compare_u32 xs), qsort_counts p xs))
