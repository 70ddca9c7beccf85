-- ===== src/Generator/Numbering.antt =====
-- The sequence numbers that generator_task of firmware/main/generator.c gives to its packets.
use esp_now_harness.Common.{
  ℕ, zero, suc, ◌+◌, ◌<◌, ◌≡◌, refl, ap, ◌∙◌, inl, inr, Bool, true, false, ◌&&◌, List, [], ◌∷◌,
  arith, ◌==◌, if◌then◌else◌, Bool-cases, ==_iff, u32, get_or, length, length-set, get_or-set_self,
  get_or-set_ne,
}
use mathlib.Core.Path.{ap₂}
use esp_now_harness.Generator.Task.{Attempt, bump}

-- The numbers of the packets of a stream that were sent, in order.
unfoldable pub numbers : ℕ → List Attempt → List ℕ
numbers k [] = []
numbers k (a ∷ as') =
    let rest = numbers k as' in if a.sent && (a.stream == k) then a.sequence ∷ rest else rest

-- `from` and the numbers after it, as 32 bits count.
unfoldable pub count_up : ℕ → ℕ → List ℕ
count_up from zero = []
count_up from (suc n) = from ∷ count_up (u32 (from + 1)) n

-- Attempts that take their numbers from the counters of the streams.
abbrev pub Numbered : List ℕ → List Attempt → Type 0
Numbered sequences [] = Unit {0}
Numbered sequences (a ∷ as') =
    (a.stream < 16)
    × (a.sequence ≡ get_or sequences a.stream 0)
    × Numbered (bump sequences a.stream a.sent) as'

length-bump : (ss : List ℕ) (j : ℕ) (b : Bool) → length (bump ss j b) ≡ length ss
unfolding bump
length-bump ss j true = length-set ss j _
length-bump ss j false = refl

get_or-bump :
    (ss : List ℕ) (j k : ℕ) (b : Bool)
    → j < length ss
    → get_or (bump ss j b) k 0 ≡ (if b && (j == k) then u32 (get_or ss k 0 + 1) else get_or ss k 0)
unfolding bump
get_or-bump ss j k false h = refl
get_or-bump ss j k true h = elim (Bool-cases (j == k)) [
  | inl e ↦ let same = (==_iff j k).0 e in rw (e, same) (get_or-set_self ss k _ 0 (rw (← same) h))
  | inr e ↦ rw e (get_or-set_ne ss j k _ 0 (ground (arith, e)))
]

next_number :
    (ss : List ℕ) (a : Attempt) (k : ℕ)
    → a.sequence ≡ get_or ss a.stream 0
    → (a.sent && (a.stream == k)) ≡ true
    → a.sequence ≡ get_or ss k 0
next_number ss a k h y =
    let same : a.stream ≡ k = ground (arith, y) in h ∙ ap (λ j. get_or ss j 0) same

pub numbers-Numbered :
    (log : List Attempt) (ss : List ℕ) (k : ℕ)
    → length ss ≡ 16
    → Numbered ss log
    → numbers k log ≡ count_up (get_or ss k 0) (length (numbers k log))
unfolding numbers count_up
numbers-Numbered [] ss k h v = refl
numbers-Numbered (a ∷ log) ss k h v =
    let next = get_or-bump ss a.stream k a.sent (omega (arith, v.0)) in
    let rest =
      numbers-Numbered log (bump ss a.stream a.sent) k (length-bump ss a.stream a.sent ∙ h) v.2 in
    elim (Bool-cases (a.sent && (a.stream == k))) [
      | inl y ↦
          let next' : get_or (bump ss a.stream a.sent) k 0 ≡ u32 (get_or ss k 0 + 1) =
            ground (arith, next, y) in
          rw y (
            ap₂ ◌∷◌ (next_number ss a k v.1 y)
              (rest ∙ ap (λ m. count_up m (length (numbers k log))) next'))
      | inr n ↦
          let next' : get_or (bump ss a.stream a.sent) k 0 ≡ get_or ss k 0 =
            ground (arith, next, n) in
          rw n (rest ∙ ap (λ m. count_up m (length (numbers k log))) next')
    ]
