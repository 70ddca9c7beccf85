-- ===== src/Metrics/Stream/History.antt =====
-- What the README says of sequence tracking, stated on the whole history of a stream: the list of
-- received sequence numbers, the newest first.
use esp_now_harness.Common.{
  ℕ, zero, suc, ◌+◌, ◌≤◌, ◌<◌, ◌≡◌, refl, Bool, true, false, not, ◌&&◌, ◌||◌, List, [], ◌∷◌, arith,
  ltb, leb, if◌then◌else◌, contains,
}

-- The highest number received.
unfoldable pub top : List ℕ → ℕ
top [] = 0
top (s ∷ hs) = if ltb (top hs) s then s else top hs

-- More than 63 behind the highest number.
abbrev pub is_old : List ℕ → ℕ → Bool
is_old hs s = leb (s + 64) (top hs)

-- The packets within the window at their arrival, which count as received.
unfoldable pub accepted : List ℕ → List ℕ
accepted [] = []
accepted (s ∷ hs) = if is_old hs s then accepted hs else s ∷ accepted hs

-- The packets within the window whose number had come before.
unfoldable pub duplicates : List ℕ → ℕ
duplicates [] = 0
duplicates (s ∷ hs) = duplicates hs + (if not (is_old hs s) && contains hs s then 1 else 0)

-- The packets below the highest number that were too old to judge, or had not come before.
unfoldable pub reordered : List ℕ → ℕ
reordered [] = 0
reordered (s ∷ hs) =
    reordered hs + (if ltb s (top hs) && (is_old hs s || not (contains hs s)) then 1 else 0)

-- How many numbers below `n` are not in the list.
unfoldable pub missing : ℕ → List ℕ → ℕ
missing zero acc = 0
missing (suc n) acc = missing n acc + (if contains acc n then 0 else 1)

pub contains_above : (hs : List ℕ) (s : ℕ) → top hs < s → contains hs s ≡ false
unfolding contains top
contains_above [] s h = refl
contains_above (x ∷ hs) s h = ground (arith, contains_above hs s)

-- Within the window a number was accepted if it ever came.
pub contains-accepted :
    (hs : List ℕ) (s : ℕ) → top hs < s + 64 → contains (accepted hs) s ≡ contains hs s
unfolding contains top accepted
contains-accepted [] s h = refl
contains-accepted (x ∷ hs) s h = ground (arith, contains-accepted hs s)

pub missing_seen :
    (n s : ℕ) (acc : List ℕ) → contains acc s ≡ true → missing n (s ∷ acc) ≡ missing n acc
unfolding contains missing
missing_seen zero s acc h = refl
missing_seen (suc n) s acc h = ground (arith, missing_seen n s acc h)

missing_out : (n s : ℕ) (acc : List ℕ) → n ≤ s → missing n (s ∷ acc) ≡ missing n acc
unfolding contains missing
missing_out zero s acc h = refl
missing_out (suc n) s acc h = ground (arith, missing_out n s acc)

pub missing_fresh :
    (n s : ℕ) (acc : List ℕ)
    → s < n
    → contains acc s ≡ false
    → missing n acc ≡ missing n (s ∷ acc) + 1
unfolding contains missing
missing_fresh zero s acc h k = absurd (omega arith)
missing_fresh (suc n) s acc h k = ground (arith, missing_fresh n s acc, missing_out n s acc)

missing_suc :
    (k : ℕ) (acc : List ℕ) → missing (suc k) acc ≡ missing k acc + (if contains acc k then 0 else 1)
unfolding missing
missing_suc k acc = refl

-- Numbers that no entry reaches are all missing.
pub missing_beyond :
    (d n : ℕ) (acc : List ℕ)
    → ((s : ℕ) → n ≤ s → contains acc s ≡ false)
    → missing (d + n) acc ≡ missing n acc + d
unfolding missing
missing_beyond zero n acc h = ground arith
missing_beyond (suc d) n acc h =
    let e : suc d + n ≡ suc (d + n) = omega arith in
    rw e
      (ground (arith, missing_suc (d + n) acc, missing_beyond d n acc h, h (d + n) (omega arith)))
