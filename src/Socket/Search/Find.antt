-- ===== src/Socket/Search/Find.antt =====
-- Occurrences of a mark, and the loop that looks for the first one.
use synap_tcp.Base.{
  ℕ, zero, suc, ◌+◌, ◌≤◌, ◌<◌, ◌≡◌, refl, ap, ◌⊎◌, inl, inr, Bool, true, false, List, [], ◌∷◌, ◌++◌,
  arith, dec_le, if◌then◌else◌, Bool-cases, length, ltb, append_assoc, take, drop, drop_all,
}
use synap_tcp.Socket.Collect.{same_bytes}
use synap_tcp.Socket.Search.{find_from}

-- The mark stands in `tmp` at position `k`.
abbrev pub occurs_at : List ℕ → List ℕ → ℕ → Bool
occurs_at mark tmp k = same_bytes (take (length mark) (drop k tmp)) mark

-- No occurrence starts in the positions from `i` up to `j`.
abbrev pub NoneIn : List ℕ → List ℕ → ℕ → ℕ → Type 0
NoneIn mark tmp i j = (k : ℕ) → i ≤ k → k < j → occurs_at mark tmp k ≡ false

abbrev pub Finding : List ℕ → List ℕ → ℕ → ℕ → Bool × ℕ → Type 0
Finding mark tmp i j r =
    ((r.0 ≡ true) × (i ≤ r.1) × (r.1 < j) × (occurs_at mark tmp r.1 ≡ true) × NoneIn mark tmp i r.1)
    ⊎ ((r.0 ≡ false) × (r.1 ≡ j) × NoneIn mark tmp i j)

NoneIn-step :
    (mark tmp : List ℕ) (i j : ℕ)
    → occurs_at mark tmp i ≡ false
    → NoneIn mark tmp (i + 1) j
    → NoneIn mark tmp i j
NoneIn-step mark tmp i j here later k ge lt = elim (dec_le (i + 1) k) [
  | yes past ↦ later k past lt
  | no at ↦ let e : k ≡ i = omega arith in rw e here
]

pub find_from-Finding :
    (rounds i j : ℕ) (mark tmp : List ℕ)
    → i + rounds ≡ j
    → Finding mark tmp i j (find_from rounds i mark tmp)
unfolding find_from
find_from-Finding zero i j mark tmp e = inr (refl, omega arith, λ k ge lt. absurd (omega arith))
find_from-Finding (suc rounds) i j mark tmp e = elim (Bool-cases (occurs_at mark tmp i)) [
  | inl hit ↦ rw hit (inl (refl, omega arith, omega arith, hit, λ k ge lt. absurd (omega arith)))
  | inr miss ↦ rw miss (elim (find_from-Finding rounds (i + 1) j mark tmp (omega arith)) [
    | inl (hit, ge, lt, at, before) ↦
        inl (hit, omega arith, lt, at, NoneIn-step mark tmp i _ miss before)
    | inr (none, at_end, before) ↦ inr (none, at_end, NoneIn-step mark tmp i j miss before)
  ])
]

-- A window that lies in the first part does not see the second.
pub take-drop-append :
    (k n : ℕ) (xs ys : List ℕ) → k + n ≤ length xs → take n (drop k (xs ++ ys)) ≡ take n (drop k xs)
take-drop-append zero zero xs ys h = refl
take-drop-append zero (suc n) [] ys h = absurd (omega arith)
take-drop-append zero (suc n) (x ∷ xs) ys h =
    ap (◌∷◌ x) (take-drop-append zero n xs ys (omega arith))
take-drop-append (suc k) n [] ys h = absurd (omega arith)
take-drop-append (suc k) n (x ∷ xs) ys h = take-drop-append k n xs ys (omega arith)

pub NoneIn-join :
    (mark tmp : List ℕ) (i j : ℕ) → NoneIn mark tmp 0 i → NoneIn mark tmp i j → NoneIn mark tmp 0 j
NoneIn-join mark tmp i j front back k ge lt = elim (dec_le i k) [
  | yes past ↦ back k past lt
  | no early ↦ front k ge (omega arith)
]

-- The test before the assignment of the remaining data makes no difference to an empty vector.
pub rest_of : (n : ℕ) (tmp : List ℕ) → (if ltb n (length tmp) then drop n tmp else []) ≡ drop n tmp
rest_of n tmp = ground (arith, drop_all n tmp)

pub regroup : (a b c d : List ℕ) → a ++ (b ++ (c ++ d)) ≡ (a ++ (b ++ c)) ++ d
regroup a b c d = simp append_assoc
