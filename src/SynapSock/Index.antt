-- ===== src/SynapSock/Index.antt =====
-- The index operators of class SynapSock (src/synapsock.cpp) against the list of frames.
use synap_tcp.Base.{
  ℕ, zero, suc, ◌+◌, ◌-◌, ◌≤◌, ◌≡◌, refl, sym, ap, ◌∙◌, Bool, Option, none, some, List, [], ◌∷◌,
  pos, negsuc, done, arith, ◌==◌, if◌then◌else◌, Bool-cases, length, inl, inr,
}
use synap_tcp.Frames.{Frames}
use synap_tcp.SynapSock.{
  SynapSock, index_loop, frame_at, type_loop, frame_of_type, pair_loop, nth_of_type,
}

abbrev pub get_elem? {ℓ} : {A : Type ℓ} → List A → ℕ → Option A
get_elem? [] i = none
get_elem? (x ∷ xs) zero = some x
get_elem? (x ∷ xs) (suc i) = get_elem? xs i

sub_zero : (n : ℕ) → n - 0 ≡ n
sub_zero n = omega arith

module _ {W : Type 0} (fr : Frames W) where
  -- The pointers lead from `tmp` through the frames to nullptr.
  abbrev pub Chain : Option ℕ → List ℕ → W → Type 0
  Chain tmp [] w = tmp ≡ none
  Chain tmp (f ∷ fs) w = (tmp ≡ some f) × Chain (fr.get_next f w) fs w

  abbrev pub of_type : ℕ → List ℕ → W → List ℕ
  of_type type [] w = []
  of_type type (f ∷ fs) w =
      if fr.get_type f w == type then f ∷ of_type type fs w else of_type type fs w

  index_loop_lem :
      (fuel i n : ℕ) (tmp : Option ℕ) (fs : List ℕ) (w : W)
      → Chain tmp fs w
      → length fs ≤ fuel
      → i ≤ n
      → index_loop fr fuel i (pos n) tmp w ≡ done (get_elem? fs (n - i))
  unfolding index_loop
  index_loop_lem fuel i n tmp [] w c hf le = rw c refl
  index_loop_lem zero i n tmp (f ∷ fs) w c hf le = absurd (omega arith)
  index_loop_lem (suc fuel) i n tmp (f ∷ fs) w (c, cs) hf le = rw c (elim (Bool-cases (i == n)) [
    | inl hit ↦ let start : n - i ≡ 0 = ground arith in rw (hit, start) refl
    | inr miss ↦
        let further : n - i ≡ suc (n - (i + 1)) = ground arith in
        rw (miss, further)
          (index_loop_lem fuel (i + 1) n (fr.get_next f w) fs w cs (omega arith) (ground arith))
  ])

  index_loop_negative :
      (fuel i n : ℕ) (tmp : Option ℕ) (fs : List ℕ) (w : W)
      → Chain tmp fs w
      → length fs ≤ fuel
      → index_loop fr fuel i (negsuc n) tmp w ≡ done none
  unfolding index_loop
  index_loop_negative fuel i n tmp [] w c hf = rw c refl
  index_loop_negative zero i n tmp (f ∷ fs) w c hf = absurd (omega arith)
  index_loop_negative (suc fuel) i n tmp (f ∷ fs) w (c, cs) hf =
      rw c (index_loop_negative fuel (i + 1) n (fr.get_next f w) fs w cs (omega arith))

  pair_loop_lem :
      (fuel i type n : ℕ) (tmp : Option ℕ) (fs : List ℕ) (w : W)
      → Chain tmp fs w
      → length fs ≤ fuel
      → i ≤ n
      → pair_loop fr fuel i type (pos n) tmp w ≡ done (get_elem? (of_type type fs w) (n - i))
  unfolding pair_loop
  pair_loop_lem fuel i type n tmp [] w c hf le = rw c refl
  pair_loop_lem zero i type n tmp (f ∷ fs) w c hf le = absurd (omega arith)
  pair_loop_lem (suc fuel) i type n tmp (f ∷ fs) w (c, cs) hf le =
      rw c (elim (Bool-cases (fr.get_type f w == type)) [
        | inr other ↦
            let rest =
              ap
                (λ (b : Bool).
                  pair_loop fr fuel (if b then i + 1 else i) type (pos n) (fr.get_next f w) w)
                other
              ∙ pair_loop_lem fuel i type n (fr.get_next f w) fs w cs (omega arith) le in
            rw other rest
        | inl same ↦ elim (Bool-cases (i == n)) [
          | inl hit ↦ let start : n - i ≡ 0 = ground arith in rw (same, hit, start) refl
          | inr miss ↦
              let further : n - i ≡ suc (n - (i + 1)) = ground arith in
              let rest =
                ap
                  (λ (b : Bool).
                    pair_loop fr fuel (if b then i + 1 else i) type (pos n) (fr.get_next f w) w)
                  same
                ∙ pair_loop_lem fuel (i + 1) type n (fr.get_next f w) fs w cs (omega arith)
                    (ground arith) in
              rw (same, miss, further) rest
        ]
      ])

  type_loop_lem :
      (fuel type : ℕ) (tmp : Option ℕ) (fs : List ℕ) (w : W)
      → Chain tmp fs w
      → length fs ≤ fuel
      → type_loop fr fuel type tmp w ≡ done (get_elem? (of_type type fs w) 0)
  unfolding type_loop
  type_loop_lem fuel type tmp [] w c hf = rw c refl
  type_loop_lem zero type tmp (f ∷ fs) w c hf = absurd (omega arith)
  type_loop_lem (suc fuel) type tmp (f ∷ fs) w (c, cs) hf =
      rw c (elim (Bool-cases (fr.get_type f w == type)) [
        | inl same ↦ rw same refl
        | inr other ↦ rw other (type_loop_lem fuel type (fr.get_next f w) fs w cs (omega arith))
      ])

  -- For a format that is the list `fs` of frames, with fuel for each: the index operator gives the frame at
  -- that place of the list, or none past its end and for a negative index; with a type and a
  -- number, the frame at that place of the frames of the type; with a type alone, the first of
  -- them.
  pub frame_at-get_elem :
      (fuel n type : ℕ) (y : SynapSock) (fs : List ℕ) (w : W)
      → Chain y.frame_format fs w
      → length fs ≤ fuel
      → (frame_at fr fuel (pos n) y w ≡ done (get_elem? fs n))
        × (frame_at fr fuel (negsuc n) y w ≡ done none)
        × (nth_of_type fr fuel type (pos n) y w ≡ done (get_elem? (of_type type fs w) n))
        × (frame_of_type fr fuel type y w ≡ nth_of_type fr fuel type (pos 0) y w)
  unfolding frame_at nth_of_type frame_of_type
  frame_at-get_elem fuel n type y fs w c hf = (
    index_loop_lem fuel 0 n y.frame_format fs w c hf (omega arith)
        ∙ ap (λ i. done (get_elem? fs i)) (sub_zero n),
    index_loop_negative fuel 0 n y.frame_format fs w c hf,
    pair_loop_lem fuel 0 type n y.frame_format fs w c hf (omega arith)
        ∙ ap (λ i. done (get_elem? (of_type type fs w) i)) (sub_zero n),
    type_loop_lem fuel type y.frame_format fs w c hf
        ∙ sym (pair_loop_lem fuel 0 type 0 y.frame_format fs w c hf (omega arith)),
  )
