-- ===== src/Socket/Search/Prompt.antt =====
-- The methods that look for bytes, on a system whose reads wait for input: if the bytes are to come they are
-- found.
use synap_tcp.Base.{
  ℕ, ◌+◌, ◌<◌, ◌≡◌, refl, sym, ap, ◌∙◌, subst, inl, inr, true, false, List, [], ◌∷◌, ◌++◌,
  append_assoc, append-nil, done, arith, dec_lt, length, length-append, take,
}
use synap_tcp.Socket.{Socket}
use synap_tcp.Socket.Os.{Os, IsStream}
use synap_tcp.Socket.Receive.Total.{Received, IsReady}
use synap_tcp.Socket.Receive.Prompt.{IsPrompt}
use synap_tcp.Socket.Collect.{receive_stop_bytes}
use synap_tcp.Socket.Collect.Input.{to_come}
use synap_tcp.Socket.Collect.Stop.{same_bytes_refl, receive_stop_bytes_total}
use synap_tcp.Socket.Search.{receive_start_bytes, receive_untill_stop_bytes}
use synap_tcp.Socket.Search.Find.{occurs_at, NoneIn, take-drop-append}
use synap_tcp.Socket.Search.Start.{receive_start_bytes_total}
use synap_tcp.Socket.Search.Until.{receive_untill_stop_bytes_total}

pub append-injective :
    (xs ys a b : List ℕ) → length xs ≡ length ys → xs ++ a ≡ ys ++ b → (xs ≡ ys) × (a ≡ b)
append-injective [] [] a b h e = (refl, e)
append-injective [] (y ∷ ys) a b h e = absurd (omega arith)
append-injective (x ∷ xs) [] a b h e = absurd (omega arith)
append-injective (x ∷ xs) (y ∷ ys) a b h e =
    let (same, rest) = append-injective xs ys a b (omega arith) cc in (cc, rest)

take_front : (xs ys : List ℕ) → take (length xs) (xs ++ ys) ≡ xs
take_front [] ys = refl
take_front (x ∷ xs) ys = ap (◌∷◌ x) (take_front xs ys)

occurs_after : (mark xs ys : List ℕ) → occurs_at mark (xs ++ (mark ++ ys)) (length xs) ≡ true
occurs_after mark [] ys = rw (take_front mark ys) (same_bytes_refl mark)
occurs_after mark (x ∷ xs) ys = occurs_after mark xs ys

-- What stands before the first occurrence, and after it, is determined.
pub first_occurrence :
    (mark xs a ys b all : List ℕ)
    → xs ++ (mark ++ a) ≡ all
    → ys ++ (mark ++ b) ≡ all
    → NoneIn mark all 0 (length xs)
    → NoneIn mark all 0 (length ys)
    → (xs ≡ ys) × (a ≡ b)
first_occurrence mark xs a ys b all ex ey nx ny =
    let at_x : occurs_at mark all (length xs) ≡ true =
      ap (λ t. occurs_at mark t (length xs)) (sym ex) ∙ occurs_after mark xs a in
    let at_y : occurs_at mark all (length ys) ≡ true =
      ap (λ t. occurs_at mark t (length ys)) (sym ey) ∙ occurs_after mark ys b in
    elim (dec_lt (length xs) (length ys)) [
      | yes shorter ↦ absurd (cc (at_x, ny (length xs) (omega arith) shorter))
      | no not_shorter ↦ elim (dec_lt (length ys) (length xs)) [
        | yes longer ↦ absurd (cc (at_y, nx (length ys) (omega arith) longer))
        | no not_longer ↦
            let (same, rest) =
              append-injective xs ys (mark ++ a) (mark ++ b) (omega arith) (ex ∙ sym ey) in
            (same, (append-injective mark mark a b refl rest).1)
      ]
    ]

module _ {W : Type 0} (os : Os W) (st : IsStream os) (prompt : IsPrompt st) where
  open st use {incoming}

  -- `receiveStartBytes`, when the start bytes are to come after some bytes without them: it returns 0 and
  -- what follows them is still to come.
  pub receive_start_bytes-IsPrompt :
      (fuel : ℕ) (mark noise rest : List ℕ) (s : Socket) (w : W)
      → IsReady s
      → 0 < length mark
      → s.keep_alive_ms + length (to_come os st s w) < fuel
      → to_come os st s w ≡ noise ++ (mark ++ rest)
      → NoneIn mark (noise ++ (mark ++ rest)) 0 (length noise)
      → (s' : Socket) × (w' : W) × (receive_start_bytes os fuel mark s w ≡ done (0, s', w'))
        × (s'.data_buf ≡ mark)
        × (to_come os st s' w' ≡ rest)
        × Received s s'
  receive_start_bytes-IsPrompt fuel mark noise rest s w ready some_mark hf here none =
      let (ret, s', w', run, end, received) =
        receive_start_bytes_total os st mark fuel s w ready some_mark hf in
      elim end [
        | inl (code, found) ↦
            let (same, after) =
              first_occurrence mark found.skipped (to_come os st s' w') noise rest
                (to_come os st s w) found.parts (sym here) found.earliest
                (subst (λ t. NoneIn mark t 0 (length noise)) (sym here) none) in
            (s', w', run ∙ ap (λ r. done (r, s', w')) code, found.holds, after, received)
        | inr (code, missing, ended) ↦
            let all : s'.data_buf ≡ noise ++ (mark ++ rest) =
              sym (append-nil s'.data_buf)
              ∙ ap (λ t. s'.data_buf ++ t) (sym (ended prompt))
              ∙ missing.parts
              ∙ here in
            let miss : occurs_at mark s'.data_buf (length noise) ≡ false =
              missing.nowhere (length noise) (
                omega (
                  arith,
                  ap length all,
                  length-append noise (mark ++ rest),
                  length-append mark rest,
                )) in
            absurd (
              cc
                (miss, ap (λ t. occurs_at mark t (length noise)) all, occurs_after mark noise rest))
      ]

  -- `receiveStopBytes`, when the stop bytes are the next to come: it returns 0, and what follows them is
  -- still to come.
  pub receive_stop_bytes-IsPrompt :
      (fuel : ℕ) (mark rest : List ℕ) (s : Socket) (w : W)
      → IsReady s
      → 0 < length mark
      → s.keep_alive_ms + length (to_come os st s w) < fuel
      → to_come os st s w ≡ mark ++ rest
      → (s' : Socket) × (w' : W) × (receive_stop_bytes os fuel mark s w ≡ done (0, s', w'))
        × (s'.data_buf ≡ mark)
        × (to_come os st s' w' ≡ rest)
        × Received s s'
  receive_stop_bytes-IsPrompt fuel mark rest s w ready some_mark hf here =
      let (ret, s', w', run, parts, end, received) =
        receive_stop_bytes_total os st fuel mark s w ready some_mark hf in
      elim end [
        | inl (code, same) ↦ (
          s',
          w',
          run ∙ ap (λ r. done (r, s', w')) code,
          same,
          (append-injective s'.data_buf mark (to_come os st s' w') rest (ap length same)
              (parts ∙ here)).1,
          received,
        )
        | inr (inl (code, fits, other)) ↦ absurd (
            other (
              sym (
                take-drop-append 0 (length mark) s'.data_buf (to_come os st s' w')
                  (omega (arith, fits)))
              ∙ ap (take (length mark)) (parts ∙ here)
              ∙ take_front mark rest))
        | inr (inr (code, short, ended)) ↦ absurd (
            omega (
              arith,
              ap length (parts ∙ here),
              length-append s'.data_buf (to_come os st s' w'),
              length-append mark rest,
              ap length (ended prompt),
            ))
      ]

  -- `receiveUntillStopBytes`, when the stop bytes are to come after some bytes without them: it returns 0
  -- with all of these, and what follows is still to come.
  pub receive_untill_stop_bytes-IsPrompt :
      (fuel : ℕ) (mark before rest : List ℕ) (s : Socket) (w : W)
      → IsReady s
      → 0 < length mark
      → s.keep_alive_ms + length (to_come os st s w) < fuel
      → to_come os st s w ≡ before ++ (mark ++ rest)
      → NoneIn mark (before ++ (mark ++ rest)) 0 (length before)
      → (s' : Socket) × (w' : W) × (receive_untill_stop_bytes os fuel mark s w ≡ done (0, s', w'))
        × (s'.data_buf ≡ before ++ mark)
        × (to_come os st s' w' ≡ rest)
        × Received s s'
  receive_untill_stop_bytes-IsPrompt fuel mark before rest s w ready some_mark hf here none =
      elim (receive_untill_stop_bytes_total os st mark fuel s w ready some_mark hf) [
        | inl (s', w', run, end, received) ↦
            let (same, after) =
              first_occurrence mark end.before (to_come os st s' w') before rest (to_come os st s w)
                (sym (append_assoc end.before mark (to_come os st s' w'))
                  ∙ ap (λ t. t ++ to_come os st s' w') (sym end.holds)
                  ∙ end.parts)
                (sym here) end.earliest
                (subst (λ t. NoneIn mark t 0 (length before)) (sym here) none) in
            (s', w', run, end.holds ∙ ap (λ t. t ++ mark) same, after, received)
        | inr (inl (s', w', run, parts, short, received, ended)) ↦ absurd (
            omega (
              arith,
              ap length (parts ∙ here),
              length-append s'.data_buf (to_come os st s' w'),
              length-append before (mark ++ rest),
              length-append mark rest,
              ap length (ended prompt),
            ))
        | inr (inr (run, missed, ended)) ↦
            let all : missed.got ≡ before ++ (mark ++ rest) =
              sym (append-nil missed.got)
              ∙ ap (λ t. missed.got ++ t) (sym (ended prompt))
              ∙ missed.parts
              ∙ here in
            let miss : occurs_at mark missed.got (length before) ≡ false =
              missed.nowhere (length before) (
                omega (
                  arith,
                  ap length all,
                  length-append before (mark ++ rest),
                  length-append mark rest,
                )) in
            absurd (
              cc (
                miss,
                ap (λ t. occurs_at mark t (length before)) all,
                occurs_after mark before rest,
              ))
      ]
