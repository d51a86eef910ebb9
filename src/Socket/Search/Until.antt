-- ===== src/Socket/Search/Until.antt =====
-- `receiveUntillStopBytes` hands over everything up to the first stop bytes.
use synap_tcp.Base.{
  ℕ, ◌+◌, ◌≤◌, ◌<◌, ◌≡◌, refl, sym, ap, ◌∙◌, ◌⊎◌, inl, inr, false, List, [], ◌++◌, append_assoc,
  Outcome, done, out_of_bounds, arith, ltb, ltb→lt, ◌==◌, Bool-cases, length, take, drop, drop_all,
  take_all, length-take_le, take-append-drop, take-add,
}
use synap_tcp.Socket.{Socket}
use synap_tcp.Socket.Os.{Os, IsStream}
use synap_tcp.Socket.Receive.Total.{Received, IsReady, with_input}
use synap_tcp.Socket.Receive.Prompt.{IsPrompt}
use synap_tcp.Socket.Collect.Input.{to_come}
use synap_tcp.Socket.Collect.Stop.{same_bytes-eq}
use synap_tcp.Socket.Collect.Exact.{IsLast}
use synap_tcp.Socket.Search.{Round, init_round, cut_until, receive_untill_stop_bytes}
use synap_tcp.Socket.Search.Find.{occurs_at, NoneIn, take-drop-append}
use synap_tcp.Socket.Search.Rounds.{IsFound, IsSearching-init, search_loop_total}

abbrev cut_state : Socket → ℕ → List ℕ → Socket
cut_state s size tmp = record s {
  mtx = false;
  data_buf = take size tmp;
  remaining_data = drop size tmp;
}

cut_until_fits :
    {W : Type 0} (size : ℕ) (r : Round) (last : List ℕ) (s : Socket) (w : W)
    → size ≤ length r.tmp
    → r.ret ≡ 0
    → IsLast last r.tmp
    → cut_until size r (with_input s last) w ≡ done (0, cut_state s size r.tmp, w)
unfolding cut_until
cut_until_fits size r last s w fits code same = elim (Bool-cases (length last == length r.tmp)) [
  | inl e ↦
      rw (same (ground arith), code) (ground (arith, take_all size r.tmp, drop_all size r.tmp))
  | inr e ↦ ground (arith, drop_all size r.tmp)
]

cut_until_faults :
    {W : Type 0} (size : ℕ) (r : Round) (s : Socket) (w : W)
    → size ≡ length r.tmp + 1
    → 0 < length r.tmp
    → cut_until size r (with_input s []) w ≡ out_of_bounds
unfolding cut_until
cut_until_faults size r s w past some_bytes = ground arith

module _ {W : Type 0} (os : Os W) (st : IsStream os) (mark : List ℕ) where
  open st use {incoming}

  -- `s'` holds everything up to the first stop bytes.
  pub record Stopped (s : Socket) (w : W) (s' : Socket) (w' : W) : Type 0 where
    pub before : List ℕ
    pub holds : s'.data_buf ≡ before ++ mark
    pub parts : s'.data_buf ++ to_come os st s' w' ≡ to_come os st s w
    pub earliest : NoneIn mark (to_come os st s w) 0 (length before)

  -- Bytes enough for the mark have come before the timeout, and do not hold it.
  pub record Missed (s : Socket) (w : W) : Type 0 where
    pub got : List ℕ
    pub rest : List ℕ
    pub parts : got ++ rest ≡ to_come os st s w
    pub long : length mark ≤ length got
    pub nowhere : (k : ℕ) → k + length mark ≤ length got → occurs_at mark got k ≡ false

  abbrev pub UntilEnd : Socket → W → Outcome (ℕ × Socket × W) → Type 0
  UntilEnd s w o =
      ((s' : Socket) × (w' : W) × (o ≡ done (0, s', w')) × Stopped s w s' w' × Received s s')
      ⊎ (((s' : Socket) × (w' : W) × (o ≡ done (2, s', w'))
            × (s'.data_buf ++ to_come os st s' w' ≡ to_come os st s w)
            × (length s'.data_buf < length mark)
            × Received s s')
          ⊎ ((o ≡ out_of_bounds) × Missed s w))

  stopped :
      (s : Socket) (w : W) (r : Round) (w' : W)
      → IsFound mark r
      → r.tmp ++ incoming w' ≡ to_come os st s w
      → Stopped s w (cut_state s (r.i + length mark) r.tmp) w'
  stopped s w r w' f eq = record {
    before = take r.i r.tmp;
    holds =
        take-add r.i (length mark) r.tmp ∙ ap (◌++◌ (take r.i r.tmp)) (same_bytes-eq _ mark f.here);
    parts =
        sym (append_assoc (take size r.tmp) (drop size r.tmp) (incoming w'))
        ∙ ap (λ d. d ++ incoming w') (take-append-drop size r.tmp)
        ∙ eq;
    earliest = λ k ge lt.
        first k ge (omega (arith, f.fits, length-take_le r.i r.tmp (omega (arith, f.fits))));
  }
    where
      size : ℕ
      size = r.i + length mark

      first : NoneIn mark (to_come os st s w) 0 r.i
      first k ge lt =
          rw (← eq, take-drop-append k (length mark) r.tmp (incoming w') (omega (arith, f.fits)))
            (f.before k ge lt)

  -- The same, with what a prompt system adds.
  abbrev pub UntilTotal : Socket → W → Outcome (ℕ × Socket × W) → Type 0
  UntilTotal s w o =
      ((s' : Socket) × (w' : W) × (o ≡ done (0, s', w')) × Stopped s w s' w' × Received s s')
      ⊎ (((s' : Socket) × (w' : W) × (o ≡ done (2, s', w'))
            × (s'.data_buf ++ to_come os st s' w' ≡ to_come os st s w)
            × (length s'.data_buf < length mark)
            × Received s s'
            × (IsPrompt st → to_come os st s' w' ≡ []))
          ⊎ ((o ≡ out_of_bounds) × (missed : Missed s w) × (IsPrompt st → missed.rest ≡ [])))

  pub receive_untill_stop_bytes_total :
      (fuel : ℕ) (s : Socket) (w : W)
      → IsReady s
      → 0 < length mark
      → s.keep_alive_ms + length (to_come os st s w) < fuel
      → UntilTotal s w (receive_untill_stop_bytes os fuel mark s w)
  unfolding receive_untill_stop_bytes
  receive_untill_stop_bytes_total fuel s w ready some_mark hf =
      let (r, last, w', run, eq, is_last, end) =
        search_loop_total os st mark fuel init_round s w ready (IsSearching-init mark some_mark)
          hf in
      elim (Bool-cases (ltb (length r.tmp) (length mark))) [
        | inl short ↦ inr (
            inl (
              record s { mtx = false; data_buf = r.tmp; remaining_data = [] },
              w',
              rw (run, short) refl,
              eq,
              ltb→lt (length r.tmp) (length mark) short,
              ((refl, ready.1, ready.2), refl),
              elim end [
                | inl f ↦ absurd (omega (arith, f.fits, ltb→lt (length r.tmp) (length mark) short))
                | inr (_, _, _, ended) ↦ ended
              ],
            ))
        | inr long ↦ elim end [
          | inl f ↦ inl (
            cut_state s (r.i + length mark) r.tmp,
            w',
            rw (run, long) (cut_until_fits (r.i + length mark) r last s w' f.fits f.code is_last),
            stopped s w r w' f eq,
            ((refl, ready.1, ready.2), refl),
          )
          | inr (v, code, nothing, ended) ↦ inr (
              inr (
                rw (run, long, nothing)
                    (cut_until_faults (r.i + length mark) r s w' (v.passed (ground arith))
                      (ground arith)),
                record {
                  got = r.tmp;
                  rest = incoming w';
                  parts = eq;
                  long = ground arith;
                  nowhere = v.nowhere;
                },
                ended,
              ))
        ]
      ]

  -- `receiveUntillStopBytes` for at least one stop byte, on a socket that is open and free, over
  -- any stream, with enough fuel: it returns 0 with everything up to the first stop bytes, or 2
  -- with fewer bytes than the stop bytes have; the bytes handed over and what is still to come are
  -- what was to come, and nothing of the socket changes but its buffers. Otherwise the wait timed
  -- out after that many bytes or more without the stop bytes, and the method reads past the end of
  -- the vector.
  pub receive_untill_stop_bytes_lem :
      (fuel : ℕ) (s : Socket) (w : W)
      → IsReady s
      → 0 < length mark
      → s.keep_alive_ms + length (to_come os st s w) < fuel
      → UntilEnd s w (receive_untill_stop_bytes os fuel mark s w)
  receive_untill_stop_bytes_lem fuel s w ready some_mark hf =
      elim (receive_untill_stop_bytes_total fuel s w ready some_mark hf) [
        | inl found ↦ inl found
        | inr (inl (s', w', run, parts, short, received, _)) ↦
            inr (inl (s', w', run, parts, short, received))
        | inr (inr (run, missed, _)) ↦ inr (inr (run, missed))
      ]
