-- ===== src/Socket/Search/Start.antt =====
-- `receiveStartBytes` skips to the first occurrence of the start bytes.
use synap_tcp.Base.{
  ℕ, ◌+◌, ◌≤◌, ◌<◌, ◌≡◌, refl, sym, ap, ◌∙◌, ◌⊎◌, inl, inr, false, List, [], ◌++◌, done, arith,
  length, take, drop, length-take_le, take-take-drop,
}
use synap_tcp.Socket.{Socket}
use synap_tcp.Socket.Os.{Os, IsStream}
use synap_tcp.Socket.Receive.Total.{Received, IsReady}
use synap_tcp.Socket.Receive.Prompt.{IsPrompt}
use synap_tcp.Socket.Collect.Input.{to_come}
use synap_tcp.Socket.Collect.Stop.{same_bytes-eq}
use synap_tcp.Socket.Search.{Round, init_round, receive_start_bytes}
use synap_tcp.Socket.Search.Find.{occurs_at, NoneIn, take-drop-append, rest_of, regroup}
use synap_tcp.Socket.Search.Rounds.{IsFound, IsSearching-init, search_loop_total}

module _ {W : Type 0} (os : Os W) (st : IsStream os) (mark : List ℕ) where
  open st use {incoming}

  -- The start bytes at hand, and what stood before them gone.
  pub record Started (s : Socket) (w : W) (s' : Socket) (w' : W) : Type 0 where
    pub skipped : List ℕ
    pub holds : s'.data_buf ≡ mark
    pub parts : skipped ++ (mark ++ to_come os st s' w') ≡ to_come os st s w
    pub earliest : NoneIn mark (to_come os st s w) 0 (length skipped)

  -- A timeout: all that came is handed over, and holds no start bytes.
  pub record NotStarted (s : Socket) (w : W) (s' : Socket) (w' : W) : Type 0 where
    pub parts : s'.data_buf ++ to_come os st s' w' ≡ to_come os st s w
    pub nowhere :
        (k : ℕ) → k + length mark ≤ length s'.data_buf → occurs_at mark s'.data_buf k ≡ false

  abbrev started_state : Socket → Round → Socket
  started_state s r = record s {
    mtx = false;
    data_buf = take (length mark) (drop r.i r.tmp);
    remaining_data = drop (r.i + length mark) r.tmp;
  }

  started :
      (s : Socket) (w : W) (r : Round) (w' : W)
      → IsFound mark r
      → r.tmp ++ incoming w' ≡ to_come os st s w
      → Started s w (started_state s r) w'
  started s w r w' f eq = record {
    skipped = take r.i r.tmp;
    holds = same_bytes-eq _ _ f.here;
    parts =
        regroup (take r.i r.tmp) mark rest (incoming w') ∙ ap (λ t. t ++ incoming w') whole ∙ eq;
    earliest = λ k ge lt.
        first k ge (omega (arith, f.fits, length-take_le r.i r.tmp (omega (arith, f.fits))));
  }
    where
      rest : List ℕ
      rest = drop (r.i + length mark) r.tmp

      whole : take r.i r.tmp ++ (mark ++ rest) ≡ r.tmp
      whole =
          ap (λ m. take r.i r.tmp ++ (m ++ rest)) (sym (same_bytes-eq _ mark f.here))
          ∙ take-take-drop r.i (length mark) r.tmp

      first : NoneIn mark (to_come os st s w) 0 r.i
      first k ge lt =
          rw (← eq, take-drop-append k (length mark) r.tmp (incoming w') (omega (arith, f.fits)))
            (f.before k ge lt)

  pub receive_start_bytes_total :
      (fuel : ℕ) (s : Socket) (w : W)
      → IsReady s
      → 0 < length mark
      → s.keep_alive_ms + length (to_come os st s w) < fuel
      → (ret : ℕ) × (s' : Socket) × (w' : W) × (receive_start_bytes os fuel mark s w
          ≡ done (ret, s', w'))
        × (((ret ≡ 0) × Started s w s' w')
            ⊎ ((ret ≡ 2) × NotStarted s w s' w' × (IsPrompt st → to_come os st s' w' ≡ [])))
        × Received s s'
  unfolding receive_start_bytes
  receive_start_bytes_total fuel s w ready some_mark hf =
      let (r, last, w', run, eq, is_last, end) =
        search_loop_total os st mark fuel init_round s w ready (IsSearching-init mark some_mark)
          hf in
      elim end [
        | inl f ↦ (
          0,
          started_state s r,
          w',
          rw (run, f.is_found) (rw (rest_of (r.i + length mark) r.tmp, f.code) refl),
          inl (refl, started s w r w' f eq),
          ((refl, ready.1, ready.2), refl),
        )
        | inr (v, code, _, ended) ↦ (
          2,
          record s { mtx = false; data_buf = r.tmp; remaining_data = [] },
          w',
          rw (run, v.unfound, code) refl,
          inr (refl, record { parts = eq; nowhere = v.nowhere }, ended),
          ((refl, ready.1, ready.2), refl),
        )
      ]

  -- `receiveStartBytes` for at least one start byte, on a socket that is open and free, over any
  -- stream, with enough fuel, returns: 0 with the start bytes at their first occurrence in what
  -- was to come, what comes after them still to come; or 2 with all that came, and the start bytes
  -- occur nowhere in that. The socket stays open and free, and nothing of it changes but its
  -- buffers.
  pub receive_start_bytes_lem :
      (fuel : ℕ) (s : Socket) (w : W)
      → IsReady s
      → 0 < length mark
      → s.keep_alive_ms + length (to_come os st s w) < fuel
      → (ret : ℕ) × (s' : Socket) × (w' : W) × (receive_start_bytes os fuel mark s w
          ≡ done (ret, s', w'))
        × (((ret ≡ 0) × Started s w s' w') ⊎ ((ret ≡ 2) × NotStarted s w s' w'))
        × Received s s'
  receive_start_bytes_lem fuel s w ready some_mark hf =
      let (ret, s', w', run, end, received) =
        receive_start_bytes_total fuel s w ready some_mark hf in
      (
        ret,
        s',
        w',
        run,
        elim end [ inl found ↦ inl found | inr (code, missing, _) ↦ inr (code, missing) ],
        received,
      )
