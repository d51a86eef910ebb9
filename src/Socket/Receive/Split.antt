-- ===== src/Socket/Receive/Split.antt =====
-- What `receiveData` hands over, and what it keeps for the next call.
use synap_tcp.Base.{
  ℕ, ◌+◌, ◌≤◌, ◌<◌, ◌≡◌, refl, ap, ◌∙◌, ◌⊎◌, inl, inr, Bool, false, not, ◌&&◌, List, [], ◌++◌,
  append_assoc, append-nil, done, arith, ltb, ◌==◌, Bool-cases, length, take, drop,
  take-append-drop, length-take_le, length_zero,
}
use synap_tcp.Socket.{Socket}
use synap_tcp.Socket.Os.{Os, IsStream}
use synap_tcp.Socket.Receive.{
  finished, finish_receive, start_buffer, push_chunk, split_at, receive_data,
}
use synap_tcp.Socket.Receive.Wait.{relock}
use synap_tcp.Socket.Receive.Total.{IsReady, receive_data_total}

-- How a call that found an open socket ends: with bytes, cut at the requested size unless that was
-- not asked for, or with none.
abbrev pub ReceiveEnd : ℕ → Bool → ℕ → Socket → Type 0
ReceiveEnd sz dont_split ret s =
    ((ret ≡ 0)
      × (0 < length s.data_buf)
      × (dont_split ≡ false → 0 < sz → length s.data_buf ≤ sz)
      × (0 < length s.remaining_data → (dont_split ≡ false) × (length s.data_buf ≡ sz)))
    ⊎ ((ret ≡ 2) × (s.data_buf ≡ []) × (s.remaining_data ≡ []))

abbrev handed : Socket → List ℕ → List ℕ → Socket
handed s front back = record s { mtx = false; data_buf = front; remaining_data = back }

finish_receive_lem :
    {W : Type 0} (sz : ℕ) (dont_split : Bool) (s : Socket) (w : W)
    → s.remaining_data ≡ []
    → (ret : ℕ) × (front back : List ℕ) × (finish_receive sz dont_split finished s w
        ≡ (ret, handed s front back, w))
      × (front ++ back ≡ s.data_buf)
      × ReceiveEnd sz dont_split ret (handed s front back)
unfolding finish_receive split_at
finish_receive_lem sz dont_split s w none_left = elim (Bool-cases (length s.data_buf == 0)) [
  | inl empty ↦ (
    2,
    s.data_buf,
    s.remaining_data,
    rw empty refl,
    ground (arith, append-nil s.data_buf),
    inr (refl, length_zero s.data_buf (ground arith), none_left),
  )
  | inr some_bytes ↦
      elim (Bool-cases (not dont_split && (ltb 0 sz && ltb sz (length s.data_buf)))) [
        | inl cut ↦
            let fits : sz ≤ length s.data_buf = ground arith in
            let taken : length (take sz s.data_buf) ≡ sz = length-take_le sz s.data_buf fits in
            (
              0,
              take sz s.data_buf,
              drop sz s.data_buf,
              rw (some_bytes, cut) refl,
              take-append-drop sz s.data_buf,
              inl (
                refl,
                ground (arith, taken),
                (λ _ _. omega (arith, taken)),
                (λ _. (ground arith, taken)),
              ),
            )
        | inr whole ↦ (
          0,
          s.data_buf,
          s.remaining_data,
          rw (some_bytes, whole) refl,
          ground (arith, append-nil s.data_buf),
          inl (refl, ground arith, (λ p q. ground arith), (λ h. absurd (ground arith))),
        )
      ]
]

module _ {W : Type 0} (os : Os W) (st : IsStream os) where
  open st use {incoming}

  -- `receiveData` on a socket that is open and free, over any stream, with fuel for the interval
  -- and each byte of the stream, returns. Nothing of the stream is lost, doubled or reordered: the
  -- data, the remaining data and the rest of the stream are the old remaining data and the old
  -- stream. Code 0 comes with at least one byte, and with at most `sz` unless splitting is off or
  -- `sz` is 0; code 2 with none. The socket stays open and free.
  pub receive_data_lem :
      (fuel sz : ℕ) (dont_split : Bool) (s : Socket) (w : W)
      → IsReady s
      → s.keep_alive_ms + length (incoming w) < fuel
      → (ret : ℕ) × (s' : Socket) × (w' : W) × (receive_data os fuel sz dont_split s w
          ≡ done (ret, s', w'))
        × (s'.data_buf ++ s'.remaining_data ++ incoming w' ≡ s.remaining_data ++ incoming w)
        × ReceiveEnd sz dont_split ret s'
        × IsReady s'
  unfolding push_chunk
  receive_data_lem fuel sz dont_split s w ready hf =
      let (bytes, w', run, front) = receive_data_total os st fuel sz dont_split s w ready hf in
      let (ret, front_part, back, ended, eq, end) =
        finish_receive_lem sz dont_split (relock (push_chunk (start_buffer s) bytes)) w' refl in
      (
        ret,
        handed s front_part back,
        w',
        run ∙ ap done ended,
        ap (λ d. d ++ incoming w') eq
            ∙ append_assoc s.remaining_data bytes (incoming w')
            ∙ ap (◌++◌ s.remaining_data) front,
        end,
        (refl, ready.1, ready.2),
      )
