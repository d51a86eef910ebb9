-- ===== src/SynapSock/Framed/Fields/Open.antt =====
-- Fields that end at the stop bytes of the next frame.
use synap_tcp.Base.{
  ℕ, ◌+◌, ◌-◌, ◌<◌, ◌≡◌, refl, sym, ap, ◌∙◌, subst, ◌⊎◌, inl, inr, true, false, some, List, ◌++◌,
  done, out_of_bounds, arith, ltb, Bool-cases, Option-cases, length, take, length-append,
}
use synap_tcp.Socket.{Socket}
use synap_tcp.Socket.Os.{Os, IsStream}
use synap_tcp.Socket.Receive.Total.{IsReady, Received}
use synap_tcp.Socket.Collect.Input.{to_come}
use synap_tcp.Socket.Search.{receive_untill_stop_bytes}
use synap_tcp.Socket.Search.Until.{receive_untill_stop_bytes_lem}
use synap_tcp.Socket.Buffer.{get_buffer_as_vector}
use synap_tcp.Frames.{Frames}
use synap_tcp.SynapSock.{SynapSock}
use synap_tcp.SynapSock.Framed.{Callback, with_sock, is_stop, is_field, receive_open, pass_stop}
use synap_tcp.SynapSock.Framed.Fields.{
  IsQuiet, Field.closed, FrameEnd, FrameEnd.taken, FrameEnd.timed_out, FrameEnd.faulted, ahead,
  Quiet, call_function_total,
}

module _ {W : Type 0} (os : Os W) (st : IsStream os) (fr : Frames W) (call : Callback W)
    (quiet : IsQuiet st fr call) where
  open st use {incoming}

  pass_stop_total :
      (f : ℕ) (y : SynapSock) (w : W)
      → (pass_stop os fr call f y w ≡ out_of_bounds)
        ⊎ ((g : ℕ) × (y' : SynapSock) × (w' : W) × (pass_stop os fr call f y w
              ≡ done (0, g, y', w'))
            × Quiet os st fr call quiet y w y' w'
            × ((v : W) × (fr.get_next f v ≡ some g)))
  unfolding pass_stop
  pass_stop_total f y w =
      let (y1, w1, run, (sock, format, rest)) =
        call_function_total os st fr call quiet (fr.get_post_execute_function f w) f
          (fr.get_post_execute_function_param f w) y w in
      elim (Option-cases (fr.get_next f w1)) [
        | inl last ↦ inl (rw (run, last) refl)
        | inr (g, next) ↦
            let (y2, w2, run2, (sock2, format2, rest2)) =
              call_function_total os st fr call quiet (fr.get_execute_function g w1) g
                (fr.get_execute_function_param g w1) y1 w1 in
            inr (
              g,
              y2,
              w2,
              rw (run, next) (rw run2 refl),
              (sock2 ∙ sock, format2 ∙ format, rest2 ∙ rest),
              (w1, next),
            )
      ]

  -- The data of an open field are there with the stop bytes after them.
  open_field-FrameEnd :
      (fuel f g : ℕ) (y : SynapSock) (w : W) (s' : Socket) (w' : W) (before : List ℕ)
      → is_field os fr call f w ≡ true
      → fr.get_size f w ≡ 0
      → fr.get_next f w ≡ some g
      → 0 < length (fr.get_reference g w)
      → receive_untill_stop_bytes os fuel (fr.get_reference g w) y.sock w ≡ done (0, s', w')
      → s'.data_buf ≡ before ++ fr.get_reference g w
      → s'.data_buf ++ to_come os st s' w' ≡ ahead os st fr call quiet y w
      → Received y.sock s'
      → FrameEnd os st fr call quiet f y w (receive_open os fr call fuel f g y w)
  unfolding receive_open get_buffer_as_vector
  open_field-FrameEnd fuel f g y w s' w' before field no_size next some_stop run holds parts
        received =
      let bytes : List ℕ = s'.data_buf in
      let unlocked : Socket = record s' { mtx = false } in
      let kept : W = fr.set_data f (take (length bytes - fr.get_size g w') bytes) w' in
      let mark : List ℕ = fr.get_reference g w in
      let some_bytes : ltb 0 (length bytes) ≡ true =
        ground (arith, ap length holds, length-append before mark) in
      elim (Bool-cases (ltb (length bytes) (fr.get_size g w'))) [
        | inl too_long ↦ faulted (rw (run, received.0.0, some_bytes, too_long) refl)
        | inr fits ↦
            let step : receive_open os fr call fuel f g y w
                ≡ pass_stop os fr call f (with_sock y unlocked) kept =
              rw (run, received.0.0, some_bytes, fits) refl in
            elim (pass_stop_total f (with_sock y unlocked) kept) [
              | inl fault ↦ faulted (step ∙ fault)
              | inr (h, y2, w2, pass, (sock, format, rest), passed) ↦
                  taken (closed before mark) h y2 w2 (step ∙ pass)
                    (
                      field,
                      no_size,
                      g,
                      next,
                      refl,
                      with_sock y unlocked,
                      w',
                      step
                          ∙ ap
                              (λ b.
                                pass_stop os fr call f (with_sock y unlocked)
                                  (fr.set_data f (take (length b - fr.get_size g w') b) w'))
                              holds,
                    )
                    (ap (λ d. (before ++ mark) ++ d)
                        (ap (λ (x : Socket). x.remaining_data ++ incoming w2) sock
                          ∙ ap (λ d. s'.remaining_data ++ d)
                              (rest
                                ∙ quiet.set_data_incoming f
                                    (take (length bytes - fr.get_size g w') bytes) w'))
                      ∙ ap (λ b. b ++ to_come os st s' w') (sym holds)
                      ∙ parts)
                    (
                      subst (λ x. Received y.sock x) (sym sock)
                          (
                            (refl, received.0.1, received.0.2),
                            ap (λ (x : Socket). record x { mtx = false }) received.1,
                          ),
                      format,
                    )
                    (inr passed)
            ]
      ]

  pub receive_open-FrameEnd :
      (fuel f g : ℕ) (y : SynapSock) (w : W)
      → is_field os fr call f w ≡ true
      → fr.get_size f w ≡ 0
      → fr.get_next f w ≡ some g
      → is_stop os fr call g w ≡ true
      → IsReady y.sock
      → y.sock.keep_alive_ms + length (ahead os st fr call quiet y w) < fuel
      → FrameEnd os st fr call quiet f y w (receive_open os fr call fuel f g y w)
  unfolding receive_open get_buffer_as_vector
  receive_open-FrameEnd fuel f g y w field no_size next stop ready hf =
      let mark : List ℕ = fr.get_reference g w in
      elim (receive_untill_stop_bytes_lem os st mark fuel y.sock w ready (ground arith) hf) [
        | inl (s', w', run, end, received) ↦
            open_field-FrameEnd fuel f g y w s' w' end.before field no_size next (ground arith) run
              end.holds end.parts received
        | inr (inl (s', w', run, parts, short, received)) ↦
            timed_out (with_sock y s') w' (rw run refl) parts (received, refl)
        | inr (inr (run, missed)) ↦ faulted (rw run refl)
      ]
