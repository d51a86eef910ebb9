-- ===== src/SynapSock/Framed/Short.antt =====
-- `receiveFramedData` of class SynapSock (src/synapsock.cpp) when the stream ends within a sized field.
use synap_tcp.Base.{
  ℕ, suc, ◌+◌, ◌*◌, ◌<◌, ◌≡◌, refl, ap, ◌∙◌, inl, inr, true, false, none, some, List, ◌++◌, done,
  arith, ltb, length, length-append,
}
use synap_tcp.Socket.{Socket}
use synap_tcp.Socket.Os.{Os, IsStream}
use synap_tcp.Socket.Receive.Total.{IsReady}
use synap_tcp.Socket.Collect.Input.{to_come}
use synap_tcp.Socket.Collect.Exact.{receive_n_bytes_lem}
use synap_tcp.Frames.{Frames}
use synap_tcp.SynapSock.{SynapSock}
use synap_tcp.SynapSock.Framed.{
  Callback, with_sock, clear_data, is_start, is_stop, is_field, receive_sized, receive_frame,
  frame_loop, receive_framed_data,
}
use synap_tcp.SynapSock.Framed.Fields.{IsQuiet}
use synap_tcp.SynapSock.Framed.Ends.{framed_start, finish_whole, filled}

module _ {W : Type 0} (os : Os W) (st : IsStream os) (fr : Frames W) (call : Callback W)
    (quiet : IsQuiet st fr call) where
  -- A frame of data with a size, that is alone in its list and has no functions set.
  pub record IsLone (f : ℕ) : Type 0 where
    pub no_start : (w : W) → is_start os fr call f w ≡ false
    pub no_stop : (w : W) → is_stop os fr call f w ≡ false
    pub field : (w : W) → is_field os fr call f w ≡ true
    pub no_next : (w : W) → fr.get_next f w ≡ none
    pub no_execute : (w : W) → fr.get_execute_function f w ≡ none
    pub no_post_execute : (w : W) → fr.get_post_execute_function f w ≡ none

  receive_sized_short :
      (fuel f : ℕ) (y : SynapSock) (w : W)
      → length (to_come os st y.sock w) < fr.get_size f w
      → IsReady y.sock
      → y.sock.keep_alive_ms + 4 * length (to_come os st y.sock w) < fuel
      → (s' : Socket) × (w' : W) × (receive_sized os fr call fuel f y w
          ≡ done (0, f, with_sock y s', w'))
        × (s'.data_buf ++ to_come os st s' w' ≡ to_come os st y.sock w)
  unfolding receive_sized
  receive_sized_short fuel f y w short ready hf =
      let (ret, s', w', run, parts, end, received) =
        receive_n_bytes_lem os st fuel (fr.get_size f w) y.sock w ready hf in
      elim end [
        | inl (code, size) ↦
            absurd (omega (arith, ap length parts, length-append s'.data_buf (to_come os st s' w')))
        | inr (code, size) ↦ (s', w', rw (run, code) refl, parts)
      ]

  lone_loop :
      (rounds fuel f : ℕ) (y : SynapSock) (w : W) (s' : Socket) (w' : W)
      → IsLone f
      → ltb 0 (fr.get_size f w) ≡ true
      → y.is_format_valid ≡ true
      → receive_sized os fr call fuel f y w ≡ done (0, f, with_sock y s', w')
      → frame_loop os fr call (suc rounds) fuel (some f) y w
        ≡ done (0, none, clear_data (with_sock y s'), w')
  unfolding frame_loop receive_frame
  lone_loop rounds fuel f y w s' w' lone sized valid run =
      rw
        (
          lone.no_execute w,
          lone.no_start w,
          lone.no_stop w,
          lone.field w,
          sized,
          run,
          lone.no_post_execute w',
          lone.no_next w',
        )
        (rw valid refl)

  -- `receiveFramedData` on a ready socket, with enough fuel, where the format is one sized frame of data
  -- without functions and fewer bytes are to come than its size: it returns 0, the code for success.
  -- Some bytes are taken off the front of the stream, and the buffer has the data that the frame
  -- holds then.
  pub receive_framed_data-IsLone :
      (rounds fuel f : ℕ) (y : SynapSock) (w : W)
      → IsLone f
      → y.frame_format ≡ some f
      → length (to_come os st y.sock w) < fr.get_size f w
      → IsReady y.sock
      → y.sock.keep_alive_ms + 4 * length (to_come os st y.sock w) < fuel
      → (y' : SynapSock) × (w' : W) × (came : List ℕ) × (receive_framed_data os fr call
            (suc rounds)
            fuel
            y
            w
          ≡ done (0, y', w'))
        × (came ++ to_come os st y'.sock w' ≡ to_come os st y.sock w)
        × (y'.sock.data_buf ≡ fr.get_all_data f w')
  receive_framed_data-IsLone rounds fuel f y w lone format short ready hf =
      let y0 : SynapSock = record y { is_format_valid = true } in
      let (s', w', run, parts) = receive_sized_short fuel f y0 w short ready hf in
      let y1 : SynapSock = clear_data (with_sock y0 s') in
      (
        filled os st fr call quiet f y1 w',
        w',
        s'.data_buf,
        framed_start os st fr call quiet (suc rounds) fuel f y w format
            ∙ rw (lone_loop rounds fuel f y0 w s' w' lone (ground arith) refl run)
                (finish_whole os st fr call quiet (suc rounds) f y1 w' format),
        parts,
        refl,
      )
