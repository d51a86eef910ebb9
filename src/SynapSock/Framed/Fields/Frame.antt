-- ===== src/SynapSock/Framed/Fields/Frame.antt =====
-- The reception of a frame of any type.
use synap_tcp.Base.{ℕ, ◌+◌, ◌*◌, ◌<◌, refl, inl, inr, arith, ltb, Bool-cases, Option-cases, length}
use synap_tcp.Socket.Os.{Os, IsStream}
use synap_tcp.Socket.Receive.Total.{IsReady}
use synap_tcp.Frames.{Frames}
use synap_tcp.SynapSock.{SynapSock}
use synap_tcp.SynapSock.Framed.{Callback, is_start, is_stop, is_field, receive_frame}
use synap_tcp.SynapSock.Framed.Fields.{IsQuiet, FrameEnd, FrameEnd.unknown, ahead}
use synap_tcp.SynapSock.Framed.Fields.Known.{
  receive_start-FrameEnd, receive_stop-FrameEnd, receive_sized-FrameEnd,
}
use synap_tcp.SynapSock.Framed.Fields.Open.{receive_open-FrameEnd}

module _ {W : Type 0} (os : Os W) (st : IsStream os) (fr : Frames W) (call : Callback W)
    (quiet : IsQuiet st fr call) where
  open st use {incoming}

  pub receive_frame-FrameEnd :
      (fuel f : ℕ) (y : SynapSock) (w : W)
      → IsReady y.sock
      → y.sock.keep_alive_ms + 4 * length (ahead os st fr call quiet y w) < fuel
      → FrameEnd os st fr call quiet f y w (receive_frame os fr call fuel f y w)
  unfolding receive_frame
  receive_frame-FrameEnd fuel f y w ready hf = elim (Bool-cases (is_start os fr call f w)) [
    | inl start ↦
        rw start (receive_start-FrameEnd os st fr call quiet fuel f y w start ready (omega arith))
    | inr not_start ↦ elim (Bool-cases (is_stop os fr call f w)) [
      | inl stop ↦
          rw (not_start, stop)
            (receive_stop-FrameEnd os st fr call quiet fuel f y w stop ready (omega arith))
      | inr not_stop ↦ elim (Bool-cases (is_field os fr call f w)) [
        | inr no_field ↦ unknown (rw (not_start, not_stop, no_field) refl)
        | inl field ↦ elim (Bool-cases (ltb 0 (fr.get_size f w))) [
          | inl sized ↦
              rw (not_start, not_stop, field, sized)
                (receive_sized-FrameEnd os st fr call quiet fuel f y w field (ground arith) ready
                  hf)
          | inr open_size ↦ elim (Option-cases (fr.get_next f w)) [
            | inl last ↦ unknown (rw (not_start, not_stop, field, open_size, last) refl)
            | inr (g, next) ↦ elim (Bool-cases (is_stop os fr call g w)) [
              | inl closes ↦
                  rw (not_start, not_stop, field, open_size, next, closes)
                    (receive_open-FrameEnd os st fr call quiet fuel f g y w field (ground arith)
                      next closes ready (omega arith))
              | inr other ↦ unknown (rw (not_start, not_stop, field, open_size, next, other) refl)
            ]
          ]
        ]
      ]
    ]
  ]
