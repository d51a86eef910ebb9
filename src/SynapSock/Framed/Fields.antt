-- ===== src/SynapSock/Framed/Fields.antt =====
-- What the reception of one frame takes from the stream.
pub mod Known
pub mod Open
pub mod Frame
use synap_tcp.Base.{
  ℕ, ◌+◌, ◌-◌, ◌*◌, ◌<◌, ◌≡◌, refl, sym, ap, ◌∙◌, subst, ◌⊎◌, inl, inr, true, false, Option, none,
  some, List, ◌++◌, append_assoc, done, out_of_bounds, arith, ltb, Bool-cases, Option-cases, length,
  take, length-append,
}
use synap_tcp.Socket.{Socket}
use synap_tcp.Socket.Os.{Os, IsStream}
use synap_tcp.Socket.Receive.Total.{IsReady, Received}
use synap_tcp.Socket.Collect.Input.{to_come}
use synap_tcp.Socket.Collect.Exact.{receive_n_bytes_lem}
use synap_tcp.Socket.Collect.Stop.{receive_stop_bytes_lem}
use synap_tcp.Socket.Search.{receive_untill_stop_bytes}
use synap_tcp.Socket.Search.Start.{receive_start_bytes_lem}
use synap_tcp.Socket.Search.Until.{receive_untill_stop_bytes_lem}
use synap_tcp.Socket.Buffer.{get_buffer_as_vector}
use synap_tcp.Frames.{Frames}
use synap_tcp.SynapSock.{SynapSock}
use synap_tcp.SynapSock.Framed.{
  Callback, with_sock, Step, is_start, is_stop, is_field, call_function, receive_start,
  receive_stop, receive_sized, receive_open, receive_frame, pass_stop,
}

-- The functions set for frames return, read nothing and leave the socket and the format alone; they may
-- change the frames and declare the data invalid. Storing data in a frame reads nothing either.
pub record IsQuiet {W : Type 0} {os : Os W} (st : IsStream os) (fr : Frames W) (call : Callback W)
    : Type 0 where
  pub call_returns :
      (fn f : ℕ) (param : Option ℕ) (y : SynapSock) (w : W)
      → (y' : SynapSock) × (w' : W) × (call fn f param y w ≡ done (y', w'))
        × (y'.sock ≡ y.sock)
        × (y'.frame_format ≡ y.frame_format)
        × (st.incoming w' ≡ st.incoming w)
  pub set_data_incoming :
      (f : ℕ) (bytes : List ℕ) (w : W) → st.incoming (fr.set_data f bytes w) ≡ st.incoming w

-- The bytes of the stream that a frame has used up: what was dropped before the start bytes and these; the
-- stop bytes; the data stored in a frame; the bytes of a sized frame for which too few came: these are
-- dropped, stored nowhere; the data stored in a frame with the stop bytes after it.
pub data Field : Type 0 where
  started : List ℕ → List ℕ → Field
  stopped : List ℕ → Field
  stored : List ℕ → Field
  dropped : List ℕ → Field
  closed : List ℕ → List ℕ → Field

abbrev pub wire : Field → List ℕ
wire (started skipped mark) = skipped ++ mark
wire (stopped mark) = mark
wire (stored bytes) = bytes
wire (dropped bytes) = bytes
wire (closed bytes mark) = bytes ++ mark

module _ {W : Type 0} (os : Os W) (st : IsStream os) (fr : Frames W) (call : Callback W)
    (quiet : IsQuiet st fr call) where
  open st use {incoming}

  -- How the field follows from the frame, in the state before it; the step that is left to do.
  abbrev pub Fits : Field → ℕ → W → Step os fr call → Type 0
  Fits (started skipped mark) f w o =
      (is_start os fr call f w ≡ true) × (mark ≡ fr.get_reference f w)
  Fits (stopped mark) f w o = (is_stop os fr call f w ≡ true) × (mark ≡ fr.get_reference f w)
  Fits (stored bytes) f w o =
      (is_field os fr call f w ≡ true)
      × (length bytes ≡ fr.get_size f w)
      × (y' : SynapSock) × (w' : W) × (o ≡ done (0, f, y', fr.set_data f bytes w'))
  Fits (dropped bytes) f w o = (is_field os fr call f w ≡ true) × (length bytes < fr.get_size f w)
  Fits (closed bytes mark) f w o =
      (is_field os fr call f w ≡ true)
      × (fr.get_size f w ≡ 0)
      × (g : ℕ) × (fr.get_next f w ≡ some g)
      × (mark ≡ fr.get_reference g w)
      × (y' : SynapSock) × (w' : W) × (o
          ≡ pass_stop os fr call f y'
              (fr.set_data f (take (length (bytes ++ mark) - fr.get_size g w') (bytes ++ mark)) w'))

  abbrev pub Kept : SynapSock → SynapSock → Type 0
  Kept y y' = Received y.sock y'.sock × (y'.frame_format ≡ y.frame_format)

  abbrev pub ahead : SynapSock → W → List ℕ
  ahead y w = to_come os st y.sock w

  -- The frame itself, or one that has been the next.
  abbrev pub At : ℕ → ℕ → Type 0
  At f g = (g ≡ f) ⊎ ((v : W) × (fr.get_next f v ≡ some g))

  -- How the reception of the frame `f` ends.
  pub data FrameEnd (f : ℕ) (y : SynapSock) (w : W) (o : Step os fr call) : Type 0 where
    taken :
        (field : Field) (g : ℕ) (y' : SynapSock) (w' : W)
        → o ≡ done (0, g, y', w')
        → Fits field f w o
        → wire field ++ ahead y' w' ≡ ahead y w
        → Kept y y'
        → At f g
        → FrameEnd f y w o
    timed_out :
        (y' : SynapSock) (w' : W)
        → o ≡ done (2, f, y', w')
        → y'.sock.data_buf ++ ahead y' w' ≡ ahead y w
        → Kept y y'
        → FrameEnd f y w o
    unknown : o ≡ done (4, f, y, w) → FrameEnd f y w o
    faulted : o ≡ out_of_bounds → FrameEnd f y w o

  -- What a function that is set for a frame leaves as it was.
  abbrev pub Quiet : SynapSock → W → SynapSock → W → Type 0
  Quiet y w y' w' =
      (y'.sock ≡ y.sock) × (y'.frame_format ≡ y.frame_format) × (incoming w' ≡ incoming w)

  pub call_function_total :
      (fn : Option ℕ) (f : ℕ) (param : Option ℕ) (y : SynapSock) (w : W)
      → (y' : SynapSock) × (w' : W) × (call_function os fr call fn f param y w ≡ done (y', w'))
        × Quiet y w y' w'
  call_function_total none f param y w = (y, w, refl, (refl, refl, refl))
  call_function_total (some fn) f param y w =
      let (y', w', run, sock, format, rest) = quiet.call_returns fn f param y w in
      (y', w', run, (sock, format, rest))
