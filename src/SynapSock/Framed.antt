-- ===== src/SynapSock/Framed.antt =====
-- `receiveFramedData` of class SynapSock (src/synapsock.cpp). A function that the program sets for a
-- frame is a parameter: it is called by its address with a frame and a parameter, and may change
-- the object and the frames.
pub mod Fields
pub mod Loop
pub mod Ends
pub mod Short
pub mod Message
pub mod Exchange
use synap_tcp.Base.{
  ℕ, zero, suc, ◌+◌, ◌-◌, ◌≡◌, Bool, true, false, not, ◌&&◌, ◌||◌, Option, none, some, List, [],
  ◌∷◌, ◌++◌, Outcome, done, out_of_bounds, out_of_fuel, ◌>>=◌, ltb, ◌==◌, if◌then◌else◌, length,
  take,
}
use synap_tcp.Socket.{Socket}
use synap_tcp.Socket.Os.{Os}
use synap_tcp.Socket.Receive.{receive_data_all}
use synap_tcp.Socket.Collect.{receive_n_bytes, receive_stop_bytes}
use synap_tcp.Socket.Search.{receive_start_bytes, receive_untill_stop_bytes}
use synap_tcp.Socket.Buffer.{get_buffer_as_vector}
use synap_tcp.Frames.{Frames}
use synap_tcp.SynapSock.{SynapSock, with_format}

-- A call of a function at an address, with a frame and a parameter.
abbrev pub Callback : Type 0 → Type 0
Callback W = ℕ → ℕ → Option ℕ → SynapSock → W → Outcome (SynapSock × W)

abbrev pub with_sock : SynapSock → Socket → SynapSock
with_sock y s = record y { sock = s }

abbrev pub clear_data : SynapSock → SynapSock
clear_data y = record y { sock = record (y.sock) { data_buf = [] } }

module _ {W : Type 0} (os : Os W) (fr : Frames W) (call : Callback W) where
  abbrev pub call_function : Option ℕ → ℕ → Option ℕ → SynapSock → W → Outcome (SynapSock × W)
  call_function none f param y w = done (y, w)
  call_function (some fn) f param y w = call fn f param y w

  abbrev pub run_execute : ℕ → SynapSock → W → Outcome (SynapSock × W)
  run_execute f y w =
      call_function (fr.get_execute_function f w) f (fr.get_execute_function_param f w) y w

  abbrev pub run_post_execute : ℕ → SynapSock → W → Outcome (SynapSock × W)
  run_post_execute f y w =
      call_function (fr.get_post_execute_function f w) f (fr.get_post_execute_function_param f w) y
        w

  -- What a frame comes to: the value of `ret`, 0 to go on, and of `tmp`.
  abbrev pub Step : Type 0
  Step = Outcome (ℕ × ℕ × SynapSock × W)

  abbrev pub is_start : ℕ → W → Bool
  is_start f w = fr.get_type f w == fr.type_start_bytes && ltb 0 (length (fr.get_reference f w))

  abbrev pub is_stop : ℕ → W → Bool
  is_stop f w = fr.get_type f w == fr.type_stop_bytes && ltb 0 (length (fr.get_reference f w))

  abbrev pub is_field : ℕ → W → Bool
  is_field f w =
      fr.get_type f w == fr.type_content_length
      || fr.get_type f w == fr.type_data
      || (fr.get_type f w == fr.type_validator || fr.get_type f w == fr.type_command)

  unfoldable pub receive_start : ℕ → ℕ → SynapSock → W → Step
  receive_start fuel f y w = do
    (ret, s, w') ← receive_start_bytes os fuel (fr.get_reference f w) y.sock w
    done ((if ret == 0 then 0 else 2), f, with_sock y s, w')

  unfoldable pub receive_stop : ℕ → ℕ → SynapSock → W → Step
  receive_stop fuel f y w = do
    (ret, s, w') ← receive_stop_bytes os fuel (fr.get_reference f w) y.sock w
    done ((if ret == 0 then 0 else 2), f, with_sock y s, w')

  -- A field of a known size. A timeout has no branch of its own: `ret` stays 0.
  unfoldable pub receive_sized : ℕ → ℕ → SynapSock → W → Step
  receive_sized fuel f y w = do
    (ret, s, w') ← receive_n_bytes os fuel (fr.get_size f w) y.sock w
    let stored : Step = do
      (bytes, s') ← get_buffer_as_vector s
      if ltb 0 (length bytes)
          then done (0, f, with_sock y s', fr.set_data f bytes w')
          else done (2, f, with_sock y s', w')
    if ret == 0 then stored else done (0, f, with_sock y s, w')

  -- After the data of an open field, the frame of the stop bytes that came with it.
  unfoldable pub pass_stop : ℕ → SynapSock → W → Step
  pass_stop f y w = do
    (y1, w1) ← run_post_execute f y w
    with_format (fr.get_next f w1) λ g. do (y2, w2) ← run_execute g y1 w1; done (0, g, y2, w2)

  -- A field of no known size, up to the stop bytes of the next frame `g`.
  unfoldable pub receive_open : ℕ → ℕ → ℕ → SynapSock → W → Step
  receive_open fuel f g y w = do
    (ret, s, w') ← receive_untill_stop_bytes os fuel (fr.get_reference g w) y.sock w
    let stored : Step = do
      (bytes, s') ← get_buffer_as_vector s
      let size = length bytes - fr.get_size g w'
      let kept : Step =
          if ltb (length bytes) (fr.get_size g w')
          then out_of_bounds
          else pass_stop f (with_sock y s') (fr.set_data f (take size bytes) w')
      if ltb 0 (length bytes) then kept else done (0, f, with_sock y s', w')
    if ret == 0 then stored else done (2, f, with_sock y s, w')

  -- The chain of tests on the type of a frame.
  unfoldable pub receive_frame : ℕ → ℕ → SynapSock → W → Step
  unfolding receive_start receive_stop receive_sized receive_open
  receive_frame fuel f y w =
      let open_field : Step = elim (fr.get_next f w) [
        | none ↦ done (4, f, y, w)
        | some g ↦ if is_stop g w then receive_open fuel f g y w else done (4, f, y, w)
      ] in
      if is_start f w
      then receive_start fuel f y w
      else if is_stop f w
      then receive_stop fuel f y w
      else if is_field f w
      then (if ltb 0 (fr.get_size f w) then receive_sized fuel f y w else open_field)
      else done (4, f, y, w)

  -- while (tmp != nullptr), with `rounds` rounds left; `none` for the end of the list.
  unfoldable pub frame_loop :
      ℕ → ℕ → Option ℕ → SynapSock → W → Outcome (ℕ × Option ℕ × SynapSock × W)
  frame_loop rounds fuel none y w = done (0, none, y, w)
  frame_loop zero fuel (some f) y w = out_of_fuel
  frame_loop (suc rounds) fuel (some f) y w = do
    (y1, w1) ← run_execute f y w
    (ret, g, y2, w2) ← receive_frame fuel f y1 w1
    let go_on = do
      (y3, w3) ← run_post_execute g y2 w2
      let next = frame_loop rounds fuel (fr.get_next g w3) (clear_data y3) w3
      if y3.is_format_valid then next else done (4, some g, y3, w3)
    if ret == 0 then go_on else done (ret, some g, y2, w2)

  -- The data of the frames before `fail`.
  unfoldable pub data_before : ℕ → ℕ → Option ℕ → W → Outcome (List ℕ)
  data_before rounds fail none w = done []
  data_before zero fail (some f) w = out_of_fuel
  data_before (suc rounds) fail (some f) w =
      let more = do
        rest ← data_before rounds fail (fr.get_next f w) w
        done (fr.get_data f w ++ rest)
      in if f == fail then done [] else more

  -- After a timeout at stop bytes: the first byte is handed over, and the rest is kept, so that the next
  -- reception starts one byte later.
  unfoldable pub give_back_frame : List ℕ → SynapSock → Outcome SynapSock
  give_back_frame [] y = out_of_bounds
  give_back_frame (x ∷ rest) y = done (record y {
    sock = record (y.sock) {
      data_buf = x ∷ [];
      remaining_data = rest ++ (y.sock.data_buf ++ y.sock.remaining_data);
    };
  })

  abbrev pub same_frame : Option ℕ → ℕ → Bool
  same_frame none f = false
  same_frame (some g) f = g == f

  unfoldable pub finish_framed : ℕ → ℕ → Option ℕ → SynapSock → W → Outcome (ℕ × SynapSock × W)
  unfolding give_back_frame data_before
  finish_framed rounds ret none y w =
      if ret == 0
      then with_format y.frame_format
          (λ f. done (0, record y { sock = record (y.sock) { data_buf = fr.get_all_data f w } }, w))
      else elim y.frame_format [
        | none ↦ done (ret, y, w)
        | some f ↦ (if ret == 4 then done (ret, y, w) else out_of_bounds)
      ]
  finish_framed rounds ret (some tmp) y w =
      let again = do
        before ← data_before rounds tmp y.frame_format w
        y' ← give_back_frame before y
        done (ret, y', w)
      in let put_back = do
        before ← data_before rounds tmp y.frame_format w
        done (ret, record y { sock = record (y.sock) { data_buf = before ++ y.sock.data_buf } }, w)
        in if not (ret == 4)
            && (not (same_frame y.frame_format tmp) && fr.get_type tmp w == fr.type_stop_bytes)
          then again
          else put_back

  -- 0: received; 2: timeout; 3: no format; 4: no such format, or the data were found invalid. The
  -- list of frames has at most `rounds` of them.
  unfoldable pub receive_framed_data : ℕ → ℕ → SynapSock → W → Outcome (ℕ × SynapSock × W)
  unfolding frame_loop finish_framed
  receive_framed_data rounds fuel y w = elim y.frame_format [
    | none ↦ do (_, s, w') ← receive_data_all os fuel y.sock w; done (3, with_sock y s, w')
    | some f ↦ do
      (ret, tmp, y', w') ← frame_loop rounds fuel (some f) (record y { is_format_valid = true }) w
      finish_framed rounds ret tmp y' w'
  ]
