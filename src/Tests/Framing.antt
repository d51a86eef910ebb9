-- ===== src/Tests/Framing.antt =====
-- The framing of class SynapSock on the tape: the format is start bytes, two bytes of data and stop bytes.
-- The data of frame 1 are written to the output of the tape.
use synap_tcp.Base.{
  ℕ, zero, suc, ◌<◌, ◌≡◌, refl, Option, none, some, List, [], ◌∷◌, ◌++◌, pos, negsuc, done, arith,
}
use synap_tcp.Socket.Collect.Input.{to_come}
use synap_tcp.Frames.{Frames}
use synap_tcp.SynapSock.{SynapSock, synap_sock_new, frame_at, nth_of_type, frame_of_type}
use synap_tcp.SynapSock.Index.{get_elem?, of_type, frame_at-get_elem}
use synap_tcp.SynapSock.Framed.{Callback, frame_loop, receive_framed_data}
use synap_tcp.SynapSock.Framed.Fields.{IsQuiet}
use synap_tcp.SynapSock.Framed.Loop.{IsRanked, LoopEnd, frame_loop-LoopEnd}
use synap_tcp.SynapSock.Framed.Ends.{Framed}
use synap_tcp.SynapSock.Framed.Short.{receive_framed_data-IsLone}
use synap_tcp.Tests.Tape.{
  Tape, tape, tape_stream, tape_of, connected_socket, connected_socket-IsReady,
}

abbrev kind_of : ℕ → ℕ
kind_of zero = 0
kind_of (suc zero) = 3
kind_of (suc (suc n)) = 1

abbrev reference_of : ℕ → List ℕ
reference_of zero = 3 ∷ []
reference_of (suc zero) = []
reference_of (suc (suc n)) = 6 ∷ []

abbrev size_of : ℕ → ℕ
size_of (suc zero) = 2
size_of n = 1

abbrev next_of : ℕ → Option ℕ
next_of zero = some 1
next_of (suc zero) = some 2
next_of (suc (suc n)) = none

abbrev data_of : ℕ → Tape → List ℕ
data_of (suc zero) w = w.output
data_of n w = reference_of n

abbrev rank_of : ℕ → ℕ
rank_of zero = 2
rank_of (suc zero) = 1
rank_of (suc (suc n)) = 0

abbrev pub frames : Frames Tape
frames = record {
  type_start_bytes = 0;
  type_stop_bytes = 1;
  type_content_length = 2;
  type_data = 3;
  type_validator = 4;
  type_command = 5;
  get_type = λ f w. kind_of f;
  get_reference = λ f w. reference_of f;
  get_size = λ f w. size_of f;
  get_next = λ f w. next_of f;
  get_data = data_of;
  get_all_data = λ f w. reference_of 0 ++ w.output ++ reference_of 2;
  get_specific_data = λ begin end f w. w.output;
  get_execute_function = λ f w. none;
  get_execute_function_param = λ f w. none;
  get_post_execute_function = λ f w. some 8;
  get_post_execute_function_param = λ f w. none;
  set_data = λ f bytes w. record w { output = bytes };
  create = λ type size reference e p q r w. (0, w);
  append = λ f g w. w;
  delete = λ f w. w;
}

abbrev pub call : Callback Tape
call fn f param y w = done (y, w)

abbrev pub quiet : IsQuiet tape_stream frames call
quiet = record {
  call_returns = λ fn f param y w. (y, w, refl, refl, refl, refl);
  set_data_incoming = λ f bytes w. refl;
}

next_of-rank_of : (f g : ℕ) → next_of f ≡ some g → rank_of g < rank_of f
next_of-rank_of zero g e = let same : 1 ≡ g = cc in rw⁻¹ same (omega arith)
next_of-rank_of (suc zero) g e = let same : 2 ≡ g = cc in rw⁻¹ same (omega arith)
next_of-rank_of (suc (suc n)) g e = cc

abbrev ranked : IsRanked frames
ranked = record { rank = rank_of; descends = λ f g w e. next_of-rank_of f g e }

abbrev pub framed_sock : SynapSock
framed_sock = record (synap_sock_new connected_socket) { frame_format = some 0 }

abbrev pub stream : List ℕ
stream = 3 ∷ 4 ∷ 5 ∷ 6 ∷ []

frame_loop-LoopEnd_example :
    LoopEnd tape tape_stream frames call quiet 40
      (some 0)
      framed_sock
      (tape_of stream)
      (frame_loop tape frames call 3 40 (some 0) framed_sock (tape_of stream))
frame_loop-LoopEnd_example =
    frame_loop-LoopEnd tape tape_stream frames call quiet ranked 3 40 (some 0) framed_sock
      (tape_of stream) (omega arith) connected_socket-IsReady (omega arith)

abbrev lone_frames : Frames Tape
lone_frames = record frames {
  get_type = λ f w. 3;
  get_size = λ f w. 9;
  get_next = λ f w. none;
  get_post_execute_function = λ f w. none;
}

abbrev lone_quiet : IsQuiet tape_stream lone_frames call
lone_quiet = record {
  call_returns = λ fn f param y w. (y, w, refl, refl, refl, refl);
  set_data_incoming = λ f bytes w. refl;
}

receive_framed_data-IsLone_example :
    (y' : SynapSock) × (w' : Tape) × (came : List ℕ) × (receive_framed_data tape lone_frames call 2
        40 framed_sock
        (tape_of stream)
      ≡ done (0, y', w'))
    × (came ++ to_come tape tape_stream y'.sock w' ≡ 7 ∷ stream)
    × (y'.sock.data_buf ≡ (3 ∷ []) ++ w'.output ++ (6 ∷ []))
receive_framed_data-IsLone_example =
    receive_framed_data-IsLone tape tape_stream lone_frames call lone_quiet 1 40 0 framed_sock
      (tape_of stream)
      (record {
        no_start = λ w. refl;
        no_stop = λ w. refl;
        field = λ w. refl;
        no_next = λ w. refl;
        no_execute = λ w. refl;
        no_post_execute = λ w. refl;
      })
      refl (omega arith) connected_socket-IsReady (omega arith)

frame_at-get_elem_example :
    (frame_at frames 3 (pos 1) framed_sock (tape_of stream) ≡ done (get_elem? (0 ∷ 1 ∷ 2 ∷ []) 1))
    × (frame_at frames 3 (negsuc 1) framed_sock (tape_of stream) ≡ done none)
    × (nth_of_type frames 3 3 (pos 1) framed_sock (tape_of stream)
        ≡ done (get_elem? (of_type frames 3 (0 ∷ 1 ∷ 2 ∷ []) (tape_of stream)) 1))
    × (frame_of_type frames 3 3 framed_sock (tape_of stream)
        ≡ nth_of_type frames 3 3 (pos 0) framed_sock (tape_of stream))
frame_at-get_elem_example =
    frame_at-get_elem frames 3 1 3 framed_sock (0 ∷ 1 ∷ 2 ∷ []) (tape_of stream)
      (refl, (refl, (refl, refl))) (omega arith)
