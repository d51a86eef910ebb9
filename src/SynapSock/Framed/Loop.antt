-- ===== src/SynapSock/Framed/Loop.antt =====
-- `receiveFramedData` of class SynapSock (src/synapsock.cpp) over a whole list of frames.
use synap_tcp.Base.{
  ℕ, zero, suc, ◌+◌, ◌*◌, ◌<◌, ◌≡◌, refl, sym, ap, ◌∙◌, subst, inl, inr, Bool, true, Option, none,
  some, List, [], ◌∷◌, ◌++◌, append_assoc, Outcome, done, out_of_bounds, arith, if◌then◌else◌,
  Bool-cases, length, length-append,
}
use synap_tcp.Socket.{Socket}
use synap_tcp.Socket.Os.{Os, IsStream}
use synap_tcp.Socket.Receive.Total.{IsReady}
use synap_tcp.Frames.{Frames}
use synap_tcp.SynapSock.{SynapSock}
use synap_tcp.SynapSock.Framed.{
  Callback, run_execute, run_post_execute, receive_frame, frame_loop, clear_data,
}
use synap_tcp.SynapSock.Framed.Fields.{
  IsQuiet, Field, wire, Fits, FrameEnd.taken, FrameEnd.timed_out, FrameEnd.unknown,
  FrameEnd.faulted, ahead, At, call_function_total,
}
use synap_tcp.SynapSock.Framed.Fields.Frame.{receive_frame-FrameEnd}

-- The lists of frames come to an end: the next frame has a smaller rank.
pub record IsRanked {W : Type 0} (fr : Frames W) : Type 0 where
  pub rank : ℕ → ℕ
  pub descends : (f g : ℕ) (w : W) → fr.get_next f w ≡ some g → rank g < rank f

abbrev pub wires : List Field → List ℕ
wires [] = []
wires (field ∷ rest) = wire field ++ wires rest

module _ {W : Type 0} (os : Os W) (st : IsStream os) (fr : Frames W) (call : Callback W)
    (quiet : IsQuiet st fr call) where
  open st use {incoming}

  abbrev pub here_ahead : SynapSock → W → List ℕ
  here_ahead = ahead os st fr call quiet

  -- The frames from `tmp` on are taken one after another, each with its functions called before and after
  -- and its field from the stream, up to the end of the list.
  pub data Taken (fuel : ℕ) : Option ℕ → SynapSock → W → List Field → SynapSock → W → Type 0 where
    end : (y : SynapSock) (w : W) → Taken fuel none y w [] y w
    next :
        (f g : ℕ) (field : Field) (fields : List Field) (y y1 y2 y3 y' : SynapSock)
        (w w1 w2 w3 w' : W)
        → run_execute os fr call f y w ≡ done (y1, w1)
        → receive_frame os fr call fuel f y1 w1 ≡ done (0, g, y2, w2)
        → Fits os st fr call quiet field f w1 (receive_frame os fr call fuel f y1 w1)
        → run_post_execute os fr call g y2 w2 ≡ done (y3, w3)
        → y3.is_format_valid ≡ true
        → Taken fuel (fr.get_next g w3) (clear_data y3) w3 fields y' w'
        → Taken fuel (some f) y w (field ∷ fields) y' w'

  -- Some frames are taken like this, and the next one, `h`, meets a timeout.
  pub data Interrupted (fuel : ℕ)
      : Option ℕ → SynapSock → W → List Field → ℕ → SynapSock → W → Type 0 where
    here :
        (f : ℕ) (y y1 y' : SynapSock) (w w1 w' : W)
        → run_execute os fr call f y w ≡ done (y1, w1)
        → receive_frame os fr call fuel f y1 w1 ≡ done (2, f, y', w')
        → Interrupted fuel (some f) y w [] f y' w'
    after :
        (f g h : ℕ) (field : Field) (fields : List Field) (y y1 y2 y3 y' : SynapSock)
        (w w1 w2 w3 w' : W)
        → run_execute os fr call f y w ≡ done (y1, w1)
        → receive_frame os fr call fuel f y1 w1 ≡ done (0, g, y2, w2)
        → Fits os st fr call quiet field f w1 (receive_frame os fr call fuel f y1 w1)
        → run_post_execute os fr call g y2 w2 ≡ done (y3, w3)
        → y3.is_format_valid ≡ true
        → Interrupted fuel (fr.get_next g w3) (clear_data y3) w3 fields h y' w'
        → Interrupted fuel (some f) y w (field ∷ fields) h y' w'

  -- How the loop ends.
  pub data LoopEnd (fuel : ℕ) (tmp : Option ℕ) (y : SynapSock) (w : W)
      (o : Outcome (ℕ × Option ℕ × SynapSock × W)) : Type 0 where
    completed :
        (fields : List Field) (y' : SynapSock) (w' : W)
        → o ≡ done (0, none, y', w')
        → Taken fuel tmp y w fields y' w'
        → wires fields ++ here_ahead y' w' ≡ here_ahead y w
        → IsReady y'.sock
        → y'.frame_format ≡ y.frame_format
        → LoopEnd fuel tmp y w o
    cut_short :
        (fields : List Field) (g : ℕ) (y' : SynapSock) (w' : W)
        → o ≡ done (2, some g, y', w')
        → Interrupted fuel tmp y w fields g y' w'
        → wires fields ++ (y'.sock.data_buf ++ here_ahead y' w') ≡ here_ahead y w
        → IsReady y'.sock
        → y'.frame_format ≡ y.frame_format
        → LoopEnd fuel tmp y w o
    invalid :
        (g : ℕ) (y' : SynapSock) (w' : W)
        → o ≡ done (4, some g, y', w')
        → y'.frame_format ≡ y.frame_format
        → LoopEnd fuel tmp y w o
    crashed : o ≡ out_of_bounds → LoopEnd fuel tmp y w o

  abbrev pub Below : IsRanked fr → ℕ → Option ℕ → Type 0
  Below ranked rounds none = Unit
  Below ranked rounds (some f) = ranked.rank f < rounds

  pub Below-next :
      (ranked : IsRanked fr) (rounds f g : ℕ) (w : W)
      → ranked.rank f < suc rounds
      → At os st fr call quiet f g
      → (tmp : Option ℕ) → fr.get_next g w ≡ tmp
      → Below ranked rounds tmp
  Below-next ranked rounds f g w hf at none e = tt
  Below-next ranked rounds f g w hf (inl same) (some h) e =
      omega (arith, ranked.descends g h w e, ap ranked.rank same)
  Below-next ranked rounds f g w hf (inr (v, passed)) (some h) e =
      omega (arith, ranked.descends g h w e, ranked.descends f g v passed)

  pub frame_loop_next :
      (rounds fuel f g : ℕ) (y y1 y2 y3 : SynapSock) (w w1 w2 w3 : W)
      → run_execute os fr call f y w ≡ done (y1, w1)
      → receive_frame os fr call fuel f y1 w1 ≡ done (0, g, y2, w2)
      → run_post_execute os fr call g y2 w2 ≡ done (y3, w3)
      → y3.is_format_valid ≡ true
      → frame_loop os fr call (suc rounds) fuel (some f) y w
        ≡ frame_loop os fr call rounds fuel (fr.get_next g w3) (clear_data y3) w3
  unfolding frame_loop
  frame_loop_next rounds fuel f g y y1 y2 y3 w w1 w2 w3 ran run ran3 valid =
      rw (ran, run, ran3)
        (ap
          (λ (b : Bool).
            if b
            then frame_loop os fr call rounds fuel (fr.get_next g w3) (clear_data y3) w3
            else done (4, some g, y3, w3))
          valid)

  -- The loop of `receiveFramedData` from a frame on, on a ready socket, with enough rounds and fuel, where
  -- the functions set for frames are quiet and lists of frames end: it returns or reads out of
  -- bounds. With code 0 it has passed every frame of the list in turn, and the bytes taken for
  -- each, in order, and what is still to come are what was to come. The bytes taken for a frame are
  -- its field, with the bytes skipped before start bytes, or else the bytes of a sized field for
  -- which too few came, which are dropped. With code 2 that holds of the frames before the one that met
  -- the timeout, whose bytes are in the buffer of the socket. The only other code is 4.
  pub frame_loop-LoopEnd :
      (ranked : IsRanked fr) (rounds fuel : ℕ) (tmp : Option ℕ) (y : SynapSock) (w : W)
      → Below ranked rounds tmp
      → IsReady y.sock
      → y.sock.keep_alive_ms + 4 * length (here_ahead y w) < fuel
      → LoopEnd fuel tmp y w (frame_loop os fr call rounds fuel tmp y w)
  unfolding frame_loop
  frame_loop-LoopEnd ranked rounds fuel none y w below ready hf =
      completed [] y w refl (end y w) refl ready refl
  frame_loop-LoopEnd ranked zero fuel (some f) y w below ready hf = absurd (omega arith)
  frame_loop-LoopEnd ranked (suc rounds) fuel (some f) y w below ready hf =
      let (y1, w1, ran, (sock, format, rest)) =
        call_function_total os st fr call quiet (fr.get_execute_function f w) f
          (fr.get_execute_function_param f w) y w in
      let same : here_ahead y1 w1 ≡ here_ahead y w =
        ap (λ (x : Socket). x.remaining_data ++ incoming w1) sock
        ∙ ap (λ d. y.sock.remaining_data ++ d) rest in
      elim (receive_frame-FrameEnd os st fr call quiet fuel f y1 w1 (subst IsReady (sym sock) ready)
        (omega (arith, ap (λ (x : Socket). x.keep_alive_ms) sock, ap length same))) [
          | taken field g y2 w2 run fits parts kept at ↦
              let (y3, w3, ran3, (sock3, format3, rest3)) =
                call_function_total os st fr call quiet (fr.get_post_execute_function g w2) g
                  (fr.get_post_execute_function_param g w2) y2 w2 in
              let same3 : here_ahead (clear_data y3) w3 ≡ here_ahead y2 w2 =
                ap (λ (x : Socket). x.remaining_data ++ incoming w3) sock3
                ∙ ap (λ d. y2.sock.remaining_data ++ d) rest3 in
              let front : wire field ++ here_ahead (clear_data y3) w3 ≡ here_ahead y w =
                ap (λ d. wire field ++ d) same3 ∙ parts ∙ same in
              elim (Bool-cases y3.is_format_valid) [
                | inr bad ↦
                    invalid g y3 w3 (rw (ran, run, ran3, bad) refl) (format3 ∙ kept.1 ∙ format)
                | inl valid ↦
                    let step =
                      frame_loop_next rounds fuel f g y y1 y2 y3 w w1 w2 w3 ran run ran3 valid in
                    elim (frame_loop-LoopEnd ranked rounds fuel (fr.get_next g w3) (clear_data y3)
                      w3 (Below-next ranked rounds f g w3 below at (fr.get_next g w3) refl)
                      (subst IsReady (sym sock3) kept.0.0)
                      (omega (
                        arith,
                        hf,
                        ap (λ (x : Socket). x.keep_alive_ms) sock,
                        ap (λ (x : Socket). x.keep_alive_ms) sock3,
                        ap (λ (x : Socket). x.keep_alive_ms) kept.0.1,
                        ap length front,
                        length-append (wire field) (here_ahead (clear_data y3) w3),
                      ))) [
                        | completed fields y' w' e took more ready' same_format ↦
                            completed (field ∷ fields) y' w' (step ∙ e)
                              (next f g field fields y y1 y2 y3 y' w w1 w2 w3 w' ran run fits ran3
                                valid took)
                              (append_assoc (wire field) (wires fields) (here_ahead y' w')
                                ∙ ap (λ d. wire field ++ d) more
                                ∙ front)
                              ready' (same_format ∙ format3 ∙ kept.1 ∙ format)
                        | cut_short fields h y' w' e tried more ready' same_format ↦
                            cut_short (field ∷ fields) h y' w' (step ∙ e)
                              (after f g h field fields y y1 y2 y3 y' w w1 w2 w3 w' ran run fits
                                ran3 valid tried)
                              (append_assoc (wire field) (wires fields)
                                  (y'.sock.data_buf ++ here_ahead y' w')
                                ∙ ap (λ d. wire field ++ d) more
                                ∙ front)
                              ready' (same_format ∙ format3 ∙ kept.1 ∙ format)
                        | invalid h y' w' e same_format ↦
                            invalid h y' w' (step ∙ e) (same_format ∙ format3 ∙ kept.1 ∙ format)
                        | crashed e ↦ crashed (step ∙ e)
                      ]
              ]
          | timed_out y' w' run parts kept ↦
              cut_short [] f y' w' (rw (ran, run) refl) (here f y y1 y' w w1 w' ran run)
                (parts ∙ same) kept.0.0 (kept.1 ∙ format)
          | unknown run ↦ invalid f y1 w1 (rw (ran, run) refl) format
          | faulted run ↦ crashed (rw (ran, run) refl)
        ]
