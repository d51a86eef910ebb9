-- ===== src/SynapSock/Framed/Message/Receive.antt =====
-- `receiveFramedData` of class SynapSock (src/synapsock.cpp) on a message of its format.
use synap_tcp.Base.{
  ℕ, zero, suc, ◌+◌, ◌*◌, ◌<◌, ◌≤◌, ◌≡◌, refl, sym, ap, ◌∙◌, subst, true, Option, none, some, List,
  [], ◌∷◌, ◌++◌, append_assoc, done, arith, length, length-append,
}
use synap_tcp.Socket.{Socket}
use synap_tcp.Socket.Os.{Os, IsStream}
use synap_tcp.Socket.Receive.Total.{IsReady}
use synap_tcp.Socket.Receive.Prompt.{IsPrompt}
use synap_tcp.Frames.{Frames}
use synap_tcp.SynapSock.{SynapSock}
use synap_tcp.SynapSock.Framed.{Callback, frame_loop, clear_data, receive_framed_data}
use synap_tcp.SynapSock.Framed.Fields.{IsQuiet, Field, wire, ahead}
use synap_tcp.SynapSock.Framed.Loop.{wires, Taken, Taken.end, Taken.next, frame_loop_next}
use synap_tcp.SynapSock.Framed.Ends.{filled, framed_start, finish_whole}
use synap_tcp.SynapSock.Framed.Message.{IsContent, Message}
use synap_tcp.SynapSock.Framed.Message.Steps.{Ready}
use synap_tcp.SynapSock.Framed.Message.Open.{call_total}
use synap_tcp.SynapSock.Framed.Message.First.{first_field}

module _ {W : Type 0} (os : Os W) (st : IsStream os) (fr : Frames W) (call : Callback W)
    (quiet : IsQuiet st fr call) (prompt : IsPrompt st) (content : IsContent call) where
  open st use {incoming}

  abbrev IsMessage : List ℕ → Option ℕ → List Field → Type 0
  IsMessage = Message os st fr call quiet

  abbrev coming : SynapSock → W → List ℕ
  coming = ahead os st fr call quiet

  record Whole (rounds fuel : ℕ) (tmp : Option ℕ) (fields : List Field) (rest : List ℕ)
      (y : SynapSock) (w : W) : Type 0 where
    y' : SynapSock
    w' : W
    run : frame_loop os fr call rounds fuel tmp y w ≡ done (0, none, y', w')
    took : Taken os st fr call quiet fuel tmp y w fields y' w'
    left : coming y' w' ≡ rest
    ready : IsReady y'.sock
    format : y'.frame_format ≡ y.frame_format

  frame_loop-Whole :
      (rounds fuel : ℕ) (tmp : Option ℕ) (fields : List Field) (rest : List ℕ) (y : SynapSock)
      (w : W)
      → IsMessage rest tmp fields
      → length fields ≤ rounds
      → Ready os st fr call quiet prompt content fuel y w
      → y.is_format_valid ≡ true
      → coming y w ≡ wires fields ++ rest
      → Whole rounds fuel tmp fields rest y w
  unfolding frame_loop
  frame_loop-Whole rounds fuel none [] rest y w message enough (ready, hf) valid here = record {
    y' = y;
    w' = w;
    run = refl;
    took = end y w;
    left = here;
    ready = ready;
    format = refl;
  }
  frame_loop-Whole zero fuel (some f) (field ∷ fields) rest y w message enough ready valid here =
      absurd (omega (arith, enough))
  frame_loop-Whole rounds fuel none (field ∷ fields) rest y w message enough ready valid here =
      elim message [ ]
  frame_loop-Whole zero fuel (some f) [] rest y w message enough ready valid here = elim message [ ]
  frame_loop-Whole (suc rounds) fuel (some f) [] rest y w message enough ready valid here =
      elim message [ ]
  frame_loop-Whole (suc rounds) fuel (some f) (field ∷ fields) rest y w message enough (ready, hf)
        valid here =
      let (y1, w1, ran, (sock, format, rest1), valid1) =
        call_total os st fr call quiet prompt content (fr.get_execute_function f w) f
          (fr.get_execute_function_param f w) y w in
      let same : coming y1 w1 ≡ coming y w =
        ap (λ (x : Socket). x.remaining_data ++ incoming w1) sock
        ∙ ap (λ d. y.sock.remaining_data ++ d) rest1 in
      let first =
        first_field os st fr call quiet prompt content fuel f (field ∷ fields) rest y1 w1 message
          (
            subst IsReady (sym sock) ready,
            omega (arith, hf, ap (λ (x : Socket). x.keep_alive_ms) sock, ap length same),
          )
          (same ∙ here) in
      let g : ℕ = first.g in
      let y2 : SynapSock = first.got.y' in
      let w2 : W = first.got.w' in
      let (y3, w3, ran3, (sock3, format3, rest3), valid3) =
        call_total os st fr call quiet prompt content (fr.get_post_execute_function g w2) g
          (fr.get_post_execute_function_param g w2) y2 w2 in
      let after : coming (clear_data y3) w3 ≡ wires fields ++ rest =
        ap (λ (x : Socket). x.remaining_data ++ incoming w3) sock3
        ∙ ap (λ d. y2.sock.remaining_data ++ d) rest3
        ∙ first.got.after in
      let more =
        frame_loop-Whole rounds fuel first.tmp fields rest (clear_data y3) w3 first.message
          (omega (arith, enough))
          (
            subst IsReady (sym sock3) first.got.kept.0.0,
            omega (
              arith,
              hf,
              ap (λ (x : Socket). x.keep_alive_ms) sock,
              ap (λ (x : Socket). x.keep_alive_ms) sock3,
              ap (λ (x : Socket). x.keep_alive_ms) first.got.kept.0.1,
              ap length after,
              ap length here,
              ap length (append_assoc (wire field) (wires fields) rest),
              length-append (wire field) (wires fields ++ rest),
            ),
          )
          (valid3 ∙ first.got.valid ∙ valid1 ∙ valid) after in
      record {
        y' = more.y';
        w' = more.w';
        run =
            frame_loop_next os st fr call quiet rounds fuel f g y y1 y2 y3 w w1 w2 w3 ran
              first.got.run ran3 (valid3 ∙ first.got.valid ∙ valid1 ∙ valid)
            ∙ ap (λ o. frame_loop os fr call rounds fuel o (clear_data y3) w3) (first.next_is w3)
            ∙ more.run;
        took =
            next f g field fields y y1 y2 y3 more.y' w w1 w2 w3 more.w' ran first.got.run
              first.got.fits ran3 (valid3 ∙ first.got.valid ∙ valid1 ∙ valid)
              (subst
                (λ o. Taken os st fr call quiet fuel o (clear_data y3) w3 fields more.y' more.w')
                (sym (first.next_is w3)) more.took);
        left = more.left;
        ready = more.ready;
        format = more.format ∙ format3 ∙ first.got.kept.1 ∙ format;
      }

  -- `receiveFramedData` with a format, on a ready socket whose system has no timeout while input is left,
  -- where the functions set for frames are quiet and declare no data invalid: if what is to come
  -- starts with a message of the format, then with enough rounds and fuel it returns 0, the
  -- message has been taken field by field, and what follows it is still to come.
  pub receive_framed_data-IsMessage :
      (rounds fuel f : ℕ) (fields : List Field) (rest : List ℕ) (y : SynapSock) (w : W)
      → y.frame_format ≡ some f
      → IsMessage rest (some f) fields
      → length fields ≤ rounds
      → IsReady y.sock
      → y.sock.keep_alive_ms + 4 * length (coming y w) < fuel
      → coming y w ≡ wires fields ++ rest
      → (y' : SynapSock) × (w' : W) × (receive_framed_data os fr call rounds fuel y w
          ≡ done (0, y', w'))
        × (last : SynapSock) × Taken os st fr call quiet fuel
            (some f)
            (record y { is_format_valid = true })
            w
            fields
            last
            w'
        × (coming y' w' ≡ rest)
        × (y'.sock.data_buf ≡ fr.get_all_data f w')
  receive_framed_data-IsMessage rounds fuel f fields rest y w format message enough ready hf here =
      let whole =
        frame_loop-Whole rounds fuel (some f) fields rest (record y { is_format_valid = true }) w
          message enough (ready, hf) refl here in
      (
        filled os st fr call quiet f whole.y' whole.w',
        whole.w',
        framed_start os st fr call quiet rounds fuel f y w format
            ∙ rw whole.run (
                finish_whole os st fr call quiet rounds f whole.y' whole.w'
                  (whole.format ∙ format)),
        whole.y',
        whole.took,
        whole.left,
        refl,
      )
