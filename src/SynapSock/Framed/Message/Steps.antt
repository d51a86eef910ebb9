-- ===== src/SynapSock/Framed/Message/Steps.antt =====
-- One frame of a message, on a system whose reads wait for input.
use synap_tcp.Base.{
  ℕ, ◌+◌, ◌*◌, ◌<◌, ◌≡◌, refl, sym, ap, ◌∙◌, true, false, List, ◌++◌, done, arith, ltb, length,
  length-append,
}
use synap_tcp.Socket.{Socket}
use synap_tcp.Socket.Os.{Os, IsStream}
use synap_tcp.Socket.Receive.Total.{IsReady}
use synap_tcp.Socket.Receive.Prompt.{IsPrompt}
use synap_tcp.Socket.Buffer.{get_buffer_as_vector}
use synap_tcp.Socket.Collect.Input.{to_come}
use synap_tcp.Socket.Collect.{receive_n_bytes}
use synap_tcp.Socket.Collect.Prompt.{receive_n_bytes-IsPrompt}
use synap_tcp.Socket.Search.Find.{NoneIn}
use synap_tcp.Socket.Search.Prompt.{
  append-injective, receive_start_bytes-IsPrompt, receive_stop_bytes-IsPrompt,
}
use synap_tcp.Frames.{Frames}
use synap_tcp.SynapSock.{SynapSock}
use synap_tcp.SynapSock.Framed.{
  Callback, with_sock, is_start, is_stop, is_field, receive_start, receive_stop, receive_sized,
  receive_frame,
}
use synap_tcp.SynapSock.Framed.Fields.{IsQuiet, Field.started, Field.stopped, Field.stored, ahead}
use synap_tcp.SynapSock.Framed.Message.{IsContent, Got}

module _ {W : Type 0} (os : Os W) (st : IsStream os) (fr : Frames W) (call : Callback W)
    (quiet : IsQuiet st fr call) (prompt : IsPrompt st) (content : IsContent call) where
  open st use {incoming}

  abbrev pub Ready : ℕ → SynapSock → W → Type 0
  Ready fuel y w =
      IsReady y.sock × (y.sock.keep_alive_ms + 4 * length (ahead os st fr call quiet y w) < fuel)

  pub Got-start :
      (fuel f : ℕ) (noise mark rest : List ℕ) (y : SynapSock) (w : W)
      → is_start os fr call f w ≡ true
      → fr.get_reference f w ≡ mark
      → Ready fuel y w
      → ahead os st fr call quiet y w ≡ noise ++ (mark ++ rest)
      → NoneIn mark (noise ++ (mark ++ rest)) 0 (length noise)
      → Got os st fr call quiet fuel f f (started noise mark) y w rest
  unfolding receive_frame receive_start
  Got-start fuel f noise mark rest y w start reference (ready, hf) here first =
      let some_mark : 0 < length mark = ground (arith, start, ap length reference) in
      let (s', w', run, holds, after, received) =
        receive_start_bytes-IsPrompt os st prompt fuel mark noise rest y.sock w ready some_mark
          (omega (arith, hf)) here first in
      record {
        y' = with_sock y s';
        w' = w';
        run = rw (start, reference, run) refl;
        fits = (start, sym reference);
        after = after;
        kept = (received, refl);
        valid = refl;
      }

  pub Got-stop :
      (fuel f : ℕ) (mark rest : List ℕ) (y : SynapSock) (w : W)
      → is_start os fr call f w ≡ false
      → is_stop os fr call f w ≡ true
      → fr.get_reference f w ≡ mark
      → Ready fuel y w
      → ahead os st fr call quiet y w ≡ mark ++ rest
      → Got os st fr call quiet fuel f f (stopped mark) y w rest
  unfolding receive_frame receive_stop
  Got-stop fuel f mark rest y w not_start stop reference (ready, hf) here =
      let some_mark : 0 < length mark = ground (arith, stop, ap length reference) in
      let (s', w', run, holds, after, received) =
        receive_stop_bytes-IsPrompt os st prompt fuel mark rest y.sock w ready some_mark
          (omega (arith, hf)) here in
      record {
        y' = with_sock y s';
        w' = w';
        run = rw (not_start, stop, reference, run) refl;
        fits = (stop, sym reference);
        after = after;
        kept = (received, refl);
        valid = refl;
      }

  -- The bytes of a sized field are there.
  got_bytes :
      (fuel f : ℕ) (bytes : List ℕ) (y : SynapSock) (w : W) (s' : Socket) (w' : W)
      → is_start os fr call f w ≡ false
      → is_stop os fr call f w ≡ false
      → is_field os fr call f w ≡ true
      → fr.get_size f w ≡ length bytes
      → 0 < length bytes
      → receive_n_bytes os fuel (length bytes) y.sock w ≡ done (0, s', w')
      → s'.data_buf ≡ bytes
      → s'.mtx ≡ false
      → receive_frame os fr call fuel f y w
        ≡ done (0, f, with_sock y (record s' { mtx = false }), fr.set_data f bytes w')
  unfolding receive_frame receive_sized get_buffer_as_vector
  got_bytes fuel f bytes y w s' w' not_start not_stop field size some_bytes run same free =
      let sized : ltb 0 (length bytes) ≡ true = ground arith in
      let got : ltb 0 (length s'.data_buf) ≡ true = ground (arith, ap length same) in
      rw (not_start, not_stop, field, size, sized, run, free, got)
        (ap (λ b. done (0, f, with_sock y (record s' { mtx = false }), fr.set_data f b w')) same)

  pub Got-sized :
      (fuel f : ℕ) (bytes rest : List ℕ) (y : SynapSock) (w : W)
      → is_start os fr call f w ≡ false
      → is_stop os fr call f w ≡ false
      → is_field os fr call f w ≡ true
      → fr.get_size f w ≡ length bytes
      → 0 < length bytes
      → Ready fuel y w
      → ahead os st fr call quiet y w ≡ bytes ++ rest
      → Got os st fr call quiet fuel f f (stored bytes) y w rest
  Got-sized fuel f bytes rest y w not_start not_stop field size some_bytes (ready, hf) here =
      let (s', w', run, holds, parts, received) =
        receive_n_bytes-IsPrompt os st prompt fuel (length bytes) y.sock w ready hf
          (omega (arith, ap length here, length-append bytes rest)) in
      let (same, after) =
        append-injective s'.data_buf bytes (to_come os st s' w') rest holds (parts ∙ here) in
      let unlocked : Socket = record s' { mtx = false } in
      let step =
        got_bytes fuel f bytes y w s' w' not_start not_stop field size some_bytes run same
          received.0.0 in
      record {
        y' = with_sock y unlocked;
        w' = fr.set_data f bytes w';
        run = step;
        fits = (field, sym size, with_sock y unlocked, w', step);
        after = ap (λ d. s'.remaining_data ++ d) (quiet.set_data_incoming f bytes w') ∙ after;
        kept = (
          (
            (refl, received.0.1, received.0.2),
            ap (λ (x : Socket). record x { mtx = false }) received.1,
          ),
          refl,
        );
        valid = refl;
      }
