-- ===== src/SynapSock/Framed/Message/Open.antt =====
-- A field of a message up to the stop bytes of the next frame, and the functions that are set for a frame.
use synap_tcp.Base.{
  ℕ, ◌-◌, ◌<◌, ◌≡◌, refl, sym, ap, ◌∙◌, subst, true, false, Option, none, some, List, ◌++◌, done,
  done-injective, arith, ltb, length, length-append, take,
}
use synap_tcp.Socket.{Socket}
use synap_tcp.Socket.Os.{Os, IsStream}
use synap_tcp.Socket.Receive.Total.{Received}
use synap_tcp.Socket.Receive.Prompt.{IsPrompt}
use synap_tcp.Socket.Buffer.{get_buffer_as_vector}
use synap_tcp.Socket.Search.Find.{NoneIn}
use synap_tcp.Socket.Search.Prompt.{receive_untill_stop_bytes-IsPrompt}
use synap_tcp.Socket.Search.{receive_untill_stop_bytes}
use synap_tcp.Frames.{Frames}
use synap_tcp.SynapSock.{SynapSock}
use synap_tcp.SynapSock.Framed.{
  Callback, with_sock, is_start, is_stop, is_field, receive_open, pass_stop, receive_frame,
  call_function,
}
use synap_tcp.SynapSock.Framed.Fields.{IsQuiet, Field.closed, ahead, Quiet, call_function_total}
use synap_tcp.SynapSock.Framed.Message.{IsContent, Got}
use synap_tcp.SynapSock.Framed.Message.Steps.{Ready}

module _ {W : Type 0} (os : Os W) (st : IsStream os) (fr : Frames W) (call : Callback W)
    (quiet : IsQuiet st fr call) (prompt : IsPrompt st) (content : IsContent call) where
  open st use {incoming}

  call_valid :
      (fn : Option ℕ) (f : ℕ) (param : Option ℕ) (y : SynapSock) (w : W) (y' : SynapSock) (w' : W)
      → call_function os fr call fn f param y w ≡ done (y', w')
      → y'.is_format_valid ≡ y.is_format_valid
  call_valid none f param y w y' w' run =
      ap (λ r. r.0.is_format_valid) (sym (done-injective (y, w) (y', w') run))
  call_valid (some fn) f param y w y' w' run = content.stays_valid fn f param y w y' w' run

  -- A call of a function, if it is set, and what it leaves.
  pub call_total :
      (fn : Option ℕ) (f : ℕ) (param : Option ℕ) (y : SynapSock) (w : W)
      → (y' : SynapSock) × (w' : W) × (call_function os fr call fn f param y w ≡ done (y', w'))
        × Quiet os st fr call quiet y w y' w'
        × (y'.is_format_valid ≡ y.is_format_valid)
  call_total fn f param y w =
      let (y', w', run, left) = call_function_total os st fr call quiet fn f param y w in
      (y', w', run, left, call_valid fn f param y w y' w' run)

  -- The data of an open field are there, with the stop bytes after them.
  got_stored :
      (fuel f g : ℕ) (bytes mark : List ℕ) (y : SynapSock) (w : W) (s' : Socket) (w' : W)
      → is_start os fr call f w ≡ false
      → is_stop os fr call f w ≡ false
      → is_field os fr call f w ≡ true
      → fr.get_size f w ≡ 0
      → fr.get_next f w ≡ some g
      → is_stop os fr call g w ≡ true
      → fr.get_reference g w ≡ mark
      → fr.get_size g w' ≡ length mark
      → 0 < length mark
      → receive_untill_stop_bytes os fuel mark y.sock w ≡ done (0, s', w')
      → s'.data_buf ≡ bytes ++ mark
      → s'.mtx ≡ false
      → receive_frame os fr call fuel f y w
        ≡ pass_stop os fr call f
            (with_sock y (record s' { mtx = false }))
            (fr.set_data f (take (length (bytes ++ mark) - fr.get_size g w') (bytes ++ mark)) w')
  unfolding receive_frame receive_open get_buffer_as_vector
  got_stored fuel f g bytes mark y w s' w' not_start not_stop field size next stop reference long
        some_mark run holds free =
      let some_bytes : ltb 0 (length s'.data_buf) ≡ true =
        ground (arith, ap length holds, length-append bytes mark) in
      let fits : ltb (length s'.data_buf) (fr.get_size g w') ≡ false =
        ground (arith, ap length holds, length-append bytes mark) in
      rw (not_start, not_stop, field, size, next, stop, reference, run, free, some_bytes, fits)
        (ap
          (λ b.
            pass_stop os fr call f (with_sock y (record s' { mtx = false }))
              (fr.set_data f (take (length b - fr.get_size g w') b) w'))
          holds)

  pub Got-open :
      (fuel f g : ℕ) (bytes mark rest : List ℕ) (y : SynapSock) (w : W)
      → is_start os fr call f w ≡ false
      → is_stop os fr call f w ≡ false
      → is_field os fr call f w ≡ true
      → fr.get_size f w ≡ 0
      → ((v : W) → fr.get_next f v ≡ some g)
      → is_stop os fr call g w ≡ true
      → fr.get_reference g w ≡ mark
      → ((v : W) → fr.get_size g v ≡ length mark)
      → Ready os st fr call quiet prompt content fuel y w
      → ahead os st fr call quiet y w ≡ bytes ++ (mark ++ rest)
      → NoneIn mark (bytes ++ (mark ++ rest)) 0 (length bytes)
      → Got os st fr call quiet fuel f g (closed bytes mark) y w rest
  unfolding pass_stop
  Got-open fuel f g bytes mark rest y w not_start not_stop field size next stop reference long
        (ready, hf) here first =
      let some_mark : 0 < length mark = ground (arith, stop, ap length reference) in
      let (s', w', run, holds, after, received) =
        receive_untill_stop_bytes-IsPrompt os st prompt fuel mark bytes rest y.sock w ready
          some_mark (omega (arith, hf)) here first in
      let unlocked : SynapSock = with_sock y (record s' { mtx = false }) in
      let kept_data : List ℕ = take (length (bytes ++ mark) - fr.get_size g w') (bytes ++ mark) in
      let step =
        got_stored fuel f g bytes mark y w s' w' not_start not_stop field size (next w) stop
          reference (long w') some_mark run holds received.0.0 in
      let stored_w : W = fr.set_data f kept_data w' in
      let (y1, w1, run1, (sock1, format1, rest1), valid1) =
        call_total (fr.get_post_execute_function f stored_w) f
          (fr.get_post_execute_function_param f stored_w) unlocked stored_w in
      let (y2, w2, run2, (sock2, format2, rest2), valid2) =
        call_total (fr.get_execute_function g w1) g (fr.get_execute_function_param g w1) y1 w1 in
      record {
        y' = y2;
        w' = w2;
        run = step ∙ rw (run1, next w1) (rw run2 refl);
        fits = (field, size, g, next w, sym reference, unlocked, w', step);
        after =
            ap (λ (x : Socket). x.remaining_data ++ incoming w2) (sock2 ∙ sock1)
            ∙ ap (λ d. s'.remaining_data ++ d)
                (rest2 ∙ rest1 ∙ quiet.set_data_incoming f kept_data w')
            ∙ after;
        kept = (
          subst (λ x. Received y.sock x) (sym (sock2 ∙ sock1))
              (
                (refl, received.0.1, received.0.2),
                ap (λ (x : Socket). record x { mtx = false }) received.1,
              ),
          format2 ∙ format1,
        );
        valid = valid2 ∙ valid1;
      }
