-- ===== src/Tests/Messages.antt =====
-- A whole message on the tape: noise and start bytes, two bytes of data and stop bytes.
use synap_tcp.Base.{
  inl, zero, suc, ◌≡◌, refl, sym, ap, true, done, done-injective, none, some, List, [], ◌∷◌, ◌++◌,
  arith,
}
use synap_tcp.Socket.Collect.Input.{to_come}
use synap_tcp.Socket.Search.Find.{NoneIn}
use synap_tcp.Socket.Send.{send_data, send_loop, write_chunk}
use synap_tcp.SynapSock.{SynapSock, synap_sock_new, send_framed_data}
use synap_tcp.SynapSock.Framed.{receive_framed_data}
use synap_tcp.SynapSock.Framed.Fields.{Field, started, stopped, stored}
use synap_tcp.SynapSock.Framed.Loop.{Taken}
use synap_tcp.SynapSock.Framed.Message.{IsContent, Message, start, stop, sized, finish}
use synap_tcp.SynapSock.Framed.Exchange.{send_framed_data-receive_framed_data}
use synap_tcp.SynapSock.Framed.Message.Receive.{receive_framed_data-IsMessage}
use synap_tcp.Tests.Tape.{
  tape_sink, connected_socket, Tape, tape, tape_stream, tape_of, connected_socket-IsReady,
}
use synap_tcp.Tests.Receiving.{tape-IsPrompt}
use synap_tcp.Tests.Framing.{frames, call, quiet, framed_sock, stream}

content : IsContent call
content = record {
  stays_valid = λ fn f param y w y' w' run.
      ap (λ r. r.0.is_format_valid) (sym (done-injective (y, w) (y', w') run));
}

abbrev message_fields : List Field
message_fields = started (7 ∷ []) (3 ∷ []) ∷ stored (4 ∷ 5 ∷ []) ∷ stopped (6 ∷ []) ∷ []

no_start_before : NoneIn (3 ∷ []) (7 ∷ stream) 0 1
no_start_before zero ge lt = refl
no_start_before (suc n) ge lt = absurd (omega arith)

stream-Message : Message tape tape_stream frames call quiet [] (some 0) message_fields
stream-Message =
    start 0 (some 1) (7 ∷ []) (3 ∷ []) (stored (4 ∷ 5 ∷ []) ∷ stopped (6 ∷ []) ∷ []) (λ w. refl)
      (λ w. refl) (λ w. refl) no_start_before
      (sized 1 (some 2) (4 ∷ 5 ∷ []) (stopped (6 ∷ []) ∷ []) (λ w. refl) (λ w. refl) (λ w. refl)
        (λ w. refl) (omega arith) (λ w. refl)
        (stop 2 none (6 ∷ []) [] (λ w. refl) (λ w. refl) (λ w. refl) (λ w. refl) finish))

receive_framed_data-IsMessage_example :
    (y' : SynapSock) × (w' : Tape) × (receive_framed_data tape frames call 3 40 framed_sock
        (tape_of stream)
      ≡ done (0, y', w'))
    × (last : SynapSock) × Taken tape tape_stream frames call quiet 40
        (some 0)
        (record framed_sock { is_format_valid = true })
        (tape_of stream)
        message_fields
        last
        w'
    × (to_come tape tape_stream y'.sock w' ≡ [])
    × (y'.sock.data_buf ≡ (3 ∷ []) ++ w'.output ++ (6 ∷ []))
receive_framed_data-IsMessage_example =
    receive_framed_data-IsMessage tape tape_stream frames call quiet tape-IsPrompt content 3 40 0
      message_fields [] framed_sock (tape_of stream) refl stream-Message (omega arith)
      connected_socket-IsReady (omega arith) refl

abbrev sender_tape : Tape
sender_tape = record (tape_of []) { output = 4 ∷ 5 ∷ [] }

abbrev sent_tape : Tape
sent_tape = record (tape_of []) { output = 4 ∷ 5 ∷ 3 ∷ 4 ∷ 5 ∷ 6 ∷ [] }

abbrev sender : SynapSock
sender = record (synap_sock_new connected_socket) { frame_format = some 0 }

abbrev receiver : SynapSock
receiver = record (synap_sock_new (record connected_socket { remaining_data = [] })) {
  frame_format = some 0;
}

sent_run : send_framed_data tape frames 20 sender sender_tape ≡ done (0, sender, sent_tape)
unfolding send_framed_data send_data send_loop write_chunk
sent_run = refl

abbrev plain_fields : List Field
plain_fields = started [] (3 ∷ []) ∷ stored (4 ∷ 5 ∷ []) ∷ stopped (6 ∷ []) ∷ []

plain-Message : Message tape tape_stream frames call quiet [] (some 0) plain_fields
plain-Message =
    start 0 (some 1) [] (3 ∷ []) (stored (4 ∷ 5 ∷ []) ∷ stopped (6 ∷ []) ∷ []) (λ w. refl)
      (λ w. refl) (λ w. refl) (λ k ge lt. absurd (omega arith))
      (sized 1 (some 2) (4 ∷ 5 ∷ []) (stopped (6 ∷ []) ∷ []) (λ w. refl) (λ w. refl) (λ w. refl)
        (λ w. refl) (omega arith) (λ w. refl)
        (stop 2 none (6 ∷ []) [] (λ w. refl) (λ w. refl) (λ w. refl) (λ w. refl) finish))

send_framed_data-receive_framed_data_example :
    (z' : SynapSock) × (v' : Tape) × (receive_framed_data tape frames call 3 40 receiver
        (tape_of stream)
      ≡ done (0, z', v'))
    × (last : SynapSock) × Taken tape tape_stream frames call quiet 40
        (some 0)
        (record receiver { is_format_valid = true })
        (tape_of stream)
        plain_fields
        last
        v'
    × (to_come tape tape_stream z'.sock v' ≡ [])
    × (z'.sock.data_buf ≡ (3 ∷ []) ++ v'.output ++ (6 ∷ []))
send_framed_data-receive_framed_data_example =
    send_framed_data-receive_framed_data tape tape_sink frames tape tape_stream frames call quiet
      tape-IsPrompt content 20 0 sender sender sender_tape sent_tape stream 3 40 0 plain_fields []
      receiver (tape_of stream) refl refl refl (inl refl) (omega arith) sent_run refl refl refl
      plain-Message (omega arith) (refl, refl, inl refl) (omega arith) refl
