-- ===== src/Tests/Receiving.antt =====
-- The reception, the sending and the closing of a socket on the tape.
use synap_tcp.Base.{
  ℕ, zero, suc, ◌≤◌, ◌<◌, ◌≡◌, ◌≢◌, refl, ◌⊎◌, Bool, true, false, List, [], ◌∷◌, ◌++◌,
  is_non_positive, done, blocked, arith, length, take, drop, inl,
}
use synap_tcp.Socket.{Socket}
use synap_tcp.Socket.Receive.{receive_data, is_input_bytes_available}
use synap_tcp.Socket.Receive.Total.{Received, IsReady}
use synap_tcp.Socket.Receive.Split.{ReceiveEnd, receive_data_lem}
use synap_tcp.Socket.Receive.NoSsl.{receive_data_no_ssl}
use synap_tcp.Socket.Collect.{receive_n_bytes, receive_stop_bytes}
use synap_tcp.Socket.Collect.Input.{to_come}
use synap_tcp.Socket.Collect.Exact.{receive_n_bytes_lem}
use synap_tcp.Socket.Collect.Prompt.{receive_n_bytes-IsPrompt}
use synap_tcp.Socket.Receive.Prompt.{IsPrompt}
use synap_tcp.Socket.Collect.Stop.{receive_stop_bytes_lem}
use synap_tcp.Socket.Search.{receive_start_bytes, receive_untill_stop_bytes}
use synap_tcp.Socket.Search.Start.{Started, NotStarted, receive_start_bytes_lem}
use synap_tcp.Socket.Search.Until.{UntilEnd, receive_untill_stop_bytes_lem}
use synap_tcp.Socket.Send.{send_data}
use synap_tcp.Socket.Send.Whole.{SendEnd, send_data_lem}
use synap_tcp.Socket.Buffer.{
  get_buffer, get_remaining_buffer, get_data_size, get_remaining_data_size, get_buffer_as_vector,
  get_remaining_buffer_as_vector, zeros, get_buffer_lem,
}
use synap_tcp.Socket.Close.{close_socket}
use synap_tcp.Socket.Close.Twice.{IsClosed, Closes, close_socket_lem}
use synap_tcp.Tests.Tape.{
  Tape, tape, tape_stream, tape_sink, tape_of, connected_socket, connected_socket-IsReady,
}

abbrev input : List ℕ
input = 1 ∷ 2 ∷ 3 ∷ 4 ∷ 5 ∷ []

receive_data_example :
    (ret : ℕ) × (s' : Socket) × (w' : Tape) × (receive_data tape 40 3 false connected_socket
        (tape_of input)
      ≡ done (ret, s', w'))
    × (s'.data_buf ++ s'.remaining_data ++ w'.input ≡ 7 ∷ input)
    × ReceiveEnd 3 false ret s'
    × IsReady s'
receive_data_example =
    receive_data_lem tape tape_stream 40 3 false connected_socket (tape_of input)
      connected_socket-IsReady (omega arith)

receive_n_bytes_example :
    (ret : ℕ) × (s' : Socket) × (w' : Tape) × (receive_n_bytes tape 40 3 connected_socket
        (tape_of input)
      ≡ done (ret, s', w'))
    × (s'.data_buf ++ to_come tape tape_stream s' w' ≡ 7 ∷ input)
    × (((ret ≡ 0) × (length s'.data_buf ≡ 3)) ⊎ ((ret ≡ 2) × (length s'.data_buf < 3)))
    × Received connected_socket s'
receive_n_bytes_example =
    receive_n_bytes_lem tape tape_stream 40 3 connected_socket (tape_of input)
      connected_socket-IsReady (omega arith)

abbrev mark : List ℕ
mark = 3 ∷ 4 ∷ []

receive_stop_bytes_example :
    (ret : ℕ) × (s' : Socket) × (w' : Tape) × (receive_stop_bytes tape 40 mark connected_socket
        (tape_of input)
      ≡ done (ret, s', w'))
    × (s'.data_buf ++ to_come tape tape_stream s' w' ≡ 7 ∷ input)
    × (((ret ≡ 0) × (s'.data_buf ≡ mark))
        ⊎ (((ret ≡ 3) × (2 ≤ length s'.data_buf) × (take 2 s'.data_buf ≢ mark))
            ⊎ ((ret ≡ 2) × (length s'.data_buf < 2))))
    × Received connected_socket s'
receive_stop_bytes_example =
    receive_stop_bytes_lem tape tape_stream 40 mark connected_socket (tape_of input)
      connected_socket-IsReady (omega arith) (omega arith)

receive_start_bytes_example :
    (ret : ℕ) × (s' : Socket) × (w' : Tape) × (receive_start_bytes tape 40 mark connected_socket
        (tape_of input)
      ≡ done (ret, s', w'))
    × (((ret ≡ 0) × Started tape tape_stream mark connected_socket (tape_of input) s' w')
        ⊎ ((ret ≡ 2) × NotStarted tape tape_stream mark connected_socket (tape_of input) s' w'))
    × Received connected_socket s'
receive_start_bytes_example =
    receive_start_bytes_lem tape tape_stream mark 40 connected_socket (tape_of input)
      connected_socket-IsReady (omega arith) (omega arith)

receive_untill_stop_bytes_example :
    UntilEnd tape tape_stream mark connected_socket
      (tape_of input)
      (receive_untill_stop_bytes tape 40 mark connected_socket (tape_of input))
receive_untill_stop_bytes_example =
    receive_untill_stop_bytes_lem tape tape_stream mark 40 connected_socket (tape_of input)
      connected_socket-IsReady (omega arith) (omega arith)

abbrev ssl_socket : Socket
ssl_socket = record connected_socket { use_ssl = true; remaining_data = [] }

receive_data_no_ssl_example :
    (s' : Socket) × (receive_data tape 9 0 false ssl_socket (tape_of input)
      ≡ done (1, s', tape_of input))
    × ((fuel' sz' : ℕ) (dont_split' : Bool) (w' : Tape)
        → receive_data tape fuel' sz' dont_split' s' w' ≡ blocked)
    × ((w' : Tape) → is_input_bytes_available tape s' w' ≡ blocked)
receive_data_no_ssl_example =
    receive_data_no_ssl tape 8 0 false ssl_socket (tape_of input) refl refl refl refl refl

send_data_example :
    (ret total : ℕ) × (w' : Tape) × (send_data tape 9 input connected_socket (tape_of [])
      ≡ done (ret, connected_socket, w'))
    × (w'.output ≡ take total input)
    × SendEnd tape tape_sink input ret total
send_data_example =
    send_data_lem tape tape_sink 9 input connected_socket (tape_of []) refl refl (inl refl)
      (omega arith)

close_socket_example :
    (s' : Socket) × (w' : Tape) × (close_socket tape connected_socket (tape_of []) ≡ done (s', w'))
    × IsClosed tape connected_socket s'
    × (is_non_positive s'.sock_fd ≡ true → close_socket tape s' w' ≡ done (s', w'))
    × Closes tape connected_socket.sock_fd s'.sock_fd w'
close_socket_example =
    close_socket_lem tape connected_socket (tape_of [])
      (record { mtx_free = refl; wmtx_free = refl })

get_buffer_lem_example :
    (n m : ℕ) × (out rest : List ℕ) × (get_buffer 5 connected_socket
      ≡ done (n, out, connected_socket))
    × (get_remaining_buffer input connected_socket ≡ done (m, rest, connected_socket))
    × (length out ≡ 5)
    × (length rest ≡ 5)
    × (0 ≤ 5
        → (n ≡ get_data_size connected_socket)
          × (out ≡ drop n (zeros 5))
          × (get_buffer_as_vector connected_socket ≡ done ([], connected_socket)))
    × (1 ≤ 5
        → (m ≡ get_remaining_data_size connected_socket)
          × (rest ≡ 7 ∷ drop m input)
          × (get_remaining_buffer_as_vector connected_socket ≡ done (7 ∷ [], connected_socket)))
    × (5 ≤ 0 → (n ≡ 5) × (out ≡ take 5 []))
    × (5 ≤ 1 → (m ≡ 5) × (rest ≡ take 5 (7 ∷ [])))
get_buffer_lem_example = get_buffer_lem input connected_socket refl

take_prompt : (n : ℕ) (bytes : List ℕ) → 0 < n → 0 < length bytes → 0 < length (take n bytes)
take_prompt zero bytes some_room some_bytes = absurd (omega arith)
take_prompt (suc n) [] some_room some_bytes = absurd (omega arith)
take_prompt (suc n) (x ∷ rest) some_room some_bytes = omega arith

pub tape-IsPrompt : IsPrompt tape_stream
tape-IsPrompt = record {
  read_some = λ fd n w some_room some_input. take_prompt n w.input some_room some_input;
  ssl_read_some = λ c n w some_room some_input. take_prompt n w.input some_room some_input;
}

receive_n_bytes-IsPrompt_example :
    (s' : Socket) × (w' : Tape) × (receive_n_bytes tape 40 3 connected_socket (tape_of input)
      ≡ done (0, s', w'))
    × (length s'.data_buf ≡ 3)
    × (s'.data_buf ++ to_come tape tape_stream s' w' ≡ 7 ∷ input)
    × Received connected_socket s'
receive_n_bytes-IsPrompt_example =
    receive_n_bytes-IsPrompt tape tape_stream tape-IsPrompt 40 3 connected_socket (tape_of input)
      connected_socket-IsReady (omega arith) (omega arith)
