-- ===== src/Socket/Receive/NoSsl.antt =====
-- `receiveData` with SSL in use and no SSL connection.
use synap_tcp.Base.{
  ℕ, suc, ◌≡◌, refl, Bool, true, false, none, [], is_non_positive, arith, done, blocked,
}
use synap_tcp.Socket.{Socket}
use synap_tcp.Socket.Os.{Os}
use synap_tcp.Socket.Receive.{
  await_more, read_chunk, read_loop, finish_receive, receive_data, is_input_bytes_available,
}

module _ {W : Type 0} (os : Os W) where
  -- `receiveData` on an open, free socket with SSL in use, no SSL connection and no remaining
  -- data: it returns 1 without a read, and after it every `receiveData` and every
  -- `isInputBytesAvailable` on the object waits for ever.
  pub receive_data_no_ssl :
      (fuel sz : ℕ) (dont_split : Bool) (s : Socket) (w : W)
      → s.mtx ≡ false
      → is_non_positive s.sock_fd ≡ false
      → s.use_ssl ≡ true
      → s.ssl_conn ≡ none
      → s.remaining_data ≡ []
      → (s' : Socket) × (receive_data os (suc fuel) sz dont_split s w ≡ done (1, s', w))
        × ((fuel' sz' : ℕ) (dont_split' : Bool) (w' : W)
            → receive_data os fuel' sz' dont_split' s' w' ≡ blocked)
        × ((w' : W) → is_input_bytes_available os s' w' ≡ blocked)
  unfolding receive_data read_loop await_more read_chunk finish_receive is_input_bytes_available
  receive_data_no_ssl fuel sz dont_split s w free fd ssl no_conn none_left = (
    record s { mtx = true; wmtx = false; data_buf = []; remaining_data = [] },
    rw (free, fd, none_left, ssl, no_conn) (ground arith),
    (λ f z d v. refl),
    (λ v. refl),
  )
