-- ===== src/Socket/Receive.antt =====
-- The reception methods of class Socket (src/socket.cpp), over the system calls of `Os`. Every loop
-- runs on the same fuel. The state of a call is the object and the system.
pub mod Wait
pub mod Total
pub mod Prompt
pub mod Split
pub mod NoSsl
use synap_tcp.Base.{
  ℕ, zero, suc, ◌+◌, ◌-◌, ◌≡◌, Bool, true, false, not, ◌&&◌, ◌||◌, Option, none, some, List, [],
  ◌∷◌, ◌++◌, pos, ltb_ℤ, is_non_positive, Outcome, done, blocked, out_of_bounds, out_of_fuel, ◌>>=◌,
  ltb, leb, ◌==◌, if◌then◌else◌, length, take, drop,
}
use synap_tcp.Socket.{Socket, TimeVal, lock_mtx, unlock_mtx, unlock_wmtx}
use synap_tcp.Socket.Settings.{diff_ms}
use synap_tcp.Socket.Os.{Os}

abbrev pub is_positive : Option ℕ → Bool
is_positive none = false
is_positive (some n) = ltb 0 n

pub push_chunk : Socket → List ℕ → Socket
push_chunk s bytes = record s { data_buf = s.data_buf ++ bytes }

-- `bytes > 0 && (sz == 0 || this->data.size() < sz)`
pub wants_more : ℕ → List ℕ → Socket → Bool
wants_more sz bytes s = ltb 0 (length bytes) && (sz == 0 || ltb (length s.data_buf) sz)

-- How the loop of `receiveData` is left: by its test, or by the return for a missing SSL pointer.
pub data Left : Type 0 where
  finished : Left
  no_ssl : Left

abbrev pub start_buffer : Socket → Socket
start_buffer s = record s { data_buf = s.remaining_data; remaining_data = [] }

-- The part past the requested size goes to `remainingData`.
pub split_at : ℕ → Socket → Socket
split_at sz s = record s { remaining_data = drop sz s.data_buf; data_buf = take sz s.data_buf }

pub finish_receive : {W : Type 0} → ℕ → Bool → Left → Socket → W → ℕ × Socket × W
finish_receive sz dont_split no_ssl s w = (1, s, w)
finish_receive sz dont_split finished s w =
    if length s.data_buf == 0
    then (2, unlock_mtx s, w)
    else if not dont_split && (ltb 0 sz && ltb sz (length s.data_buf))
    then (0, unlock_mtx (split_at sz s), w)
    else (0, unlock_mtx s, w)

module _ {W : Type 0} (os : Os W) where
  pub is_input_bytes_available : Socket → W → Outcome (Bool × Socket × W)
  is_input_bytes_available s w = do
    h ← lock_mtx s
    let (bytes, w') = os.fionread h.sock_fd w
    done (is_positive bytes, unlock_mtx h, w')

  -- Polls until there is input or `keepAliveMs` has passed since `start`.
  pub wait_input : ℕ → TimeVal → Socket → W → Outcome (Socket × W)
  wait_input zero start s w = out_of_fuel
  wait_input (suc fuel) start s w = do
    (ready, s', w') ← is_input_bytes_available s w
    let (now, w'') = os.gettimeofday (os.usleep 1000 w')
    let again = wait_input fuel start s' w''
    if ready
        then done (s', w')
        else if ltb_ℤ (diff_ms now start) (pos s'.keep_alive_ms)
        then again
        else done (s', w'')

  -- Before a further read: true to read, false to leave the loop. `mtx` is held at both ends.
  pub await_more : ℕ → Socket → W → Outcome (Bool × Socket × W)
  await_more fuel s w =
      if length s.data_buf == 0
      then done (true, s, w)
      else if s.keep_alive_ms == 0
      then done (false, s, w)
      else do
        let (start, w') = os.gettimeofday w
        (s', w'') ← wait_input fuel start (unlock_mtx s) w'
        (ready, s'', w''') ← is_input_bytes_available s' w''
        h ← lock_mtx s''
        done (ready, h, w''')

  -- One read of at most 128 bytes; `none` if SSL is in use and has no connection.
  pub read_chunk : Socket → W → Option (List ℕ × W)
  read_chunk s w =
      if s.use_ssl
      then (elim s.ssl_conn [ none ↦ none | some c ↦ some (os.ssl_read c 128 w) ])
      else some (os.read s.sock_fd 128 w)

  pub read_loop : ℕ → ℕ → Socket → W → Outcome (Left × Socket × W)
  read_loop zero sz s w = out_of_fuel
  read_loop (suc fuel) sz s w = do
    (go_on, s', w') ← await_more (suc fuel) s w
    let next : Outcome (Left × Socket × W) = elim (read_chunk s' w') [
      | none ↦ done (no_ssl, unlock_wmtx s', w')
      | some (bytes, w'') ↦
          let again = read_loop fuel sz (push_chunk s' bytes) w'' in
          if wants_more sz bytes (push_chunk s' bytes)
          then again
          else done (finished, push_chunk s' bytes, w'')
    ]
    if go_on then next else done (finished, s', w')

  -- 0: received; 1: the port is not open; 2: timeout.
  pub receive_data : ℕ → ℕ → Bool → Socket → W → Outcome (ℕ × Socket × W)
  receive_data fuel sz dont_split s w = do
    h ← lock_mtx s
    if is_non_positive h.sock_fd then done (1, unlock_mtx h, w) else do
      (left, s', w') ← read_loop fuel sz (start_buffer h) w
      done (finish_receive sz dont_split left s' w')

  pub receive_data_all : ℕ → Socket → W → Outcome (ℕ × Socket × W)
  receive_data_all fuel = receive_data fuel 0 false
