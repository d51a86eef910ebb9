-- ===== src/Socket/Collect.antt =====
-- `receiveNBytes` and `receiveStopBytes` of class Socket (src/socket.cpp), and the steps that all four
-- methods with a buffer `tmp` share.
pub mod Input
pub mod Exact
pub mod Prompt
pub mod Stop
use synap_tcp.Base.{
  ℕ, zero, suc, ◌+◌, ◌-◌, ◌≡◌, Bool, true, false, not, ◌&&◌, List, [], ◌∷◌, ◌++◌, Outcome, done,
  out_of_fuel, ◌>>=◌, ltb, leb, ◌==◌, if◌then◌else◌, length, take, drop,
}
use synap_tcp.Socket.{Socket}
use synap_tcp.Socket.Os.{Os}
use synap_tcp.Socket.Receive.{receive_data}

-- memcmp(a, b, n) == 0, of lists that have n bytes
abbrev pub same_bytes : List ℕ → List ℕ → Bool
same_bytes [] [] = true
same_bytes [] (y ∷ ys) = false
same_bytes (x ∷ xs) [] = false
same_bytes (x ∷ xs) (y ∷ ys) = (x == y) && same_bytes xs ys

-- `tmp` followed by what the object holds
abbrev pub collect : List ℕ → Socket → List ℕ
collect tmp s = tmp ++ s.data_buf ++ s.remaining_data

abbrev pub clear_remaining : Socket → Socket
clear_remaining s = record s { remaining_data = [] }

-- The end of a method that found what it wanted in the first `size` bytes of `tmp`.
pub keep_front : ℕ → List ℕ → Socket → Socket
keep_front size tmp s =
    if not (length s.data_buf == length tmp)
    then record s {
      data_buf = take size tmp;
      remaining_data = if ltb size (length tmp) then drop size tmp else s.remaining_data;
    }
    else if ltb size (length s.data_buf)
    then record s { data_buf = take size s.data_buf; remaining_data = drop size s.data_buf }
    else s

abbrev pub give_back : List ℕ → Socket → Socket
give_back tmp s = record s { data_buf = tmp }

module _ {W : Type 0} (os : Os W) where
  -- The remaining data first, else a reception of `sz` bytes that is not split.
  pub next_input : ℕ → ℕ → Socket → W → Outcome (ℕ × Socket × W)
  next_input fuel sz s w =
      if ltb 0 (length s.remaining_data)
      then done (0, record s { data_buf = s.remaining_data; remaining_data = [] }, w)
      else receive_data os fuel sz true s w

  -- The loop of `receiveNBytes`, from `tmp`, `tryTimes` and `isRcvFirstBytes`.
  pub n_loop : ℕ → ℕ → List ℕ → ℕ → Bool → Socket → W → Outcome (List ℕ × Socket × W)
  n_loop zero sz tmp tries first s w = out_of_fuel
  n_loop (suc fuel) sz tmp tries first s w = do
    (ret, s', w') ← next_input (suc fuel) sz s w
    let got = collect tmp s'
    let tries' = if first then tries else 3
    let again = n_loop fuel sz got tries' true (clear_remaining s') w'
    let left = if first then tries - 1 else tries
    let retry = n_loop fuel sz tmp left first s' w'
    if ret == 0
        then (if leb sz (length got)
            then done (got, clear_remaining s', w')
            else if ltb 0 tries'
            then again
            else done (got, clear_remaining s', w'))
        else if ltb 0 left
        then retry
        else done (tmp, s', w')

  -- 0: the data are there; 2: timeout.
  pub receive_n_bytes : ℕ → ℕ → Socket → W → Outcome (ℕ × Socket × W)
  receive_n_bytes fuel sz s w = do
    (tmp, s', w') ← n_loop fuel sz [] 0 false s w
    if ltb (length tmp) sz
        then done (2, give_back tmp s', w')
        else done (0, keep_front sz tmp s', w')

  -- The loop of `receiveStopBytes`.
  pub stop_loop : ℕ → List ℕ → List ℕ → Socket → W → Outcome (Bool × ℕ × List ℕ × Socket × W)
  stop_loop zero stop tmp s w = out_of_fuel
  stop_loop (suc fuel) stop tmp s w = do
    (ret, s', w') ← next_input (suc fuel) (length stop - length tmp) s w
    let got = collect tmp s'
    let again = stop_loop fuel stop got (clear_remaining s') w'
    if ret == 0
        then (if leb (length stop) (length got)
            then done (same_bytes (take (length stop) got) stop, ret, got, clear_remaining s', w')
            else again)
        else done (false, ret, tmp, s', w')

  -- 0: the stop bytes; 2: timeout; 3: other bytes.
  pub receive_stop_bytes : ℕ → List ℕ → Socket → W → Outcome (ℕ × Socket × W)
  receive_stop_bytes fuel stop s w = do
    (found, ret, tmp, s', w') ← stop_loop fuel stop [] s w
    if ltb (length tmp) (length stop)
        then done (2, give_back tmp s', w')
        else if not found
        then done (3, give_back tmp s', w')
        else if not (length s'.data_buf == length tmp)
        then done (0, keep_front (length stop) tmp s', w')
        else done (ret, keep_front (length stop) tmp s', w')
