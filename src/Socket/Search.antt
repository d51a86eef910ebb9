-- ===== src/Socket/Search.antt =====
-- `receiveStartBytes` and `receiveUntillStopBytes` of class Socket (src/socket.cpp). Their loops are
-- the same text; `Round` holds the variables.
pub mod Find
pub mod Rounds
pub mod Start
pub mod Until
pub mod Prompt
use synap_tcp.Base.{
  ℕ, zero, suc, ◌+◌, ◌-◌, ◌≡◌, Bool, true, false, not, ◌&&◌, List, [], ◌∷◌, ◌++◌, Outcome, done,
  out_of_bounds, out_of_fuel, ◌>>=◌, ltb, leb, ◌==◌, if◌then◌else◌, length, take, drop,
}
use synap_tcp.Socket.{Socket}
use synap_tcp.Socket.Os.{Os}
use synap_tcp.Socket.Collect.{same_bytes, collect, clear_remaining, next_input, give_back}

-- for (i = idxCheck; i <= tmp.size() - sz; i++), with `rounds` rounds left: whether the bytes were
-- found, and the last value of `i`.
pub find_from : ℕ → ℕ → List ℕ → List ℕ → Bool × ℕ
find_from zero i mark tmp = (false, i)
find_from (suc rounds) i mark tmp =
    let rest = find_from rounds (i + 1) mark tmp in
    if same_bytes (take (length mark) (drop i tmp)) mark then (true, i) else rest

pub record Round : Type 0 where
  pub i : ℕ
  pub idx_check : ℕ
  pub found : Bool
  pub ret : ℕ
  pub tmp : List ℕ
  pub first : Bool

abbrev pub init_round : Round
init_round = record { i = 0; idx_check = 0; found = false; ret = 0; tmp = []; first = false }

-- Where the search resumes, before `tmp` grows.
abbrev pub next_check : ℕ → Round → ℕ
next_check sz r =
    if not r.first
    then r.idx_check
    else if ltb sz (length r.tmp)
    then length r.tmp + 1 - sz
    else r.idx_check

-- The body of `if (!ret)`, with what the round received.
pub search_round : List ℕ → Round → List ℕ → Round
search_round mark r got =
    let check = next_check (length mark) r in
    let hit = find_from (length got - length mark + 1 - check) check mark got in
    if leb (length mark) (length got)
    then record { i = hit.1; idx_check = check; found = hit.0; ret = 0; tmp = got; first = true }
    else record { i = r.i; idx_check = check; found = r.found; ret = 0; tmp = got; first = true }

-- The vector assignments read `size` bytes of `tmp`, or of `data`, whether or not there are so many.
pub cut_until : {W : Type 0} → ℕ → Round → Socket → W → Outcome (ℕ × Socket × W)
cut_until size r s w =
    if not (length s.data_buf == length r.tmp)
    then (if ltb (length r.tmp) size
        then out_of_bounds
        else done (
          0,
          record s {
            data_buf = take size r.tmp;
            remaining_data = if ltb size (length r.tmp) then drop size r.tmp else s.remaining_data;
          },
          w,
        ))
    else if ltb size (length s.data_buf)
    then done (
      r.ret,
      record s { data_buf = take size s.data_buf; remaining_data = drop size s.data_buf },
      w,
    )
    else done (r.ret, s, w)

module _ {W : Type 0} (os : Os W) where
  pub search_loop : ℕ → List ℕ → Round → Socket → W → Outcome (Round × Socket × W)
  search_loop zero mark r s w = out_of_fuel
  search_loop (suc fuel) mark r s w = do
    (ret, s', w') ← next_input os (suc fuel) (length mark) s w
    let r' = search_round mark r (collect r.tmp s')
    let again = search_loop fuel mark r' (clear_remaining s') w'
    if ret == 0
        then (if r'.found then done (r', clear_remaining s', w') else again)
        else done (record r { ret = ret }, s', w')

  -- 0: the bytes were found, and what came before them is dropped; else the code of the reception.
  pub receive_start_bytes : ℕ → List ℕ → Socket → W → Outcome (ℕ × Socket × W)
  receive_start_bytes fuel mark s w = do
    (r, s', w') ← search_loop fuel mark init_round s w
    let end = r.i + length mark
    if r.found
        then done (
          r.ret,
          record s' {
            data_buf = take (length mark) (drop r.i r.tmp);
            remaining_data = if ltb end (length r.tmp) then drop end r.tmp else s'.remaining_data;
          },
          w',
        )
        else done (r.ret, give_back r.tmp s', w')

  -- 0: everything up to the stop bytes; 2: timeout.
  pub receive_untill_stop_bytes : ℕ → List ℕ → Socket → W → Outcome (ℕ × Socket × W)
  receive_untill_stop_bytes fuel mark s w = do
    (r, s', w') ← search_loop fuel mark init_round s w
    if ltb (length r.tmp) (length mark)
        then done (2, give_back r.tmp s', w')
        else cut_until (r.i + length mark) r s' w'
