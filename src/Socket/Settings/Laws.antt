-- ===== src/Socket/Settings/Laws.antt =====
-- What the setters store, against what they are given.
use synap_tcp.Base.{
  ℕ, ◌+◌, ◌*◌, ◌%◌, ◌^◌, ◌≤◌, ◌<◌, ◌≡◌, ◌↔◌, refl, true, false, pos, negsuc, pos_part, done, arith,
}
use synap_tcp.Socket.{Socket, TimeVal, IsFree}
use synap_tcp.Socket.Settings.{
  set_port, get_port, split_ms, set_timeout_ms, set_timeout, set_keep_alive_ms, get_keep_alive_ms,
  diff_ms, timeout_in_ms, is_socket_timeout, duplicate,
}
use synap_tcp.Socket.Settings.Clock.{micros, diff_ms_range, to_int-pos}

-- On a free socket, seconds and at most 999 milliseconds are stored as the same time in
-- milliseconds would be, and the stored time is exact, with the microseconds below a second.
pub set_timeout-set_timeout_ms :
    (sec ms : ℕ) (s : Socket)
    → IsFree s
    → ms ≤ 999
    → (set_timeout (pos sec) (pos ms) s ≡ set_timeout_ms (pos (sec * 1000 + ms)) s)
      × (micros (split_ms (sec * 1000 + ms)) ≡ (sec * 1000 + ms) * 1000)
      × ((split_ms (sec * 1000 + ms)).tv_usec < 1000000)
unfolding set_timeout set_timeout_ms split_ms
set_timeout-set_timeout_ms sec ms s free h = ground arith

-- On a free socket, where ntohs undoes htons on sixteen bits and htons stays within them: a port
-- is accepted exactly from 1 to 65535, and then `getPort` gives it back; otherwise nothing
-- changes.
pub get_port-set_port :
    (htons ntohs : ℕ → ℕ) (port : ℕ) (s : Socket)
    → ((n : ℕ) → n < 2 ^ 16 → ntohs (htons n) ≡ n)
    → ((n : ℕ) → n < 2 ^ 16 → htons n < 2 ^ 16)
    → IsFree s
    → ((0 < port)
        → (port < 2 ^ 16)
        → (s' : Socket) × (set_port htons (pos port) s ≡ done (true, s'))
          × (get_port ntohs s' ≡ port)
          × IsFree s')
      × (set_port htons (pos 0) s ≡ done (false, s))
      × ((2 ^ 16 ≤ port) → set_port htons (pos port) s ≡ done (false, s))
      × ((n : ℕ) → set_port htons (negsuc n) s ≡ done (false, s))
unfolding set_port get_port
get_port-set_port htons ntohs port s back short free = (
  (λ lo hi. (
    record s { addr = record (s.addr) { sin_port = htons port % 2 ^ 16 } },
    ground (arith, short port hi),
    ground (arith, short port hi, back port hi),
    record { mtx_free = free.mtx_free; wmtx_free = free.wmtx_free },
  )),
  refl,
  (λ hi. ground arith),
  (λ n. refl),
)

-- On a free socket every interval that is not negative is accepted, and `getKeepAliveMs` gives it
-- back exactly if it fits sixteen bits.
pub get_keep_alive_ms-set_keep_alive_ms :
    (n : ℕ) (s : Socket)
    → IsFree s
    → (s' : Socket) × (set_keep_alive_ms (pos n) s ≡ done (true, s'))
      × ((get_keep_alive_ms s' ≡ n) ↔ (n < 2 ^ 16))
unfolding set_keep_alive_ms get_keep_alive_ms
get_keep_alive_ms-set_keep_alive_ms n s free =
    (record s { keep_alive_ms = n % 2 ^ 16 }, ground arith, ((λ e. omega arith), λ h. omega arith))

-- `isSocketTimeout` for two normalised times, the second not after the first and less than 2^31 ms
-- before it, and a timeout below 2^31 ms: it is reported only when more than the set time has
-- passed, and it is not reported only while less than one millisecond more has passed.
pub is_socket_timeout_bounds :
    (ref last : TimeVal) (s : Socket)
    → ref.tv_usec < 1000000
    → last.tv_usec < 1000000
    → micros last ≤ micros ref
    → micros ref ≤ micros last + 2147483647000
    → timeout_in_ms s < 2 ^ 31
    → (is_socket_timeout ref last s ≡ true → micros last + timeout_in_ms s * 1000 < micros ref)
      × (is_socket_timeout ref last s ≡ false
          → micros ref < micros last + (timeout_in_ms s + 1) * 1000)
unfolding is_socket_timeout
is_socket_timeout_bounds ref last s hr hl le far small =
    let (same, above, below) = diff_ms_range ref last hr hl le in
    rw
      (
        same,
        to_int-pos (pos_part (diff_ms ref last)) (omega (arith, below)),
        to_int-pos (timeout_in_ms s) small,
      )
      ((λ h. ground (arith, above, below)), λ h. ground (arith, above, below))

-- A copy of a free socket into another free one is equal to it, and the original does not change.
pub duplicate_lem : (s obj : Socket) → IsFree s → IsFree obj → duplicate s obj ≡ done (true, s, s)
unfolding duplicate
duplicate_lem s obj free free' = ground arith
