-- ===== src/Socket/Address.antt =====
-- The IPv4 addresses of class Socket (src/socket.cpp): validation, the setters and `getAddress`.
-- A text of char * is the list of its bytes, without the terminator.
pub mod Octets
pub mod Parse
use synap_tcp.Base.{
  ℕ, zero, suc, ◌+◌, ◌-◌, ◌*◌, ◌/◌, ◌%◌, ◌^◌, ◌≡◌, refl, Bool, true, false, not, ◌&&◌, ◌||◌, List,
  [], ◌∷◌, ◌++◌, Outcome, done, blocked, out_of_bounds, ◌>>=◌, ltb, leb, ◌==◌, if◌then◌else◌,
  length, take,
}
use synap_tcp.Socket.{Socket, lock_mtx, lock_wmtx, lock_both, unlock_both}
use synap_tcp.Socket.Settings.{under_both}

abbrev pub dot : ℕ
dot = b'.'

-- address[3], of a vector of four bytes
abbrev pub fourth : List ℕ → ℕ
fourth (a ∷ b ∷ c ∷ d ∷ rest) = d
fourth _ = 0

-- isValidIPAddress(const unsigned char *), on at least four bytes
unfoldable pub is_valid_ip_bytes : List ℕ → Bool
is_valid_ip_bytes address = if fourth address == 255 then false else true

-- isValidIPAddress(const std::vector <unsigned char>)
unfoldable pub is_valid_ip_vector : List ℕ → Bool
unfolding is_valid_ip_bytes
is_valid_ip_vector address = if length address == 4 then is_valid_ip_bytes address else false

abbrev pub is_digit : ℕ → Bool
is_digit c = leb 0x30 c && leb c 0x39

-- The loop over the text, from `isPrevDot`, `cnt` and `value`, unsigned shorts.
unfoldable pub scan_text : List ℕ → Bool → ℕ → ℕ → Bool
scan_text [] is_prev_dot cnt value = leb cnt 3
scan_text (c ∷ rest) is_prev_dot cnt value =
    let next = (value * 10 + (c - 0x30)) % 2 ^ 16 in
    let after_dot = scan_text rest true ((cnt + 1) % 2 ^ 16) 0 in
    let after_digit = scan_text rest false cnt next in
    if c == dot
    then (if is_prev_dot then false else after_dot)
    else if is_digit c
    then (if ltb 255 next then false else if cnt == 3 && next == 255 then false else after_digit)
    else false

-- isValidIPAddress(const char *): an empty text meets its terminator in the loop and is refused.
unfoldable pub is_valid_ip_text : List ℕ → Bool
unfolding scan_text
is_valid_ip_text [] = false
is_valid_ip_text (c ∷ rest) =
    if ltb 15 (length (c ∷ rest))
    then false
    else if c == dot
    then false
    else scan_text (c ∷ rest) false 0 0

-- setAddress(const unsigned char *), of at least four bytes
unfoldable pub set_address_bytes : List ℕ → Socket → Outcome (Bool × Socket)
unfolding is_valid_ip_bytes
set_address_bytes address s =
    if ltb (length address) 4
    then out_of_bounds
    else if is_valid_ip_bytes address
    then under_both (λ h. record h { address = take 4 address }) s
    else done (false, s)

-- setAddress(const std::vector <unsigned char>)
unfoldable pub set_address_vector : List ℕ → Socket → Outcome (Bool × Socket)
unfolding is_valid_ip_vector
set_address_vector address s =
    if is_valid_ip_vector address
    then under_both (λ h. record h { address = address }) s
    else done (false, s)

-- The loop that fills the vector, from `tmp`, an unsigned char.
unfoldable pub parse_text : List ℕ → ℕ → List ℕ
parse_text [] tmp = tmp ∷ []
parse_text (c ∷ rest) tmp =
    if c == dot then tmp ∷ parse_text rest 0 else parse_text rest ((tmp * 10 + (c - 0x30)) % 2 ^ 8)

-- setAddress(const char *) and setAddress(const std::string)
unfoldable pub set_address_text : List ℕ → Socket → Outcome (Bool × Socket)
unfolding is_valid_ip_text parse_text
set_address_text address s =
    if is_valid_ip_text address
    then under_both (λ h. record h { address = parse_text address 0 }) s
    else done (false, s)

-- %d of an unsigned char: it has at most three digits.
unfoldable pub print_byte : ℕ → List ℕ
print_byte v =
    if ltb v 10
    then (0x30 + v) ∷ []
    else if ltb v 100
    then (0x30 + v / 10) ∷ (0x30 + v % 10) ∷ []
    else (0x30 + v / 100) ∷ (0x30 + v / 10 % 10) ∷ (0x30 + v % 10) ∷ []

-- c_str() of a std::string, read up to its first NUL
abbrev pub c_str : List ℕ → List ℕ
c_str [] = []
c_str (zero ∷ rest) = []
c_str (suc c ∷ rest) = suc c ∷ c_str rest

-- setAddress(const std::string)
unfoldable pub set_address_string : List ℕ → Socket → Outcome (Bool × Socket)
unfolding set_address_text
set_address_string address s = set_address_text (c_str address) s

-- sprintf(result, "%d.%d.%d.%d", ...)
unfoldable pub print_bytes : List ℕ → List ℕ
unfolding print_byte
print_bytes [] = []
print_bytes (v ∷ []) = print_byte v
print_bytes (v ∷ w ∷ rest) = print_byte v ++ dot ∷ print_bytes (w ∷ rest)

-- An address that has not four bytes makes the method lock its mutexes again, not unlock them.
pub get_address : Socket → Outcome (List ℕ × Socket)
unfolding print_bytes
get_address s = do
  h ← lock_both s
  if length h.address == 4
      then done (print_bytes h.address, unlock_both h)
      else lock_both h >>= λ h'. done ([], h')
