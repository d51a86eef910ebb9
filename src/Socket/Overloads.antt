-- ===== src/Socket/Overloads.antt =====
-- The methods of class Socket (src/socket.cpp) that take a vector or a text for bytes. A C string is the
-- memory from its pointer on.
use synap_tcp.Base.{
  ℕ, zero, suc, ◌≡◌, refl, List, [], ◌∷◌, ◌++◌, Outcome, done, out_of_bounds, ◌>>=◌,
}
use synap_tcp.Socket.{Socket}
use synap_tcp.Socket.Os.{Os}
use synap_tcp.Socket.Collect.{receive_stop_bytes}
use synap_tcp.Socket.Search.{receive_start_bytes, receive_untill_stop_bytes}
use synap_tcp.Socket.Send.{send_data}

-- The bytes that strlen counts: without a terminator it reads on past the end.
unfoldable pub c_string : List ℕ → Outcome (List ℕ)
c_string [] = out_of_bounds
c_string (zero ∷ rest) = done []
c_string (suc n ∷ rest) = do more ← c_string rest; done (suc n ∷ more)

abbrev pub HasNoZero : List ℕ → Type 0
HasNoZero [] = Unit
HasNoZero (zero ∷ rest) = ⊥
HasNoZero (suc n ∷ rest) = HasNoZero rest

c_string_lem : (text rest : List ℕ) → HasNoZero text → c_string (text ++ 0 ∷ rest) ≡ done text
unfolding c_string
c_string_lem [] rest h = refl
c_string_lem (zero ∷ text) rest h = absurd h
c_string_lem (suc n ∷ text) rest h = rw (c_string_lem text rest h) refl

module _ {W : Type 0} (os : Os W) where
  -- A call of a method with the bytes of a C string.
  abbrev pub Method : Type 0
  Method = ℕ → List ℕ → Socket → W → Outcome (ℕ × Socket × W)

  abbrev pub with_c_string : Method → Method
  with_c_string method fuel memory s w = do bytes ← c_string memory; method fuel bytes s w

  -- The overloads for a vector and for std::string hand over all bytes.
  unfoldable pub send_data_string : Method
  send_data_string = send_data os

  unfoldable pub send_data_text : Method
  send_data_text = with_c_string (send_data os)

  unfoldable pub receive_start_bytes_string : Method
  receive_start_bytes_string = receive_start_bytes os

  unfoldable pub receive_start_bytes_text : Method
  receive_start_bytes_text = with_c_string (receive_start_bytes os)

  unfoldable pub receive_stop_bytes_string : Method
  receive_stop_bytes_string = receive_stop_bytes os

  unfoldable pub receive_stop_bytes_text : Method
  receive_stop_bytes_text = with_c_string (receive_stop_bytes os)

  unfoldable pub receive_untill_stop_bytes_string : Method
  receive_untill_stop_bytes_string = receive_untill_stop_bytes os

  unfoldable pub receive_untill_stop_bytes_text : Method
  receive_untill_stop_bytes_text = with_c_string (receive_untill_stop_bytes os)

  -- For bytes that are not 0, with a terminator after them and anything after that, each overload for a C
  -- string does what the overload for std::string does with the bytes alone.
  pub send_data_text-send_data_string :
      (fuel : ℕ) (text rest : List ℕ) (s : Socket) (w : W)
      → HasNoZero text
      → (send_data_text fuel (text ++ 0 ∷ rest) s w ≡ send_data_string fuel text s w)
        × (receive_start_bytes_text fuel (text ++ 0 ∷ rest) s w
            ≡ receive_start_bytes_string fuel text s w)
        × (receive_stop_bytes_text fuel (text ++ 0 ∷ rest) s w
            ≡ receive_stop_bytes_string fuel text s w)
        × (receive_untill_stop_bytes_text fuel (text ++ 0 ∷ rest) s w
            ≡ receive_untill_stop_bytes_string fuel text s w)
  unfolding send_data_text send_data_string receive_start_bytes_text receive_start_bytes_string
      receive_stop_bytes_text receive_stop_bytes_string receive_untill_stop_bytes_text
      receive_untill_stop_bytes_string
  send_data_text-send_data_string fuel text rest s w h =
      let read = c_string_lem text rest h in
      (rw read refl, rw read refl, rw read refl, rw read refl)
