-- ===== src/SynapSock.antt =====
-- class SynapSock (src/synapsock.cpp, include/synapsock.hpp): a socket with a format, which is a list of
-- frames. The reception by a format is in SynapSock/Framed.
pub mod Index
pub mod Framed
use synap_tcp.Base.{
  ℕ, zero, suc, ◌+◌, ◌≡◌, Bool, true, false, ◌&&◌, Option, none, some, List, ℤ, pos, negsuc,
  Outcome, done, out_of_bounds, out_of_fuel, ◌>>=◌, ltb, ◌==◌, if◌then◌else◌, length,
}
use synap_tcp.Socket.{Socket}
use synap_tcp.Socket.Os.{Os}
use synap_tcp.Socket.Send.{send_data}
use synap_tcp.Frames.{Frames}

pub record SynapSock : Type 0 where
  pub sock : Socket
  pub is_format_valid : Bool
  pub frame_format : Option ℕ

-- The constructors, after those of class Socket.
abbrev pub synap_sock_new : Socket → SynapSock
synap_sock_new sock = record { sock = sock; is_format_valid = true; frame_format = none }

abbrev pub get_format : SynapSock → Option ℕ
get_format y = y.frame_format

abbrev pub trig_inv_data_indicator : SynapSock → SynapSock
trig_inv_data_indicator y = record y { is_format_valid = false }

-- A call through a null pointer is out of bounds.
abbrev pub with_format {ℓ} : {A : Type ℓ} → Option ℕ → (ℕ → Outcome A) → Outcome A
with_format none k = out_of_bounds
with_format (some f) k = k f

-- i == idx, of ints that have not overflowed
abbrev pub same_int : ℕ → ℤ → Bool
same_int n (pos m) = n == m
same_int n (negsuc m) = false

module _ {W : Type 0} (fr : Frames W) where
  -- The method, and the destructor, which is followed by that of class Socket.
  unfoldable pub destroy_format : SynapSock → W → SynapSock × W
  destroy_format y w = elim y.frame_format [
    | none ↦ (y, w)
    | some f ↦ (record y { frame_format = none }, fr.delete f w)
  ]

  -- operator=
  unfoldable pub assign_format : ℕ → SynapSock → W → SynapSock × W
  unfolding destroy_format
  assign_format obj y w =
      let (y1, w1) = destroy_format y w in
      let (f, w2) =
        fr.create (fr.get_type obj w1) (fr.get_size obj w1) (fr.get_reference obj w1)
          (fr.get_execute_function obj w1) (fr.get_execute_function_param obj w1)
          (fr.get_post_execute_function obj w1) (fr.get_post_execute_function_param obj w1) w1 in
      let w3 : W = elim (fr.get_next obj w2) [ none ↦ w2 | some g ↦ fr.append f g w2 ] in
      (record y1 { frame_format = some f }, w3)

  -- operator+= and operator+
  unfoldable pub append_format : ℕ → SynapSock → W → Outcome (SynapSock × W)
  append_format obj y w = with_format y.frame_format λ f. done (y, fr.append f obj w)

  -- operator[](int), from the frame `tmp` and the counter `i`
  unfoldable pub index_loop : ℕ → ℕ → ℤ → Option ℕ → W → Outcome (Option ℕ)
  index_loop fuel i idx none w = done none
  index_loop zero i idx (some f) w = out_of_fuel
  index_loop (suc fuel) i idx (some f) w =
      let rest = index_loop fuel (i + 1) idx (fr.get_next f w) w in
      if same_int i idx then done (some f) else rest

  unfoldable pub frame_at : ℕ → ℤ → SynapSock → W → Outcome (Option ℕ)
  unfolding index_loop
  frame_at fuel idx y w = index_loop fuel 0 idx y.frame_format w

  -- operator[](DataFrame::FRAME_TYPE_t)
  unfoldable pub type_loop : ℕ → ℕ → Option ℕ → W → Outcome (Option ℕ)
  type_loop fuel type none w = done none
  type_loop zero type (some f) w = out_of_fuel
  type_loop (suc fuel) type (some f) w =
      let rest = type_loop fuel type (fr.get_next f w) w in
      if fr.get_type f w == type then done (some f) else rest

  unfoldable pub frame_of_type : ℕ → ℕ → SynapSock → W → Outcome (Option ℕ)
  unfolding type_loop
  frame_of_type fuel type y w = type_loop fuel type y.frame_format w

  -- operator[](std::pair): the frame of the type with that many of the type before it
  unfoldable pub pair_loop : ℕ → ℕ → ℕ → ℤ → Option ℕ → W → Outcome (Option ℕ)
  pair_loop fuel i type nth none w = done none
  pair_loop zero i type nth (some f) w = out_of_fuel
  pair_loop (suc fuel) i type nth (some f) w =
      let hit = fr.get_type f w == type in
      let rest = pair_loop fuel (if hit then i + 1 else i) type nth (fr.get_next f w) w in
      if hit && same_int i nth then done (some f) else rest

  unfoldable pub nth_of_type : ℕ → ℕ → ℤ → SynapSock → W → Outcome (Option ℕ)
  unfolding pair_loop
  nth_of_type fuel type nth y w = pair_loop fuel 0 type nth y.frame_format w

  -- The overload of getSpecificBufferAsVector for frames, and the one for types.
  unfoldable pub get_specific_buffer : Option ℕ → Option ℕ → SynapSock → W → Outcome (List ℕ)
  get_specific_buffer begin end y w =
      with_format y.frame_format λ f. done (fr.get_specific_data begin end f w)

  unfoldable pub get_specific_buffer_of_types : ℕ → ℕ → ℕ → SynapSock → W → Outcome (List ℕ)
  unfolding frame_of_type get_specific_buffer
  get_specific_buffer_of_types fuel begin end y w = do
    first ← frame_of_type fuel begin y w
    last ← frame_of_type fuel end y w
    get_specific_buffer first last y w

module _ {W : Type 0} (os : Os W) (fr : Frames W) where
  -- 3: nothing to send; else the code of `sendData`.
  unfoldable pub send_framed_data : ℕ → SynapSock → W → Outcome (ℕ × SynapSock × W)
  send_framed_data fuel y w = with_format y.frame_format λ f.
      let buffer = fr.get_all_data f w in
      let sent = do
        (ret, s, w') ← send_data os fuel buffer y.sock w
        done (ret, record y { sock = s }, w')
      in if ltb 0 (length buffer) then sent else done (3, y, w)
