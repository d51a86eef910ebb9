-- ===== src/Frames.antt =====
-- What the framing of class SynapSock uses of class DataFrame, a library of its own: the frames that are
-- alive belong to the state `W`, and a frame is known by its address.
use synap_tcp.Base.{ℕ, Option, List}

-- The first six fields are the enumerators FRAME_TYPE_*. A function that is set for a frame is known
-- by its address, and so is its parameter; `none` is nullptr. `get_specific_data` is the method
-- getSpecificDataAsVector of the frame that comes last.
pub record Frames (W : Type 0) : Type 0 where
  pub type_start_bytes : ℕ
  pub type_stop_bytes : ℕ
  pub type_content_length : ℕ
  pub type_data : ℕ
  pub type_validator : ℕ
  pub type_command : ℕ
  pub get_type : ℕ → W → ℕ
  pub get_reference : ℕ → W → List ℕ
  pub get_size : ℕ → W → ℕ
  pub get_next : ℕ → W → Option ℕ
  pub get_data : ℕ → W → List ℕ
  pub get_all_data : ℕ → W → List ℕ
  pub get_specific_data : Option ℕ → Option ℕ → ℕ → W → List ℕ
  pub get_execute_function : ℕ → W → Option ℕ
  pub get_execute_function_param : ℕ → W → Option ℕ
  pub get_post_execute_function : ℕ → W → Option ℕ
  pub get_post_execute_function_param : ℕ → W → Option ℕ
  pub set_data : ℕ → List ℕ → W → W
  pub create : ℕ → ℕ → List ℕ → Option ℕ → Option ℕ → Option ℕ → Option ℕ → W → ℕ × W
  pub append : ℕ → ℕ → W → W
  pub delete : ℕ → W → W
