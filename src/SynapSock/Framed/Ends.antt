-- ===== src/SynapSock/Framed/Ends.antt =====
-- How `receiveFramedData` of class SynapSock (src/synapsock.cpp) ends.
use synap_tcp.Base.{ℕ, ◌≡◌, ◌≢◌, ap, true, Option, none, some, List, [], ◌++◌, done, ◌>>=◌}
use synap_tcp.Socket.Os.{Os, IsStream}
use synap_tcp.Socket.Receive.{receive_data_all}
use synap_tcp.Frames.{Frames}
use synap_tcp.SynapSock.{SynapSock, with_format}
use synap_tcp.SynapSock.Framed.{Callback, with_sock, frame_loop, finish_framed, receive_framed_data}
use synap_tcp.SynapSock.Framed.Fields.{IsQuiet, Field}
use synap_tcp.SynapSock.Framed.Loop.{
  wires, Taken, Interrupted, LoopEnd.completed, LoopEnd.cut_short, LoopEnd.invalid, LoopEnd.crashed,
  here_ahead,
}

module _ {W : Type 0} (os : Os W) (st : IsStream os) (fr : Frames W) (call : Callback W)
    (quiet : IsQuiet st fr call) where
  open st use {incoming}

  abbrev pub ahead_of : SynapSock → W → List ℕ
  ahead_of = here_ahead os st fr call quiet

  -- All frames of the format have been passed: the bytes taken for them come from the front of the
  -- stream, in order, and the buffer of the socket has the data that the frames hold then.
  pub record Framed (fuel f : ℕ) (y : SynapSock) (w : W) (y' : SynapSock) (w' : W) : Type 0 where
    pub fields : List Field
    pub last : SynapSock
    pub took :
        Taken os st fr call quiet fuel
          (some f)
          (record y { is_format_valid = true })
          w
          fields
          last
          w'
    pub parts : wires fields ++ ahead_of y' w' ≡ ahead_of y w
    pub holds : y'.sock.data_buf ≡ fr.get_all_data f w'

  -- The bytes are the data that the frames of the list hold, in order, up to the frame `g`, if it is there.
  pub data HeldBefore (g : ℕ) (w : W) : Option ℕ → List ℕ → Type 0 where
    off_end : HeldBefore g w none []
    reached : (f : ℕ) → f ≡ g → HeldBefore g w (some f) []
    passed :
        (f : ℕ) (bytes : List ℕ)
        → f ≢ g
        → HeldBefore g w (fr.get_next f w) bytes
        → HeldBefore g w (some f) (fr.get_data f w ++ bytes)

  -- A timeout at the frame `g`, which comes after the frames that were passed: the bytes `came` that were to
  -- come after theirs are in the buffers and to come again, after the data that the frames before
  -- `g` hold.
  pub record CutShort (fuel f : ℕ) (y : SynapSock) (w : W) (y' : SynapSock) (w' : W) : Type 0 where
    pub fields : List Field
    pub g : ℕ
    pub last : SynapSock
    pub tried :
        Interrupted os st fr call quiet fuel
          (some f)
          (record y { is_format_valid = true })
          w
          fields
          g
          last
          w'
    pub came : List ℕ
    pub before : List ℕ
    pub rest : came ≡ last.sock.data_buf ++ ahead_of last w'
    pub parts : wires fields ++ came ≡ ahead_of y w
    pub held : HeldBefore g w' (some f) before
    pub returned : y'.sock.data_buf ++ ahead_of y' w' ≡ before ++ came

  pub framed_start :
      (rounds fuel f : ℕ) (y : SynapSock) (w : W)
      → y.frame_format ≡ some f
      → receive_framed_data os fr call rounds fuel y w ≡ (
          frame_loop os fr call rounds fuel (some f) (record y { is_format_valid = true }) w
          >>= λ r. finish_framed os fr call rounds r.0 r.1 r.2 r.3)
  unfolding receive_framed_data
  framed_start rounds fuel f y w format =
      ap
        (λ (o : Option ℕ). elim o [
          | none ↦ do (_, s, w') ← receive_data_all os fuel y.sock w; done (3, with_sock y s, w')
          | some g ↦ do
            (ret, tmp, y', w') ←
                frame_loop os fr call rounds fuel (some g) (record y { is_format_valid = true }) w
            finish_framed os fr call rounds ret tmp y' w'
        ])
        format

  abbrev put_back : List ℕ → SynapSock → SynapSock
  put_back before y = record y { sock = record (y.sock) { data_buf = before ++ y.sock.data_buf } }

  abbrev pub filled : ℕ → SynapSock → W → SynapSock
  filled f y w = record y { sock = record (y.sock) { data_buf = fr.get_all_data f w } }

  pub finish_whole :
      (rounds f : ℕ) (y : SynapSock) (w : W)
      → y.frame_format ≡ some f
      → finish_framed os fr call rounds 0 none y w ≡ done (0, filled f y w, w)
  unfolding finish_framed
  finish_whole rounds f y w format = ap (λ o. with_format o (λ h. done (0, filled h y w, w))) format
