-- ===== src/SynapSock/Framed/Message.antt =====
-- Messages of a format, for `receiveFramedData` of class SynapSock (src/synapsock.cpp).
pub mod Steps
pub mod Open
pub mod First
pub mod Receive
use synap_tcp.Base.{
  ℕ, ◌+◌, ◌*◌, ◌<◌, ◌≡◌, true, false, Option, none, some, List, [], ◌∷◌, ◌++◌, done, length,
}
use synap_tcp.Socket.Os.{Os, IsStream}
use synap_tcp.Socket.Receive.Total.{IsReady}
use synap_tcp.Socket.Search.Find.{NoneIn}
use synap_tcp.Frames.{Frames}
use synap_tcp.SynapSock.{SynapSock}
use synap_tcp.SynapSock.Framed.{Callback, is_start, is_stop, is_field, receive_frame}
use synap_tcp.SynapSock.Framed.Fields.{
  IsQuiet, Field, Field.started, Field.stopped, Field.stored, Field.closed, Fits, ahead, Kept,
}
use synap_tcp.SynapSock.Framed.Loop.{wires}

-- No function that is set for a frame declares the data invalid.
pub record IsContent {W : Type 0} (call : Callback W) : Type 0 where
  pub stays_valid :
      (fn f : ℕ) (param : Option ℕ) (y : SynapSock) (w : W) (y' : SynapSock) (w' : W)
      → call fn f param y w ≡ done (y', w')
      → y'.is_format_valid ≡ y.is_format_valid

module _ {W : Type 0} (os : Os W) (st : IsStream os) (fr : Frames W) (call : Callback W)
    (quiet : IsQuiet st fr call) where
  -- The fields that a message has for the frames from `tmp` on, which nothing changes, with the bytes
  -- `rest` after it: start bytes, perhaps after some noise without them; stop bytes; as many bytes
  -- as a sized frame asks for; or bytes without the stop bytes of the next frame, and these.
  pub data Message (rest : List ℕ) : Option ℕ → List Field → Type 0 where
    finish : Message rest none []
    start :
        (f : ℕ) (tmp : Option ℕ) (noise mark : List ℕ) (fields : List Field)
        → ((w : W) → is_start os fr call f w ≡ true)
        → ((w : W) → fr.get_reference f w ≡ mark)
        → ((w : W) → fr.get_next f w ≡ tmp)
        → NoneIn mark (noise ++ (mark ++ (wires fields ++ rest))) 0 (length noise)
        → Message rest tmp fields
        → Message rest (some f) (started noise mark ∷ fields)
    stop :
        (f : ℕ) (tmp : Option ℕ) (mark : List ℕ) (fields : List Field)
        → ((w : W) → is_start os fr call f w ≡ false)
        → ((w : W) → is_stop os fr call f w ≡ true)
        → ((w : W) → fr.get_reference f w ≡ mark)
        → ((w : W) → fr.get_next f w ≡ tmp)
        → Message rest tmp fields
        → Message rest (some f) (stopped mark ∷ fields)
    sized :
        (f : ℕ) (tmp : Option ℕ) (bytes : List ℕ) (fields : List Field)
        → ((w : W) → is_start os fr call f w ≡ false)
        → ((w : W) → is_stop os fr call f w ≡ false)
        → ((w : W) → is_field os fr call f w ≡ true)
        → ((w : W) → fr.get_size f w ≡ length bytes)
        → 0 < length bytes
        → ((w : W) → fr.get_next f w ≡ tmp)
        → Message rest tmp fields
        → Message rest (some f) (stored bytes ∷ fields)
    open_ended :
        (f g : ℕ) (tmp : Option ℕ) (bytes mark : List ℕ) (fields : List Field)
        → ((w : W) → is_start os fr call f w ≡ false)
        → ((w : W) → is_stop os fr call f w ≡ false)
        → ((w : W) → is_field os fr call f w ≡ true)
        → ((w : W) → fr.get_size f w ≡ 0)
        → ((w : W) → fr.get_next f w ≡ some g)
        → ((w : W) → is_stop os fr call g w ≡ true)
        → ((w : W) → fr.get_reference g w ≡ mark)
        → ((w : W) → fr.get_size g w ≡ length mark)
        → ((w : W) → fr.get_next g w ≡ tmp)
        → NoneIn mark (bytes ++ (mark ++ (wires fields ++ rest))) 0 (length bytes)
        → Message rest tmp fields
        → Message rest (some f) (closed bytes mark ∷ fields)

  -- The field is taken from the front of the stream, with the frame `g` as the last.
  pub record Got (fuel f g : ℕ) (field : Field) (y : SynapSock) (w : W) (rest : List ℕ)
      : Type 0 where
    pub y' : SynapSock
    pub w' : W
    pub run : receive_frame os fr call fuel f y w ≡ done (0, g, y', w')
    pub fits : Fits os st fr call quiet field f w (receive_frame os fr call fuel f y w)
    pub after : ahead os st fr call quiet y' w' ≡ rest
    pub kept : Kept os st fr call quiet y y'
    pub valid : y'.is_format_valid ≡ y.is_format_valid
