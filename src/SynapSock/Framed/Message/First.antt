-- ===== src/SynapSock/Framed/Message/First.antt =====
-- The first field of a message of a format.
use synap_tcp.Base.{ℕ, ◌≡◌, ◌∙◌, Option, some, List, [], ◌∷◌, ◌++◌, append_assoc}
use synap_tcp.Socket.Os.{Os, IsStream}
use synap_tcp.Socket.Receive.Prompt.{IsPrompt}
use synap_tcp.Frames.{Frames}
use synap_tcp.SynapSock.{SynapSock}
use synap_tcp.SynapSock.Framed.{Callback}
use synap_tcp.SynapSock.Framed.Fields.{IsQuiet, Field, ahead}
use synap_tcp.SynapSock.Framed.Loop.{wires}
use synap_tcp.SynapSock.Framed.Message.{
  IsContent, Message, Message.start, Message.stop, Message.sized, Message.open_ended, Got,
}
use synap_tcp.SynapSock.Framed.Message.Steps.{Ready, Got-start, Got-stop, Got-sized}
use synap_tcp.SynapSock.Framed.Message.Open.{Got-open}

module _ {W : Type 0} (os : Os W) (st : IsStream os) (fr : Frames W) (call : Callback W)
    (quiet : IsQuiet st fr call) (prompt : IsPrompt st) (content : IsContent call) where
  open st use {incoming}

  abbrev pub IsMessage : List ℕ → Option ℕ → List Field → Type 0
  IsMessage = Message os st fr call quiet

  abbrev coming : SynapSock → W → List ℕ
  coming = ahead os st fr call quiet

  -- The first field of a message is taken, and a message is left.
  pub record First (fuel f : ℕ) (field : Field) (fields : List Field) (rest : List ℕ)
      (y : SynapSock) (w : W) : Type 0 where
    pub g : ℕ
    pub tmp : Option ℕ
    pub got : Got os st fr call quiet fuel f g field y w (wires fields ++ rest)
    pub next_is : (v : W) → fr.get_next g v ≡ tmp
    pub message : IsMessage rest tmp fields

  abbrev pub FirstOf : ℕ → ℕ → List Field → List ℕ → SynapSock → W → Type 0
  FirstOf fuel f [] rest y w = Unit
  FirstOf fuel f (field ∷ fields) rest y w = First fuel f field fields rest y w

  pub first_field :
      (fuel f : ℕ) (fields : List Field) (rest : List ℕ) (y : SynapSock) (w : W)
      → IsMessage rest (some f) fields
      → Ready os st fr call quiet prompt content fuel y w
      → coming y w ≡ wires fields ++ rest
      → FirstOf fuel f fields rest y w
  first_field fuel _ _ rest y w
        (start f tmp noise mark fields starts reference follows first message) ready here =
      record {
        g = f;
        tmp = tmp;
        got =
            Got-start os st fr call quiet prompt content fuel f noise mark (wires fields ++ rest) y
              w (starts w) (reference w) ready
              (here
                ∙ append_assoc (noise ++ mark) (wires fields) rest
                ∙ append_assoc noise mark (wires fields ++ rest))
              first;
        next_is = follows;
        message = message;
      }
  first_field fuel _ _ rest y w (stop f tmp mark fields not_start stops reference follows message)
        ready here =
      record {
        g = f;
        tmp = tmp;
        got =
            Got-stop os st fr call quiet prompt content fuel f mark (wires fields ++ rest) y w
              (not_start w) (stops w) (reference w) ready
              (here ∙ append_assoc mark (wires fields) rest);
        next_is = follows;
        message = message;
      }
  first_field fuel _ _ rest y w
        (sized f tmp bytes fields not_start not_stop field size some_bytes follows message) ready
        here =
      record {
        g = f;
        tmp = tmp;
        got =
            Got-sized os st fr call quiet prompt content fuel f bytes (wires fields ++ rest) y w
              (not_start w) (not_stop w) (field w) (size w) some_bytes ready
              (here ∙ append_assoc bytes (wires fields) rest);
        next_is = follows;
        message = message;
      }
  first_field fuel _ _ rest y w
        (open_ended f g tmp bytes mark fields not_start not_stop field size follows stops reference
          long last first message)
        ready here =
      record {
        g = g;
        tmp = tmp;
        got =
            Got-open os st fr call quiet prompt content fuel f g bytes mark (wires fields ++ rest) y
              w (not_start w) (not_stop w) (field w) (size w) follows (stops w) (reference w) long
              ready
              (here
                ∙ append_assoc (bytes ++ mark) (wires fields) rest
                ∙ append_assoc bytes mark (wires fields ++ rest))
              first;
        next_is = last;
        message = message;
      }
