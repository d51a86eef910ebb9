-- ===== src/SynapSock/Framed/Exchange.antt =====
-- `sendFramedData` on one side and `receiveFramedData` on the other, of class SynapSock (src/synapsock.cpp).
use synap_tcp.Base.{
  ℕ, ◌+◌, ◌*◌, ◌≤◌, ◌<◌, ◌≡◌, refl, sym, ap, ◌∙◌, ◌⊎◌, inl, inr, Bool-cases, true, false, some,
  List, ◌++◌, is_non_positive, done, done-injective, arith, ltb, length, take, take_all, append-nil,
}
use synap_tcp.Socket.Os.{Os, IsStream}
use synap_tcp.Socket.Receive.Total.{HasChannel, IsReady}
use synap_tcp.Socket.Receive.Prompt.{IsPrompt}
use synap_tcp.Socket.Search.Prompt.{append-injective}
use synap_tcp.Socket.Send.Whole.{IsSink, SendEnd, send_data_lem}
use synap_tcp.Frames.{Frames}
use synap_tcp.SynapSock.{SynapSock, send_framed_data}
use synap_tcp.SynapSock.Framed.{Callback, receive_framed_data}
use synap_tcp.SynapSock.Framed.Fields.{IsQuiet, Field, ahead}
use synap_tcp.SynapSock.Framed.Loop.{wires, Taken}
use synap_tcp.SynapSock.Framed.Message.{IsContent, Message}
use synap_tcp.SynapSock.Framed.Message.Receive.{receive_framed_data-IsMessage}

module _ {W : Type 0} (os : Os W) (sink : IsSink os) (fr : Frames W) where
  open sink use {sent}

  -- `sendFramedData` of a format, on a socket that is open and that nobody writes to, with fuel for each byte
  -- of its frames and one more round, returns 3 without a write if they hold no bytes, 0 after all
  -- of these, or 2 after a front part that is not all. Nothing of the object changes.
  pub send_framed_data_lem :
      (fuel f : ℕ) (y : SynapSock) (w : W)
      → y.frame_format ≡ some f
      → y.sock.wmtx ≡ false
      → is_non_positive y.sock.sock_fd ≡ false
      → HasChannel y.sock
      → length (fr.get_all_data f w) < fuel
      → (ret total : ℕ) × (w' : W) × (send_framed_data os fr fuel y w ≡ done (ret, y, w'))
        × (sent w' ≡ sent w ++ take total (fr.get_all_data f w))
        × (((ret ≡ 3) × (length (fr.get_all_data f w) ≡ 0))
            ⊎ SendEnd os sink (fr.get_all_data f w) ret total)
  unfolding send_framed_data
  send_framed_data_lem fuel f y w format free fd chan hf =
      elim (Bool-cases (ltb 0 (length (fr.get_all_data f w)))) [
        | inr empty ↦ (
          3,
          0,
          w,
          rw (format, empty) refl,
          sym (append-nil (sent w)),
          inl (refl, ground (arith, empty)),
        )
        | inl some_bytes ↦
            let (ret, total, w', run, eq, end) =
              send_data_lem os sink fuel (fr.get_all_data f w) y.sock w free fd chan hf in
            (ret, total, w', rw (format, some_bytes, run) refl, eq, inr end)
      ]

  -- What has been sent when it returns 0 is all that the frames hold.
  sent_whole :
      (fuel f : ℕ) (y y1 : SynapSock) (w w1 : W) (came : List ℕ)
      → y.frame_format ≡ some f
      → y.sock.wmtx ≡ false
      → is_non_positive y.sock.sock_fd ≡ false
      → HasChannel y.sock
      → length (fr.get_all_data f w) < fuel
      → send_framed_data os fr fuel y w ≡ done (0, y1, w1)
      → sent w1 ≡ sent w ++ came
      → came ≡ fr.get_all_data f w
  sent_whole fuel f y y1 w w1 came format free fd chan hf run eq =
      let (ret, total, w', run', eq', end) =
        send_framed_data_lem fuel f y w format free fd chan hf in
      let same : ◌≡◌ {A = ℕ × SynapSock × W} (ret, y, w') (0, y1, w1) =
        done-injective (ret, y, w') (0, y1, w1) (sym run' ∙ run) in
      let code : ret ≡ 0 = ap (λ r. r.0) same in
      elim end [
        | inl (three, empty) ↦ absurd (omega (arith, code, three))
        | inr (inr (two, less)) ↦ absurd (omega (arith, code, two))
        | inr (inl (zero_is, all)) ↦
            let whole : take total (fr.get_all_data f w) ≡ fr.get_all_data f w =
              take_all total (fr.get_all_data f w) (omega (arith, all)) in
            (append-injective (sent w) (sent w) came (fr.get_all_data f w) refl
              (sym eq ∙ ap sent (sym (ap (λ r. r.2) same)) ∙ eq' ∙ ap (λ d. sent w ++ d) whole)).1
      ]

module _ {W V : Type 0} (os : Os W) (sink : IsSink os) (fr : Frames W) (os' : Os V)
    (st : IsStream os') (fr' : Frames V) (call : Callback V) (quiet : IsQuiet st fr' call)
    (prompt : IsPrompt st) (content : IsContent call) where
  open sink use {sent}

  -- One side calls `sendFramedData` and gets 0, the other has what was sent to come, and perhaps more, and
  -- calls `receiveFramedData`: if what the frames of the sender hold is a message of the format of
  -- the receiver, then with enough rounds and fuel the receiver gets 0, has taken the message field
  -- by field, and what comes after it is still to come.
  pub send_framed_data-receive_framed_data :
      (fuel f : ℕ) (y y1 : SynapSock) (w w1 : W) (came : List ℕ) (rounds fuel' g : ℕ)
      (fields : List Field) (rest : List ℕ) (z : SynapSock) (v : V)
      → y.frame_format ≡ some f
      → y.sock.wmtx ≡ false
      → is_non_positive y.sock.sock_fd ≡ false
      → HasChannel y.sock
      → length (fr.get_all_data f w) < fuel
      → send_framed_data os fr fuel y w ≡ done (0, y1, w1)
      → sent w1 ≡ sent w ++ came
      → fr.get_all_data f w ≡ wires fields
      → z.frame_format ≡ some g
      → Message os' st fr' call quiet rest (some g) fields
      → length fields ≤ rounds
      → IsReady z.sock
      → z.sock.keep_alive_ms + 4 * length (ahead os' st fr' call quiet z v) < fuel'
      → ahead os' st fr' call quiet z v ≡ came ++ rest
      → (z' : SynapSock) × (v' : V) × (receive_framed_data os' fr' call rounds fuel' z v
          ≡ done (0, z', v'))
        × (last : SynapSock) × Taken os' st fr' call quiet fuel'
            (some g)
            (record z { is_format_valid = true })
            v
            fields
            last
            v'
        × (ahead os' st fr' call quiet z' v' ≡ rest)
        × (z'.sock.data_buf ≡ fr'.get_all_data g v')
  send_framed_data-receive_framed_data fuel f y y1 w w1 came rounds fuel' g fields rest z v format
        free fd chan hf run eq held format' message enough ready hf' here =
      receive_framed_data-IsMessage os' st fr' call quiet prompt content rounds fuel' g fields rest
        z v format' message enough ready hf'
        (here
          ∙ ap (λ d. d ++ rest)
              (sent_whole os sink fr fuel f y y1 w w1 came format free fd chan hf run eq ∙ held))
