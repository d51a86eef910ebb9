-- ===== src/Socket/Buffer.antt =====
-- The methods of class Socket (src/socket.cpp) that hand over what a reception has stored.
use synap_tcp.Base.{
  ℕ, zero, suc, ◌≤◌, ◌≡◌, refl, sym, ap, ◌∙◌, false, List, [], ◌∷◌, ◌++◌, Outcome, done, ◌>>=◌,
  arith, ltb, if◌then◌else◌, length, take, drop, length-append, length-drop, length-take_le,
  take_all, drop_all, append-nil, subst,
}
use synap_tcp.Socket.{Socket, lock_mtx, unlock_mtx}

-- n bytes that memset has cleared
abbrev pub zeros : ℕ → List ℕ
zeros zero = []
zeros (suc n) = 0 ∷ zeros n

pub get_data_size : Socket → ℕ
get_data_size s = length s.data_buf

pub get_remaining_data_size : Socket → ℕ
get_remaining_data_size s = length s.remaining_data

-- `this->data.size() < maxBufferSz ? this->data.size() : maxBufferSz`
abbrev pub copied : List ℕ → ℕ → ℕ
copied stored max_size = if ltb (length stored) max_size then length stored else max_size

-- What memcpy leaves in a buffer of the caller.
abbrev pub memcpy : List ℕ → List ℕ → ℕ → List ℕ
memcpy buffer stored n = take n stored ++ drop n buffer

-- The result, and the buffer of `max_size` bytes: cleared, then written from its front.
pub get_buffer : ℕ → Socket → Outcome (ℕ × List ℕ × Socket)
get_buffer max_size s = do
  h ← lock_mtx s
  let result = copied h.data_buf max_size
  done (result, memcpy (zeros max_size) h.data_buf result, unlock_mtx h)

-- The overload for a vector, and `getBufferAsVector`, which returns the same copy.
unfoldable pub get_buffer_as_vector : Socket → Outcome (List ℕ × Socket)
get_buffer_as_vector s = do h ← lock_mtx s; done (h.data_buf, unlock_mtx h)

-- Here the buffer is not cleared first.
pub get_remaining_buffer : List ℕ → Socket → Outcome (ℕ × List ℕ × Socket)
get_remaining_buffer buffer s = do
  h ← lock_mtx s
  let result = copied h.remaining_data (length buffer)
  done (result, memcpy buffer h.remaining_data result, unlock_mtx h)

pub get_remaining_buffer_as_vector : Socket → Outcome (List ℕ × Socket)
get_remaining_buffer_as_vector s = do h ← lock_mtx s; done (h.remaining_data, unlock_mtx h)

length-zeros : (n : ℕ) → length (zeros n) ≡ n
length-zeros zero = refl
length-zeros (suc n) = ap suc (length-zeros n)

copied_le :
    (stored : List ℕ) (max_size : ℕ)
    → (copied stored max_size ≤ max_size) × (copied stored max_size ≤ length stored)
copied_le stored max_size = (ground arith, ground arith)

length-memcpy :
    (buffer stored : List ℕ)
    → length (memcpy buffer stored (copied stored (length buffer))) ≡ length buffer
length-memcpy buffer stored =
    let n : ℕ = copied stored (length buffer) in
    let (le, le') = copied_le stored (length buffer) in
    let front = length-take_le n stored le' in
    let back = length-drop n buffer in
    length-append (take n stored) (drop n buffer) ∙ omega (arith, front, back, le)

copied_all :
    (stored : List ℕ) (max_size : ℕ)
    → length stored ≤ max_size
    → (copied stored max_size ≡ length stored) × (take (copied stored max_size) stored ≡ stored)
copied_all stored max_size h =
    (ground arith, take_all (copied stored max_size) stored (ground arith))

memcpy_full :
    (buffer stored : List ℕ)
    → length buffer ≤ length stored
    → (copied stored (length buffer) ≡ length buffer)
      × (memcpy buffer stored (copied stored (length buffer)) ≡ take (length buffer) stored)
memcpy_full buffer stored h =
    let full : copied stored (length buffer) ≡ length buffer = ground arith in
    (
      full,
      ap (memcpy buffer stored) full
          ∙ ap (λ d. take (length buffer) stored ++ d)
              (drop_all (length buffer) buffer (omega arith))
          ∙ append-nil (take (length buffer) stored),
    )

-- On a socket that no reception runs on: the two copies into a buffer fill it from its front with what
-- was stored, as much as fits, and write no byte past its end; what fits whole is the copy that the
-- vector methods return, followed by zeros in one case and by the old bytes in the other; where it does
-- not, the buffer is the front of it and the result its size. The object does not change.
pub get_buffer_lem :
    (buffer : List ℕ) (s : Socket)
    → s.mtx ≡ false
    → (n m : ℕ) × (out rest : List ℕ) × (get_buffer (length buffer) s ≡ done (n, out, s))
      × (get_remaining_buffer buffer s ≡ done (m, rest, s))
      × (length out ≡ length buffer)
      × (length rest ≡ length buffer)
      × (length s.data_buf ≤ length buffer
          → (n ≡ get_data_size s)
            × (out ≡ s.data_buf ++ drop n (zeros (length buffer)))
            × (get_buffer_as_vector s ≡ done (s.data_buf, s)))
      × (length s.remaining_data ≤ length buffer
          → (m ≡ get_remaining_data_size s)
            × (rest ≡ s.remaining_data ++ drop m buffer)
            × (get_remaining_buffer_as_vector s ≡ done (s.remaining_data, s)))
      × (length buffer ≤ length s.data_buf
          → (n ≡ length buffer) × (out ≡ take (length buffer) s.data_buf))
      × (length buffer ≤ length s.remaining_data
          → (m ≡ length buffer) × (rest ≡ take (length buffer) s.remaining_data))
unfolding get_buffer get_remaining_buffer get_data_size get_remaining_data_size get_buffer_as_vector
    get_remaining_buffer_as_vector
get_buffer_lem buffer s free =
    let n : ℕ = copied s.data_buf (length buffer) in
    let m : ℕ = copied s.remaining_data (length buffer) in
    let cleared = length-zeros (length buffer) in
    (
      n,
      m,
      memcpy (zeros (length buffer)) s.data_buf n,
      memcpy buffer s.remaining_data m,
      rw free cc,
      rw free (cc free),
      ap (λ k. length (memcpy (zeros (length buffer)) s.data_buf (copied s.data_buf k)))
            (sym cleared)
          ∙ length-memcpy (zeros (length buffer)) s.data_buf
          ∙ cleared,
      length-memcpy buffer s.remaining_data,
      (λ fits. (
        (copied_all s.data_buf (length buffer) fits).0,
        ap (λ d. d ++ drop n (zeros (length buffer)))
            (copied_all s.data_buf (length buffer) fits).1,
        rw free cc,
      )),
      (λ fits. (
        (copied_all s.remaining_data (length buffer) fits).0,
        ap (λ d. d ++ drop m buffer) (copied_all s.remaining_data (length buffer) fits).1,
        rw free cc,
      )),
      (λ more.
          subst
            (λ k.
              (copied s.data_buf k ≡ k)
              × (memcpy (zeros (length buffer)) s.data_buf (copied s.data_buf k)
                  ≡ take k s.data_buf))
            cleared (memcpy_full (zeros (length buffer)) s.data_buf (omega (arith, cleared)))),
      memcpy_full buffer s.remaining_data,
    )
