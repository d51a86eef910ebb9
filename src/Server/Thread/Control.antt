-- ===== src/Server/Thread/Control.antt =====
-- The order of the statements of `eventCheck` and `receptionThreadHandler` (src/tcp-server.cpp), apart from
-- what they do to the node and the system.
use synap_tcp.Base.{
  ℕ, ◌≡◌, refl, sym, ap, ◌∙◌, subst, Bool, true, false, Option, none, some, inl, inr, Bool-cases, ℤ,
  if◌then◌else◌,
}
use synap_tcp.Socket.Os.{Os}
use synap_tcp.Server.Thread.{
  MainAt, at_pipe, at_create, at_lock, at_wait, asleep, woken, at_unlock, returned, ThreadAt,
  unborn, at_start, at_first_lock, at_signal, at_first_unlock, at_callback, at_last_lock, at_detach,
  at_clear, at_time, at_write, at_last_unlock, ended, astray, Handshake, Threads, Turn, of_main,
  of_thread, of_wakeup, wake, is_returned, with_pipe, with_thread, locked, wakeup_move, main_move,
  thread_move, move,
}

-- A move from where `eventCheck` and the thread are, with the mutex free or held, to where they are then.
pub data Control : Turn → MainAt → ThreadAt → Bool → MainAt → ThreadAt → Bool → Type 0 where
  makes_pipe : (t : ThreadAt) (b : Bool) → Control of_main at_pipe t b at_create t b
  creates : (t : ThreadAt) (b : Bool) → Control of_main at_create t b at_lock at_start b
  fails : (t : ThreadAt) (b : Bool) → Control of_main at_create t b returned t b
  locks : (t : ThreadAt) → Control of_main at_lock t false at_wait t true
  waits : (t : ThreadAt) (b : Bool) → Control of_main at_wait t b asleep t false
  locks_again : (t : ThreadAt) → Control of_main woken t false at_unlock t true
  unlocks : (t : ThreadAt) (b : Bool) → Control of_main at_unlock t b returned t false
  wakes_up : (t : ThreadAt) (b : Bool) → Control of_wakeup asleep t b woken t b
  starts :
      (m : MainAt) (b : Bool)
      → is_returned m ≡ false
      → Control of_thread m at_start b m at_first_lock b
  strays : (b : Bool) → Control of_thread returned at_start b returned astray b
  first_locks : (m : MainAt) → Control of_thread m at_first_lock false m at_signal true
  signals : (m : MainAt) (b : Bool) → Control of_thread m at_signal b (wake m) at_first_unlock b
  first_unlocks :
      (m : MainAt) (b : Bool) → Control of_thread m at_first_unlock b m at_callback false
  calls_back : (m : MainAt) (b : Bool) → Control of_thread m at_callback b m at_last_lock b
  last_locks : (m : MainAt) → Control of_thread m at_last_lock false m at_detach true
  detaches : (m : MainAt) (b : Bool) → Control of_thread m at_detach b m at_clear b
  clears : (m : MainAt) (b : Bool) → Control of_thread m at_clear b m at_time b
  dates : (m : MainAt) (b : Bool) → Control of_thread m at_time b m at_write b
  writes : (m : MainAt) (b : Bool) → Control of_thread m at_write b m at_last_unlock b
  last_unlocks : (m : MainAt) (b : Bool) → Control of_thread m at_last_unlock b m ended false

module _ {W : Type 0} (os : Os W) (threads : Threads W) where
  some-injective : (x s' : Handshake W) → some x ≡ some s' → x ≡ s'
  some-injective x s' e = ap (λ (o : Option (Handshake W)). elim o [ none ↦ x | some y ↦ y ]) e

  abbrev Moved : Turn → MainAt → ThreadAt → Bool → Handshake W → Type 0
  Moved who m t b s' = Control who m t b s'.main s'.thread s'.mtx

  arrives :
      (who : Turn) (m : MainAt) (t : ThreadAt) (b : Bool) (x s' : Handshake W)
      → Moved who m t b x
      → some x ≡ some s'
      → Moved who m t b s'
  arrives who m t b x s' moved run = subst (Moved who m t b) (some-injective x s' run) moved

  locked-Moved :
      (who : Turn) (m : MainAt) (t : ThreadAt) (s x s' : Handshake W)
      → Control who m t false x.main x.thread true
      → locked os threads s x ≡ some s'
      → Moved who m t s.mtx s'
  locked-Moved who m t s x s' moved run = elim (Bool-cases s.mtx) [
    | inl held ↦ let stays : none ≡ some s' = sym (rw held refl) ∙ run in cc
    | inr at_rest ↦
        let goes : locked os threads s x ≡ some (record x { mtx = true }) = rw at_rest refl in
        arrives who m t s.mtx (record x { mtx = true }) s'
          (subst (λ b. Control who m t b x.main x.thread true) (sym at_rest) moved) (sym goes ∙ run)
  ]

  with_pipe-Moved :
      (o : Option (ℤ × ℤ)) (w : W) (s : Handshake W)
      → Moved of_main at_pipe s.thread s.mtx (with_pipe os threads o w s)
  with_pipe-Moved none w s = makes_pipe s.thread s.mtx
  with_pipe-Moved (some (out, into)) w s = makes_pipe s.thread s.mtx

  with_thread-Moved :
      (o : Option ℕ) (w : W) (s : Handshake W)
      → Moved of_main at_create s.thread s.mtx (with_thread os threads o w s)
  with_thread-Moved none w s = fails s.thread s.mtx
  with_thread-Moved (some t) w s = creates s.thread s.mtx

  main_move-Moved :
      (m : MainAt) (s s' : Handshake W)
      → main_move os threads m s ≡ some s'
      → Moved of_main m s.thread s.mtx s'
  unfolding main_move
  main_move-Moved at_pipe s s' run =
      arrives of_main at_pipe s.thread s.mtx _ s' (with_pipe-Moved _ _ s) run
  main_move-Moved at_create s s' run =
      arrives of_main at_create s.thread s.mtx _ s' (with_thread-Moved _ _ s) run
  main_move-Moved at_lock s s' run =
      locked-Moved of_main at_lock s.thread s (record s { main = at_wait }) s' (locks s.thread) run
  main_move-Moved at_wait s s' run =
      arrives of_main at_wait s.thread s.mtx _ s' (waits s.thread s.mtx) run
  main_move-Moved asleep s s' run = cc
  main_move-Moved woken s s' run =
      locked-Moved of_main woken s.thread s (record s { main = at_unlock }) s'
        (locks_again s.thread) run
  main_move-Moved at_unlock s s' run =
      arrives of_main at_unlock s.thread s.mtx _ s' (unlocks s.thread s.mtx) run
  main_move-Moved returned s s' run = cc

  start-Moved :
      (m : MainAt) (b : Bool)
      → Control of_thread m at_start b m (if is_returned m then astray else at_first_lock) b
  start-Moved at_pipe b = starts at_pipe b refl
  start-Moved at_create b = starts at_create b refl
  start-Moved at_lock b = starts at_lock b refl
  start-Moved at_wait b = starts at_wait b refl
  start-Moved asleep b = starts asleep b refl
  start-Moved woken b = starts woken b refl
  start-Moved at_unlock b = starts at_unlock b refl
  start-Moved returned b = strays b

  thread_move-Moved :
      (t : ThreadAt) (s s' : Handshake W)
      → thread_move os threads t s ≡ some s'
      → Moved of_thread s.main t s.mtx s'
  unfolding thread_move
  thread_move-Moved unborn s s' run = cc
  thread_move-Moved at_start s s' run =
      arrives of_thread s.main at_start s.mtx _ s' (start-Moved s.main s.mtx) run
  thread_move-Moved at_first_lock s s' run =
      locked-Moved of_thread s.main at_first_lock s (record s { thread = at_signal }) s'
        (first_locks s.main) run
  thread_move-Moved at_signal s s' run =
      arrives of_thread s.main at_signal s.mtx _ s' (signals s.main s.mtx) run
  thread_move-Moved at_first_unlock s s' run =
      arrives of_thread s.main at_first_unlock s.mtx _ s' (first_unlocks s.main s.mtx) run
  thread_move-Moved at_callback s s' run =
      arrives of_thread s.main at_callback s.mtx _ s' (calls_back s.main s.mtx) run
  thread_move-Moved at_last_lock s s' run =
      locked-Moved of_thread s.main at_last_lock s (record s { thread = at_detach }) s'
        (last_locks s.main) run
  thread_move-Moved at_detach s s' run =
      arrives of_thread s.main at_detach s.mtx _ s' (detaches s.main s.mtx) run
  thread_move-Moved at_clear s s' run =
      arrives of_thread s.main at_clear s.mtx _ s' (clears s.main s.mtx) run
  thread_move-Moved at_time s s' run =
      arrives of_thread s.main at_time s.mtx _ s' (dates s.main s.mtx) run
  thread_move-Moved at_write s s' run =
      arrives of_thread s.main at_write s.mtx _ s' (writes s.main s.mtx) run
  thread_move-Moved at_last_unlock s s' run =
      arrives of_thread s.main at_last_unlock s.mtx _ s' (last_unlocks s.main s.mtx) run
  thread_move-Moved ended s s' run = cc
  thread_move-Moved astray s s' run = cc

  wakeup_move-Moved :
      (m : MainAt) (s s' : Handshake W)
      → wakeup_move os threads m s ≡ some s'
      → Moved of_wakeup m s.thread s.mtx s'
  wakeup_move-Moved at_pipe s s' run = cc
  wakeup_move-Moved at_create s s' run = cc
  wakeup_move-Moved at_lock s s' run = cc
  wakeup_move-Moved at_wait s s' run = cc
  wakeup_move-Moved asleep s s' run =
      arrives of_wakeup asleep s.thread s.mtx _ s' (wakes_up s.thread s.mtx) run
  wakeup_move-Moved woken s s' run = cc
  wakeup_move-Moved at_unlock s s' run = cc
  wakeup_move-Moved returned s s' run = cc

  -- Every move follows the order of the statements.
  pub move-Moved :
      (who : Turn) (s s' : Handshake W)
      → move os threads who s ≡ some s'
      → Moved who s.main s.thread s.mtx s'
  unfolding move
  move-Moved of_main s s' run = main_move-Moved s.main s s' run
  move-Moved of_thread s s' run = thread_move-Moved s.thread s s' run
  move-Moved of_wakeup s s' run = wakeup_move-Moved s.main s s' run
