-- ===== src/Socket/Search/Rounds.antt =====
-- The search loop ends, and finds the first occurrence.
use synap_tcp.Base.{
  ℕ, zero, suc, ◌+◌, ◌-◌, ◌≤◌, ◌<◌, ◌≡◌, refl, sym, ap, ◌∙◌, ◌⊎◌, inl, inr, true, false, List, [],
  ◌++◌, append_assoc, append-nil, done, arith, leb, ◌==◌, Bool-cases, length, length-append,
  length_zero,
}
use synap_tcp.Socket.{Socket}
use synap_tcp.Socket.Os.{Os, IsStream}
use synap_tcp.Socket.Receive.Total.{IsReady, with_input}
use synap_tcp.Socket.Collect.Input.{to_come, next_input_total}
use synap_tcp.Socket.Receive.Prompt.{IsPrompt}
use synap_tcp.Socket.Collect.Prompt.{next_input_ended}
use synap_tcp.Socket.Collect.Exact.{IsLast, IsLast-append}
use synap_tcp.Socket.Search.{Round, init_round, next_check, find_from, search_round, search_loop}
use synap_tcp.Socket.Search.Find.{
  occurs_at, NoneIn, find_from-Finding, NoneIn-join, take-drop-append,
}

module _ (mark : List ℕ) where
  -- The bytes received so far hold no occurrence.
  pub record IsSearching (r : Round) : Type 0 where
    pub unfound : r.found ≡ false
    pub checked : (r.idx_check + length mark ≤ length r.tmp + 1) ⊎ (r.idx_check ≡ 0)
    pub nowhere : (k : ℕ) → k + length mark ≤ length r.tmp → occurs_at mark r.tmp k ≡ false
    pub passed : length mark ≤ length r.tmp → r.i + length mark ≡ length r.tmp + 1

  -- The first occurrence stands at `i`.
  pub record IsFound (r : Round) : Type 0 where
    pub is_found : r.found ≡ true
    pub code : r.ret ≡ 0
    pub fits : r.i + length mark ≤ length r.tmp
    pub here : occurs_at mark r.tmp r.i ≡ true
    pub before : NoneIn mark r.tmp 0 r.i

  -- What was searched before the bytes came need not be searched again.
  none_before_check :
      (r : Round) (bytes : List ℕ)
      → IsSearching r
      → NoneIn mark (r.tmp ++ bytes) 0 (next_check (length mark) r)
  none_before_check r bytes v k ge lt =
      rw (take-drop-append k (length mark) r.tmp bytes fits) (v.nowhere k fits)
    where
      fits : k + length mark ≤ length r.tmp
      fits = ground (arith, v.checked)

  check_fits :
      (r : Round) (bytes : List ℕ)
      → IsSearching r
      → length mark ≤ length (r.tmp ++ bytes)
      → next_check (length mark) r + length mark ≤ length (r.tmp ++ bytes) + 1
  check_fits r bytes v h = ground (arith, v.checked, length-append r.tmp bytes)

  check_keeps :
      (r : Round) (bytes : List ℕ)
      → IsSearching r
      → (next_check (length mark) r + length mark ≤ length (r.tmp ++ bytes) + 1)
        ⊎ (next_check (length mark) r ≡ 0)
  check_keeps r bytes v = ground (arith, v.checked, length-append r.tmp bytes)

  pub search_round_lem :
      (r : Round) (bytes : List ℕ)
      → IsSearching r
      → IsFound (search_round mark r (r.tmp ++ bytes))
        ⊎ IsSearching (search_round mark r (r.tmp ++ bytes))
  unfolding search_round
  search_round_lem r bytes v = elim (Bool-cases (leb (length mark) (length (r.tmp ++ bytes)))) [
    | inr short ↦ rw short (
        inr (record {
          unfound = v.unfound;
          checked = check_keeps r bytes v;
          nowhere = λ k h. absurd (ground arith);
          passed = λ h. absurd (ground arith);
        }))
    | inl long ↦
        let got : List ℕ = r.tmp ++ bytes in
        let check : ℕ = next_check (length mark) r in
        let rounds : ℕ = length got - length mark + 1 - check in
        let room : check + length mark ≤ length got + 1 = check_fits r bytes v (ground arith) in
        let end : check + rounds ≡ length got + 1 - length mark = ground arith in
        rw long (elim (find_from-Finding rounds check (length got + 1 - length mark) mark got end) [
          | inl (hit, ge, lt, at, none) ↦ inl (record {
            is_found = hit;
            code = refl;
            fits = omega arith;
            here = at;
            before =
                NoneIn-join mark got check (find_from rounds check mark got).1
                  (none_before_check r bytes v) none;
          })
          | inr (miss, at_end, none) ↦ inr (record {
            unfound = miss;
            checked = inl room;
            nowhere = λ k h.
                NoneIn-join mark got check (length got + 1 - length mark)
                  (none_before_check r bytes v) none k (omega arith) (omega arith);
            passed = λ h. omega (arith, at_end);
          })
        ])
  ]

pub IsSearching-init : (mark : List ℕ) → 0 < length mark → IsSearching mark init_round
IsSearching-init mark some_mark = record {
  unfound = refl;
  checked = inr refl;
  nowhere = λ k h. absurd (omega arith);
  passed = λ h. absurd (omega arith);
}

tmp-search_round : (mark : List ℕ) (r : Round) (got : List ℕ) → (search_round mark r got).tmp ≡ got
unfolding search_round
tmp-search_round mark r got = ground arith

module _ {W : Type 0} (os : Os W) (st : IsStream os) (mark : List ℕ) where
  open st use {incoming}

  -- How the loop ends: with the first occurrence, or at a timeout without one.
  abbrev pub SearchEnd : Round → List ℕ → W → Type 0
  SearchEnd r last w =
      IsFound mark r
      ⊎ (IsSearching mark r × (r.ret ≡ 2) × (last ≡ []) × (IsPrompt st → incoming w ≡ []))

  pub search_loop_total :
      (fuel : ℕ) (r : Round) (s : Socket) (w : W)
      → IsReady s
      → IsSearching mark r
      → s.keep_alive_ms + length (to_come os st s w) < fuel
      → (r' : Round) × (last : List ℕ) × (w' : W) × (search_loop os fuel mark r s w
          ≡ done (r', with_input s last, w'))
        × (r'.tmp ++ incoming w' ≡ r.tmp ++ to_come os st s w)
        × IsLast last r'.tmp
        × SearchEnd r' last w'
  unfolding search_loop search_round
  search_loop_total zero r s w ready v hf = absurd (omega arith)
  search_loop_total (suc fuel) r s w ready v hf =
      let (bytes, w₁, ran, front) =
        next_input_total os st (suc fuel) (length mark) s w ready (omega arith) in
      let size : length bytes + length (incoming w₁) ≡ length (to_come os st s w) =
        sym (length-append bytes (incoming w₁)) ∙ ap length front in
      elim (Bool-cases (length bytes == 0)) [
        | inl empty ↦
            let nothing : bytes ≡ [] = length_zero bytes (ground arith) in
            let same : incoming w₁ ≡ to_come os st s w =
              sym (ap (λ b. b ++ incoming w₁) nothing) ∙ front in
            (
              record r { ret = 2 },
              bytes,
              w₁,
              rw (ran, empty) refl,
              ap (◌++◌ r.tmp) same,
              (λ e. nothing ∙ sym (length_zero r.tmp (sym e ∙ ap length nothing))),
              inr (
                record {
                  unfound = v.unfound;
                  checked = v.checked;
                  nowhere = v.nowhere;
                  passed = v.passed;
                },
                refl,
                nothing,
                λ prompt.
                    next_input_ended os st prompt (suc fuel) (length mark) s w bytes w₁ ready
                      (omega arith) ran front nothing,
              ),
            )
        | inr some_bytes ↦
            let all : (r.tmp ++ bytes) ++ incoming w₁ ≡ r.tmp ++ to_come os st s w =
              append_assoc r.tmp bytes (incoming w₁) ∙ ap (◌++◌ r.tmp) front in
            let got : (r.tmp ++ bytes) ++ [] ≡ r.tmp ++ bytes = append-nil (r.tmp ++ bytes) in
            let r' : Round = search_round mark r (r.tmp ++ bytes) in
            let grown : r'.tmp ≡ r.tmp ++ bytes = tmp-search_round mark r (r.tmp ++ bytes) in
            let all' : r'.tmp ++ incoming w₁ ≡ r.tmp ++ to_come os st s w =
              ap (λ t. t ++ incoming w₁) grown ∙ all in
            elim (search_round_lem mark r bytes v) [
              | inl hit ↦ (
                r',
                bytes,
                w₁,
                rw (ran, some_bytes, got, hit.is_found) refl,
                all',
                rw grown (IsLast-append r.tmp bytes),
                inl hit,
              )
              | inr miss ↦
                  let (r'', last, w', run, eq, is_last, end) =
                    search_loop_total fuel r' (with_input s bytes) w₁ (refl, ready.1, ready.2) miss
                      (ground (arith, size)) in
                  (
                    r'',
                    last,
                    w',
                    rw (ran, some_bytes, got, miss.unfound) run,
                    eq ∙ all',
                    is_last,
                    end,
                  )
            ]
      ]
