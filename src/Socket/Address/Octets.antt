-- ===== src/Socket/Address/Octets.antt =====
-- An accepted text is a list of octets, and the setter stores their values.
use synap_tcp.Base.{
  ℕ, ◌+◌, ◌-◌, ◌*◌, ◌%◌, ◌^◌, ◌≤◌, ◌<◌, ◌≡◌, refl, ap, inl, inr, Bool, true, false, List, [], ◌∷◌,
  done, blocked, arith, ◌==◌, if◌then◌else◌, Bool-cases, length,
}
use synap_tcp.Socket.{Socket, IsFree}
use synap_tcp.Socket.Address.{
  dot, scan_text, is_valid_ip_text, is_valid_ip_vector, parse_text, set_address_text, get_address,
  print_bytes,
}

-- The values of the parts between the dots, as numbers of any size.
unfoldable pub octets : List ℕ → ℕ → List ℕ
octets [] value = value ∷ []
octets (c ∷ rest) value =
    if c == dot then value ∷ octets rest 0 else octets rest (value * 10 + (c - 0x30))

abbrev pub AllBytes : List ℕ → Type 0
AllBytes [] = Unit
AllBytes (x ∷ xs) = (x < 256) × AllBytes xs

-- The last octet is not 255 if it is the one after three dots.
abbrev pub LastOk : ℕ → List ℕ → Type 0
LastOk cnt [] = Unit
LastOk cnt (x ∷ []) = cnt ≡ 3 → x < 255
LastOk cnt (x ∷ y ∷ rest) = LastOk (cnt + 1) (y ∷ rest)

pub record Accepted (text : List ℕ) (cnt value : ℕ) : Type 0 where
  same : parse_text text value ≡ octets text value
  bytes : AllBytes (octets text value)
  few : cnt + length (octets text value) ≤ 4
  last : LastOk cnt (octets text value)

octets_pos : (text : List ℕ) (value : ℕ) → 0 < length (octets text value)
unfolding octets
octets_pos [] value = omega arith
octets_pos (c ∷ rest) value = ground (arith, octets_pos rest (value * 10 + (c - 0x30)))

LastOk-cons : (cnt v : ℕ) (xs : List ℕ) → 0 < length xs → LastOk (cnt + 1) xs → LastOk cnt (v ∷ xs)
LastOk-cons cnt v [] some_left h = absurd (omega arith)
LastOk-cons cnt v (x ∷ xs) some_left h = h

scan_dot :
    (c : ℕ) (rest : List ℕ) (prev : Bool) (cnt value : ℕ)
    → (c == dot) ≡ true
    → scan_text (c ∷ rest) prev cnt value ≡ true
    → scan_text rest true ((cnt + 1) % 2 ^ 16) 0 ≡ true
unfolding scan_text
scan_dot c rest prev cnt value e h = ground arith

scan_digit :
    (c : ℕ) (rest : List ℕ) (prev : Bool) (cnt value : ℕ)
    → (c == dot) ≡ false
    → scan_text (c ∷ rest) prev cnt value ≡ true
    → let next = (value * 10 + (c - 0x30)) % 2 ^ 16 in
      (next < 256) × (c ≤ 0x39) × (cnt ≡ 3 → next < 255) × (scan_text rest false cnt next ≡ true)
unfolding scan_text
scan_digit c rest prev cnt value e h =
    (ground arith, ground arith, (λ three. ground arith), ground arith)

scan_text-Accepted :
    (text : List ℕ) (prev : Bool) (cnt value : ℕ)
    → cnt + length text ≤ 16
    → value < 256
    → (cnt ≡ 3 → value < 255)
    → scan_text text prev cnt value ≡ true
    → Accepted text cnt value
unfolding scan_text parse_text octets
scan_text-Accepted [] prev cnt value short small last h = record {
  same = refl;
  bytes = (small, tt);
  few = ground arith;
  last = last;
}
scan_text-Accepted (c ∷ rest) prev cnt value short small last h = elim (Bool-cases (c == dot)) [
  | inl e ↦
      let wrap : (cnt + 1) % 2 ^ 16 ≡ cnt + 1 = omega arith in
      let a : Accepted rest (cnt + 1) 0 =
        scan_text-Accepted rest true (cnt + 1) 0 (omega arith) (omega arith) (λ _. omega arith)
          (rw wrap at (scan_dot c rest prev cnt value e h)) in
      record {
        same = rw e (ap (◌∷◌ value) a.same);
        bytes = rw e (small, a.bytes);
        few = rw e (omega (arith, a.few));
        last = rw e (LastOk-cons cnt value (octets rest 0) (octets_pos rest 0) a.last);
      }
  | inr e ↦
      let next : ℕ = value * 10 + (c - 0x30) in
      let (below, digit, not_last, h') = scan_digit c rest prev cnt value e h in
      let wrap : next % 2 ^ 16 ≡ next = omega arith in
      let a : Accepted rest cnt next =
        scan_text-Accepted rest false cnt next (omega arith) (rw wrap at below)
          (rw wrap at not_last) (rw wrap at h') in
      let wrap' : next % 2 ^ 8 ≡ next = omega (arith, below) in
      record {
        same = rw (e, wrap') a.same;
        bytes = rw e a.bytes;
        few = rw e a.few;
        last = rw e a.last;
      }
]

valid_scans :
    (text : List ℕ)
    → is_valid_ip_text text ≡ true
    → (length text ≤ 15) × (scan_text text false 0 0 ≡ true)
unfolding is_valid_ip_text
valid_scans [] h = cc
valid_scans (c ∷ rest) h = (ground arith, ground arith)

pub valid-Accepted : (text : List ℕ) → is_valid_ip_text text ≡ true → Accepted text 0 0
valid-Accepted text h =
    let (short, scans) = valid_scans text h in
    scan_text-Accepted text false 0 0 (omega arith) (omega arith) (λ _. omega arith) scans

four_valid : (xs : List ℕ) → length xs ≡ 4 → LastOk 0 xs → is_valid_ip_vector xs ≡ true
unfolding is_valid_ip_vector
four_valid [] e h = absurd (omega arith)
four_valid (a ∷ []) e h = absurd (omega arith)
four_valid (a ∷ b ∷ []) e h = absurd (omega arith)
four_valid (a ∷ b ∷ c ∷ []) e h = absurd (omega arith)
four_valid (a ∷ b ∷ c ∷ d ∷ []) e h = ground (arith, h refl)
four_valid (a ∷ b ∷ c ∷ d ∷ x ∷ rest) e h = absurd (omega arith)

-- On a free socket: whatever text is accepted, the vector holds the octets that it denotes, at
-- most four bytes with no overflow; four of them pass the check of a vector, so that the last is
-- not 255. A text that is refused changes nothing.
pub set_address_text_lem :
    (text : List ℕ) (s : Socket)
    → IsFree s
    → (is_valid_ip_text text ≡ true
        → (set_address_text text s ≡ done (true, record s { address = octets text 0 }))
          × AllBytes (octets text 0)
          × (length (octets text 0) ≤ 4)
          × (length (octets text 0) ≡ 4 → is_valid_ip_vector (octets text 0) ≡ true))
      × (is_valid_ip_text text ≡ false → set_address_text text s ≡ done (false, s))
unfolding set_address_text
set_address_text_lem text s free = (accepted, λ h. ground arith)
  where
    accepted :
        is_valid_ip_text text ≡ true
        → (set_address_text text s ≡ done (true, record s { address = octets text 0 }))
          × AllBytes (octets text 0)
          × (length (octets text 0) ≤ 4)
          × (length (octets text 0) ≡ 4 → is_valid_ip_vector (octets text 0) ≡ true)
    accepted h =
        let a = valid-Accepted text h in
        (
          ground (arith, a.same),
          a.bytes,
          omega (arith, a.few),
          λ e. four_valid (octets text 0) e a.last,
        )

-- On a free socket, after an accepted text that denotes fewer than four octets `getAddress` waits
-- for ever, and after one that denotes four it prints them and leaves the object as it is.
pub get_address-set_address_text :
    (text : List ℕ) (s : Socket)
    → IsFree s
    → is_valid_ip_text text ≡ true
    → (s' : Socket) × (set_address_text text s ≡ done (true, s'))
      × (length (octets text 0) < 4 → get_address s' ≡ blocked)
      × (length (octets text 0) ≡ 4 → get_address s' ≡ done (print_bytes (octets text 0), s'))
unfolding get_address
get_address-set_address_text text s free h = (
  record s { address = octets text 0 },
  ((set_address_text_lem text s free).0 h).0,
  (λ few. ground arith),
  λ e. ground arith,
)
