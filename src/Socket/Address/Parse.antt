-- ===== src/Socket/Address/Parse.antt =====
-- What `getAddress` prints, `setAddress` reads back.
use synap_tcp.Base.{
  ℕ, ◌+◌, ◌≤◌, ◌<◌, ◌≡◌, refl, sym, ap, ◌∙◌, append-nil, Bool, true, false, ◌&&◌, List, [], ◌∷◌,
  ◌++◌, done, arith, ◌==◌, length, length-append,
}
use synap_tcp.Socket.{Socket, IsFree}
use synap_tcp.Socket.Address.{
  dot, scan_text, is_valid_ip_text, set_address_text, print_byte, print_bytes, get_address,
}
use synap_tcp.Socket.Address.Octets.{octets, set_address_text_lem}

length-print_byte : (v : ℕ) → length (print_byte v) ≤ 3
unfolding print_byte
length-print_byte v = ground arith

octets-print_byte :
    (v : ℕ) (rest : List ℕ) → v < 256 → octets (print_byte v ++ rest) 0 ≡ octets rest v
unfolding print_byte octets
octets-print_byte v rest h = ground arith

scan_text-print_byte :
    (v : ℕ) (rest : List ℕ) (prev : Bool) (cnt : ℕ)
    → v < 256
    → (cnt == 3 && v == 255) ≡ false
    → scan_text (print_byte v ++ rest) prev cnt 0 ≡ scan_text rest false cnt v
unfolding print_byte scan_text
scan_text-print_byte v rest prev cnt h not_last = ground arith

valid_print :
    (v : ℕ) (rest : List ℕ)
    → length (print_byte v ++ rest) ≤ 15
    → scan_text (print_byte v ++ rest) false 0 0 ≡ true
    → is_valid_ip_text (print_byte v ++ rest) ≡ true
unfolding print_byte is_valid_ip_text
valid_print v rest short scans = ground arith

scan_text-dot :
    (rest : List ℕ) (cnt value : ℕ)
    → cnt < 3
    → scan_text (dot ∷ rest) false cnt value ≡ scan_text rest true (cnt + 1) 0
unfolding scan_text
scan_text-dot rest cnt value h = ground arith

scan_text-nil : (value : ℕ) → scan_text [] false 3 value ≡ true
unfolding scan_text
scan_text-nil value = refl

module _ (a b c d : ℕ) (ha : a < 256) (hb : b < 256) (hc : c < 256) (hd : d < 255) where
  abbrev four : List ℕ
  four = a ∷ b ∷ c ∷ d ∷ []

  abbrev from_c : List ℕ
  from_c = print_byte c ++ dot ∷ print_byte d

  abbrev from_b : List ℕ
  from_b = print_byte b ++ dot ∷ from_c

  scan_last : scan_text (print_byte d) true 3 0 ≡ true
  scan_last =
      ap (λ x. scan_text x true 3 0) (sym (append-nil (print_byte d)))
      ∙ scan_text-print_byte d [] true 3 (omega arith) (ground arith)
      ∙ scan_text-nil d

  scan_four : scan_text (print_bytes four) false 0 0 ≡ true
  unfolding print_bytes
  scan_four =
      scan_text-print_byte a (dot ∷ from_b) false 0 ha refl
      ∙ scan_text-dot from_b 0 a (omega arith)
      ∙ scan_text-print_byte b (dot ∷ from_c) true 1 hb refl
      ∙ scan_text-dot from_c 1 b (omega arith)
      ∙ scan_text-print_byte c (dot ∷ print_byte d) true 2 hc refl
      ∙ scan_text-dot (print_byte d) 2 c (omega arith)
      ∙ scan_last

  octets-four : octets (print_bytes four) 0 ≡ four
  unfolding print_bytes octets
  octets-four =
      octets-print_byte a (dot ∷ from_b) ha
      ∙ ap (◌∷◌ a) (
          octets-print_byte b (dot ∷ from_c) hb
          ∙ ap (◌∷◌ b) (
              octets-print_byte c (dot ∷ print_byte d) hc
              ∙ ap (◌∷◌ c) (
                  ap (λ x. octets x 0) (sym (append-nil (print_byte d)))
                  ∙ octets-print_byte d [] (omega arith))))

  length-four : length (print_bytes four) ≤ 15
  unfolding print_bytes
  length-four =
      let last : ℕ = length (print_byte d) in omega (arith, length-print_byte, length-append {0})

  -- Four bytes, the last not 255, that the object holds are printed by `getAddress` in at most fifteen
  -- characters, the room of its buffer; `setAddress` accepts the text and stores the same bytes.
  pub set_address_text-get_address :
      (s t : Socket)
      → IsFree s
      → IsFree t
      → s.address ≡ four
      → (text : List ℕ) × (get_address s ≡ done (text, s))
        × (length text ≤ 15)
        × (set_address_text text t ≡ done (true, record t { address = four }))
  unfolding get_address print_bytes
  set_address_text-get_address s t fs ft e = (
    print_bytes four,
    ground arith,
    length-four,
    ((set_address_text_lem (print_bytes four) t ft).0
          (valid_print a (dot ∷ from_b) length-four scan_four)).0
        ∙ ap (λ x. done (true, record t { address = x })) octets-four,
  )
