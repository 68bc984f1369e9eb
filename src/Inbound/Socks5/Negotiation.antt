-- ===== src/Inbound/Socks5/Negotiation.antt =====
-- The command of inbound/socks5.ts and the addresses of protocol/address.ts.
use sepigs.Base.{
  ℕ, zero, suc, ◌+◌, ◌-◌, ◌*◌, ◌≤◌, ◌<◌, ◌≡◌, refl, sym, ap, ◌∙◌, subst, ◌⊎◌, inl, inr, List, [],
  ◌∷◌, ◌++◌, arith, ◌==◌, nat_eq, string_eq, Bool-cases, length, get_elem?, take, drop,
  length-append, take-append, drop-append, length-drop,
}
use sepigs.Base.Text.{Text, text_key}
use sepigs.Base.Result.{Result, ok, err}
use sepigs.Protocol.Destination.{Destination, Platform, make_destination}
use sepigs.Protocol.Address.{
  AddressError, decode_socks_address, decode_ipv4, decode_domain, decode_ipv6, read_port,
}
use sepigs.Base.Buffers.{drop-drop, drop-skip}
use sepigs.Inbound.Socks5.Reader.{whole}
use sepigs.Inbound.Socks5.{
  Session, Step, continue, and_then, read_from, read_exact, byte, read_socks_address, read_command,
}
use sepigs.Protocol.Address.RoundTrip.{read_port-skip}

byte-take : (xs : List ℕ) (n i : ℕ) → i < n → get_elem? (take n xs) i ≡ get_elem? xs i
byte-take [] zero i h = refl
byte-take [] (suc n) i h = refl
byte-take (x ∷ xs) zero i h = absurd (omega arith)
byte-take (x ∷ xs) (suc n) zero h = refl
byte-take (x ∷ xs) (suc n) (suc i) h = byte-take xs n i (omega arith)

byte-drop : (xs : List ℕ) (n i : ℕ) → get_elem? (drop n xs) i ≡ get_elem? xs (n + i)
byte-drop xs zero i = ap (get_elem? xs) (omega arith)
byte-drop [] (suc n) i = refl
byte-drop (x ∷ xs) (suc n) i =
    let e : suc n + i ≡ suc (n + i) = omega arith in
    byte-drop xs n i ∙ ap (get_elem? (x ∷ xs)) (sym e)

pub then-ok :
    {A B : Type 0} (m : Step A) (f : A → Step B) (s : Session) {a : A} {s' : Session}
    → m s ≡ (ok a, s')
    → and_then m f s ≡ f a s'
then-ok m f s h = ap (continue f) h

module _ (most : ℕ) (p : Platform) (c t : ℕ) (rest : List ℕ) (written : List (List ℕ))
    (d : Destination) (offset : ℕ) where
  abbrev message : List ℕ
  message = 5 ∷ c ∷ 0 ∷ t ∷ rest

  abbrev at_start : Session
  at_start = whole most message written

  -- The command was read, and the input behind it is left.
  abbrev IsRead : Type 0
  IsRead =
      read_command p at_start
      ≡ (ok (record { command = c; destination = d }), whole most (drop offset message) written)

  read_ipv4 : decode_ipv4 p message 3 ≡ ok (d, offset) → t ≡ 1 → IsRead
  unfolding decode_ipv4 read_port read_command read_from read_socks_address
  read_ipv4 h e = ground (
    arith,
    byte-take (drop 4 rest) 2 0,
    byte-take (drop 4 rest) 2 1,
    byte-drop rest 4 0,
    byte-drop rest 4 1,
    drop-drop 4 2 rest,
    length-drop 4 rest,
  )

  read_ipv6 : decode_ipv6 p message 3 ≡ ok (d, offset) → t ≡ 4 → IsRead
  unfolding decode_ipv6 read_port read_command read_from read_socks_address
  read_ipv6 h e = ground (
    arith,
    byte-take (drop 16 rest) 2 0,
    byte-take (drop 16 rest) 2 1,
    byte-drop rest 16 0,
    byte-drop rest 16 1,
    drop-drop 16 2 rest,
    length-drop 16 rest,
  )

pub exact_step :
    {most : ℕ} (xs rest : List ℕ) (written : List (List ℕ))
    → read_exact (length xs) (whole most (xs ++ rest) written) ≡ (ok xs, whole most rest written)
unfolding read_from
exact_step xs rest written =
    ground (arith, length-append xs rest, take-append xs rest, drop-append xs rest)

left_step :
    {most : ℕ} (left : List ℕ) (written : List (List ℕ))
    → 2 ≤ length left
    → read_exact 2 (whole most left written) ≡ (ok (take 2 left), whole most (drop 2 left) written)
unfolding read_from
left_step left written h = ground arith

port_bytes_read :
    (left : List ℕ)
    → 2 ≤ length left
    → byte (take 2 left) 0 * 256 + byte (take 2 left) 1 ≡ byte left 0 * 256 + byte left 1
port_bytes_read left h = ground (arith, byte-take left 2 0, byte-take left 2 1)

size_of_host : (n : ℕ) (rest : List ℕ) → take (5 + n - 5) rest ≡ take n rest
size_of_host n rest = ap (λ k. take k rest) (omega arith)

port_cases :
    (r : Result AddressError ℕ) → ((port : ℕ) × (r ≡ ok port)) ⊎ ((e : AddressError) × (r ≡ err e))
port_cases (ok port) = inl (port, refl)
port_cases (err e) = inr (e, refl)

-- The parts of a domain's encoding behind a request's head.
decoded_domain :
    (p : Platform) (c n : ℕ) (rest : List ℕ) (d : Destination) (offset : ℕ)
    → decode_domain p (5 ∷ c ∷ 0 ∷ 3 ∷ n ∷ rest) 3 ≡ ok (d, offset)
    → (port : ℕ) × (read_port rest n ≡ ok port)
      × (make_destination p (p.utf8_decode (take n rest)) port ≡ d)
      × (offset ≡ 5 + (n + 2))
unfolding decode_domain
decoded_domain p c n rest d offset h =
    let head : List ℕ = 5 ∷ c ∷ 0 ∷ 3 ∷ n ∷ [] in
    elim (port_cases (read_port (5 ∷ c ∷ 0 ∷ 3 ∷ n ∷ rest) (5 + n))) [
      | inl (port, at) ↦ (
        port,
        sym (read_port-skip p head rest n) ∙ at,
        ground (arith, size_of_host n rest),
        ground arith,
      )
      | inr (e, at) ↦ absurd (ground arith)
    ]

port_value :
    (n : ℕ) (rest : List ℕ) (port : ℕ)
    → read_port rest n ≡ ok port
    → byte (drop n rest) 0 * 256 + byte (drop n rest) 1 ≡ port
unfolding read_port
port_value n rest port h = ground (arith, byte-drop rest n 0, byte-drop rest n 1)

left_behind :
    (c n : ℕ) (rest : List ℕ) (offset : ℕ)
    → offset ≡ 5 + (n + 2)
    → drop 2 (drop n rest) ≡ drop offset (5 ∷ c ∷ 0 ∷ 3 ∷ n ∷ rest)
left_behind c n rest offset e =
    drop-drop n 2 rest
    ∙ sym (drop-skip (5 ∷ c ∷ 0 ∷ 3 ∷ n ∷ []) rest (n + 2))
    ∙ ap (λ i. drop i (5 ∷ c ∷ 0 ∷ 3 ∷ n ∷ rest)) (sym e)

module _ (most : ℕ) (p : Platform) (c n : ℕ) (rest : List ℕ) (written : List (List ℕ))
    (d : Destination) (offset : ℕ) where
  domain_step :
      1 ≤ n
      → n ≤ length rest
      → read_socks_address p 3 (whole most (n ∷ rest) written)
        ≡ (ok (p.utf8_decode (take n rest)), whole most (drop n rest) written)
  unfolding read_socks_address read_from
  domain_step h k = ground arith

  command_step :
      (host : Text) (left : List ℕ)
      → read_socks_address p 3 (whole most (n ∷ rest) written) ≡ (ok host, whole most left written)
      → 2 ≤ length left
      → read_command p (at_start most p c 3 (n ∷ rest) written d offset) ≡ (
        ok (record {
          command = c;
          destination = make_destination p host (byte left 0 * 256 + byte left 1);
        }),
        whole most (drop 2 left) written,
      )
  unfolding read_command
  command_step host left h k =
      then-ok (read_exact 4) _ _ (exact_step (5 ∷ c ∷ 0 ∷ 3 ∷ []) (n ∷ rest) written)
      ∙ then-ok (read_socks_address p 3) _ _ h
      ∙ then-ok (read_exact 2) _ _ (left_step left written k)
      ∙ ap
          (λ i. (
            ok (record { command = c; destination = make_destination p host i }),
            whole most (drop 2 left) written,
          ))
          (port_bytes_read left k)

  read_domain-read :
      decode_domain p (message most p c 3 (n ∷ rest) written d offset) 3 ≡ ok (d, offset)
      → IsRead most p c 3 (n ∷ rest) written d offset
  unfolding decode_domain read_port
  read_domain-read h =
      let (port, at, made, size) = decoded_domain p c n rest d offset h in
      command_step _ _ (domain_step (ground arith) (ground arith))
        (ground (arith, length-drop n rest))
      ∙ ap
          (λ l. (
            ok (record {
              command = c;
              destination =
                  make_destination p (p.utf8_decode (take n rest))
                    (byte (drop n rest) 0 * 256 + byte (drop n rest) 1);
            }),
            whole most l written,
          ))
          (left_behind c n rest offset size)
      ∙ ap
          (λ e. (
            ok (record { command = c; destination = e }),
            whole most (drop offset (5 ∷ c ∷ 0 ∷ 3 ∷ n ∷ rest)) written,
          ))
          (ap (make_destination p (p.utf8_decode (take n rest))) (port_value n rest port at) ∙ made)

-- A request of SOCKS5 that decode_socks_address reads behind its first three bytes is read as that
-- destination, whatever the command, and the bytes behind it are left.
pub read_command-decode :
    (most : ℕ) (p : Platform) (c : ℕ) (body : List ℕ) (written : List (List ℕ)) (d : Destination)
    (offset : ℕ)
    → decode_socks_address p (5 ∷ c ∷ 0 ∷ body) 3 ≡ ok (d, offset)
    → read_command p (whole most (5 ∷ c ∷ 0 ∷ body) written) ≡ (
      ok (record { command = c; destination = d }),
      whole most (drop offset (5 ∷ c ∷ 0 ∷ body)) written,
    )
unfolding decode_socks_address decode_domain decode_ipv4 decode_ipv6
read_command-decode most p c [] written d offset h = absurd (cc h)
read_command-decode most p c (t ∷ []) written d offset h = absurd (ground arith)
read_command-decode most p c (t ∷ n ∷ rest) written d offset h = elim (Bool-cases (t == 1)) [
  | inl one ↦ read_ipv4 most p c t (n ∷ rest) written d offset (ground arith) (ground arith)
  | inr not_one ↦ elim (Bool-cases (t == 3)) [
    | inl three ↦
        subst
          (λ k. read_command p (whole most (5 ∷ c ∷ 0 ∷ k ∷ n ∷ rest) written) ≡ (
            ok (record { command = c; destination = d }),
            whole most (drop offset (5 ∷ c ∷ 0 ∷ k ∷ n ∷ rest)) written,
          ))
          (ground arith) (read_domain-read most p c n rest written d offset (ground arith))
    | inr not_three ↦ elim (Bool-cases (t == 4)) [
      | inl four ↦ read_ipv6 most p c t (n ∷ rest) written d offset (ground arith) (ground arith)
      | inr not_four ↦ absurd (ground arith)
    ]
  ]
]
