-- ===== src/Inbound/Socks5/Accepting.antt =====
-- The handshake of inbound/socks5.ts: what a client sends that it accepts, in whatever chunks.
use sepigs.Base.{
  map, Option, none, ◌≤◌, ℕ, ◌+◌, ◌≡◌, ap, ◌∙◌, subst, Bool, true, not, some, List, [], ◌∷◌, ◌++◌,
  ◌==◌, if◌then◌else◌, nat_eq, string_eq, length, drop-append,
}
use sepigs.Base.Digits.{decimal, to_hex}
use sepigs.Protocol.Address.{byte_groups}
use sepigs.Base.Text.{join, Text, text_key}
use sepigs.Base.Result.{Result, ok}
use sepigs.Protocol.Destination.{IsWellFormed, Destination, Platform, IsPlatform}
use sepigs.Protocol.Address.{encode_socks_address, decode_socks_address}
use sepigs.Protocol.Address.DecodeEncode.{IsSendable, decode-encode}
use sepigs.Base.Buffers.{drop-skip}
use sepigs.Inbound.Socks5.{
  wrong_credentials, invalid_header, invalid_domain_length, unsupported_address, no_plain_method,
  Socks5Command, read_domain, read_socks_address, read_command, invalid_greeting,
  invalid_auth_packet, no_password_method, Socks5Error, Socks5Auth, Session, Step, throw, and_then,
  write, byte, check_credentials, authenticate_user_pass, has_method, choose_method, negotiate_auth,
  handshake,
}
use sepigs.Inbound.Socks5.Negotiation.{then-ok, read_command-decode}
use sepigs.Inbound.Socks5.Reader.{
  unread, whole, IsUniform, read_exact-IsUniform, return-IsUniform, throw-IsUniform,
  write-IsUniform, then-IsUniform, if-IsUniform,
}
use sepigs.Inbound.Socks5.Credentials.{greeting_bytes, credential_bytes, accepted}

check_credentials-IsUniform :
    (p : Platform) (auth : Socks5Auth) (user pass : Text)
    → IsUniform (check_credentials p auth user pass)
check_credentials-IsUniform p auth user pass =
    if-IsUniform _ _ _
      (then-IsUniform _ _ (write-IsUniform (1 ∷ 1 ∷ [])) (λ _. throw-IsUniform wrong_credentials))
      (write-IsUniform (1 ∷ 0 ∷ []))

authenticate_user_pass-IsUniform :
    (p : Platform) (auth : Socks5Auth) → IsUniform (authenticate_user_pass p auth)
unfolding authenticate_user_pass
authenticate_user_pass-IsUniform p auth = then-IsUniform _ _ (read_exact-IsUniform 2) (λ head.
    if-IsUniform _ _ _ (throw-IsUniform invalid_auth_packet) (
      then-IsUniform _ _ (read_exact-IsUniform (byte head 1)) (λ username.
        then-IsUniform _ _ (read_exact-IsUniform 1) (λ size.
          then-IsUniform _ _ (read_exact-IsUniform (byte size 0)) (λ password.
            check_credentials-IsUniform p auth (p.utf8_decode username)
              (p.utf8_decode password))))))

refusal-IsUniform :
    (e : Socks5Error) (m : Step (Unit {0})) (offered : Bool)
    → IsUniform m
    → IsUniform (if not offered then and_then (write (5 ∷ 255 ∷ [])) (λ _. throw e) else m)
refusal-IsUniform e m offered u =
    if-IsUniform _ _ _
      (then-IsUniform _ _ (write-IsUniform (5 ∷ 255 ∷ [])) (λ _. throw-IsUniform e)) u

choose_method-IsUniform :
    (p : Platform) (auth : Option Socks5Auth) (methods : List ℕ)
    → IsUniform (choose_method p auth methods)
unfolding choose_method
choose_method-IsUniform p none methods =
    refusal-IsUniform no_plain_method _ _ (write-IsUniform (5 ∷ 0 ∷ []))
choose_method-IsUniform p (some auth) methods =
    if-IsUniform _ _ _
      (refusal-IsUniform no_password_method _ _ (
        then-IsUniform _ _ (write-IsUniform (5 ∷ 2 ∷ []))
          (λ _. authenticate_user_pass-IsUniform p auth)))
      (refusal-IsUniform no_plain_method _ _ (write-IsUniform (5 ∷ 0 ∷ [])))

negotiate_auth-IsUniform :
    (p : Platform) (auth : Option Socks5Auth) → IsUniform (negotiate_auth p auth)
unfolding negotiate_auth
negotiate_auth-IsUniform p auth = then-IsUniform _ _ (read_exact-IsUniform 2) (λ head.
    if-IsUniform _ _ _ (throw-IsUniform invalid_greeting)
      (then-IsUniform _ _ (read_exact-IsUniform (byte head 1)) (choose_method-IsUniform p auth)))

read_domain-IsUniform : (p : Platform) (n : ℕ) → IsUniform (read_domain p n)
read_domain-IsUniform p n =
    if-IsUniform _ _ _ (throw-IsUniform invalid_domain_length) (
      then-IsUniform _ _ (read_exact-IsUniform n) (λ bytes. return-IsUniform (p.utf8_decode bytes)))

read_socks_address-IsUniform : (p : Platform) (type : ℕ) → IsUniform (read_socks_address p type)
unfolding read_socks_address
read_socks_address-IsUniform p type =
    if-IsUniform (type == 1) _ _
      (then-IsUniform _ _ (read_exact-IsUniform 4)
        (λ bytes. return-IsUniform (join b'.' (map decimal bytes))))
      (if-IsUniform (type == 3) _ _
        (then-IsUniform _ _ (read_exact-IsUniform 1)
          (λ size. read_domain-IsUniform p (byte size 0)))
        (if-IsUniform (type == 4) _ _
          (then-IsUniform _ _ (read_exact-IsUniform 16)
            (λ bytes. return-IsUniform (join b':' (map to_hex (byte_groups bytes)))))
          (throw-IsUniform unsupported_address)))

read_command-IsUniform : (p : Platform) → IsUniform (read_command p)
unfolding read_command
read_command-IsUniform p = then-IsUniform _ _ (read_exact-IsUniform 4) (λ head.
    if-IsUniform _ _ _ (throw-IsUniform invalid_header) (
      then-IsUniform _ _ (read_socks_address-IsUniform p (byte head 3))
        (λ host. then-IsUniform _ _ (read_exact-IsUniform 2) (λ port. return-IsUniform _))))

handshake-IsUniform : (p : Platform) (auth : Option Socks5Auth) → IsUniform (handshake p auth)
unfolding handshake
handshake-IsUniform p auth =
    then-IsUniform _ _ (negotiate_auth-IsUniform p auth) (λ _. read_command-IsUniform p)

pulled_accepts :
    (most : ℕ) (p : Platform) (auth : Socks5Auth) (methods rest : List ℕ) (c : ℕ) (d : Destination)
    (address : List ℕ) (written : List (List ℕ))
    → IsPlatform p
    → IsWellFormed auth.username
    → IsWellFormed auth.password
    → auth.enabled ≡ true
    → has_method methods 2 ≡ true
    → IsSendable p d
    → encode_socks_address p d ≡ ok address
    → handshake p (some auth) (
        whole most
          (greeting_bytes methods ++ (credential_bytes p auth ++ (5 ∷ c ∷ 0 ∷ (address ++ rest))))
          written)
      ≡ (
        ok (record { command = c; destination = d }),
        whole most rest ((written ++ (5 ∷ 2 ∷ []) ∷ []) ++ (1 ∷ 0 ∷ []) ∷ []),
      )
unfolding handshake
pulled_accepts most p auth methods rest c d address written w named secret on offers s e =
    let (bytes, encodes, decodes) = decode-encode p d w s in
    let same : bytes ≡ address = cc (e, encodes) in
    let at : decode_socks_address p (5 ∷ c ∷ 0 ∷ (address ++ rest)) 3 ≡ ok (d, 3 + length address) =
      subst (λ b. decode_socks_address p (5 ∷ c ∷ 0 ∷ (b ++ rest)) 3 ≡ ok (d, 3 + length b)) same
        (decodes (5 ∷ c ∷ 0 ∷ []) rest) in
    then-ok (negotiate_auth p (some auth)) _ _ (
      accepted most p auth methods (5 ∷ c ∷ 0 ∷ (address ++ rest)) written w named secret on offers)
    ∙ read_command-decode most p c (address ++ rest) _ d (3 + length address) at
    ∙ ap
        (λ l. (
          ok (record { command = c; destination = d }),
          whole most l ((written ++ (5 ∷ 2 ∷ []) ∷ []) ++ (1 ∷ 0 ∷ []) ∷ []),
        ))
        (drop-skip (5 ∷ c ∷ 0 ∷ []) (address ++ rest) (length address) ∙ drop-append address rest)

-- A client that offers the method for passwords, presents the configured name and password (text without
-- a surrogate alone) and asks for a sendable destination gets the replies 5 2 and 1 0, its command and
-- destination are read, and the bytes it sent behind them are left, in whatever chunks its bytes arrive,
-- if all that it sends is no more than the reader's limit.
pub handshake-accepts :
    (p : Platform) (auth : Socks5Auth) (methods rest : List ℕ) (c : ℕ) (d : Destination)
    (address : List ℕ) (s : Session)
    → IsPlatform p
    → IsWellFormed auth.username
    → IsWellFormed auth.password
    → auth.enabled ≡ true
    → has_method methods 2 ≡ true
    → IsSendable p d
    → encode_socks_address p d ≡ ok address
    → unread s
      ≡ greeting_bytes methods ++ (credential_bytes p auth ++ (5 ∷ c ∷ 0 ∷ (address ++ rest)))
    → length (unread s) ≤ s.max_bytes
    → ((handshake p (some auth) s).0 ≡ ok (record { command = c; destination = d }))
      × (unread (handshake p (some auth) s).1 ≡ rest)
      × ((handshake p (some auth) s).1.written
          ≡ (s.written ++ (5 ∷ 2 ∷ []) ∷ []) ++ (1 ∷ 0 ∷ []) ∷ [])
handshake-accepts p auth methods rest c d address s w named secret on offers sendable e sent room =
    let same =
      (handshake-IsUniform p (some auth)).same s room
      ∙ ap (λ l. handshake p (some auth) (whole s.max_bytes l s.written)) sent
      ∙ pulled_accepts s.max_bytes p auth methods rest c d address s.written w named secret on
          offers sendable e in
    (
      ap (λ (x : Result Socks5Error Socks5Command × Session). x.0) same,
      ap (λ (x : Result Socks5Error Socks5Command × Session). x.1.buffer) same,
      ap (λ (x : Result Socks5Error Socks5Command × Session). x.1.written) same,
    )
