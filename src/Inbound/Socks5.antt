-- ===== src/Inbound/Socks5.antt =====
-- inbound/socks5.ts: the negotiation, the command and the replies, on the bytes that the client sends,
-- in whatever chunks the reader of utils/net.ts takes them from the socket. A session that runs out of
-- chunks waits for them until the reader's timeout; a write succeeds.
pub mod Reader
pub mod Negotiation
pub mod Credentials
pub mod Accepting
use sepigs.Base.{
  ℕ, ◌+◌, ◌*◌, Bool, false, not, ◌||◌, Option, none, some, List, [], ◌∷◌, ◌++◌, map, ltb, ◌==◌,
  if◌then◌else◌, nat_eq, string_eq, length, get_elem?, take, drop, any,
}
use sepigs.Base.Text.{Text, join, text_eq, text_key}
use sepigs.Base.Digits.{decimal, to_hex}
use sepigs.Base.Result.{Result, ok, err}
use sepigs.Protocol.Destination.{Destination, Platform, make_destination}
use sepigs.Protocol.Address.{byte_groups}

pub data Socks5Error : Type 0 where
  timed_out data_exceeded invalid_greeting no_password_method no_plain_method invalid_auth_packet :
      Socks5Error
  wrong_credentials invalid_header invalid_domain_length unsupported_address : Socks5Error

pub record Socks5Auth : Type 0 where
  pub enabled : Bool
  pub username : Text
  pub password : Text

-- The reader, with the chunks that its pulls will take from the socket (a pull that takes several throws
-- just when it does for their concatenation), and what was written to the client.
pub record Session : Type 0 where
  pub buffer : List ℕ
  pub arrivals : List (List ℕ)
  pub max_bytes : ℕ
  pub written : List (List ℕ)

-- A step returns or throws; the session stays as it was left.
abbrev pub Step : Type 0 → Type 0
Step A = Session → Result Socks5Error A × Session

abbrev pub return : {A : Type 0} → A → Step A
return a s = (ok a, s)

abbrev pub throw : {A : Type 0} → Socks5Error → Step A
throw e s = (err e, s)

abbrev pub continue :
    {A B : Type 0} → (A → Step B) → Result Socks5Error A × Session → Result Socks5Error B × Session
continue f (ok a, s) = f a s
continue f (err e, s) = (err e, s)

abbrev pub and_then : {A B : Type 0} → Step A → (A → Step B) → Step B
and_then m f s = continue f (m s)

-- `readExact` of BufferedSocketReader, with `pull` and `append`, from a buffer and the chunks to come.
unfoldable pub read_from : ℕ → List ℕ → List (List ℕ) → Step (List ℕ)
read_from n buffer [] s =
    if ltb (length buffer) n
    then (err timed_out, record s { buffer = buffer; arrivals = [] })
    else (ok (take n buffer), record s { buffer = drop n buffer; arrivals = [] })
read_from n buffer (chunk ∷ later) s =
    let pulled = read_from n (buffer ++ chunk) later s in
    if ltb (length buffer) n
    then (if ltb s.max_bytes (length buffer + length chunk)
        then (err data_exceeded, record s { buffer = buffer; arrivals = later })
        else pulled)
    else (ok (take n buffer), record s { buffer = drop n buffer; arrivals = chunk ∷ later })

abbrev pub read_exact : ℕ → Step (List ℕ)
read_exact n s = read_from n s.buffer s.arrivals s

-- `writeSocket`
abbrev pub write : List ℕ → Step (Unit {0})
write bytes s = (ok tt, record s { written = s.written ++ bytes ∷ [] })

abbrev pub byte : List ℕ → ℕ → ℕ
byte bytes i = elim (get_elem? bytes i) [ none ↦ 0 | some b ↦ b ]

-- `safeEqual`
abbrev pub safe_equal : Platform → Text → Text → Bool
safe_equal p left right = text_eq (p.utf8_encode left) (p.utf8_encode right)

abbrev pub check_credentials : Platform → Socks5Auth → Text → Text → Step (Unit {0})
check_credentials p auth username password =
    if not (safe_equal p username auth.username) || not (safe_equal p password auth.password)
    then and_then (write (1 ∷ 1 ∷ [])) (λ _. throw wrong_credentials)
    else write (1 ∷ 0 ∷ [])

unfoldable pub authenticate_user_pass : Platform → Socks5Auth → Step (Unit {0})
authenticate_user_pass p auth = and_then (read_exact 2) (λ head.
    if not (byte head 0 == 1)
    then throw invalid_auth_packet
    else and_then (read_exact (byte head 1)) (λ username. and_then (read_exact 1) (λ size.
      and_then (read_exact (byte size 0))
        (λ password. check_credentials p auth (p.utf8_decode username) (p.utf8_decode password)))))

abbrev pub uses_auth : Option Socks5Auth → Bool
uses_auth none = false
uses_auth (some auth) = auth.enabled

abbrev pub has_method : List ℕ → ℕ → Bool
has_method methods m = any (λ x. x == m) methods

unfoldable pub choose_method : Platform → Option Socks5Auth → List ℕ → Step (Unit {0})
choose_method p (some auth) methods =
    if auth.enabled
    then (if not (has_method methods 2)
        then and_then (write (5 ∷ 255 ∷ [])) (λ _. throw no_password_method)
        else and_then (write (5 ∷ 2 ∷ [])) (λ _. authenticate_user_pass p auth))
    else if not (has_method methods 0)
    then and_then (write (5 ∷ 255 ∷ [])) (λ _. throw no_plain_method)
    else write (5 ∷ 0 ∷ [])
choose_method p none methods =
    if not (has_method methods 0)
    then and_then (write (5 ∷ 255 ∷ [])) (λ _. throw no_plain_method)
    else write (5 ∷ 0 ∷ [])

unfoldable pub negotiate_auth : Platform → Option Socks5Auth → Step (Unit {0})
negotiate_auth p auth = and_then (read_exact 2) (λ head.
    if not (byte head 0 == 5)
    then throw invalid_greeting
    else and_then (read_exact (byte head 1)) (choose_method p auth))

pub record Socks5Command : Type 0 where
  pub command : ℕ
  pub destination : Destination

abbrev pub read_domain : Platform → ℕ → Step Text
read_domain p n =
    if n == 0
    then throw invalid_domain_length
    else and_then (read_exact n) (λ bytes. return (p.utf8_decode bytes))

unfoldable pub read_socks_address : Platform → ℕ → Step Text
read_socks_address p type =
    if type == 1
    then and_then (read_exact 4) (λ bytes. return (join b'.' (map decimal bytes)))
    else if type == 3
    then and_then (read_exact 1) (λ size. read_domain p (byte size 0))
    else if type == 4
    then and_then (read_exact 16) (λ bytes. return (join b':' (map to_hex (byte_groups bytes))))
    else throw unsupported_address

unfoldable pub read_command : Platform → Step Socks5Command
read_command p = and_then (read_exact 4) (λ head.
    if not (byte head 0 == 5) || not (byte head 2 == 0)
    then throw invalid_header
    else and_then (read_socks_address p (byte head 3)) (λ host. and_then (read_exact 2) (λ port.
      return (record {
        command = byte head 1;
        destination = make_destination p host (byte port 0 * 256 + byte port 1);
      }))))

-- The handshake of `handleConnection`, up to the command.
unfoldable pub handshake : Platform → Option Socks5Auth → Step Socks5Command
handshake p auth = and_then (negotiate_auth p auth) (λ _. read_command p)
