-- ===== src/Inbound/Trojan/Accepting.antt =====
-- The request of outbound/trojan.ts at the handshake of inbound/trojan.ts.
use sepigs.Base.{
  ℕ, suc, ◌+◌, ◌≤◌, ◌≡◌, refl, sym, ap, ◌∙◌, subst, ◌≢◌, ◌⊎◌, inl, inr, not, ◌&&◌, Option, none,
  some, List, [], ◌∷◌, ◌++◌, append_assoc, append-nil, arith, ltb, ◌==◌, if◌then◌else◌, nat_eq,
  string_eq, Bool-cases, Option-cases, length, get_elem?, take, All, length-append, take-append,
}
use sepigs.Base.Text.{Text, text_eq, text_eq_iff_to, text_eq_refl, text_key}
use sepigs.Base.Result.{ok, err, bind-ok}
use sepigs.Protocol.Destination.{Destination, Platform, IsPlatform}
use sepigs.Protocol.Address.{missing_type, encode_socks_address, decode_socks_address}
use sepigs.Protocol.Address.DecodeEncode.{IsSendable, decode-encode}
use sepigs.Base.Buffers.{get_elem?-skip, drop-skip}
use sepigs.Inbound.Trojan.{
  TrojanError, authentication_failed, bad_address, waiting, failed, resolved, line_end, terminated,
  with_address, with_command, with_line, received, on_data, on_chunks, create_trojan_request,
}

abbrev pub IsHash : List ℕ → Type 0
IsHash hash = All (λ c. c ≢ 13) hash

line_end-step :
    (x : ℕ) (ys : List ℕ)
    → x ≢ 13
    → line_end (x ∷ ys) ≡ (elim (line_end ys) [ none ↦ none | some n ↦ some (n + 1) ])
unfolding line_end
line_end-step x [] n = refl
line_end-step x (y ∷ ys) n = ground arith

line_end-found :
    (hash rest : List ℕ)
    → All (λ c. c ≢ 13) hash
    → line_end (hash ++ 13 ∷ 10 ∷ rest) ≡ some (length hash)
unfolding line_end
line_end-found [] rest h = refl
line_end-found (x ∷ xs) rest (n, h) =
    line_end-step x (xs ++ 13 ∷ 10 ∷ rest) n
    ∙ ap (λ o. elim o [ none ↦ none | some n ↦ some (n + 1) ]) (line_end-found xs rest h)
    ∙ ap some (omega arith)

-- The bytes before the address.
abbrev preamble : List ℕ → List ℕ
preamble hash = hash ++ 13 ∷ 10 ∷ 1 ∷ []

length-preamble : (hash : List ℕ) → length (preamble hash) ≡ length hash + 3
length-preamble hash = omega (arith, length-append hash (13 ∷ 10 ∷ 1 ∷ []))

take-hash : (hash rest : List ℕ) → take (length hash) (preamble hash ++ rest) ≡ hash
take-hash hash rest =
    ap (take (length hash)) (append_assoc hash (13 ∷ 10 ∷ 1 ∷ []) rest)
    ∙ take-append hash (13 ∷ 10 ∷ 1 ∷ rest)

command-at : (hash rest : List ℕ) → get_elem? (preamble hash ++ rest) (length hash + 2) ≡ some 1
command-at hash rest =
    ap (λ l. get_elem? l (length hash + 2)) (append_assoc hash (13 ∷ 10 ∷ 1 ∷ []) rest)
    ∙ get_elem?-skip hash (13 ∷ 10 ∷ 1 ∷ rest) 2

line_end-preamble :
    (hash rest : List ℕ)
    → All (λ c. c ≢ 13) hash
    → line_end (preamble hash ++ rest) ≡ some (length hash)
line_end-preamble hash rest h =
    ap line_end (append_assoc hash (13 ∷ 10 ∷ 1 ∷ []) rest) ∙ line_end-found hash (1 ∷ rest) h

-- Behind the right hash and the command, the handshake is that of the address.
received-address :
    (p : Platform) (hash rest : List ℕ) (most : ℕ)
    → All (λ c. c ≢ 13) hash
    → length (preamble hash ++ rest) ≤ most
    → received p hash most (preamble hash ++ rest)
      ≡ with_address
          (preamble hash ++ rest)
          (decode_socks_address p (preamble hash ++ rest) (length (preamble hash)))
unfolding received
received-address p hash rest most h small = rw (line_end-preamble hash rest h) (
    ground
      (arith, take-hash hash rest, command-at hash rest, text_eq_refl hash, length-preamble hash))

terminated-payload :
    (head payload : List ℕ) (d : Destination)
    → terminated (head ++ 13 ∷ 10 ∷ payload) d (length head) ≡ resolved d payload
terminated-payload head payload d = ground (
  arith,
  length-append head (13 ∷ 10 ∷ payload),
  get_elem?-skip head (13 ∷ 10 ∷ payload) 0,
  get_elem?-skip head (13 ∷ 10 ∷ payload) 1,
  drop-skip head (13 ∷ 10 ∷ payload) 2,
)

created :
    (hash : Text → List ℕ) (p : Platform) (password : Text) (d : Destination) (request : List ℕ)
    → create_trojan_request hash p password d ≡ ok request
    → (address : List ℕ) × (encode_socks_address p d ≡ ok address)
      × (hash password ++ 13 ∷ 10 ∷ 1 ∷ (address ++ 13 ∷ 10 ∷ []) ≡ request)
unfolding create_trojan_request
created hash p password d request h =
    let (address, e, f) = bind-ok (encode_socks_address p d) _ h in (address, e, cc f)

-- For a sendable destination and a password whose hash has no carriage return, the request that the
-- Trojan outbound sends, with any payload behind it, settles the handshake of a Trojan inbound with the
-- same password, if it is within the limit of the header: the destination is the one that was asked for,
-- and the bytes left are the payload.
pub create-accepted :
    (hash : Text → List ℕ) (p : Platform) (password : Text) (d : Destination)
    (request payload : List ℕ) (most : ℕ)
    → IsPlatform p
    → IsSendable p d
    → IsHash (hash password)
    → create_trojan_request hash p password d ≡ ok request
    → length (request ++ payload) ≤ most
    → on_data p (hash password) most (request ++ payload) (waiting []) ≡ resolved d payload
unfolding on_data
create-accepted hash p password d request payload most w s h e small =
    let (address, sent, made) = created hash p password d request e in
    let (bytes, encodes, decodes) = decode-encode p d w s in
    let same : address ≡ bytes = cc (sent, encodes) in
    let pre : List ℕ = preamble (hash password) in
    let rest : List ℕ = 13 ∷ 10 ∷ payload in
    let shape : request ++ payload ≡ pre ++ (bytes ++ rest) =
      ap (λ r. r ++ payload) (sym made)
      ∙ append_assoc (hash password) (13 ∷ 10 ∷ 1 ∷ (address ++ 13 ∷ 10 ∷ [])) payload
      ∙ ap (λ a. hash password ++ 13 ∷ 10 ∷ 1 ∷ a)
          (append_assoc address (13 ∷ 10 ∷ []) payload ∙ ap (λ a. a ++ rest) same)
      ∙ sym (append_assoc (hash password) (13 ∷ 10 ∷ 1 ∷ []) (bytes ++ rest)) in
    let joined : pre ++ (bytes ++ rest) ≡ (pre ++ bytes) ++ rest =
      sym (append_assoc pre bytes rest) in
    ap (received p (hash password) most) shape
    ∙ received-address p (hash password) (bytes ++ rest) most h
        (subst (λ l. length l ≤ most) shape small)
    ∙ ap (with_address (pre ++ (bytes ++ rest))) (decodes pre rest)
    ∙ ap (λ l. terminated l d (length pre + length bytes)) joined
    ∙ ap (terminated ((pre ++ bytes) ++ rest) d) (sym (length-append pre bytes))
    ∙ terminated-payload (pre ++ bytes) payload d

-- Where the line end stands.
line_end-cases :
    (x y : ℕ) (r : List ℕ) (n : ℕ)
    → line_end (x ∷ y ∷ r) ≡ some n
    → ((n ≡ 0) × (x ≡ 13) × (y ≡ 10)) ⊎ ((m : ℕ) × (n ≡ suc m) × (line_end (y ∷ r) ≡ some m))
unfolding line_end
line_end-cases x y r n h = elim (Option-cases (line_end (y ∷ r))) [
  | inl none_found ↦ inl (ground arith)
  | inr (m, found) ↦ elim (Bool-cases (x == 13 && y == 10)) [
    | inl here ↦ inl (ground arith)
    | inr on ↦ inr (m, ground arith, found)
  ]
]

-- The bytes before a line end, and those behind it.
record LineEnd (data_ : List ℕ) (n : ℕ) : Type 0 where
  tail : List ℕ
  shape : data_ ≡ take n data_ ++ 13 ∷ 10 ∷ tail
  size : length (take n data_) ≡ n

split_line : (data_ : List ℕ) (n : ℕ) → line_end data_ ≡ some n → LineEnd data_ n
unfolding line_end
split_line [] n h = absurd (cc h)
split_line (x ∷ []) n h = absurd (cc h)
split_line (x ∷ y ∷ r) n h = elim (line_end-cases x y r n h) [
  | inl (e, a, b) ↦ record { tail = r; shape = rw (e, a, b) refl; size = rw e refl }
  | inr (m, e, k) ↦
      let rest = split_line (y ∷ r) m k in
      record {
        tail = rest.tail;
        shape = ap (◌∷◌ x) rest.shape ∙ ap (λ i. take i (x ∷ y ∷ r) ++ 13 ∷ 10 ∷ rest.tail) (sym e);
        size = ap (λ i. length (take i (x ∷ y ∷ r))) e ∙ ap suc rest.size ∙ sym e;
      }
]

with_command-resolved :
    (p : Platform) (data_ rest : List ℕ) (offset : ℕ) (o : Option ℕ) (d : Destination)
    → with_command p data_ offset o ≡ resolved d rest
    → o ≡ some 1
with_command-resolved p data_ rest offset none d h = absurd (cc h)
with_command-resolved p data_ rest offset (some c) d h = ground arith

with_line-resolved :
    (p : Platform) (expected data_ rest : List ℕ) (n : ℕ) (d : Destination)
    → with_line p expected data_ (some n) ≡ resolved d rest
    → (take n data_ ≡ expected) × (get_elem? data_ (n + 2) ≡ some 1)
with_line-resolved p expected data_ rest n d h =
    elim (Bool-cases (text_eq (take n data_) expected)) [
      | inl e ↦ (
        text_eq_iff_to (take n data_) expected e,
        with_command-resolved p data_ rest (n + 2) (get_elem? data_ (n + 2)) d (
            subst
              (λ b.
                (if not b
                  then failed authentication_failed
                  else with_command p data_ (n + 2) (get_elem? data_ (n + 2)))
                ≡ resolved d rest)
              e h),
      )
      | inr e ↦ absurd (ground arith)
    ]

first_byte : (xs : List ℕ) → get_elem? xs 0 ≡ some 1 → (tail : List ℕ) × (xs ≡ 1 ∷ tail)
first_byte [] h = absurd (cc h)
first_byte (x ∷ xs) h = (xs, cc h)

-- A line end that is followed by the byte 1.
command-behind :
    (data_ : List ℕ) (n : ℕ)
    → line_end data_ ≡ some n
    → get_elem? data_ (n + 2) ≡ some 1
    → (tail : List ℕ) × (data_ ≡ take n data_ ++ 13 ∷ 10 ∷ 1 ∷ tail)
command-behind data_ n h c =
    let line = split_line data_ n h in
    let first : get_elem? line.tail 0 ≡ some 1 =
      sym (get_elem?-skip (take n data_) (13 ∷ 10 ∷ line.tail) 2)
      ∙ ap (λ i. get_elem? (take n data_ ++ 13 ∷ 10 ∷ line.tail) (i + 2)) line.size
      ∙ ap (λ l. get_elem? l (n + 2)) (sym line.shape)
      ∙ c in
    let (tail, e) = first_byte line.tail first in
    (tail, line.shape ∙ ap (λ t. take n data_ ++ 13 ∷ 10 ∷ t) e)

received-authentic :
    (p : Platform) (expected data_ rest : List ℕ) (most : ℕ) (d : Destination)
    → received p expected most data_ ≡ resolved d rest
    → (tail : List ℕ) × (data_ ≡ expected ++ 13 ∷ 10 ∷ 1 ∷ tail)
unfolding received
received-authentic p expected data_ rest most d h = elim (Bool-cases (ltb most (length data_))) [
  | inl long ↦ absurd (ground arith)
  | inr fits ↦ elim (Option-cases (line_end data_)) [
    | inl no_line ↦ absurd (ground arith)
    | inr (n, line) ↦
        let (same, one) = with_line-resolved p expected data_ rest n d (ground arith) in
        let (tail, q) = command-behind data_ n line one in
        (tail, q ∙ ap (λ l. l ++ 13 ∷ 10 ∷ 1 ∷ tail) same)
  ]
]

-- A handshake resolves only when the bytes that were received begin with the hash of the password, a
-- line end and the command CONNECT.
pub resolved-authentic :
    (p : Platform) (expected data_ chunk rest : List ℕ) (most : ℕ) (d : Destination)
    → on_data p expected most chunk (waiting data_) ≡ resolved d rest
    → (tail : List ℕ) × (data_ ++ chunk ≡ expected ++ 13 ∷ 10 ∷ 1 ∷ tail)
unfolding on_data
resolved-authentic p expected data_ chunk rest most d h =
    received-authentic p expected (data_ ++ chunk) rest most d h

at_end : (pre : List ℕ) → get_elem? (pre ++ []) (length pre) ≡ none
at_end pre = ap (get_elem? (pre ++ [])) (omega arith) ∙ get_elem?-skip pre [] 0

decode_missing :
    (p : Platform) (buffer : List ℕ) (offset : ℕ)
    → get_elem? buffer offset ≡ none
    → decode_socks_address p buffer offset ≡ err missing_type
unfolding decode_socks_address
decode_missing p buffer offset h = rw (h, decode_socks_address) refl

first_piece :
    (p : Platform) (hash : List ℕ) (most : ℕ)
    → IsHash hash
    → length hash + 3 ≤ most
    → received p hash most (preamble hash) ≡ failed (bad_address missing_type)
first_piece p hash most h small =
    ap (received p hash most) (sym (append-nil (preamble hash)))
    ∙ received-address p hash [] most h
        (omega (arith, length-append (preamble hash) [], length-preamble hash))
    ∙ ap (with_address (preamble hash ++ []))
        (decode_missing p (preamble hash ++ []) (length (preamble hash)) (at_end (preamble hash)))

on_chunks-failed :
    (p : Platform) (hash : List ℕ) (later : List (List ℕ)) (most : ℕ) (e : TrojanError)
    → on_chunks p hash most later (failed e) ≡ failed e
unfolding on_chunks on_data
on_chunks-failed p hash [] most e = refl
on_chunks-failed p hash (c ∷ later) most e = on_chunks-failed p hash later most e

-- A request that arrives in two pieces, the first of which ends with the command byte, is refused: the
-- handshake fails for a missing address type although nothing is wrong with the request.
pub cut_behind_command :
    (p : Platform) (hash : List ℕ) (later : List (List ℕ)) (most : ℕ)
    → IsHash hash
    → length hash + 3 ≤ most
    → on_chunks p hash most ((hash ++ 13 ∷ 10 ∷ 1 ∷ []) ∷ later) (waiting [])
      ≡ failed (bad_address missing_type)
unfolding on_chunks on_data
cut_behind_command p hash later most h small =
    ap (on_chunks p hash most later) (first_piece p hash most h small)
    ∙ on_chunks-failed p hash later most (bad_address missing_type)
