-- ===== src/Protocol/Shadowsocks/Stream.antt =====
-- The two directions of `ShadowsocksTcpStream`: `_write` and `handleEncryptedData`.
use sepigs.Base.{
  ℕ, zero, suc, ◌+◌, Bool, true, false, Option, none, some, List, [], ◌∷◌, ◌++◌, ltb, if◌then◌else◌,
  nat_eq, string_eq,
}
use sepigs.Base.Result.{ok, err}
use sepigs.Protocol.BufferQueue.{BufferQueue, push, read}
use sepigs.Protocol.BufferQueue
use sepigs.Protocol.Shadowsocks.{
  Crypto, Context, StreamError, unread, out_of_fuel, spec, zero_nonce, increment_nonce,
  derive_subkey, encrypt_tcp_payload, aead_decrypt, read_uint16,
}

pub record Writer : Type 0 where
  pub encrypt_key : Option (List ℕ)
  pub prefix : List ℕ
  pub prefix_sent : Bool
  pub encrypt_nonce : List ℕ

pub record Reader : Type 0 where
  pub decrypt_buffer : BufferQueue
  pub decrypt_key : Option (List ℕ)
  pub decrypt_nonce : List ℕ
  pub pending_payload_length : Option ℕ

abbrev pub new_writer : List ℕ → Writer
new_writer prefix = record {
  encrypt_key = none;
  prefix = prefix;
  prefix_sent = false;
  encrypt_nonce = zero_nonce;
}

abbrev pub new_reader : Reader
new_reader = record {
  decrypt_buffer = BufferQueue.empty;
  decrypt_key = none;
  decrypt_nonce = zero_nonce;
  pending_payload_length = none;
}

-- Where the loop of `handleEncryptedData` goes on, returns to wait for more bytes, or throws.
pub data Stage : Type 0 where
  goes : Reader → List (List ℕ) → Stage
  waits : Reader → Stage
  throws : StreamError → Stage

-- The outcome of a call: what was pushed to the consumer, or the error that destroyed the stream.
pub data Received : Type 0 where
  received : Reader → List (List ℕ) → Received
  destroyed : StreamError → Received

-- An empty payload is not pushed.
abbrev pub pushed : List ℕ → List (List ℕ)
pushed [] = []
pushed (b ∷ bs) = (b ∷ bs) ∷ []

module _ (c : Crypto) (x : Context) where
  -- `salt` is what `randomBytes` returns; the result is what is written to the raw socket.
  unfoldable pub send_salt : List ℕ → Writer → Writer × List ℕ
  send_salt salt w = (record w { encrypt_key = some (derive_subkey c x salt) }, salt)

  abbrev pub write_with : List ℕ → List ℕ → Writer → Writer × List ℕ
  write_with key chunk w =
      let payload = if w.prefix_sent then chunk else w.prefix ++ chunk in
      let (bytes, nonce) = encrypt_tcp_payload c x key payload w.encrypt_nonce in
      (record w { prefix_sent = true; encrypt_nonce = nonce }, bytes)

  unfoldable pub write : List ℕ → List ℕ → Writer → Writer × List ℕ
  unfolding send_salt
  write salt chunk w = elim w.encrypt_key [
    | some key ↦ write_with key chunk w
    | none ↦
        let (w', sent) = send_salt salt w in
        let (w'', bytes) = write_with (derive_subkey c x salt) chunk w' in (w'', sent ++ bytes)
  ]

  unfoldable pub key_stage : Reader → Stage
  key_stage r = elim r.decrypt_key [
    | some _ ↦ goes r []
    | none ↦
        if ltb r.decrypt_buffer.total_length (spec x).salt_length
        then waits r
        else (elim (read (spec x).salt_length r.decrypt_buffer) [
          | err _ ↦ throws unread
          | ok (salt, rest) ↦
              goes (record r { decrypt_buffer = rest; decrypt_key = some (derive_subkey c x salt) })
                []
        ])
  ]

  unfoldable pub length_stage : List ℕ → Reader → Stage
  length_stage key r = elim r.pending_payload_length [
    | some _ ↦ goes r []
    | none ↦
        let wanted = 2 + (spec x).auth_tag_length in
        if ltb r.decrypt_buffer.total_length wanted
        then waits r
        else (elim (read wanted r.decrypt_buffer) [
          | err _ ↦ throws unread
          | ok (bytes, rest) ↦ elim (aead_decrypt c x key r.decrypt_nonce bytes) [
            | err e ↦ throws e
            | ok plain ↦ elim (read_uint16 plain) [
              | err e ↦ throws e
              | ok size ↦
                  goes
                    (record r {
                      decrypt_buffer = rest;
                      decrypt_nonce = increment_nonce r.decrypt_nonce;
                      pending_payload_length = some size;
                    })
                    []
            ]
          ]
        ])
  ]

  unfoldable pub payload_stage : List ℕ → Reader → Stage
  payload_stage key r = elim r.pending_payload_length [
    | none ↦ goes r []
    | some size ↦
        let wanted = size + (spec x).auth_tag_length in
        if ltb r.decrypt_buffer.total_length wanted
        then waits r
        else (elim (read wanted r.decrypt_buffer) [
          | err _ ↦ throws unread
          | ok (bytes, rest) ↦ elim (aead_decrypt c x key r.decrypt_nonce bytes) [
            | err e ↦ throws e
            | ok plain ↦
                goes
                  (record r {
                    decrypt_buffer = rest;
                    decrypt_nonce = increment_nonce r.decrypt_nonce;
                    pending_payload_length = none;
                  })
                  (pushed plain)
          ]
        ])
  ]

  -- The `for (;;)` loop.
  unfoldable pub decrypt_loop : ℕ → List ℕ → Reader → List (List ℕ) → Received
  decrypt_loop zero key r out = destroyed out_of_fuel
  decrypt_loop (suc rounds) key r out = elim (length_stage key r) [
    | throws e ↦ destroyed e
    | waits r' ↦ received r' out
    | goes r' _ ↦ elim (payload_stage key r') [
      | throws e ↦ destroyed e
      | waits r'' ↦ received r'' out
      | goes r'' more ↦ decrypt_loop rounds key r'' (out ++ more)
    ]
  ]

  -- Each round of the loop reads at least a tag's length of bytes, so this fuel is enough.
  unfoldable pub handle_encrypted_data : List ℕ → Reader → Received
  handle_encrypted_data chunk r =
      let r₁ = record r { decrypt_buffer = push chunk r.decrypt_buffer } in
      elim (key_stage r₁) [
        | throws e ↦ destroyed e
        | waits r' ↦ received r' []
        | goes r' _ ↦ elim r'.decrypt_key [
          | none ↦ destroyed unread
          | some key ↦ decrypt_loop (suc r'.decrypt_buffer.total_length) key r' []
        ]
      ]

  -- The chunks that arrive one after another; a destroyed stream handles no more.
  unfoldable pub handle_all : List (List ℕ) → Reader → List (List ℕ) → Received
  handle_all [] r out = received r out
  handle_all (chunk ∷ chunks) r out = elim (handle_encrypted_data chunk r) [
    | destroyed e ↦ destroyed e
    | received r' more ↦ handle_all chunks r' (out ++ more)
  ]
