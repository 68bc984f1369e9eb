-- ===== src/Protocol/Shadowsocks/Handle.antt =====
-- protocol/shadowsocks.ts: `handleEncryptedData` on the chunks of a well-formed wire.
use sepigs.Base.{
  ℕ, zero, suc, ◌≤◌, ◌<◌, ◌≡◌, refl, sym, ap, ◌∙◌, subst, ◌⊎◌, inl, inr, some, List, [], ◌∷◌, ◌++◌,
  append_assoc, append-nil, arith, ltb, nat_eq, string_eq, Bool-cases, length,
}
use sepigs.Protocol.BufferQueue.{push}
use sepigs.Protocol.BufferQueue.Contents.{contents, IsQueue, flat, push-IsQueue, contents-push}
use sepigs.Protocol.Shadowsocks.{Crypto, IsCrypto, Context, spec, derive_subkey}
use sepigs.Protocol.Shadowsocks.Stream.{
  Reader, Stage, goes, waits, Received, received, key_stage, length_stage, payload_stage, pushed,
  decrypt_loop, handle_encrypted_data, handle_all,
}
use sepigs.Protocol.Shadowsocks.Frames.{Wire, unkeyed, between, inside, read_front}
use sepigs.Protocol.Shadowsocks.Receive.{
  Expects, Starved, Starved-end, LengthRead, PayloadRead, length_stage-Wire, payload_stage-Wire,
}

flat-pushed : (out : List (List ℕ)) (part : List ℕ) → flat (out ++ pushed part) ≡ flat out ++ part
unfolding flat
flat-pushed [] [] = refl
flat-pushed [] (b ∷ bs) = append-nil (b ∷ bs)
flat-pushed (c ∷ out) part = rw (flat-pushed out part) (sym (append_assoc c (flat out) part))

flat-append : (xs ys : List (List ℕ)) → flat (xs ++ ys) ≡ flat xs ++ flat ys
unfolding flat
flat-append [] ys = refl
flat-append (c ∷ xs) ys = rw (flat-append xs ys) (sym (append_assoc c (flat xs) (flat ys)))

module _ (c : Crypto) (x : Context) (w : IsCrypto c) where
  -- The call returns, the pushed bytes and those still to come are `plain`, and it waits for more.
  abbrev pub Delivers : List ℕ → List ℕ → Received → Type 0
  Delivers future plain result =
      (r : Reader) × (out : List (List ℕ)) × (rest : List ℕ) × (result ≡ received r out)
      × (plain ≡ flat out ++ rest)
      × Expects c x w r future rest
      × Starved c x w r

  -- One round, where the rounds after it deliver.
  module _ (rounds : ℕ) (k : List ℕ) (r : Reader) (out : List (List ℕ)) (future plain : List ℕ)
      (fits : length (contents r.decrypt_buffer) < suc rounds)
      (again : (r' : Reader) (out' : List (List ℕ)) (plain' : List ℕ)
        → length (contents r'.decrypt_buffer) < rounds
        → r'.decrypt_key ≡ some k
        → Expects c x w r' future plain'
        → Delivers future (flat out' ++ plain') (decrypt_loop c x rounds k r' out')) where
    payload_round :
        (r' : Reader)
        → length_stage c x k r ≡ goes r' []
        → length (contents r'.decrypt_buffer) ≤ length (contents r.decrypt_buffer)
        → Expects c x w r' future plain
        → PayloadRead c x w k r' future plain (payload_stage c x k r')
        → Delivers future (flat out ++ plain) (decrypt_loop c x (suc rounds) k r out)
    unfolding decrypt_loop
    payload_round r' s l v (inl (s', starved)) =
        (r', out, plain, ground (arith, s, s'), refl, v, starved)
    payload_round r' s l v (inr (r'', part, rest, s', pe, v', e', l')) =
        let (last, all, left, eq, split_plain, v'', starved) =
          again r'' (out ++ pushed part) rest (omega arith) e' v' in
        (
          last,
          all,
          left,
          ground (arith, s, s', eq),
          ap (◌++◌ (flat out)) pe
              ∙ sym (append_assoc (flat out) part rest)
              ∙ ap (λ b. b ++ rest) (sym (flat-pushed out part))
              ∙ split_plain,
          v'',
          starved,
        )

    length_round :
        Expects c x w r future plain
        → LengthRead c x w k r future plain (length_stage c x k r)
        → Delivers future (flat out ++ plain) (decrypt_loop c x (suc rounds) k r out)
    unfolding decrypt_loop
    length_round v (inl (s, starved)) = (r, out, plain, ground (arith, s), refl, v, starved)
    length_round v (inr (r', s, v', e', (n, p), l)) =
        payload_round r' s l v' (payload_stage-Wire c x w r' future plain k n e' p v'.queue v'.wire)

  decrypt_loop-Delivers :
      (rounds : ℕ) (k : List ℕ) (r : Reader) (out : List (List ℕ)) (future plain : List ℕ)
      → length (contents r.decrypt_buffer) < rounds
      → r.decrypt_key ≡ some k
      → Expects c x w r future plain
      → Delivers future (flat out ++ plain) (decrypt_loop c x rounds k r out)
  decrypt_loop-Delivers zero k r out future plain h e v = absurd (omega arith)
  decrypt_loop-Delivers (suc rounds) k r out future plain h e v =
      length_round rounds k r out future plain h
        (λ r' out' plain' h' e' v'. decrypt_loop-Delivers rounds k r' out' future plain' h' e' v') v
        (length_stage-Wire c x w r future plain k e v.queue v.wire)

  -- The outcomes of the stage that reads the salt.
  abbrev KeyRead : Reader → List ℕ → List ℕ → Stage → Type 0
  KeyRead r future plain s =
      ((s ≡ waits r) × Starved c x w r)
      ⊎ ((r' : Reader) × (k : List ℕ) × (s ≡ goes r' [])
          × (r'.decrypt_key ≡ some k)
          × Expects c x w r' future plain)

  key_stage-Wire :
      (r : Reader) (future plain : List ℕ)
      → IsQueue r.decrypt_buffer
      → Wire c x r.decrypt_key r.decrypt_nonce r.pending_payload_length
          (contents r.decrypt_buffer ++ future)
          plain
      → KeyRead r future plain (key_stage c x r)
  unfolding key_stage
  key_stage-Wire r future plain v (unkeyed salt more e p n we f) =
      elim (Bool-cases (ltb r.decrypt_buffer.total_length (spec x).salt_length)) [
        | inl short ↦
            inl
              (ground (arith, e), (λ _. ground (arith, v.counted), λ k e' p'. cc, λ k n e' p'. cc))
        | inr enough ↦
            let (q', got, v', left, shorter) =
              read_front r.decrypt_buffer future salt more v we (ground (arith, n, v.counted)) in
            inr (
              record r { decrypt_buffer = q'; decrypt_key = some (derive_subkey c x salt) },
              derive_subkey c x salt,
              ground (arith, e, got, n),
              refl,
              record { queue = v'; wire = between (derive_subkey c x salt) refl p (rw left f) },
            )
      ]
  key_stage-Wire r future plain v (between k e p f) =
      inr (r, k, ground (arith, e), e, record { queue = v; wire = between k e p f })
  key_stage-Wire r future plain v (inside k part more rest e p z we pe f) = inr (
    r,
    k,
    ground (arith, e),
    e,
    record { queue = v; wire = inside k part more rest e p z we pe f },
  )

  handle_stage :
      (chunk : List ℕ) (r : Reader) (future plain : List ℕ)
      → let r₁ = record r { decrypt_buffer = push chunk r.decrypt_buffer } in
        Expects c x w r₁ future plain
        → KeyRead r₁ future plain (key_stage c x r₁)
        → Delivers future plain (handle_encrypted_data c x chunk r)
  unfolding handle_encrypted_data flat
  handle_stage chunk r future plain v (inl (s, starved)) = (
    record r { decrypt_buffer = push chunk r.decrypt_buffer },
    [],
    plain,
    ground (arith, s),
    refl,
    v,
    starved,
  )
  handle_stage chunk r future plain v (inr (r', k, s, e, v')) =
      let (last, all, left, eq, split_plain, v'', starved) =
        decrypt_loop-Delivers (suc r'.decrypt_buffer.total_length) k r' [] future plain
          (omega (arith, v'.queue.counted)) e v' in
      (last, all, left, ground (arith, s, e, eq), split_plain, v'', starved)

  -- One chunk: no error, and the pushed bytes are the next ones of those that were sent.
  handle-Delivers :
      (chunk : List ℕ) (r : Reader) (future plain : List ℕ)
      → Expects c x w r (chunk ++ future) plain
      → Delivers future plain (handle_encrypted_data c x chunk r)
  handle-Delivers chunk r future plain v =
      let q = push-IsQueue chunk r.decrypt_buffer v.queue in
      let longer : contents r.decrypt_buffer ++ (chunk ++ future)
          ≡ contents (push chunk r.decrypt_buffer) ++ future =
        sym (append_assoc (contents r.decrypt_buffer) chunk future)
        ∙ ap (λ b. b ++ future) (sym (contents-push chunk r.decrypt_buffer v.queue)) in
      let wire =
        subst (λ b. Wire c x r.decrypt_key r.decrypt_nonce r.pending_payload_length b plain) longer
          v.wire in
      handle_stage chunk r future plain (record { queue = q; wire = wire })
        (key_stage-Wire (record r { decrypt_buffer = push chunk r.decrypt_buffer }) future plain q
          wire)

  pub handle_all-Delivers :
      (chunks : List (List ℕ)) (r : Reader) (out : List (List ℕ)) (plain : List ℕ)
      → Starved c x w r
      → Expects c x w r (flat chunks) plain
      → (r' : Reader) × (out' : List (List ℕ)) × (handle_all c x chunks r out ≡ received r' out')
        × (flat out' ≡ flat out ++ plain)
  unfolding handle_all flat
  handle_all-Delivers [] r out plain s v = (
    r,
    out,
    refl,
    sym (append-nil (flat out)) ∙ ap (◌++◌ (flat out)) (sym (Starved-end c x w r plain v s)),
  )
  handle_all-Delivers (chunk ∷ chunks) r out plain s v =
      let (r₁, more, rest, eq, split_plain, v₁, s₁) =
        handle-Delivers chunk r (flat chunks) plain v in
      let (r₂, all, eq₂, same) = handle_all-Delivers chunks r₁ (out ++ more) rest s₁ v₁ in
      (
        r₂,
        all,
        ground (arith, eq, eq₂),
        same
            ∙ ap (λ b. b ++ rest) (flat-append out more)
            ∙ append_assoc (flat out) (flat more) rest
            ∙ ap (◌++◌ (flat out)) (sym split_plain),
      )
