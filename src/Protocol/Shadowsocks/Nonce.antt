-- ===== src/Protocol/Shadowsocks/Nonce.antt =====
-- protocol/shadowsocks.ts: `incrementNonce` as a counter.
use sepigs.Base.{
  ℕ, zero, suc, ◌+◌, ◌*◌, ◌<◌, ◌≡◌, refl, ap, ◌≢◌, ◌⊎◌, inl, inr, List, [], ◌∷◌, arith, nat_eq,
  string_eq, length, All,
}
use sepigs.Protocol.Shadowsocks.{increment_nonce}

-- A nonce as a number, least significant byte first.
abbrev pub value : List ℕ → ℕ
value [] = 0
value (b ∷ bs) = b + 256 * value bs

abbrev pub room : List ℕ → ℕ
room [] = 1
room (b ∷ bs) = 256 * room bs

abbrev pub IsBytes : List ℕ → Type 0
IsBytes bs = All (λ b. b < 256) bs

pub length-increment_nonce : (n : List ℕ) → length (increment_nonce n) ≡ length n
unfolding increment_nonce
length-increment_nonce [] = refl
length-increment_nonce (b ∷ bs) = ground (arith, length-increment_nonce bs)

increment_nonce-IsBytes : (n : List ℕ) → IsBytes n → IsBytes (increment_nonce n)
unfolding increment_nonce
increment_nonce-IsBytes [] h = h
increment_nonce-IsBytes (b ∷ bs) (h, hs) = ground (arith, increment_nonce-IsBytes bs hs)

value-room : (n : List ℕ) → IsBytes n → value n < room n
value-room [] h = omega arith
value-room (b ∷ bs) (h, hs) = omega (arith, value-room bs hs)

increment_cases :
    (n : List ℕ)
    → IsBytes n
    → (value (increment_nonce n) ≡ value n + 1)
      ⊎ ((value n + 1 ≡ room n) × (value (increment_nonce n) ≡ 0))
unfolding increment_nonce
increment_cases [] h = inr (refl, refl)
increment_cases (b ∷ bs) (h, hs) = elim (increment_cases bs hs) [
  | inl e ↦ ground (arith, e)
  | inr (full, e) ↦ ground (arith, full, e)
]

room-increment_nonce : (n : List ℕ) → room (increment_nonce n) ≡ room n
unfolding increment_nonce
room-increment_nonce [] = refl
room-increment_nonce (b ∷ bs) = ground (arith, room-increment_nonce bs)

-- The nonce after some sealed parts.
abbrev pub advance : ℕ → List ℕ → List ℕ
advance zero n = n
advance (suc k) n = advance k (increment_nonce n)

value-advance :
    (k : ℕ) (n : List ℕ) → IsBytes n → value n + k < room n → value (advance k n) ≡ value n + k
value-advance zero n h m = omega arith
value-advance (suc k) n h m =
    let same = room-increment_nonce n in
    elim (increment_cases n h) [
      | inl e ↦
          (let later =
              value-advance k (increment_nonce n) (increment_nonce-IsBytes n h)
                (omega (arith, same, e)) in
            omega (arith, later, e))
      | inr (full, e) ↦ absurd (omega arith)
    ]

-- A stream starts at a nonce and increments it: two different numbers of steps, both below the number
-- of nonces that are left, give two different nonces.
pub advance_injective :
    (n : List ℕ) (j k : ℕ)
    → IsBytes n
    → value n + j < room n
    → value n + k < room n
    → j ≢ k
    → advance j n ≢ advance k n
advance_injective n j k h a b d e =
    d (omega (arith, value-advance j n h a, value-advance k n h b, ap value e))
