-- ===== src/Inbound/Socks5/Reader.antt =====
-- BufferedSocketReader of utils/net.ts under the steps of inbound/socks5.ts, over any chunks.
use sepigs.Base.{
  ℕ, zero, suc, ◌+◌, ◌≤◌, ◌≡◌, refl, sym, ap, ◌∙◌, subst, inl, inr, Bool, true, false, List, [],
  ◌∷◌, ◌++◌, append_assoc, append-nil, arith, ltb, if◌then◌else◌, nat_eq, string_eq, Bool-cases,
  length, take, drop, take-append-drop, length-take, length-append, length-drop,
}
use sepigs.Base.Text.{text_key}
use sepigs.Base.Result.{Result, ok, err}
use sepigs.Inbound.Socks5.{
  timed_out, Socks5Error, Session, Step, return, throw, continue, and_then, read_from, read_exact,
  write,
}

unfoldable pub flat : List (List ℕ) → List ℕ
flat [] = []
flat (chunk ∷ later) = chunk ++ flat later

-- What the client has sent, or will send, and was not read.
abbrev pub unread : Session → List ℕ
unread s = s.buffer ++ flat s.arrivals

-- The session in which all of that has been pulled.
abbrev pub pulled : Session → Session
pulled s = record s { buffer = unread s; arrivals = [] }

abbrev pub whole : ℕ → List ℕ → List (List ℕ) → Session
whole most input written = record {
  buffer = input;
  arrivals = [];
  max_bytes = most;
  written = written;
}

abbrev pub Fits : Session → Type 0
Fits s = length (unread s) ≤ s.max_bytes

take_front : (n : ℕ) (xs ys : List ℕ) → n ≤ length xs → take n (xs ++ ys) ≡ take n xs
take_front zero xs ys h = refl
take_front (suc n) [] ys h = absurd (omega arith)
take_front (suc n) (x ∷ xs) ys h = ap (λ a. x ∷ a) (take_front n xs ys (omega arith))

drop_front : (n : ℕ) (xs ys : List ℕ) → n ≤ length xs → drop n (xs ++ ys) ≡ drop n xs ++ ys
drop_front zero xs ys h = refl
drop_front (suc n) [] ys h = absurd (omega arith)
drop_front (suc n) (x ∷ xs) ys h = drop_front n xs ys (omega arith)

held_returned :
    (n : ℕ) (buffer rest : List ℕ)
    → n ≤ length buffer
    → (length (take n buffer) ≡ n) × (buffer ++ rest ≡ take n buffer ++ (drop n buffer ++ rest))
held_returned n buffer rest h = (
  length-take n buffer ∙ omega arith,
  ap (λ a. a ++ rest) (sym (take-append-drop n buffer))
      ∙ append_assoc (take n buffer) (drop n buffer) rest,
)

-- Whatever chunks it takes, the reader gives the next bytes and leaves the others.
pub read_from-returned :
    (n : ℕ) (buffer : List ℕ) (arrivals : List (List ℕ)) (s s' : Session) (xs : List ℕ)
    → read_from n buffer arrivals s ≡ (ok xs, s')
    → (length xs ≡ n) × (buffer ++ flat arrivals ≡ xs ++ unread s')
unfolding read_from flat
read_from-returned n buffer [] s s' xs h = elim (Bool-cases (ltb (length buffer) n)) [
  | inl few ↦ absurd (ground (arith, h, few))
  | inr enough ↦
      let (size, parts) = held_returned n buffer [] (ground (arith, enough)) in
      let taken : xs ≡ take n buffer = ground (arith, h, enough) in
      let left : s'.buffer ≡ drop n buffer = ground (arith, h, enough) in
      let later : s'.arrivals ≡ [] = ground (arith, h, enough) in
      (
        ap length taken ∙ size,
        parts
            ∙ ap (λ a. a ++ (drop n buffer ++ [])) (sym taken)
            ∙ ap (λ a. xs ++ (a ++ [])) (sym left)
            ∙ ap (λ a. xs ++ (s'.buffer ++ flat a)) (sym later),
      )
]
read_from-returned n buffer (chunk ∷ later) s s' xs h = elim (Bool-cases (ltb (length buffer) n)) [
  | inl few ↦ elim (Bool-cases (ltb s.max_bytes (length buffer + length chunk))) [
    | inl over ↦ absurd (ground (arith, h, few, over))
    | inr room ↦
        let (size, parts) =
          read_from-returned n (buffer ++ chunk) later s s' xs (ground (arith, h, few, room)) in
        (size, sym (append_assoc buffer chunk (flat later)) ∙ parts)
  ]
  | inr enough ↦
      let (size, parts) = held_returned n buffer (chunk ++ flat later) (ground (arith, enough)) in
      let taken : xs ≡ take n buffer = ground (arith, h, enough) in
      let left : s'.buffer ≡ drop n buffer = ground (arith, h, enough) in
      let same : s'.arrivals ≡ chunk ∷ later = ground (arith, h, enough) in
      (
        ap length taken ∙ size,
        parts
            ∙ ap (λ a. a ++ (drop n buffer ++ (chunk ++ flat later))) (sym taken)
            ∙ ap (λ a. xs ++ (a ++ (chunk ++ flat later))) (sym left)
            ∙ ap (λ a. xs ++ (s'.buffer ++ flat a)) (sym same),
      )
]

abbrev pub settled : {A : Type 0} → Result Socks5Error A × Session → Result Socks5Error A × Session
settled r = (r.0, pulled (r.1))

-- A step for which it makes no difference how much of the input was pulled already.
pub record IsUniform {A : Type 0} (m : Step A) : Type 0 where
  pub same : (s : Session) → Fits s → settled (m s) ≡ m (pulled s)
  pub fits : (s : Session) → Fits s → Fits (m s).1

read_from-settled :
    (n : ℕ) (buffer : List ℕ) (arrivals : List (List ℕ)) (s : Session)
    → length (buffer ++ flat arrivals) ≤ s.max_bytes
    → settled (read_from n buffer arrivals s) ≡ read_from n (buffer ++ flat arrivals) [] s
unfolding read_from flat
read_from-settled n buffer [] s h =
    let nil = append-nil buffer in
    elim (Bool-cases (ltb (length buffer) n)) [
      | inl few ↦
          subst (λ b. settled (read_from n buffer [] s) ≡ read_from n b [] s) (sym nil)
            (rw few (ap (λ b. (err timed_out, record s { buffer = b; arrivals = [] })) nil))
      | inr enough ↦
          subst (λ b. settled (read_from n buffer [] s) ≡ read_from n b [] s) (sym nil)
            (rw enough (
              ap (λ b. (ok (take n buffer), record s { buffer = b; arrivals = [] }))
                (append-nil (drop n buffer))))
    ]
read_from-settled n buffer (chunk ∷ later) s h =
    let all = buffer ++ (chunk ++ flat later) in
    elim (Bool-cases (ltb (length buffer) n)) [
      | inl few ↦
          let room : ltb s.max_bytes (length buffer + length chunk) ≡ false = ground (
            arith,
            h,
            length-append buffer (chunk ++ flat later),
            length-append chunk (flat later),
          ) in
          let joined = append_assoc buffer chunk (flat later) in
          rw (few, room)
            (read_from-settled n (buffer ++ chunk) later s
                (subst (λ l. length l ≤ s.max_bytes) (sym joined) h)
              ∙ ap (λ l. read_from n l [] s) joined)
      | inr enough ↦
          let some_held : n ≤ length buffer = ground (arith, enough) in
          let held : ltb (length all) n ≡ false =
            ground (arith, enough, length-append buffer (chunk ++ flat later)) in
          rw (enough, held)
            (ap
                (λ b. (
                  ok b,
                  record s { buffer = drop n buffer ++ (chunk ++ flat later); arrivals = [] },
                ))
                (sym (take_front n buffer (chunk ++ flat later) some_held))
              ∙ ap (λ b. (ok (take n all), record s { buffer = b; arrivals = [] }))
                  (sym (drop_front n buffer (chunk ++ flat later) some_held)))
    ]

last_pull :
    (n : ℕ) (b : List ℕ) (s : Session)
    → (length (unread (read_from n b [] s).1) ≤ length b)
      × ((read_from n b [] s).1.max_bytes ≡ s.max_bytes)
unfolding read_from flat
last_pull n b s = elim (Bool-cases (ltb (length b) n)) [
  | inl few ↦ rw few (omega (arith, length-append b []), refl)
  | inr enough ↦ rw enough (omega (arith, length-append (drop n b) [], length-drop n b), refl)
]

settled_fits :
    {A : Type 0} (r q : Result Socks5Error A × Session) (n : ℕ)
    → settled r ≡ q
    → length (unread q.1) ≤ n
    → length (unread r.1) ≤ n
unfolding flat
settled_fits r q n e h =
    let same : unread r.1 ++ [] ≡ unread q.1 =
      ap (λ (x : Result Socks5Error _ × Session). unread x.1) e in
    omega (arith, h, ap length same, length-append (unread r.1) [])

pub read_exact-IsUniform : (n : ℕ) → IsUniform (read_exact n)
unfolding read_from
read_exact-IsUniform n = record {
  same = λ s h. read_from-settled n s.buffer s.arrivals s h;
  fits = λ s h.
      let e = read_from-settled n s.buffer s.arrivals s h in
      let (size, most) = last_pull n (unread s) s in
      let kept : (read_exact n s).1.max_bytes ≡ s.max_bytes =
        ap (λ (x : Result Socks5Error (List ℕ) × Session). x.1.max_bytes) e ∙ most in
      subst (λ k. length (unread (read_exact n s).1) ≤ k) (sym kept)
        (settled_fits (read_exact n s) _ s.max_bytes e (omega (arith, h, size)));
}

pub return-IsUniform : {A : Type 0} (a : A) → IsUniform (return a)
return-IsUniform a = record { same = λ s h. refl; fits = λ s h. h }

pub throw-IsUniform : {A : Type 0} (e : Socks5Error) → IsUniform {A = A} (throw {A = A} e)
throw-IsUniform e = record { same = λ s h. refl; fits = λ s h. h }

pub write-IsUniform : (bytes : List ℕ) → IsUniform (write bytes)
write-IsUniform bytes = record { same = λ s h. refl; fits = λ s h. h }

continue-settled :
    {A B : Type 0} (f : A → Step B) (r : Result Socks5Error A × Session)
    → ((a : A) → IsUniform (f a))
    → Fits r.1
    → (settled (continue f r) ≡ continue f (settled r)) × Fits (continue f r).1
continue-settled f (ok a, s) u h = ((u a).same s h, (u a).fits s h)
continue-settled f (err e, s) u h = (refl, h)

pub then-IsUniform :
    {A B : Type 0} (m : Step A) (f : A → Step B)
    → IsUniform m
    → ((a : A) → IsUniform (f a))
    → IsUniform (and_then m f)
then-IsUniform m f v u = record {
  same = λ s h. (continue-settled f (m s) u (v.fits s h)).0 ∙ ap (continue f) (v.same s h);
  fits = λ s h. (continue-settled f (m s) u (v.fits s h)).1;
}

pub if-IsUniform :
    {A : Type 0} (b : Bool) (m n : Step A)
    → IsUniform m
    → IsUniform n
    → IsUniform (if b then m else n)
if-IsUniform true m n u v = u
if-IsUniform false m n u v = v
