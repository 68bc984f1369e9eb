-- ===== src/Inbound/Socks5/Credentials.antt =====
-- The negotiation of inbound/socks5.ts.
use sepigs.Base.{
  ℕ, ◌≡◌, refl, sym, ap, ◌∙◌, Bool, true, false, not, some, List, [], ◌∷◌, ◌++◌, append_assoc,
  arith, ◌==◌, if◌then◌else◌, nat_eq, string_eq, length,
}
use sepigs.Base.Text.{Text, text_eq_iff_to, text_eq_refl, text_key}
use sepigs.Base.Result.{Result, ok, err}
use sepigs.Protocol.Destination.{IsWellFormed, Platform, IsPlatform}
use sepigs.Inbound.Socks5.{
  invalid_greeting, invalid_auth_packet, no_password_method, Socks5Error, Socks5Auth, Session, Step,
  throw, continue, and_then, read_exact, write, byte, check_credentials, authenticate_user_pass,
  has_method, choose_method, negotiate_auth,
}
use sepigs.Inbound.Socks5.Reader.{unread, whole, read_from-returned}
use sepigs.Inbound.Socks5.Negotiation.{then-ok, exact_step}

-- A step that returned behind another.
then-returned :
    {A B : Type 0} (f : A → Step B) (r : Result Socks5Error A × Session) {b : B} {s' : Session}
    → continue f r ≡ (ok b, s')
    → (a : A) × (s1 : Session) × (r ≡ (ok a, s1)) × (f a s1 ≡ (ok b, s'))
then-returned f (ok a, s1) h = (a, s1, refl, h)
then-returned f (err e, s1) h = absurd (cc h)

exact_returned :
    (n : ℕ) (s s' : Session) (xs : List ℕ)
    → read_exact n s ≡ (ok xs, s')
    → (length xs ≡ n) × (unread s ≡ xs ++ unread s')
exact_returned n s s' xs h = read_from-returned n s.buffer s.arrivals s s' xs h

guard_returned :
    {A : Type 0} (b : Bool) (e : Socks5Error) (m : Step A) (s : Session) {a : A} {s' : Session}
    → (if not b then throw e else m) s ≡ (ok a, s')
    → (b ≡ true) × (m s ≡ (ok a, s'))
guard_returned true e m s h = (refl, h)
guard_returned false e m s h = absurd (cc h)

two_bytes : (xs : List ℕ) → length xs ≡ 2 → xs ≡ byte xs 0 ∷ byte xs 1 ∷ []
two_bytes [] h = absurd (omega arith)
two_bytes (a ∷ []) h = absurd (omega arith)
two_bytes (a ∷ b ∷ []) h = refl
two_bytes (a ∷ b ∷ c ∷ xs) h = absurd (omega arith)

one_byte : (xs : List ℕ) → length xs ≡ 1 → xs ≡ byte xs 0 ∷ []
one_byte [] h = absurd (omega arith)
one_byte (a ∷ []) h = refl
one_byte (a ∷ b ∷ xs) h = absurd (omega arith)

-- A name and a password of the wire that stand for the configured ones.
pub record Presents (p : Platform) (auth : Socks5Auth) (input left : List ℕ) : Type 0 where
  pub user : List ℕ
  pub pass : List ℕ
  pub shape : input ≡ 1 ∷ length user ∷ (user ++ (length pass ∷ (pass ++ left)))
  pub same_user : p.utf8_encode (p.utf8_decode user) ≡ p.utf8_encode auth.username
  pub same_pass : p.utf8_encode (p.utf8_decode pass) ≡ p.utf8_encode auth.password

checked :
    (p : Platform) (auth : Socks5Auth) (user pass : Text) (s s' : Session)
    → check_credentials p auth user pass s ≡ (ok tt, s')
    → (p.utf8_encode user ≡ p.utf8_encode auth.username)
      × (p.utf8_encode pass ≡ p.utf8_encode auth.password)
      × (unread s' ≡ unread s)
checked p auth user pass s s' h = ground (
  arith,
  text_eq_iff_to (p.utf8_encode user) (p.utf8_encode auth.username),
  text_eq_iff_to (p.utf8_encode pass) (p.utf8_encode auth.password),
)

authenticated :
    (p : Platform) (auth : Socks5Auth) (s s' : Session)
    → authenticate_user_pass p auth s ≡ (ok tt, s')
    → Presents p auth (unread s) (unread s')
unfolding authenticate_user_pass
authenticated p auth s s' h =
    let (head, s1, h1, r1) = then-returned _ (read_exact 2 s) h in
    let (version, r2) = guard_returned (byte head 0 == 1) invalid_auth_packet _ s1 r1 in
    let (user, s3, h3, r3) = then-returned _ (read_exact (byte head 1) s1) r2 in
    let (size, s4, h4, r4) = then-returned _ (read_exact 1 s3) r3 in
    let (pass, s5, h5, r5) = then-returned _ (read_exact (byte size 0) s4) r4 in
    let (same_user, same_pass, left) = checked p auth _ _ s5 s' r5 in
    let (l1, e1) = exact_returned 2 s s1 head h1 in
    let (l3, e3) = exact_returned (byte head 1) s1 s3 user h3 in
    let (l4, e4) = exact_returned 1 s3 s4 size h4 in
    let (l5, e5) = exact_returned (byte size 0) s4 s5 pass h5 in
    record {
      user = user;
      pass = pass;
      shape =
          e1
          ∙ ap (λ a. a ++ unread s1) (two_bytes head l1)
          ∙ ap (λ b. b ∷ byte head 1 ∷ unread s1) (ground arith)
          ∙ ap (λ b. 1 ∷ b ∷ unread s1) (sym l3)
          ∙ ap (λ a. 1 ∷ length user ∷ a)
              (e3
                ∙ ap (λ a. user ++ a)
                    (e4
                      ∙ ap (λ a. a ++ unread s4) (one_byte size l4)
                      ∙ ap (λ b. b ∷ unread s4) (sym l5)
                      ∙ ap (λ a. length pass ∷ a) (e5 ∙ ap (λ a. pass ++ a) (sym left))));
      same_user = same_user;
      same_pass = same_pass;
    }

-- What a client sent that passed the negotiation with a password.
pub record Negotiates (p : Platform) (auth : Socks5Auth) (input left : List ℕ) : Type 0 where
  pub methods : List ℕ
  pub answer : List ℕ
  pub greeting : input ≡ 5 ∷ length methods ∷ (methods ++ answer)
  pub offers : has_method methods 2 ≡ true
  pub presents : Presents p auth answer left

if_true : {A : Type 0} (b : Bool) (x y : A) → b ≡ true → (if b then x else y) ≡ x
if_true true x y h = refl
if_true false x y h = absurd (cc h)

if_false : {A : Type 0} (b : Bool) (x y : A) → b ≡ false → (if b then x else y) ≡ y
if_false false x y h = refl
if_false true x y h = absurd (cc h)

method_chosen :
    (p : Platform) (auth : Socks5Auth) (offered : Bool) (s s' : Session)
    → (if not offered
          then and_then (write (5 ∷ 255 ∷ [])) (λ _. throw no_password_method)
          else and_then (write (5 ∷ 2 ∷ [])) (λ _. authenticate_user_pass p auth))
        s
      ≡ (ok tt, s')
    → (offered ≡ true) × Presents p auth (unread s) (unread s')
method_chosen p auth true s s' h = (refl, authenticated p auth _ s' h)
method_chosen p auth false s s' h = absurd (cc h)

chosen :
    (p : Platform) (auth : Socks5Auth) (methods : List ℕ) (s s' : Session)
    → auth.enabled ≡ true
    → choose_method p (some auth) methods s ≡ (ok tt, s')
    → (has_method methods 2 ≡ true) × Presents p auth (unread s) (unread s')
unfolding choose_method
chosen p auth methods s s' on h =
    method_chosen p auth (has_method methods 2) s s'
      (sym (ap (λ (m : Step (Unit {0})). m s) (if_true auth.enabled _ _ on)) ∙ h)

-- With a password configured the negotiation succeeds only when the client offered the method for
-- passwords and sent, as the protocol lays them out, a name and a password whose text is the configured
-- one; what it sent behind them is left to be read.
pub negotiate_auth-Negotiates :
    (p : Platform) (auth : Socks5Auth) (s s' : Session)
    → auth.enabled ≡ true
    → negotiate_auth p (some auth) s ≡ (ok tt, s')
    → Negotiates p auth (unread s) (unread s')
unfolding negotiate_auth
negotiate_auth-Negotiates p auth s s' on h =
    let (head, s1, h1, r1) = then-returned _ (read_exact 2 s) h in
    let (version, r2) = guard_returned (byte head 0 == 5) invalid_greeting _ s1 r1 in
    let (methods, s2, h2, r3) = then-returned _ (read_exact (byte head 1) s1) r2 in
    let (l1, e1) = exact_returned 2 s s1 head h1 in
    let (l2, e2) = exact_returned (byte head 1) s1 s2 methods h2 in
    let (offers, presents) = chosen p auth methods s2 s' on r3 in
    record {
      methods = methods;
      answer = unread s2;
      greeting =
          e1
          ∙ ap (λ a. a ++ unread s1) (two_bytes head l1)
          ∙ ap (λ b. b ∷ byte head 1 ∷ unread s1) (ground arith)
          ∙ ap (λ b. 5 ∷ b ∷ unread s1) (sym l2)
          ∙ ap (λ a. 5 ∷ length methods ∷ a) e2;
      offers = offers;
      presents = presents;
    }

-- What a client sends that offers `methods` and presents the configured name and password.
abbrev pub greeting_bytes : List ℕ → List ℕ
greeting_bytes methods = 5 ∷ length methods ∷ methods

abbrev pub credential_bytes : Platform → Socks5Auth → List ℕ
credential_bytes p auth =
    let user = p.utf8_encode auth.username in
    let pass = p.utf8_encode auth.password in 1 ∷ length user ∷ (user ++ length pass ∷ pass)

credentials_right :
    (p : Platform) (auth : Socks5Auth) (s : Session)
    → IsPlatform p
    → IsWellFormed auth.username
    → IsWellFormed auth.password
    → check_credentials p auth
        (p.utf8_decode (p.utf8_encode auth.username))
        (p.utf8_decode (p.utf8_encode auth.password))
        s
      ≡ write (1 ∷ 0 ∷ []) s
credentials_right p auth s w named secret = ground (
  arith,
  w.utf8_decode-encode auth.username named,
  w.utf8_decode-encode auth.password secret,
  text_eq_refl (p.utf8_encode auth.username),
  text_eq_refl (p.utf8_encode auth.password),
)

presented :
    (most : ℕ) (p : Platform) (auth : Socks5Auth) (rest : List ℕ) (written : List (List ℕ))
    → IsPlatform p
    → IsWellFormed auth.username
    → IsWellFormed auth.password
    → authenticate_user_pass p auth (whole most (credential_bytes p auth ++ rest) written)
      ≡ (ok tt, whole most rest (written ++ (1 ∷ 0 ∷ []) ∷ []))
unfolding authenticate_user_pass
presented most p auth rest written w named secret =
    let user = p.utf8_encode auth.username in
    let pass = p.utf8_encode auth.password in
    ap (λ l. authenticate_user_pass p auth (whole most l written))
      (ap (λ l. 1 ∷ length user ∷ l) (append_assoc user (length pass ∷ pass) rest))
    ∙ then-ok (read_exact 2) _ _
        (exact_step (1 ∷ length user ∷ []) (user ++ length pass ∷ (pass ++ rest)) written)
    ∙ then-ok (read_exact (length user)) _ _
        (exact_step user (length pass ∷ (pass ++ rest)) written)
    ∙ then-ok (read_exact 1) _ _ (exact_step (length pass ∷ []) (pass ++ rest) written)
    ∙ then-ok (read_exact (length pass)) _ _ (exact_step pass rest written)
    ∙ credentials_right p auth _ w named secret

pub accepted :
    (most : ℕ) (p : Platform) (auth : Socks5Auth) (methods rest : List ℕ) (written : List (List ℕ))
    → IsPlatform p
    → IsWellFormed auth.username
    → IsWellFormed auth.password
    → auth.enabled ≡ true
    → has_method methods 2 ≡ true
    → negotiate_auth p
        (some auth)
        (whole most (greeting_bytes methods ++ (credential_bytes p auth ++ rest)) written)
      ≡ (ok tt, whole most rest ((written ++ (5 ∷ 2 ∷ []) ∷ []) ++ (1 ∷ 0 ∷ []) ∷ []))
unfolding negotiate_auth choose_method
accepted most p auth methods rest written w named secret on offers =
    let left : List ℕ = credential_bytes p auth ++ rest in
    then-ok (read_exact 2) _ _ (exact_step (5 ∷ length methods ∷ []) (methods ++ left) written)
    ∙ then-ok (read_exact (length methods)) _ _ (exact_step methods left written)
    ∙ ap (λ (m : Step (Unit {0})). m (whole most left written))
        (if_true auth.enabled _ _ on ∙ if_false (not (has_method methods 2)) _ _ (ap not offers))
    ∙ presented most p auth rest (written ++ (5 ∷ 2 ∷ []) ∷ []) w named secret
