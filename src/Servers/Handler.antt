-- ===== src/Servers/Handler.antt =====
-- The handlers of the servers under examples/: each takes the server's state and gives the state
-- after it and an answer. What a handler did to the state before it fails stays done.
use passkey_auth_rs.Prelude.{◌∙◌, String, Bool, true, false, ◌≡◌, refl, Option, none, some, ◌<>◌}
use passkey_auth_rs.Error.{Result, ok, err, panic, display}

-- What a handler answers; a panic of the crate would end the request. Only the server with a
-- database answers `db_error`.
pub data Reply {ℓ} (A : Type ℓ) : Type ℓ where
  reply : A → Reply A
  bad_request : String → Reply A
  unauthorized : String → Reply A
  db_error : String → Reply A
  aborted : Reply A

abbrev pub IsRefusal {ℓ} : {A : Type ℓ} → Reply A → Type 0
IsRefusal (reply a) = ⊥
IsRefusal (bad_request e) = Unit
IsRefusal (unauthorized e) = Unit
IsRefusal (db_error e) = Unit
IsRefusal aborted = Unit

pub not-IsRefusal {ℓ} :
    {A : Type ℓ} (answer : Reply A) {a : A} → answer ≡ reply a → IsRefusal answer → ⊥
not-IsRefusal (reply a) h r = r
not-IsRefusal (bad_request e) h r = cc
not-IsRefusal (unauthorized e) h r = cc
not-IsRefusal (db_error e) h r = cc
not-IsRefusal aborted h r = cc

abbrev pub Handler : Type 0 → Type 0 → Type 0
Handler S A = S → S × Reply A

-- The rest of a handler goes on from the state that the first part left, unless that part failed.
abbrev pub proceed : {S A B : Type 0} → S × Reply A → (A → Handler S B) → S × Reply B
proceed (s, reply a) f = f a s
proceed (s, bad_request e) f = (s, bad_request e)
proceed (s, unauthorized e) f = (s, unauthorized e)
proceed (s, db_error e) f = (s, db_error e)
proceed (s, aborted) f = (s, aborted)

infixl 5 ◌>>=◌ ◌>>◌
abbrev pub ◌>>=◌ : {S A B : Type 0} → Handler S A → (A → Handler S B) → Handler S B
◌>>=◌ m f s = proceed (m s) f

abbrev pub ◌>>◌ : {S B : Type 0} → Handler S (Unit {0}) → Handler S B → Handler S B
m >> k = m >>= λ _. k

-- The answers of the four ways in which the code leaves a handler early.
module _ {A : Type 0} where
  abbrev pub or_bad_request_of : Option A → String → Reply A
  or_bad_request_of none message = bad_request message
  or_bad_request_of (some a) message = reply a

  abbrev pub or_unauthorized_of : Option A → String → Reply A
  or_unauthorized_of none message = unauthorized message
  or_unauthorized_of (some a) message = reply a

  abbrev pub verified_of : Result A → String → Reply A
  verified_of (ok a) prefix = reply a
  verified_of (err e) prefix = unauthorized (prefix <> display e)
  verified_of panic prefix = aborted

  abbrev pub decoded_of : Result A → String → Reply A
  decoded_of (ok a) message = reply a
  decoded_of (err e) message = bad_request message
  decoded_of panic message = aborted

abbrev pub demand_of : Bool → String → Reply (Unit {0})
demand_of true message = reply tt
demand_of false message = unauthorized message

abbrev pub refuse_if_of : Bool → String → Reply (Unit {0})
refuse_if_of true message = bad_request message
refuse_if_of false message = reply tt

module _ {S A : Type 0} where
  abbrev pub pure : A → Handler S A
  pure a s = (s, reply a)

  abbrev pub gets : (S → A) → Handler S A
  gets f s = (s, reply (f s))

  -- `.ok_or(BadRequest(message))?`
  abbrev pub or_bad_request : Option A → String → Handler S A
  or_bad_request o message s = (s, or_bad_request_of o message)

  -- `.ok_or(Unauthorized(message))?`
  abbrev pub or_unauthorized : Option A → String → Handler S A
  or_unauthorized o message s = (s, or_unauthorized_of o message)

  -- `.map_err(|e| Unauthorized(format!("…: {e}")))?`
  abbrev pub verified : Result A → String → Handler S A
  verified r prefix s = (s, verified_of r prefix)

  -- `.map_err(|_| BadRequest(message))?`
  abbrev pub decoded : Result A → String → Handler S A
  decoded r message s = (s, decoded_of r message)

module _ {S : Type 0} where
  abbrev pub modify : (S → S) → Handler S (Unit {0})
  modify f s = (f s, reply tt)

  -- `return Err(BadRequest(message))` under a test.
  abbrev pub refuse_if : Bool → String → Handler S (Unit {0})
  refuse_if test message s = (s, refuse_if_of test message)

  -- `Err(Unauthorized(message))` unless a test holds.
  abbrev pub demand : Bool → String → Handler S (Unit {0})
  demand test message s = (s, demand_of test message)

-- What holds of every answer in the state that the first part leaves if it fails, and of the rest of
-- the handler if it succeeds, holds of both together.
pub proceed-cases {κ} :
    {S A B : Type 0} (P : S × Reply B → Type κ) (r : S × Reply A) (f : A → Handler S B)
    → ((answer : Reply B) → IsRefusal answer → IsRefusal r.1 → P (r.0, answer))
    → ((a : A) → r.1 ≡ reply a → P (f a r.0))
    → P (proceed r f)
proceed-cases P (s, reply a) f stops goes_on = goes_on a refl
proceed-cases P (s, bad_request e) f stops goes_on = stops (bad_request e) tt tt
proceed-cases P (s, unauthorized e) f stops goes_on = stops (unauthorized e) tt tt
proceed-cases P (s, db_error e) f stops goes_on = stops (db_error e) tt tt
proceed-cases P (s, aborted) f stops goes_on = stops aborted tt tt

-- The same where it does not matter why the first part fails.
pub proceed-elim {κ} :
    {S A B : Type 0} (P : S × Reply B → Type κ) (r : S × Reply A) (f : A → Handler S B)
    → ((answer : Reply B) → IsRefusal answer → P (r.0, answer))
    → ((a : A) → r.1 ≡ reply a → P (f a r.0))
    → P (proceed r f)
proceed-elim P r f stops goes_on =
    proceed-cases P r f (λ answer refused _. stops answer refused) goes_on

-- What neither the first part of a handler nor the rest of it changes is not changed by both.
pub proceed-keeps :
    {S A B X : Type 0} (look : S → X) (r : S × Reply A) (f : A → Handler S B) {x : X}
    → look r.0 ≡ x
    → ((a : A) → look (f a r.0).0 ≡ look r.0)
    → look (proceed r f).0 ≡ x
proceed-keeps look r f {x} h k =
    proceed-elim (λ t. look t.0 ≡ x) r f (λ answer _. h) (λ a _. k a ∙ h)

-- A handler that answers with success has run through all its parts.
pub proceed-eq-reply :
    {S A B : Type 0} (r : S × Reply A) (f : A → Handler S B) {s' : S} {b : B}
    → proceed r f ≡ (s', reply b)
    → (t : S) × (a : A) × (r ≡ (t, reply a)) × (f a t ≡ (s', reply b))
proceed-eq-reply (t, reply a) f h = (t, a, refl, h)
proceed-eq-reply (t, bad_request e) f h = cc
proceed-eq-reply (t, unauthorized e) f h = cc
proceed-eq-reply (t, db_error e) f h = cc
proceed-eq-reply (t, aborted) f h = cc

-- What succeeded, where one of the ways out was not taken.
module _ {A : Type 0} where
  pub or_bad_request_of-eq-reply :
      (o : Option A) (message : String) {a : A} → or_bad_request_of o message ≡ reply a → o ≡ some a
  or_bad_request_of-eq-reply none message h = cc
  or_bad_request_of-eq-reply (some a) message h = cc

  pub or_unauthorized_of-eq-reply :
      (o : Option A) (message : String) {a : A}
      → or_unauthorized_of o message ≡ reply a
      → o ≡ some a
  or_unauthorized_of-eq-reply none message h = cc
  or_unauthorized_of-eq-reply (some a) message h = cc

  pub verified_of-eq-reply :
      (r : Result A) (prefix : String) {a : A} → verified_of r prefix ≡ reply a → r ≡ ok a
  verified_of-eq-reply (ok a) prefix h = cc
  verified_of-eq-reply (err e) prefix h = cc
  verified_of-eq-reply panic prefix h = cc

  pub decoded_of-eq-reply :
      (r : Result A) (message : String) {a : A} → decoded_of r message ≡ reply a → r ≡ ok a
  decoded_of-eq-reply (ok a) message h = cc
  decoded_of-eq-reply (err e) message h = cc
  decoded_of-eq-reply panic message h = cc

pub demand_of-eq-reply :
    (test : Bool) (message : String) → demand_of test message ≡ reply tt → test ≡ true
demand_of-eq-reply true message h = refl
demand_of-eq-reply false message h = cc
