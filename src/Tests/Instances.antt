-- ===== src/Tests/Instances.antt =====
-- Concrete crates for the tests: small functions that keep the documented promises of `aes`, `base64`
-- and the others, so that the code can be run on them.
use mathlib.Core.Option.{some-injective}
use mathlib.Core.Path.{subst}
use rust_filen.Base.{
  All, ℕ, zero, suc, ◌+◌, ◌*◌, ◌/◌, ◌%◌, ◌<◌, ◌≡◌, ◌≢◌, refl, sym, ap, ◌∙◌, List, [], ◌∷◌, ◌++◌,
  Option, none, some, Bool, true, false, arith, ◌==◌, if◌then◌else◌, length, take, drop, replicate,
  length-drop, ◌≤◌, ◌↔◌, not, Bool-cases, inl, inr, take-append-drop, All-append, All-drop, ok, err,
  returns, panics,
}
use rust_filen.Base.Text.{Bytes, codes, bytes_eq, bytes_eq_sound}
use rust_filen.Base.Effects.{Eff}
use rust_filen.Base.{Outcome, Result}
use rust_filen.Backoff.{Retry, RetryError, operation, OperationResult, op_ok, op_retry, op_err}
use rust_filen.Backoff.Call.{IsRetry}
use rust_filen.Names.{Uuids, IsUuids}
use rust_filen.Crypto.Primitives.{
  Ciphers, IsCiphers, IsBytes, IsAscii, openssl_salt_prefix, openssl_salt_prefix_base64,
}

-- Each byte as its two halves, and back.
abbrev halves : Bytes → Bytes
halves [] = []
halves (b ∷ bytes) = b / 16 ∷ b % 16 ∷ halves bytes

abbrev wholes : Bytes → Bytes
wholes [] = []
wholes (a ∷ []) = []
wholes (a ∷ b ∷ s) = (a * 16 + b) ∷ wholes s

wholes-halves : (s : Bytes) → wholes (halves s) ≡ s
wholes-halves [] = refl
wholes-halves (b ∷ s) = let e : (b / 16) * 16 + b % 16 ≡ b = omega arith in rw (e, wholes-halves s)

halves-IsAscii : (s : Bytes) → IsBytes s → IsAscii (halves s)
halves-IsAscii [] h = tt
halves-IsAscii (b ∷ s) (hb, hs) = (omega arith, (omega arith, halves-IsAscii s hs))

-- An encoding whose texts for `Salted__` and what follows start as in base64.
abbrev encode : Bytes → Bytes
encode d =
    if bytes_eq (take 8 d) openssl_salt_prefix
    then openssl_salt_prefix_base64 ++ halves (drop 8 d)
    else b'x' ∷ halves d

abbrev decode : Bytes → Option Bytes
decode [] = none
decode (c ∷ s) =
    if c == b'x' then some (wholes s) else some (openssl_salt_prefix ++ wholes (drop 7 s))

decode-encode : (d : Bytes) → decode (encode d) ≡ some d
decode-encode d = elim (Bool-cases (bytes_eq (take 8 d) openssl_salt_prefix)) [
  | inl e ↦
      let front : take 8 d ≡ openssl_salt_prefix =
        bytes_eq_sound (take 8 d) openssl_salt_prefix e in
      rw (e, wholes-halves (drop 8 d))
        (ap some (ap (λ m. m ++ drop 8 d) (sym front) ∙ take-append-drop 8 d))
  | inr e ↦ rw (e, wholes-halves d)
]

encode-IsAscii : (d : Bytes) → IsBytes d → IsAscii (encode d)
encode-IsAscii d h =
    let rest_bytes = All-drop (λ x. x < 256) 8 d h in
    let front : IsAscii openssl_salt_prefix_base64 = search (arith, tt) in
    elim (Bool-cases (bytes_eq (take 8 d) openssl_salt_prefix)) [
      | inl e ↦ rw (e) (
          All-append (λ x. x < 128) openssl_salt_prefix_base64 (halves (drop 8 d)) front
            (halves-IsAscii (drop 8 d) rest_bytes))
      | inr e ↦ rw (e) (omega arith, halves-IsAscii d h)
    ]

encode-ne-nil : (d : Bytes) → encode d ≢ []
encode-ne-nil d h = elim (Bool-cases (bytes_eq (take 8 d) openssl_salt_prefix)) [
  | inl e ↦ absurd (cc (rw e at h))
  | inr e ↦ absurd (cc (rw e at h))
]

le-length-halves : (d : Bytes) → length d ≤ length (halves d)
le-length-halves [] = omega arith
le-length-halves (b ∷ d) = omega (arith, le-length-halves d)

le-length-encode : (d : Bytes) → length d ≤ length (encode d)
le-length-encode d = elim (Bool-cases (bytes_eq (take 8 d) openssl_salt_prefix)) [
  | inl e ↦ rw e (omega (arith, le-length-halves (drop 8 d), length-drop 8 d))
  | inr e ↦ rw e (omega (arith, le-length-halves d))
]

-- The first byte of a key, and data that is readable only with a key that has the same one.
abbrev tag : Bytes → ℕ
tag [] = 0
tag (b ∷ _) = b % 256

abbrev unseal : Bytes → Bytes → Option Bytes
unseal key [] = none
unseal key (t ∷ d) = if t == tag key then some d else none

unseal-tag : (key d : Bytes) → unseal key (tag key ∷ d) ≡ some d
unseal-tag key d = let e : (tag key == tag key) ≡ true = ground arith in rw e

tag_lt : (key : Bytes) → tag key < 256
tag_lt [] = omega arith
tag_lt (b ∷ key) = omega arith

length-zeros : (n : ℕ) → length {A = ℕ} (replicate n 0) ≡ n
length-zeros zero = omega arith
length-zeros (suc n) = ap suc (length-zeros n)

zeros-IsBytes : (n : ℕ) → IsBytes (replicate n 0)
zeros-IsBytes zero = tt
zeros-IsBytes (suc n) = (omega arith, zeros-IsBytes n)

abbrev pub plain_ciphers : Ciphers
plain_ciphers = record {
  evp_kdf = λ n p s k. replicate n 0;
  pbkdf2 = λ n p s k. p;
  cbc_encrypt = λ key iv d. replicate 16 0 ++ d;
  cbc_decrypt = λ key iv m. some (drop 16 m);
  gcm_encrypt = λ key nonce d. some (tag key ∷ d);
  gcm_decrypt = λ key nonce m. unseal key m;
  base64_encode = encode;
  base64_decode = decode;
}

pub plain_ciphers-IsCiphers : IsCiphers plain_ciphers
plain_ciphers-IsCiphers = record {
  length-evp_kdf = λ n p s k. length-zeros n;
  cbc_decrypt-cbc_encrypt = λ key iv d. refl;
  cbc_encrypt-IsBytes =
      λ key iv d h. All-append (λ x. x < 256) (replicate 16 0) d (zeros-IsBytes 16) h;
  le-length-cbc_encrypt = λ key iv d. omega arith;
  gcm_decrypt-gcm_encrypt = λ key nonce d m h.
      subst (λ m. unseal key m ≡ some d) (some-injective _ _ h) (unseal-tag key d);
  gcm_encrypt-IsBytes = λ key nonce d m h e. subst IsBytes (some-injective _ _ e) (tag_lt key, h);
  gcm_encrypt-ne-nil = λ key nonce d m e empty. cc (some-injective _ _ e, empty);
  base64_decode-base64_encode = λ d h. decode-encode d;
  base64_encode-IsAscii = encode-IsAscii;
  base64_encode-ne-nil = λ d h. encode-ne-nil d;
  le-length-base64_encode = le-length-encode;
  base64_encode_salted = λ d h. (halves d, refl);
}

-- The `uuid` crate on two identifiers.
abbrev nil_uuid : Bytes
nil_uuid = codes "00000000-0000-0000-0000-000000000000"

abbrev max_uuid : Bytes
max_uuid = codes "ffffffff-ffff-ffff-ffff-ffffffffffff"

abbrev Bool_eq : Bool → Bool → Bool
Bool_eq true b = b
Bool_eq false b = not b

abbrev pub two_uuids : Uuids
two_uuids = record {
  Uuid = Bool;
  parse_str = λ s.
      if bytes_eq s nil_uuid then some false else if bytes_eq s max_uuid then some true else none;
  hyphenated = λ b. if b then max_uuid else nil_uuid;
  eq = Bool_eq;
}

parse_back : (id : Bool) → two_uuids.parse_str (two_uuids.hyphenated id) ≡ some id
parse_back true = refl
parse_back false = refl

length-shown : (id : Bool) → length (two_uuids.hyphenated id) ≡ 36
length-shown true = omega arith
length-shown false = omega arith

shown-All : (id : Bool) → All (λ b. b ≢ b'/') (two_uuids.hyphenated id)
shown-All true = search (arith, tt)
shown-All false = search (arith, tt)

Bool_eq_iff : (a b : Bool) → (Bool_eq a b ≡ true) ↔ (a ≡ b)
Bool_eq_iff true true = (λ h. refl, λ h. refl)
Bool_eq_iff true false = (λ h. absurd (cc h), λ h. absurd (cc h))
Bool_eq_iff false true = (λ h. absurd (cc h), λ h. absurd (cc h))
Bool_eq_iff false false = (λ h. refl, λ h. refl)

pub two_uuids-IsUuids : IsUuids two_uuids
two_uuids-IsUuids = record {
  parse_str-hyphenated = parse_back;
  length-hyphenated = λ id. length-shown id;
  hyphenated-All = shown-All;
  eq_iff = Bool_eq_iff;
}

-- `retry::retry` without the waiting.
run :
    {W : Type 0} (A E : Type 0)
    → List ℕ
    → (W → Outcome (OperationResult A E × W))
    → Eff W A (RetryError E)
run A E [] op w = elim (op w) [
  | panics ↦ panics
  | returns (op_ok a, w') ↦ returns (ok a, w')
  | returns (op_retry e, w') ↦ returns (err (operation e), w')
  | returns (op_err e, w') ↦ returns (err (operation e), w')
]
run A E (d ∷ ds) op w = elim (op w) [
  | panics ↦ panics
  | returns (op_ok a, w') ↦ returns (ok a, w')
  | returns (op_retry e, w') ↦ run A E ds op w'
  | returns (op_err e, w') ↦ returns (err (operation e), w')
]

abbrev from_result : (A E : Type 0) → Result A E → OperationResult A E
from_result A E (ok a) = op_ok a
from_result A E (err e) = op_retry e

unfoldable pub eager : (W : Type 0) → Retry W
unfolding run
eager W = record { jitter = λ k d. d; from_result = from_result; run = run }

run_ok :
    {W : Type 0} (A E : Type 0) (ds : List ℕ) (op : W → Outcome (OperationResult A E × W))
    (w w' : W) (a : A)
    → op w ≡ returns (op_ok a, w')
    → run A E ds op w ≡ returns (ok a, w')
unfolding run
run_ok A E [] op w w' a h = rw (h, run) refl
run_ok A E (d ∷ ds) op w w' a h = rw (h, run) refl

run_err :
    {W : Type 0} (A E : Type 0) (ds : List ℕ) (op : W → Outcome (OperationResult A E × W))
    (w w' : W) (e : E)
    → op w ≡ returns (op_err e, w')
    → run A E ds op w ≡ returns (err (operation e), w')
unfolding run
run_err A E [] op w w' e h = rw (h, run) refl
run_err A E (d ∷ ds) op w w' e h = rw (h, run) refl

run_panics :
    {W : Type 0} (A E : Type 0) (ds : List ℕ) (op : W → Outcome (OperationResult A E × W)) (w : W)
    → op w ≡ panics
    → run A E ds op w ≡ panics
unfolding run
run_panics A E [] op w h = rw (h, run) refl
run_panics A E (d ∷ ds) op w h = rw (h, run) refl

pub eager-IsRetry : (W : Type 0) → IsRetry (eager W)
unfolding eager run
eager-IsRetry W = record {
  from_result-ok = λ A E a. refl;
  from_result-err = λ A E e. refl;
  first_ok = run_ok;
  first_err = run_err;
  first_panics = run_panics;
  last_try = λ A E op w w' e h. rw (h, run) refl;
  next_try = λ A E d ds op w w' e h. rw (h, run) refl;
}
