-- ===== src/Security/UnaryCodec.antt =====
-- A stand-in for the JSON of the capability's payload and for the keyed hash, by which the theorems of
-- Capability are run: a number is written in unary, and a text ends in a byte of its own.
use race_frame.Prelude.{
  ℕ, zero, suc, ◌≡◌, refl, List, [], ◌∷◌, Option, none, some, All, ◌==◌, if◌then◌else◌, arith,
}
use race_frame.Matching.Token.{Text}
use race_frame.Archive.Bytes.{Bytes}
use race_frame.Security.Base64.RoundTrip.{IsByte}
use race_frame.Security.Capability.{Payload, Crypto}
use race_frame.Security.Capability.Issued.{IsCodec}

unfoldable pub put_number : ℕ → Bytes → Bytes
put_number zero rest = 0 ∷ rest
put_number (suc n) rest = 1 ∷ put_number n rest

unfoldable pub put_text : Text → Bytes → Bytes
unfolding put_number
put_text [] rest = 2 ∷ rest
put_text (c ∷ s) rest = put_number c (put_text s rest)

abbrev push_zero : List Text → List Text
push_zero [] = []
push_zero (t ∷ ts) = (0 ∷ t) ∷ ts

abbrev increment : List Text → List Text
increment [] = []
increment ([] ∷ ts) = [] ∷ ts
increment ((c ∷ t) ∷ ts) = (suc c ∷ t) ∷ ts

unfoldable pub parse : Bytes → List Text
parse [] = []
parse (b ∷ bytes) =
    let texts = parse bytes in
    if b == 2 then [] ∷ texts else if b == 0 then push_zero texts else increment texts

abbrev push : ℕ → List Text → List Text
push c [] = []
push c (t ∷ ts) = (c ∷ t) ∷ ts

increment-push : (c : ℕ) (ts : List Text) → increment (push c ts) ≡ push (suc c) ts
increment-push c [] = refl
increment-push c (t ∷ ts) = refl

push-zero : (ts : List Text) → push_zero ts ≡ push 0 ts
push-zero [] = refl
push-zero (t ∷ ts) = refl

parse-put_number : (n : ℕ) (rest : Bytes) → parse (put_number n rest) ≡ push n (parse rest)
unfolding parse put_number
parse-put_number zero rest = push-zero (parse rest)
parse-put_number (suc n) rest = rw (parse-put_number n rest) (increment-push n (parse rest))

parse-put_text : (s : Text) (rest : Bytes) → parse (put_text s rest) ≡ s ∷ parse rest
unfolding put_text
parse-put_text [] rest = unfold parse in refl
parse-put_text (c ∷ s) rest =
    rw (parse-put_number c (put_text s rest)) rw (parse-put_text s rest) refl

put_number-bytes : (n : ℕ) (rest : Bytes) → All IsByte rest → All IsByte (put_number n rest)
unfolding put_number
put_number-bytes zero rest h = (omega arith, h)
put_number-bytes (suc n) rest h = (omega arith, put_number-bytes n rest h)

put_text-bytes : (s : Text) (rest : Bytes) → All IsByte rest → All IsByte (put_text s rest)
unfolding put_text
put_text-bytes [] rest h = (omega arith, h)
put_text-bytes (c ∷ s) rest h = put_number-bytes c (put_text s rest) (put_text-bytes s rest h)

abbrev pub dump : Payload → Bytes
dump p =
    put_text p.sid (put_text p.eid (put_text p.cap (put_text p.own (put_text (p.exp ∷ []) []))))

abbrev of_texts : List Text → Option Payload
of_texts (sid ∷ eid ∷ cap ∷ own ∷ (exp ∷ []) ∷ []) =
    some (record { sid = sid; eid = eid; cap = cap; exp = exp; own = own })
of_texts _ = none

abbrev pub toy_crypto : Crypto
toy_crypto = record {
  mac = λ bytes. 7 ∷ [];
  hex = λ bytes. bytes;
  secret_hash = λ s. s;
  dumps = dump;
  loads = λ bytes. of_texts (parse bytes);
}

load-dump : (p : Payload) → of_texts (parse (dump p)) ≡ some p
load-dump p =
    rw
      (parse-put_text p.sid
        (put_text p.eid (put_text p.cap (put_text p.own (put_text (p.exp ∷ []) [])))))
      rw (parse-put_text p.eid (put_text p.cap (put_text p.own (put_text (p.exp ∷ []) [])))) rw
      (parse-put_text p.cap (put_text p.own (put_text (p.exp ∷ []) []))) rw
      (parse-put_text p.own (put_text (p.exp ∷ []) [])) rw (parse-put_text (p.exp ∷ []) [])
      (unfold parse in refl)

pub toy_crypto-IsCodec : IsCodec toy_crypto
toy_crypto-IsCodec = record {
  dumps_bytes = λ p. put_text-bytes p.sid _ (
      put_text-bytes p.eid _
        (put_text-bytes p.cap _ (put_text-bytes p.own _ (put_text-bytes (p.exp ∷ []) [] tt))));
  loads-dumps = load-dump;
}
