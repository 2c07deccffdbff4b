-- ===== src/Auth/Tests/Encoding.antt =====
-- A host for the tests: encodings that can be computed in place of base64url and decimals.
use Prim.Native.Char.{Char, code}
use Prim.Native.String.{[] as nil, ◌∷◌ as chars}
use text.Mathlib.TextEquality.{Char-path}
use hikari.Prelude.{
  ℕ, zero, suc, ◌≡◌, refl, sym, ap, ◌∙◌, Bool, true, false, ◌&&◌, List, [], ◌∷◌, Option, none, some,
  get_or, arith, Bool-cases, inl, inr, ◌==◌ as nat_eq, if◌then◌else◌,
}
use hikari.Prelude.Text.{String, ◌⊕◌, starts_with, includes}
use hikari.Auth.Types.{Host}
use hikari.Auth.Tokens.{TokenLaws}

-- "." becomes "ab" and "a" becomes "aa".
unfoldable pub escape : String → String
escape nil = nil
escape (chars c s) =
    let rest = escape s in
    if nat_eq (code c) b'.'
    then chars "a" (chars "b" rest)
    else if nat_eq (code c) b'a'
    then chars "a" (chars "a" rest)
    else chars c rest

unfoldable pub unescape : Bool → String → String
unescape b nil = nil
unescape true (chars c s) =
    let rest = unescape false s in if nat_eq (code c) b'a' then chars "a" rest else chars "." rest
unescape false (chars c s) =
    let plain = unescape false s in
    let escaped = unescape true s in if nat_eq (code c) b'a' then escaped else chars c plain

-- `suc` adds a digit 1.
unfoldable pub unary : ℕ → String
unary zero = nil
unary (suc k) = chars "1" (unary k)

unfoldable pub count : String → ℕ
count nil = 0
count (chars c s) = suc (count s)

unfoldable pub bytes_of : String → List ℕ
bytes_of nil = []
bytes_of (chars c s) = code c ∷ bytes_of s

unfoldable pub same_bytes : List ℕ → List ℕ → Option Bool
same_bytes [] [] = some true
same_bytes [] (y ∷ ys) = none
same_bytes (x ∷ xs) [] = none
same_bytes (x ∷ xs) (y ∷ ys) = elim (same_bytes xs ys) [
  | none ↦ none
  | some b ↦ some (nat_eq x y && b)
]

abbrev pub host : Host
host = record {
  Key = String;
  sha256 = λ s. escape s;
  hmac_sha256 = λ k s. escape (k ⊕ s);
  to_base64url = escape;
  from_base64url = unescape false;
  bytes_of_hex = bytes_of;
  bytes_of_base64 = bytes_of;
  is_hex = λ s. true;
  trim = λ s. s;
  timing_safe_equal = same_bytes;
  iso = unary;
  decimal = unary;
  parse_int = λ s. some (count s);
  from_public_key = λ s. if starts_with s "G" then some s else none;
  key_verify = λ key message bytes. some (nat_eq (get_or bytes 0 0) (count message));
}

unescape-escape : (s : String) → unescape false (escape s) ≡ s
unfolding escape unescape
unescape-escape nil = refl
unescape-escape (chars c s) = elim (Bool-cases (nat_eq (code c) b'.')) [
  | inl dot ↦
      rw (dot, escape)
        (ap (chars ".") (unescape-escape s)
          ∙ ap (λ (d : Char). chars d s) (sym (Char-path c "." (ground (arith, dot)))))
  | inr other ↦ elim (Bool-cases (nat_eq (code c) b'a')) [
    | inl a ↦
        rw (other, a, escape)
          (ap (chars "a") (unescape-escape s)
            ∙ ap (λ (d : Char). chars d s) (sym (Char-path c "a" (ground (arith, a)))))
    | inr plain ↦ rw (other, plain, escape, unescape) (rw plain (ap (chars c) (unescape-escape s)))
  ]
]

escape_plain : (s : String) → includes b'.' (escape s) ≡ false
unfolding escape includes
escape_plain nil = refl
escape_plain (chars c s) = ground (arith, escape_plain s)

unary_plain : (k : ℕ) → includes b':' (unary k) ≡ false
unfolding unary includes
unary_plain zero = refl
unary_plain (suc k) = unary_plain k

count-unary : (k : ℕ) → count (unary k) ≡ k
unfolding unary count
count-unary zero = refl
count-unary (suc k) = ap suc (count-unary k)

same_bytes_refl : (bytes : List ℕ) → same_bytes bytes bytes ≡ some true
unfolding same_bytes
same_bytes_refl [] = refl
same_bytes_refl (x ∷ xs) = ground (arith, same_bytes_refl xs)

pub host-TokenLaws : TokenLaws host
host-TokenLaws = record {
  decode-encode = unescape-escape;
  encode_plain = escape_plain;
  hmac_plain = λ k s. escape_plain (k ⊕ s);
  decimal_plain = unary_plain;
  parse-decimal = λ t. ap some (count-unary t);
  equal_bytes = same_bytes_refl;
}
