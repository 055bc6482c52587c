-- ===== src/Js/Text/Encoding.antt =====
-- `encodeURIComponent` can be undone, so that different texts have different encodings.
use Prim.Native.Char.{Char, code}
use text.Mathlib.TextEquality.{Char-path}
use new_humans.Prelude.{
  ℕ, ◌+◌, ◌-◌, ◌*◌, ◌/◌, ◌%◌, ◌<◌, String, ◌≡◌, refl, ap, sym, ◌∙◌, Bool, true, ◌&&◌, Option, none,
  some, inl, inr, List, [], ◌∷◌, ◌++◌, ltb, eqb, if◌then◌else◌, arith, Bool-cases,
}
use new_humans.Js.Text.{
  codes, encode_char, encode_uri_component, percent, hex_digit, utf8, is_unescaped,
}
use new_humans.Js.Text.Codes.{codes-append, code_scalar}

-- Whether a test holds at every number below a bound.
holds_below : (ℕ → Bool) → ℕ → Bool
holds_below test ℕ.zero = true
holds_below test (ℕ.suc m) = holds_below test m && test m

holds_below_at : (test : ℕ → Bool) (m k : ℕ) → k < m → holds_below test m ≡ true → test k ≡ true
unfolding holds_below
holds_below_at test ℕ.zero k less all = absurd (omega arith)
holds_below_at test (ℕ.suc m) k less all = ground (arith, holds_below_at test m k)

unfoldable pub hex_code : ℕ → ℕ
hex_code n = if ltb n 10 then 48 + n else 55 + n

pub code-hex_digit : (n : ℕ) → n < 16 → code (hex_digit n) ≡ hex_code n
code-hex_digit n h =
    ground (arith, holds_below_at (λ x. eqb (code (hex_digit x)) (hex_code x)) 16 n h table)
  where
    table : holds_below (λ x. eqb (code (hex_digit x)) (hex_code x)) 16 ≡ true
    table = unfold holds_below hex_digit hex_code in refl

unhex : ℕ → ℕ
unhex c = if ltb c 58 then c - 48 else c - 55

abbrev Read : Type 0
Read = Option (ℕ × List ℕ)

infixl 5 ◌>>=◌
abbrev ◌>>=◌ : Read → (ℕ × List ℕ → Read) → Read
none >>= f = none
some a >>= f = f a

read_byte : List ℕ → Read
read_byte (p ∷ a ∷ b ∷ xs) = some (16 * unhex a + unhex b, xs)
read_byte _ = none

read_byte-percent :
    (b : ℕ) (bs xs : List ℕ)
    → b < 256
    → read_byte (codes (percent (b ∷ bs)) ++ xs) ≡ some (b, codes (percent bs) ++ xs)
unfolding read_byte percent unhex hex_code
read_byte-percent b bs xs h =
    rw (code-hex_digit (b / 16) (omega arith), code-hex_digit (b % 16) (omega arith)) (ground arith)

abbrev low : ℕ → ℕ
low b = b - 0x80

-- The rest of a character whose first byte is `b`.
decode_from : ℕ → List ℕ → Read
decode_from b r =
    if ltb b 0x80
    then some (b, r)
    else if ltb b 0xE0
    then (read_byte r >>= λ p. some ((b - 0xC0) * 64 + low p.0, p.1))
    else if ltb b 0xF0
    then (read_byte r >>= λ p.
        (read_byte p.1 >>= λ q. some ((b - 0xE0) * 4096 + low p.0 * 64 + low q.0, q.1)))
    else (read_byte r >>= λ p.
        (read_byte p.1 >>= λ q.
        (read_byte q.1 >>= λ s.
        some ((b - 0xF0) * 262144 + low p.0 * 4096 + low q.0 * 64 + low s.0, s.1))))

decode_bytes : List ℕ → Read
decode_bytes l = read_byte l >>= λ p. decode_from p.0 p.1

decode_code : List ℕ → Read
decode_code [] = none
decode_code (c ∷ xs) = if eqb c 37 then decode_bytes (c ∷ xs) else some (c, xs)

codes-percent_nil : codes (percent []) ≡ []
unfolding percent
codes-percent_nil = refl

module _ (n : ℕ) (xs : List ℕ) (range : n < 0x110000) where
  decode_bytes-utf8 : decode_bytes (codes (percent (utf8 n)) ++ xs) ≡ some (n, xs)
  unfolding decode_bytes decode_from utf8
  decode_bytes-utf8 = ground (
    arith,
    codes-percent_nil,
    read_byte-percent n [] xs,
    read_byte-percent (0xC0 + n / 64) ((0x80 + n % 64) ∷ []) xs,
    read_byte-percent (0xE0 + n / 4096) ((0x80 + n / 64 % 64) ∷ (0x80 + n % 64) ∷ []) xs,
    read_byte-percent (0xF0 + n / 262144)
        ((0x80 + n / 4096 % 64) ∷ (0x80 + n / 64 % 64) ∷ (0x80 + n % 64) ∷ []) xs,
    read_byte-percent (0x80 + n / 4096 % 64) ((0x80 + n / 64 % 64) ∷ (0x80 + n % 64) ∷ []) xs,
    read_byte-percent (0x80 + n / 64 % 64) ((0x80 + n % 64) ∷ []) xs,
    read_byte-percent (0x80 + n % 64) [] xs,
  )

decode_code-percent :
    (b : ℕ) (bs xs : List ℕ)
    → decode_code (codes (percent (b ∷ bs)) ++ xs) ≡ decode_bytes (codes (percent (b ∷ bs)) ++ xs)
unfolding decode_code percent
decode_code-percent b bs xs = refl

decode_code-utf8 :
    (n : ℕ) (xs : List ℕ)
    → decode_code (codes (percent (utf8 n)) ++ xs) ≡ decode_bytes (codes (percent (utf8 n)) ++ xs)
unfolding utf8
decode_code-utf8 n xs = ground (
  arith,
  decode_code-percent n [] xs,
  decode_code-percent (0xC0 + n / 64) ((0x80 + n % 64) ∷ []) xs,
  decode_code-percent (0xE0 + n / 4096) ((0x80 + n / 64 % 64) ∷ (0x80 + n % 64) ∷ []) xs,
  decode_code-percent (0xF0 + n / 262144)
      ((0x80 + n / 4096 % 64) ∷ (0x80 + n / 64 % 64) ∷ (0x80 + n % 64) ∷ []) xs,
)

decode_code-unescaped :
    (n : ℕ) (xs : List ℕ) → is_unescaped n ≡ true → decode_code (n ∷ xs) ≡ some (n, xs)
unfolding decode_code is_unescaped
decode_code-unescaped n xs h = ground arith

decode_code-encode_char :
    (c : Char) (xs : List ℕ) → decode_code (codes (encode_char c) ++ xs) ≡ some (code c, xs)
unfolding encode_char
decode_code-encode_char c xs = elim (Bool-cases (is_unescaped (code c))) [
  | inl plain ↦ rw plain (decode_code-unescaped (code c) xs plain)
  | inr escaped ↦
      rw escaped (
        decode_code-utf8 (code c) xs
        ∙ decode_bytes-utf8 (code c) xs (ground (arith, code_scalar c)))
]

pub codes-encode :
    (c : Char) (s : String)
    → codes (encode_uri_component (String.◌∷◌ c s))
      ≡ codes (encode_char c) ++ codes (encode_uri_component s)
unfolding encode_uri_component
codes-encode c s = codes-append (encode_char c) (encode_uri_component s)

decode-encode :
    (c : Char) (s : String)
    → decode_code (codes (encode_uri_component (String.◌∷◌ c s)))
      ≡ some (code c, codes (encode_uri_component s))
decode-encode c s = rw (codes-encode c s) (decode_code-encode_char c _)

pub codes-encode_nil : codes (encode_uri_component "") ≡ []
unfolding encode_uri_component
codes-encode_nil = refl

pub encode_inj :
    (s t : String) → codes (encode_uri_component s) ≡ codes (encode_uri_component t) → s ≡ t
encode_inj String.[] String.[] h = refl
encode_inj String.[] (String.◌∷◌ d t) h =
    absurd (unfold decode_code in cc (h, decode-encode d t, codes-encode_nil))
encode_inj (String.◌∷◌ c s) String.[] h =
    absurd (unfold decode_code in cc (ap decode_code h, decode-encode c s, codes-encode_nil))
encode_inj (String.◌∷◌ c s) (String.◌∷◌ d t) h =
    let same : some (code c, codes (encode_uri_component s))
        ≡ some (code d, codes (encode_uri_component t)) =
      sym (decode-encode c s) ∙ ap decode_code h ∙ decode-encode d t in
    cc (Char-path c d (ground arith), encode_inj s t (ground arith))
