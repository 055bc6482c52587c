-- ===== src/Js/Text/Slash.antt =====
-- What `encodeURIComponent` returns holds no slash, so it can be read off before one.
use Prim.Native.Char.{Char, code}
use new_humans.Prelude.{
  ℕ, ◌/◌, ◌%◌, ◌<◌, String, ◌≡◌, ◌≢◌, true, inl, inr, List, [], ◌∷◌, arith, Bool-cases,
}
use new_humans.Js.Text.{
  codes, encode_char, encode_uri_component, percent, hex_digit, utf8, is_unescaped,
}
use new_humans.Js.Text.Codes.{code_scalar}
use new_humans.Js.Text.Separators.{Avoids, Avoids-append}
use new_humans.Js.Text.Encoding.{hex_code, code-hex_digit, codes-encode, codes-encode_nil}

hex_code-ne-slash : (n : ℕ) → n < 16 → code (hex_digit n) ≢ b'/'
hex_code-ne-slash n h = rw (code-hex_digit n h) (unfold hex_code in ground arith)

-- Each element is a byte.
abbrev Bytes : List ℕ → Type 0
Bytes [] = Unit {0}
Bytes (b ∷ bs) = (b < 256) × Bytes bs

percent-Avoids : (bs : List ℕ) → Bytes bs → Avoids b'/' (codes (percent bs))
unfolding percent
percent-Avoids [] h = tt
percent-Avoids (b ∷ bs) (p, h) = (
  (λ e. absurd (omega arith)),
  (
    hex_code-ne-slash (b / 16) (omega arith),
    (hex_code-ne-slash (b % 16) (omega arith), percent-Avoids bs h),
  ),
)

utf8-Bytes : (n : ℕ) → n < 0x110000 → Bytes (utf8 n)
unfolding utf8
utf8-Bytes n h = ground arith

unescaped-ne-slash : (n : ℕ) → is_unescaped n ≡ true → n ≢ b'/'
unfolding is_unescaped
unescaped-ne-slash n h = ground arith

encode_char-Avoids : (c : Char) → Avoids b'/' (codes (encode_char c))
unfolding encode_char
encode_char-Avoids c = elim (Bool-cases (is_unescaped (code c))) [
  | inl plain ↦ rw plain (unescaped-ne-slash (code c) plain, tt)
  | inr escaped ↦
      rw escaped
        (percent-Avoids (utf8 (code c)) (utf8-Bytes (code c) (ground (arith, code_scalar c))))
]

pub encode-Avoids : (s : String) → Avoids b'/' (codes (encode_uri_component s))
encode-Avoids String.[] = rw codes-encode_nil tt
encode-Avoids (String.◌∷◌ c s) =
    rw (codes-encode c s)
      (Avoids-append b'/' (codes (encode_char c)) _ (encode_char-Avoids c) (encode-Avoids s))
