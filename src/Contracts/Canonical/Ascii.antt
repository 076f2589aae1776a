-- ===== src/Contracts/Canonical/Ascii.antt =====
-- JSON's escapes and decimal digits are ASCII, so that their code points are their bytes.
use robotics_runtime.Base.{
  ℕ, zero, suc, ◌+◌, ◌-◌, ◌/◌, ◌%◌, ◌<◌, ◌≡◌, refl, Bool, true, false, ◌&&◌, List, [], ◌∷◌, ◌++◌,
  arith, ltb, leb, if_ind, length, All,
}
use robotics_runtime.Contracts.Canonical.Text.{
  encoded_length, hex_digit, unicode_escape, short_escape, escaped_char, escaped, digits,
}

abbrev pub IsAscii : List ℕ → Type 0
IsAscii = All (λ c. c < 128)

pub IsAscii-append : (xs ys : List ℕ) → IsAscii xs → IsAscii ys → IsAscii (xs ++ ys)
IsAscii-append [] ys h k = k
IsAscii-append (x ∷ xs) ys (p, h) k = (p, IsAscii-append xs ys h k)

pub encoded_length-ascii : (xs : List ℕ) → IsAscii xs → encoded_length xs ≡ length xs
unfolding encoded_length
encoded_length-ascii [] h = refl
encoded_length-ascii (x ∷ xs) (p, h) = ground (arith, p, encoded_length-ascii xs h)

pub encoded_length-append :
    (xs ys : List ℕ) → encoded_length (xs ++ ys) ≡ encoded_length xs + encoded_length ys
unfolding encoded_length
encoded_length-append [] ys = omega arith
encoded_length-append (x ∷ xs) ys = omega (arith, encoded_length-append xs ys)

pub hex_digit-ascii : (n : ℕ) → hex_digit (n % 16) < 128
hex_digit-ascii n = ground arith

pub unicode_escape-IsAscii : (c : ℕ) → IsAscii (unicode_escape c)
unicode_escape-IsAscii c = (
  omega arith,
  (
    omega arith,
    (
      hex_digit-ascii (c / 4096),
      (hex_digit-ascii (c / 256), (hex_digit-ascii (c / 16), (hex_digit-ascii c, tt))),
    ),
  ),
)

pub escaped_char-IsAscii : (c : ℕ) → IsAscii (escaped_char c)
escaped_char-IsAscii c =
    if_ind IsAscii (ltb 0 (short_escape c)) (λ _. (omega arith, (ground arith, tt)))
      (λ _.
        if_ind IsAscii (leb 32 c && ltb c 127) (λ p. (ground arith, tt))
          (λ _.
            if_ind IsAscii (ltb c 65536) (λ _. unicode_escape-IsAscii c)
              (λ _.
                IsAscii-append (unicode_escape (55296 + (c - 65536) / 1024))
                  (unicode_escape (56320 + (c - 65536) % 1024)) (unicode_escape-IsAscii _)
                  (unicode_escape-IsAscii _))))

pub escaped-IsAscii : (key : List ℕ) → IsAscii (escaped key)
unfolding escaped
escaped-IsAscii [] = tt
escaped-IsAscii (c ∷ cs) =
    IsAscii-append (escaped_char c) (escaped cs) (escaped_char-IsAscii c) (escaped-IsAscii cs)

pub digits-IsAscii : (f n : ℕ) (rest : List ℕ) → IsAscii rest → IsAscii (digits f n rest)
unfolding digits
digits-IsAscii zero n rest h = (omega arith, h)
digits-IsAscii (suc f) n rest h =
    go (ltb n 10) (λ e. ground arith)
      (digits-IsAscii f (n / 10) ((n % 10 + 48) ∷ rest) (omega arith, h))
  where
    go :
        (b : Bool)
        → (b ≡ true → n < 10)
        → IsAscii (digits f (n / 10) ((n % 10 + 48) ∷ rest))
        → IsAscii (elim b as (λ _. List ℕ) [
          | true ↦ (n + 48) ∷ rest
          | false ↦ digits f (n / 10) ((n % 10 + 48) ∷ rest)
        ])
    go true e k = (omega (arith, e refl), h)
    go false e k = k
