-- ===== src/Contracts/Canonical/Text.antt =====
-- packages/contracts/src/robotics_runtime_contracts/canonical.py: what Python's strings and integers
-- measure: code points, UTF-8 bytes, binary and decimal digits, and JSON's escapes.
use robotics_runtime.Base.{
  ℕ, zero, suc, ◌+◌, ◌-◌, ◌/◌, ◌%◌, Bool, true, false, ◌&&◌, List, [], ◌∷◌, ◌++◌, ltb, leb, ◌==◌,
  if◌then◌else◌,
}
use robotics_runtime.Base.Int.{ℤ, pos, negsuc}
use robotics_runtime.Base.Double.{bits}

abbrev pub is_surrogate : ℕ → Bool
is_surrogate c = leb 55296 c && leb c 57343

-- the bytes of a code point in UTF-8
abbrev pub utf8_length : ℕ → ℕ
utf8_length c = if ltb c 128 then 1 else if ltb c 2048 then 2 else if ltb c 65536 then 3 else 4

-- `len(s.encode("utf-8"))`, for a string without surrogates
unfoldable pub encoded_length : List ℕ → ℕ
encoded_length [] = 0
encoded_length (c ∷ cs) = utf8_length c + encoded_length cs

-- `value.bit_length()`; a fuel of `n` is enough.
abbrev pub magnitude : ℤ → ℕ
magnitude (pos n) = n
magnitude (negsuc n) = suc n

abbrev pub bit_length : ℤ → ℕ
bit_length z = bits (magnitude z) (magnitude z)

-- The decimal digits of a number, most significant first; a fuel of `n` is enough for `n`.
unfoldable pub digits : ℕ → ℕ → List ℕ → List ℕ
digits zero n rest = (n % 10 + 48) ∷ rest
digits (suc f) n rest = elim (ltb n 10) [
  | true ↦ (n + 48) ∷ rest
  | false ↦ digits f (n / 10) ((n % 10 + 48) ∷ rest)
]

-- `str(value)`
abbrev pub decimal : ℤ → List ℕ
decimal (pos n) = digits n n []
decimal (negsuc n) = 45 ∷ digits (suc n) (suc n) []

abbrev pub hex_digit : ℕ → ℕ
hex_digit n = if ltb n 10 then n + 48 else n + 87

-- `\uXXXX`
abbrev pub unicode_escape : ℕ → List ℕ
unicode_escape c =
    92
    ∷ 117
    ∷ hex_digit (c / 4096 % 16)
    ∷ hex_digit (c / 256 % 16)
    ∷ hex_digit (c / 16 % 16)
    ∷ hex_digit (c % 16)
    ∷ []

-- The letter of a short escape, or 0.
abbrev pub short_escape : ℕ → ℕ
short_escape c =
    if c == 34
    then 34
    else if c == 92
    then 92
    else if c == 8
    then 98
    else if c == 9
    then 116
    else if c == 10
    then 110
    else if c == 12
    then 102
    else if c == 13
    then 114
    else 0

-- A code point as `json.dumps(…, ensure_ascii=True)` writes it.
abbrev pub escaped_char : ℕ → List ℕ
escaped_char c =
    if ltb 0 (short_escape c)
    then 92 ∷ short_escape c ∷ []
    else if leb 32 c && ltb c 127
    then c ∷ []
    else if ltb c 65536
    then unicode_escape c
    else unicode_escape (55296 + (c - 65536) / 1024) ++ unicode_escape (56320 + (c - 65536) % 1024)

-- `json.dumps(s, ensure_ascii=True)[1:-1]`
unfoldable pub escaped : List ℕ → List ℕ
escaped [] = []
escaped (c ∷ cs) = escaped_char c ++ escaped cs
