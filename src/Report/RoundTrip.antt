-- ===== src/Report/RoundTrip.antt =====
-- A reader of JSON strings gives back what was escaped.
use coretrace_stack_analyzer.Prelude.{
  ℕ, ◌+◌, ◌*◌, ◌-◌, ◌/◌, ◌%◌, ◌<◌, ◌≡◌, refl, sym, ap, ◌∙◌, true, false, ◌&&◌, ◌||◌, Option, none,
  some, [], ◌∷◌, ◌++◌, ltb, leb, ltb→lt, ◌==◌, ==_iff, arith, if◌then◌else◌, Bool-cases, inl, inr,
}
use coretrace_stack_analyzer.Prelude.Text.{Text}
use coretrace_stack_analyzer.Report.{reverse_solidus, hex_digit, escape_byte, json_escape}

-- The reader between the quotes: outside an escape, behind a backslash, or before the last digits of a
-- code, with the value of those read.
pub data Reader : Type 0 where
  outside behind_backslash : Reader
  digits : ℕ → ℕ → Reader

abbrev read_byte : ℕ → Option Text → Option Text
read_byte c none = none
read_byte c (some text) = some (c ∷ text)

-- RFC 8259: the short escapes.
short_escape : ℕ → Option ℕ
short_escape c =
    if c == 34
    then some 34
    else if c == 92
    then some 92
    else if c == 47
    then some 47
    else if c == 98
    then some 8
    else if c == 102
    then some 12
    else if c == 110
    then some 10
    else if c == 114
    then some 13
    else if c == 116
    then some 9
    else none

hex_value : ℕ → Option ℕ
hex_value c =
    if leb 48 c && leb c 57
    then some (c - 48)
    else if leb 97 c && leb c 102
    then some (c - 87)
    else if leb 65 c && leb c 70
    then some (c - 55)
    else none

-- A raw quote and a raw control byte are no part of a JSON string.
pub json_read : Reader → Text → Option Text
unfolding short_escape hex_value
json_read outside [] = some []
json_read state [] = none
json_read outside (c ∷ text) =
    let escaped = json_read behind_backslash text in
    let plain = read_byte c (json_read outside text) in
    if c == 92 then escaped else if c == 34 || ltb c 32 then none else plain
json_read behind_backslash (c ∷ text) =
    let code = json_read (digits 4 0) text in
    let rest = json_read outside text in
    if c == 117 then code else elim (short_escape c) [ none ↦ none | some b ↦ read_byte b rest ]
json_read (digits n value) (c ∷ text) = elim (hex_value c) [
  | none ↦ none
  | some d ↦
      let last = read_byte (value * 16 + d) (json_read outside text) in
      let more = json_read (digits (n - 1) (value * 16 + d)) text in if n == 1 then last else more
]

hex_value-hex_digit : (d : ℕ) → d < 16 → hex_value (hex_digit d) ≡ some d
unfolding hex_value hex_digit
hex_value-hex_digit d h = ground arith

json_read-control :
    (c : ℕ) (text : Text)
    → c < 32
    → json_read outside
        (reverse_solidus ∷ 117 ∷ 48 ∷ 48 ∷ hex_digit (c / 16) ∷ hex_digit (c % 16) ∷ text)
      ≡ read_byte c (json_read outside text)
unfolding json_read hex_value
json_read-control c text h =
    let high = hex_value-hex_digit (c / 16) (omega arith) in
    let low = hex_value-hex_digit (c % 16) (omega arith) in
    let value : (((0 * 16 + (48 - 48)) * 16 + (48 - 48)) * 16 + c / 16) * 16 + c % 16 ≡ c =
      omega arith in
    simp (json_read, high, low) (ap (λ x. read_byte x (json_read outside text)) value)

json_read-plain :
    (c : ℕ) (text : Text)
    → (c == 92) ≡ false
    → (c == 34) ≡ false
    → ltb c 32 ≡ false
    → json_read outside (c ∷ text) ≡ read_byte c (json_read outside text)
unfolding json_read
json_read-plain c text b q l = simp (json_read, b, q, l)

same_byte : (c d : ℕ) (text : Option Text) → (c == d) ≡ true → read_byte d text ≡ read_byte c text
same_byte c d text h = ap (λ x. read_byte x text) (sym ((==_iff c d).0 h))

json_read-escape_byte :
    (c : ℕ) (text : Text)
    → json_read outside (escape_byte c ++ text) ≡ read_byte c (json_read outside text)
unfolding json_read escape_byte short_escape
json_read-escape_byte c text = elim (Bool-cases (c == 92)) [
  | inl b ↦ rw (escape_byte, b) (same_byte c 92 (json_read outside text) b)
  | inr b ↦ elim (Bool-cases (c == 34)) [
    | inl q ↦ rw (escape_byte, b, q) (same_byte c 34 (json_read outside text) q)
    | inr q ↦ elim (Bool-cases (c == 10)) [
      | inl n ↦ rw (escape_byte, b, q, n) (same_byte c 10 (json_read outside text) n)
      | inr n ↦ elim (Bool-cases (c == 13)) [
        | inl r ↦ rw (escape_byte, b, q, n, r) (same_byte c 13 (json_read outside text) r)
        | inr r ↦ elim (Bool-cases (c == 9)) [
          | inl t ↦ rw (escape_byte, b, q, n, r, t) (same_byte c 9 (json_read outside text) t)
          | inr t ↦ elim (Bool-cases (ltb c 32)) [
            | inl l ↦ rw (escape_byte, b, q, n, r, t, l) (json_read-control c text (ltb→lt c 32 l))
            | inr l ↦ rw (escape_byte, b, q, n, r, t, l) (json_read-plain c text b q l)
          ]
        ]
      ]
    ]
  ]
]

-- The text between the quotes that `jsonEscape` writes is one that a reader of JSON strings accepts, with
-- no raw quote and no raw control byte, and gives back the text, for every text.
pub json_read-json_escape : (text : Text) → json_read outside (json_escape text) ≡ some text
unfolding json_read json_escape
json_read-json_escape [] = refl
json_read-json_escape (c ∷ text) =
    json_read-escape_byte c (json_escape text) ∙ ap (read_byte c) (json_read-json_escape text)
