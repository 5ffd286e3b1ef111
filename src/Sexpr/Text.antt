-- ===== src/Sexpr/Text.antt =====
-- grammar/c/wok_sexpr.c: a string that is dumped is read back.
use wokml.Prelude.{
  ℕ, zero, suc, ◌+◌, ◌-◌, ◌*◌, ◌/◌, ◌%◌, ◌≡◌, ◌≤◌, ◌<◌, inl, inr, refl, sym, ap, ◌∙◌, true, Option,
  some, List, [], ◌∷◌, ◌++◌, append_assoc, append-nil, ltb, ◌==◌, length, length-append, drop, All,
  ◌>>=◌, Bool-cases, arith, eq_of_==,
}
use wokml.Ast.{WokSpan}
use wokml.Diag.{WokDiagSink}
use wokml.Sexpr.{
  upper_hex, render_char, render_body, render_string, WokReader, is_ws, ws_run, skip_ws,
  expect_next, expect_char, hex_digit, decoded, hex_pair, hex_escape, escaped, piece, read_body,
  literal_span, read_quoted, read_string_lit,
}

hex_digit-upper_hex : (d : ℕ) → d < 16 → hex_digit (upper_hex d) ≡ some d
unfolding hex_digit
hex_digit-upper_hex d h = ground arith

hex_escape-upper_hex :
    (start pos a b : ℕ) (more : List ℕ)
    → a < 16
    → b < 16
    → hex_escape start pos (upper_hex a ∷ upper_hex b ∷ more) ≡ decoded (a * 16 + b) 4
unfolding hex_escape hex_pair
hex_escape-upper_hex start pos a b more p q =
    ap (λ h. hex_pair pos h (hex_digit (upper_hex b))) (hex_digit-upper_hex a p)
    ∙ ap (hex_pair pos (some a)) (hex_digit-upper_hex b q)

-- A byte that is dumped is read back, in as many bytes as the dump has of it.
piece-render_char :
    (start pos c : ℕ) (more : List ℕ)
    → piece start pos (render_char c ++ more) ≡ decoded c (length (render_char c))
unfolding piece escaped render_char
piece-render_char start pos c more = elim (Bool-cases (c == b'\\')) [
  | inl z ↦ rw (eq_of_== c b'\\' z) refl
  | inr z1 ↦ elim (Bool-cases (c == b'"')) [
    | inl z ↦ rw (eq_of_== c b'"' z) refl
    | inr z2 ↦ elim (Bool-cases (c == 10)) [
      | inl z ↦ rw (eq_of_== c 10 z) refl
      | inr z3 ↦ elim (Bool-cases (c == 9)) [
        | inl z ↦ rw (eq_of_== c 9 z) refl
        | inr z4 ↦ elim (Bool-cases (c == 13)) [
          | inl z ↦ rw (eq_of_== c 13 z) refl
          | inr z5 ↦ elim (Bool-cases (ltb c 32)) [
            | inr z ↦ rw (z1, z2, z3, z4, z5, z) (rw (z1, z2) refl)
            | inl z ↦
                rw (z1, z2, z3, z4, z5, z)
                  (hex_escape-upper_hex start (pos + 1 + 1) (c / 16) (c % 16) more (ground arith)
                      (omega arith)
                    ∙ ap (λ v. decoded v 4) (omega arith))
          ]
        ]
      ]
    ]
  ]
]

-- A reader, by its parts.
abbrev pub reader : (rest : List ℕ) → (pos : ℕ) → WokDiagSink → (pool : List ℕ) → WokReader
reader rest pos d pool = record { rest = rest; pos = pos; diag = d; pool = pool }

pub drop-append : (xs ys : List ℕ) → drop (length xs) (xs ++ ys) ≡ ys
drop-append [] ys = refl
drop-append (x ∷ xs) ys = drop-append xs ys

body_step :
    (fuel start pos c n : ℕ) (d : WokDiagSink) (rest pool : List ℕ)
    → piece start pos rest ≡ decoded c n
    → read_body (suc fuel) start true (reader rest pos d pool)
      ≡ read_body fuel start true (reader (drop n rest) (pos + n) d (pool ++ c ∷ []))
unfolding read_body piece
body_step fuel start pos c n d rest pool e = rw e refl

-- The body of a literal is read up to its quote.
read_body-render_body :
    (text tail : List ℕ) (fuel start pos : ℕ) (d : WokDiagSink) (pool : List ℕ)
    → length text < fuel
    → read_body fuel start true (reader (render_body text ++ tail) pos d pool)
      ≡ some (true, reader tail (pos + length (render_body text)) d (pool ++ text))
unfolding read_body render_body piece
read_body-render_body text tail zero start pos d pool l = absurd (omega arith)
read_body-render_body [] tail (suc fuel) start pos d pool l =
    ap (λ p. some (true, reader tail (pos + 1) d p)) (sym (append-nil pool))
read_body-render_body (c ∷ cs) tail (suc fuel) start pos d pool l =
    let shape : (render_char c ++ render_body cs) ++ tail
        ≡ render_char c ++ (render_body cs ++ tail) =
      append_assoc (render_char c) (render_body cs) tail in
    let n = length (render_char c) in
    ap (λ rest. read_body (suc fuel) start true (reader rest pos d pool)) shape
    ∙ body_step fuel start pos c n d (render_char c ++ (render_body cs ++ tail)) pool
        (piece-render_char start pos c (render_body cs ++ tail))
    ∙ ap (λ rest. read_body fuel start true (reader rest (pos + n) d (pool ++ c ∷ [])))
        (drop-append (render_char c) (render_body cs ++ tail))
    ∙ read_body-render_body cs tail fuel start (pos + n) d (pool ++ c ∷ []) (omega arith)
    ∙ ap (λ p. some (true, reader tail p d ((pool ++ c ∷ []) ++ cs)))
        (omega (arith, length-append (render_char c) (render_body cs)))
    ∙ ap (λ p. some (true, reader tail (pos + length (render_char c ++ render_body cs)) d p))
        (append_assoc pool (c ∷ []) cs)

ws_run-append :
    (ws rest : List ℕ)
    → All (λ c. is_ws c ≡ true) ws
    → ws_run rest ≡ 0
    → ws_run (ws ++ rest) ≡ length ws
unfolding ws_run
ws_run-append [] rest h e = e
ws_run-append (c ∷ ws) rest (h, hs) e = rw h (ap (λ n. suc n) (ws_run-append ws rest hs e))

pub skip_ws_lem :
    (ws rest : List ℕ) (pos : ℕ) (d : WokDiagSink) (pool : List ℕ)
    → All (λ c. is_ws c ≡ true) ws
    → ws_run rest ≡ 0
    → skip_ws (reader (ws ++ rest) pos d pool) ≡ reader rest (pos + length ws) d pool
unfolding skip_ws
skip_ws_lem ws rest pos d pool h e =
    ap (λ n. reader (drop n (ws ++ rest)) (pos + n) d pool) (ws_run-append ws rest h e)
    ∙ ap (λ r. reader r (pos + length ws) d pool) (drop-append ws rest)

render_char_pos : (c : ℕ) → 1 ≤ length (render_char c)
unfolding render_char
render_char_pos c = ground arith

length-render_body : (text : List ℕ) → length text < length (render_body text)
unfolding render_body
length-render_body [] = omega arith
length-render_body (c ∷ cs) = omega (
  arith,
  length-append (render_char c) (render_body cs),
  render_char_pos c,
  length-render_body cs,
)

quote_not_ws : (cs : List ℕ) → ws_run (b'"' ∷ cs) ≡ 0
unfolding ws_run
quote_not_ws cs = refl

-- `read_string_lit` behind the white space, with the second skip of `expect_char` still to make, and
-- with it made.
behind_ws : WokReader → Option (Option WokSpan × WokReader)
behind_ws r =
    read_quoted true r.pos
      (expect_char r b'"' "unterminated string literal: expected `%c`, found end of input")

at_quote : (start : ℕ) → WokReader → Option (Option WokSpan × WokReader)
at_quote start r =
    read_quoted true start
      (expect_next r b'"' "unterminated string literal: expected `%c`, found end of input" r.rest)

literal_at :
    (text tail : List ℕ) (pos : ℕ) (d : WokDiagSink) (pool : List ℕ)
    → length pool + length text < 4294967296
    → behind_ws (reader (b'"' ∷ (render_body text ++ tail)) pos d pool)
      ≡ some (
        some (record { off = length pool; len = length text }),
        reader tail (pos + 1 + length (render_body text)) d (pool ++ text),
      )
unfolding behind_ws at_quote read_quoted expect_char expect_next literal_span
literal_at text tail pos d pool l =
    let r' = reader tail (pos + 1 + length (render_body text)) d (pool ++ text) in
    let off : length pool % 4294967296 ≡ length pool = omega arith in
    let len : (length (pool ++ text) - length pool) % 4294967296 ≡ length text =
      let sum = length-append pool text in omega arith in
    let rest = b'"' ∷ (render_body text ++ tail) in
    ap (at_quote pos) (
      skip_ws_lem [] rest pos d pool tt (quote_not_ws (render_body text ++ tail))
      ∙ ap (λ p. reader rest p d pool) (omega arith))
    ∙ ap (λ b. b >>= λ b. some (literal_span true (length pool) b))
        (read_body-render_body text tail (length (render_body text ++ tail) + 1) pos (pos + 1) d
          pool (omega (arith, length-append (render_body text) tail, length-render_body text)))
    ∙ ap
        (λ o.
          some (
            some (record { off = o; len = (length (pool ++ text) - length pool) % 4294967296 }),
            r',
          ))
        off
    ∙ ap (λ n. some (some (record { off = length pool; len = n }), r')) len

-- A string literal, behind white space, is read as the string of which it is the dump, if the pool
-- stays below 2^32 bytes: the bytes come to the end of the pool, the span is that of those bytes,
-- the reader stands behind the literal, and nothing is reported.
pub read_string_lit-render_string :
    (ws text tail : List ℕ) (pos : ℕ) (d : WokDiagSink) (pool : List ℕ)
    → All (λ c. is_ws c ≡ true) ws
    → length pool + length text < 4294967296
    → read_string_lit true (reader (ws ++ (render_string text ++ tail)) pos d pool)
      ≡ some (
        some (record { off = length pool; len = length text }),
        reader tail (pos + length ws + length (render_string text)) d (pool ++ text),
      )
unfolding read_string_lit render_string behind_ws
read_string_lit-render_string ws text tail pos d pool h l =
    ap behind_ws (
      skip_ws_lem ws (render_string text ++ tail) pos d pool h
        (quote_not_ws (render_body text ++ tail)))
    ∙ literal_at text tail (pos + length ws) d pool l
    ∙ ap
        (λ p.
          some (
            some (record { off = length pool; len = length text }),
            reader tail p d (pool ++ text),
          ))
        (omega arith)
