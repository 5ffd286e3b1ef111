-- ===== src/Write/Hash.antt =====
-- grammar/c/wok_write.c and runtime/wok_rc.c: the hash of a file and the hash of a byte array in the
-- heap, each with its own constants and loop, against FNV-1a.
use mathlib.Core.List.{reverse, reverse_aux}
use wokml.Prelude.{
  ℕ, zero, suc, ◌+◌, ◌*◌, ◌/◌, ◌%◌, ◌^◌, ◌≡◌, ◌<◌, refl, ap, ◌∙◌, Option, none, some,
  some-injective, List, [], ◌∷◌, ◌==◌, if◌then◌else◌, ltb, ◌&&◌, length, get_or, bit_xor,
  Bool-cases, inl, inr, arith,
}
use wokml.Rc.{Heap, Ptr, Memory, header_tag, bytes_tag}
use wokml.Write.{hash_from, byte_hash}

-- Byte `i` of the body of a string or of a byte array; words are stored low byte first.
unfoldable pub body_byte : Memory → Ptr → (i : ℕ) → ℕ
body_byte mem p i = mem (p + 16 + 8 * (i / 8)) / 2 ^ (8 * (i % 8)) % 256

unfoldable pub bytes_byte_get : Heap → Ptr → (i : ℕ) → Option ℕ
bytes_byte_get h p i =
    if header_tag (h.mem p) == bytes_tag && ltb i (h.mem (p + 8))
    then some (body_byte h.mem p i)
    else none

-- One byte of the hash of the runtime.
abbrev pub fnv1a_step : (h b : ℕ) → ℕ
fnv1a_step h b = bit_xor h b * 0x100000001b3 % 18446744073709551616

abbrev pub fnv1a_basis : ℕ
fnv1a_basis = 0xcbf29ce484222325

-- The loop of `wok_bytes_fnv1a`, with `n` bytes left from byte `i` on.
unfoldable pub fnv1a_loop : Memory → Ptr → (i n hash : ℕ) → ℕ
fnv1a_loop mem p i zero hash = hash
fnv1a_loop mem p i (suc n) hash = fnv1a_loop mem p (i + 1) n (fnv1a_step hash (body_byte mem p i))

unfoldable pub bytes_fnv1a : Heap → Ptr → Option ℕ
bytes_fnv1a h p =
    if header_tag (h.mem p) == bytes_tag
    then some (fnv1a_loop h.mem p 0 (h.mem (p + 8)) fnv1a_basis)
    else none

-- FNV-1a of 64 bits as it is published: the prime is 2^40 + 2^8 + 0xb3, and every byte, the last one
-- outermost, goes into the hash before a multiplication by it.
abbrev pub fnv_prime : ℕ
fnv_prime = 2 ^ 40 + 2 ^ 8 + 179

unfoldable pub fnv1a_backwards : List ℕ → ℕ
fnv1a_backwards [] = 14695981039346656037
fnv1a_backwards (b ∷ bs) = bit_xor (fnv1a_backwards bs) b * fnv_prime % 2 ^ 64

abbrev pub fnv1a : List ℕ → ℕ
fnv1a bytes = fnv1a_backwards (reverse bytes)

-- What `bytes_byte_get` reads at every place of the cell.
abbrev pub IsRead : Heap → Ptr → List ℕ → Type 0
IsRead h p bytes =
    (length bytes ≡ h.mem (p + 8))
    × ((i : ℕ) → i < length bytes → bytes_byte_get h p i ≡ some (get_or bytes i 0))

hash_from-fnv1a_backwards :
    (bytes before : List ℕ)
    → hash_from (fnv1a_backwards before) bytes ≡ fnv1a_backwards (reverse_aux bytes before)
unfolding hash_from fnv1a_backwards
hash_from-fnv1a_backwards [] before = refl
hash_from-fnv1a_backwards (b ∷ bs) before = hash_from-fnv1a_backwards bs (b ∷ before)

byte_hash-fnv1a : (bytes : List ℕ) → byte_hash bytes ≡ fnv1a bytes
unfolding fnv1a_backwards
byte_hash-fnv1a bytes = hash_from-fnv1a_backwards bytes []

fnv1a_loop-fnv1a_backwards :
    (mem : Memory) (p i : ℕ) (bytes before : List ℕ)
    → ((j : ℕ) → j < length bytes → body_byte mem p (i + j) ≡ get_or bytes j 0)
    → fnv1a_loop mem p i (length bytes) (fnv1a_backwards before)
      ≡ fnv1a_backwards (reverse_aux bytes before)
unfolding fnv1a_loop fnv1a_backwards
fnv1a_loop-fnv1a_backwards mem p i [] before same = refl
fnv1a_loop-fnv1a_backwards mem p i (b ∷ bs) before same =
    let front : body_byte mem p i ≡ b = ap (body_byte mem p) (omega arith) ∙ same 0 (omega arith) in
    ap (λ x. fnv1a_loop mem p (i + 1) (length bs) (fnv1a_step (fnv1a_backwards before) x)) front
    ∙ fnv1a_loop-fnv1a_backwards mem p (i + 1) bs (b ∷ before)
        (λ j l. ap (body_byte mem p) (omega arith) ∙ same (suc j) (omega arith))

bytes_byte_get-body_byte :
    (h : Heap) (p i b : ℕ) → bytes_byte_get h p i ≡ some b → body_byte h.mem p i ≡ b
unfolding bytes_byte_get
bytes_byte_get-body_byte h p i b e =
    elim (Bool-cases (header_tag (h.mem p) == bytes_tag && ltb i (h.mem (p + 8)))) [
      | inl z ↦ some-injective (body_byte h.mem p i) b (rw z at e)
      | inr z ↦ let f = rw z at e in cc
    ]

-- For the bytes that `bytes_byte_get` reads from a byte array, the hash of the front end and the hash
-- of the runtime are both their FNV-1a.
pub bytes_fnv1a-fnv1a :
    (h : Heap) (p : Ptr) (bytes : List ℕ)
    → header_tag (h.mem p) ≡ bytes_tag
    → IsRead h p bytes
    → (byte_hash bytes ≡ fnv1a bytes) × (bytes_fnv1a h p ≡ some (fnv1a bytes))
unfolding bytes_fnv1a fnv1a_backwards
bytes_fnv1a-fnv1a h p bytes tag (size, same) = (
  byte_hash-fnv1a bytes,
  rw (tag, ← size)
      (ap (λ k. some k)
        (fnv1a_loop-fnv1a_backwards h.mem p 0 bytes [] (λ j l.
          ap (body_byte h.mem p) (omega arith)
          ∙ bytes_byte_get-body_byte h p j (get_or bytes j 0) (same j l)))),
)
