-- ===== src/Rc/Words.antt =====
-- runtime/wok_rc.c, the slab backend: words written to the memory, and what `wok_free` reads off the
-- words of each kind of cell.
use wokml.Prelude.{ℕ, ◌+◌, ◌-◌, ◌*◌, ◌/◌, ◌≡◌, ◌≢◌, ◌≤◌, ◌<◌, refl, ◌∙◌, false, some, ltb, arith}
use wokml.Rc.{
  Memory, write, header, header_rc, header_tag, header_arity, cell_bytes, array_cell_bytes,
  array_class, string_cell_bytes, string_class, measure_words, array_tag, string_tag, bytes_tag,
}
use wokml.Rc.Space.{Within}

module _ (rc tag arity : ℕ) (small_rc : rc < 4294967296) (small_tag : tag < 65536)
    (small_arity : arity < 256) where
  pub header_rc-header : header_rc (header rc tag arity 0) ≡ rc
  header_rc-header = omega arith

  pub header_tag-header : header_tag (header rc tag arity 0) ≡ tag
  header_tag-header = omega arith

  pub header_arity-header : header_arity (header rc tag arity 0) ≡ arity
  header_arity-header = omega arith

pub write-at : (m : Memory) (p v : ℕ) → write m p v p ≡ v
unfolding write
write-at m p v = ground arith

pub write-off : (m : Memory) (p v a : ℕ) → a ≢ p → write m p v a ≡ m a
unfolding write
write-off m p v a ne = ground arith

pub write-Within :
    (p n q : ℕ) (m m' : Memory) (v : ℕ)
    → p ≤ q
    → q < p + n
    → Within p n m m'
    → Within p n m (write m' q v)
write-Within p n q m m' v l u w a o =
    let ne : a ≢ q = λ e. ground arith in write-off m' q v a ne ∙ w a o

pub ordinary :
    (w l : ℕ)
    → header_tag w < 0xFFFA
    → measure_words w l ≡ some (cell_bytes (header_arity w), header_arity w)
unfolding measure_words
ordinary w l lt = ground arith

pub array_words :
    (len elemkind : ℕ)
    → len ≤ (18446744073709551615 - 16) / 8
    → elemkind < 256
    → measure_words (header 1 array_tag elemkind 0) len ≡ some (16 + len * 8, array_class len)
unfolding measure_words array_cell_bytes
array_words len elemkind fits small =
    let t = header_tag-header 1 array_tag elemkind (omega arith) (omega arith) small in
    let e : ltb ((18446744073709551615 - 16) / 8) len ≡ false = ground arith in rw (t, e) refl

pub string_words :
    (byte_len : ℕ)
    → byte_len ≤ 18446744073709551592
    → measure_words (header 1 string_tag 0 0) byte_len
      ≡ some (16 + 8 * ((byte_len + 7) / 8), string_class byte_len)
unfolding measure_words string_cell_bytes
string_words byte_len fits =
    let e : ltb (18446744073709551615 - 16 - 7) byte_len ≡ false = ground arith in rw e refl

pub bytes_words :
    (byte_len : ℕ)
    → byte_len ≤ 18446744073709551592
    → measure_words (header 1 bytes_tag 0 0) byte_len
      ≡ some (16 + 8 * ((byte_len + 7) / 8), string_class byte_len)
unfolding measure_words string_cell_bytes
bytes_words byte_len fits =
    let e : ltb (18446744073709551615 - 16 - 7) byte_len ≡ false = ground arith in rw e refl

-- The class that an allocator computes tells the size it allocates.
pub array_class-size : (len : ℕ) → array_class len < 64 → 16 + len * 8 ≡ 8 * array_class len + 8
unfolding array_class
array_class-size len lt = ground arith

pub string_class-size :
    (byte_len : ℕ)
    → string_class byte_len < 64
    → 16 + 8 * ((byte_len + 7) / 8) ≡ 8 * string_class byte_len + 8
unfolding string_class
string_class-size byte_len lt = ground arith
