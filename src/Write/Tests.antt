-- ===== src/Write/Tests.antt =====
-- Runs of the write decision and of the two hashes at fixed inputs.
use wokml.Prelude.{
  ℕ, zero, suc, ◌+◌, ◌*◌, ◌≡◌, ◌<◌, refl, true, Option, none, some, List, [], ◌∷◌, ◌==◌,
  if◌then◌else◌, get_or, arith,
}
use wokml.Token.Words.{same_bytes}
use wokml.Rc.{Memory, header, bytes_tag, heap_new}
use wokml.Write.{
  WokFileStamp, FileSystem, write_ok, write_permitted, is_canonical, stamp_of, renamed, swap,
  written, opened, write_atomic, hash_from, byte_hash,
}
use wokml.Write.Hash.{body_byte, bytes_byte_get, bytes_fnv1a, fnv1a, IsRead, bytes_fnv1a-fnv1a}

hash_of_a : byte_hash (97 ∷ []) ≡ 12638187200555641996
unfolding hash_from
hash_of_a = refl

-- A file system of which every call succeeds: the files are a function from paths.
abbrev Disk : Type 0
Disk = List ℕ → Option (List ℕ)

abbrev update : Disk → List ℕ → Option (List ℕ) → Disk
update d p v q = if same_bytes q p then v else d q

abbrev disk : FileSystem
disk = record {
  State = Disk;
  read = λ d p. d p;
  create = λ d p. (true, update d p (some []));
  put = λ d p b. (true, update d p (some b));
  copy_mode = λ d p q. d;
  rename = λ d p q. (true, update (update d q (d p)) p none);
  unlink = λ d p. update d p none;
}

-- The file `a` holds one byte, and no other program is at work.
abbrev target : List ℕ
target = 97 ∷ []

abbrev one_file : Disk
one_file = update (λ p. none) target (some (97 ∷ []))

abbrev as_read : WokFileStamp
as_read = record { hash = 12638187200555641996; size = 1; valid = true }

abbrev idle : Disk → Disk
idle d = d

-- That run writes.
write_atomic-write_ok :
    (write_atomic disk idle target (98 ∷ 99 ∷ []) as_read true one_file).0 ≡ write_ok
unfolding write_atomic opened written swap renamed write_permitted is_canonical stamp_of hash_from
    same_bytes
write_atomic-write_ok = refl

-- A byte array of the bytes `a` and `b` at address 64.
abbrev words : Memory
words a =
    if a == 64
    then header 1 bytes_tag 0 0
    else if a == 72
    then 2
    else if a == 80
    then 97 + 98 * 256
    else 0

abbrev a_and_b : List ℕ
a_and_b = 97 ∷ 98 ∷ []

a_and_b-IsRead : IsRead (heap_new words) 64 a_and_b
unfolding bytes_byte_get body_byte
a_and_b-IsRead = (refl, read_place)
  where
    read_place : (i : ℕ) → i < 2 → bytes_byte_get (heap_new words) 64 i ≡ some (get_or a_and_b i 0)
    read_place zero l = refl
    read_place (suc zero) l = refl
    read_place (suc (suc i)) l = absurd (omega arith)

bytes_fnv1a-fnv1a_example :
    (byte_hash a_and_b ≡ fnv1a a_and_b) × (bytes_fnv1a (heap_new words) 64 ≡ some (fnv1a a_and_b))
bytes_fnv1a-fnv1a_example = bytes_fnv1a-fnv1a (heap_new words) 64 a_and_b refl a_and_b-IsRead
