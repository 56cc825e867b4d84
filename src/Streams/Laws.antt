-- ===== src/Streams/Laws.antt =====
-- src/fileloader.h: what is written is what is read.
use ot_tibia_teste.Common.{
  ℕ, zero, suc, ◌+◌, ◌*◌, ◌/◌, ◌<◌, ◌≤◌, ◌≡◌, refl, List, [], ◌∷◌, ◌++◌, none, some, true, false,
  ltb, if◌then◌else◌, arith, length, take, drop, length-append, length-drop,
}
use mathlib.Core.List.{append_assoc}
use ot_tibia_teste.Streams.{value, read, read_string, write, write_string}

-- How many values a type of `n` bytes has.
abbrev pub capacity : ℕ → ℕ
capacity zero = 1
capacity (suc n) = 256 * capacity n

pub length-write : (n v : ℕ) → length (write n v) ≡ n
unfolding write
length-write zero v = refl
length-write (suc n) v = omega (arith, length-write n (v / 256))

value-write : (n v : ℕ) (rest : List ℕ) → v < capacity n → value n (write n v ++ rest) ≡ v
unfolding value write
value-write zero v rest h = omega arith
value-write (suc n) v rest h = omega (arith, value-write n (v / 256) rest (omega arith))

drop-write : (n v : ℕ) (rest : List ℕ) → drop n (write n v ++ rest) ≡ rest
unfolding write
drop-write zero v rest = refl
drop-write (suc n) v rest = drop-write n (v / 256) rest

enough_written : (n v : ℕ) (rest : List ℕ) → ltb (length (write n v ++ rest)) n ≡ false
enough_written n v rest = ground (arith, length-append (write n v) rest, length-write n v)

pub read-write :
    (n v : ℕ) (rest : List ℕ) → v < capacity n → read n (write n v ++ rest) ≡ some (v, rest)
unfolding read
read-write n v rest h =
    rw (enough_written n v rest, value-write n v rest h, drop-write n v rest) refl

take-append : (s rest : List ℕ) → take (length s) (s ++ rest) ≡ s
take-append [] rest = refl
take-append (b ∷ s) rest = rw (take-append s rest)

drop-append : (s rest : List ℕ) → drop (length s) (s ++ rest) ≡ rest
drop-append [] rest = refl
drop-append (b ∷ s) rest = drop-append s rest

read_string-read :
    (s : List ℕ) {str_len : ℕ} {rest : List ℕ}
    → read 2 s ≡ some (str_len, rest)
    → read_string s
      ≡ (if ltb (length rest) str_len then none else some (take str_len rest, drop str_len rest))
unfolding read_string
read_string-read s e = rw (e, read_string) refl

-- A string of at most 65535 bytes that is written is read as it was, and the rest of the stream is left.
pub read_string-write_string :
    (str rest : List ℕ)
    → length str ≤ 65535
    → read_string (write_string str ++ rest) ≡ some (str, rest)
unfolding write_string
read_string-write_string str rest h =
    let short : ltb 65535 (length str) ≡ false = ground arith in
    let enough : ltb (length (str ++ rest)) (length str) ≡ false =
      ground (arith, length-append str rest) in
    rw
      (
        short,
        append_assoc (write 2 (length str)) str rest,
        read_string-read (write 2 (length str) ++ (str ++ rest))
            (read-write 2 (length str) (str ++ rest) (omega arith)),
        enough,
        take-append str rest,
        drop-append str rest,
      )
      refl

-- A longer string is written as the empty one.
pub read_string-write_string_long :
    (str rest : List ℕ)
    → 65535 < length str
    → read_string (write_string str ++ rest) ≡ some ([], rest)
unfolding write_string
read_string-write_string_long str rest h =
    let long : ltb 65535 (length str) ≡ true = ground arith in
    rw
      (
        long,
        if◌then◌else◌,
        read_string-read (write 2 0 ++ rest) (read-write 2 0 rest (omega arith)),
      )
      (ground arith)

-- A read leaves a part of the stream.
pub length-read :
    (n : ℕ) (s : List ℕ) {v : ℕ} {rest : List ℕ}
    → read n s ≡ some (v, rest)
    → length rest + n ≡ length s
unfolding read
length-read n s h = ground (arith, length-drop n s)
