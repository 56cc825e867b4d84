-- ===== src/Streams.antt =====
-- src/fileloader.h: `PropStream` and `PropWriteStream`. What is left of a stream is a list of bytes, and
-- a write is the bytes that it puts at the end; values are unsigned, a float is its four bytes.
pub mod Laws
mod Examples
use ot_tibia_teste.Common.{
  ℕ, zero, suc, ◌+◌, ◌*◌, ◌/◌, ◌%◌, ◌^◌, List, [], ◌∷◌, ◌++◌, Option, none, some, Bool, true, false,
  ltb, if◌then◌else◌, length, take, drop,
}
use ot_tibia_teste.Common.Words.{u8}

-- The value in the first `n` bytes, the lowest byte first.
pub value : ℕ → List ℕ → ℕ
value zero s = 0
value (suc n) [] = 0
value (suc n) (b ∷ s) = b + 256 * value n s

-- `PropStream::read` of a type of `n` bytes
unfoldable pub read : ℕ → List ℕ → Option (ℕ × List ℕ)
unfolding value
read n s = if ltb (length s) n then none else some (value n s, drop n s)

-- `PropStream::readString`
unfoldable pub read_string : List ℕ → Option (List ℕ × List ℕ)
read_string s = elim (read 2 s) [
  | none ↦ none
  | some (str_len, rest) ↦
      if ltb (length rest) str_len then none else some (take str_len rest, drop str_len rest)
]

-- `PropStream::skip`
unfoldable pub skip : ℕ → List ℕ → Option (List ℕ)
skip n s = if ltb (length s) n then none else some (drop n s)

-- `PropWriteStream::write` of a type of `n` bytes
unfoldable pub write : ℕ → ℕ → List ℕ
write zero v = []
write (suc n) v = u8 v ∷ write n (v / 256)

-- `PropWriteStream::writeString`
unfoldable pub write_string : List ℕ → List ℕ
write_string str = if ltb 65535 (length str) then write 2 0 else write 2 (length str) ++ str
