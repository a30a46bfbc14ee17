-- ===== src/Hash.antt =====
-- common/hash: SHA-256. A byte is a number below 256.
pub mod Compress
pub mod Blocks
pub mod Stream
pub mod Reference
pub mod Fields
mod Tests
use lsfg_nx.Base.{
  ℕ, zero, suc, ◌+◌, ◌-◌, ◌*◌, ◌/◌, ◌%◌, ◌^◌, min, Bool, true, false, List, [], ◌∷◌, ◌++◌, Option,
  none, some, ltb, ◌==◌, if◌then◌else◌, length, take, drop, replicate, get_or,
}
use Compress.{Words, initial_words, compress}

abbrev pub sha256_block_size : ℕ
sha256_block_size = 64

pub record Sha256 : Type 0 where
  pub state : Words
  pub buffer : List ℕ
  pub length_ : ℕ
  pub buffered : ℕ
  pub finished : Bool

-- `Sha256{}`.
abbrev pub new_hasher : Sha256
new_hasher = record {
  state = initial_words;
  buffer = replicate 64 0;
  length_ = 0;
  buffered = 0;
  finished = false;
}

-- `std::copy_n` into an array, from an offset on.
abbrev pub copy_at : List ℕ → ℕ → List ℕ → List ℕ
copy_at buffer at bytes = take at buffer ++ (bytes ++ drop (at + length bytes) buffer)

-- The loop over whole blocks, on fuel: the state after them, and the bytes that are left.
unfoldable pub compress_blocks : ℕ → Words → List ℕ → Words × List ℕ
compress_blocks zero state bytes = (state, bytes)
compress_blocks (suc fuel) state bytes =
    let rest = compress_blocks fuel (compress state (take 64 bytes)) (drop 64 bytes) in
    if ltb (length bytes) sha256_block_size then (state, bytes) else rest

-- `update` from its loop on; a block less than the bytes left is a round less than these.
unfoldable pub update_blocks : Sha256 → List ℕ → Sha256
update_blocks s bytes =
    let (state, remainder) = compress_blocks (length bytes) s.state bytes in
    if length remainder == 0 then record s { state = state } else record s {
      state = state;
      buffer = copy_at s.buffer 0 remainder;
      buffered = length remainder;
    }

-- The part of `update` that fills the buffer.
unfoldable pub fill_buffer : Sha256 → List ℕ → Sha256
fill_buffer s bytes =
    let count = min (sha256_block_size - s.buffered) (length bytes) in
    record s {
      buffer = copy_at s.buffer s.buffered (take count bytes);
      buffered = s.buffered + count;
    }

unfoldable pub update : Sha256 → List ℕ → Sha256
update s bytes =
    let counted = record s { length_ = (s.length_ + length bytes) % 2 ^ 64 } in
    let filled = fill_buffer counted bytes in
    if s.finished
    then s
    else if s.buffered == 0
    then update_blocks counted bytes
    else if ltb filled.buffered sha256_block_size
    then filled
    else update_blocks (record filled { state = compress filled.state filled.buffer; buffered = 0 })
        (drop (min (sha256_block_size - s.buffered) (length bytes)) bytes)

-- The eight bytes of a number, the highest first.
abbrev pub encode_be64 : ℕ → List ℕ
encode_be64 value =
    value / 2 ^ 56 % 256
    ∷ value / 2 ^ 48 % 256
    ∷ value / 2 ^ 40 % 256
    ∷ value / 2 ^ 32 % 256
    ∷ value / 2 ^ 24 % 256
    ∷ value / 2 ^ 16 % 256
    ∷ value / 2 ^ 8 % 256
    ∷ value % 256
    ∷ []

-- `update_field` of a number, and of bytes with their count.
unfoldable pub update_number : Sha256 → ℕ → Sha256
update_number s value = update s (encode_be64 value)

unfoldable pub update_field : Sha256 → List ℕ → Sha256
update_field s bytes = update (update_number s (length bytes)) bytes

-- The loop that pads with zeros, on fuel.
unfoldable pub pad_zeros : ℕ → Sha256 → Option Sha256
pad_zeros zero s = none
pad_zeros (suc fuel) s =
    let rest = pad_zeros fuel (update s (0 ∷ [])) in
    if s.buffered == sha256_block_size - 8 then some s else rest

abbrev pub be32_bytes : ℕ → List ℕ
be32_bytes word = word / 2 ^ 24 % 256 ∷ word / 2 ^ 16 % 256 ∷ word / 2 ^ 8 % 256 ∷ word % 256 ∷ []

-- The bytes of the state.
abbrev pub digest_of : Words → List ℕ
digest_of w =
    be32_bytes w.w0
    ++ (be32_bytes w.w1
        ++ (be32_bytes w.w2
            ++ (be32_bytes w.w3
                ++ (be32_bytes w.w4 ++ (be32_bytes w.w5 ++ (be32_bytes w.w6 ++ be32_bytes w.w7))))))

-- `finish` up to the digest, on a hasher that is not finished.
unfoldable pub close : Sha256 → Option Sha256
close s =
    let bit_length = s.length_ * 8 % 2 ^ 64 in
    elim (pad_zeros 64 (update s (0x80 ∷ []))) [
      | none ↦ none
      | some padded ↦ some (record padded {
        state =
            compress padded.state (copy_at padded.buffer padded.buffered (encode_be64 bit_length));
        buffer = copy_at padded.buffer padded.buffered (encode_be64 bit_length);
        buffered = 0;
        finished = true;
      })
    ]

-- The hasher that `finish` leaves, and the digest; `none` where the fuel of the padding ran out.
unfoldable pub finish : Sha256 → Option (Sha256 × List ℕ)
finish s =
    if s.finished
    then some (s, digest_of s.state)
    else elim (close s) [ none ↦ none | some closed ↦ some (closed, digest_of closed.state) ]

unfoldable pub sha256 : List ℕ → Option (List ℕ)
sha256 bytes = elim (finish (update new_hasher bytes)) [ none ↦ none | some closed ↦ some closed.1 ]

-- A half of a byte as a character.
abbrev hex_digit : ℕ → ℕ
hex_digit n = if ltb n 10 then b'0' + n else b'a' + n - 10

-- The text of `to_hex`, without the zero at its end.
unfoldable pub to_hex : List ℕ → List ℕ
to_hex [] = []
to_hex (byte ∷ bytes) = hex_digit (byte / 16 % 16) ∷ hex_digit (byte % 16) ∷ to_hex bytes
