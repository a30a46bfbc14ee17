-- ===== src/Hash/Compress.antt =====
-- sha256.cpp: `Sha256::compress` and its helpers, on 32-bit words as numbers.
use lsfg_nx.Base.{
  ℕ, zero, suc, ◌+◌, ◌-◌, ◌*◌, ◌/◌, ◌%◌, ◌^◌, bit_and, bit_or, bit_xor, List, [], ◌∷◌, ◌++◌, get_or,
}

pub record Words : Type 0 where
  pub w0 : ℕ
  pub w1 : ℕ
  pub w2 : ℕ
  pub w3 : ℕ
  pub w4 : ℕ
  pub w5 : ℕ
  pub w6 : ℕ
  pub w7 : ℕ

-- The state before the first block.
abbrev pub initial_words : Words
initial_words = record {
  w0 = 0x6a09_e667;
  w1 = 0xbb67_ae85;
  w2 = 0x3c6e_f372;
  w3 = 0xa54f_f53a;
  w4 = 0x510e_527f;
  w5 = 0x9b05_688c;
  w6 = 0x1f83_d9ab;
  w7 = 0x5be0_cd19;
}

abbrev round_constants : List ℕ
round_constants =
    0x428a_2f98 ∷ 0x7137_4491 ∷ 0xb5c0_fbcf ∷ 0xe9b5_dba5 ∷ 0x3956_c25b ∷ 0x59f1_11f1 ∷ 0x923f_82a4
    ∷ 0xab1c_5ed5 ∷ 0xd807_aa98 ∷ 0x1283_5b01 ∷ 0x2431_85be ∷ 0x550c_7dc3 ∷ 0x72be_5d74
    ∷ 0x80de_b1fe ∷ 0x9bdc_06a7 ∷ 0xc19b_f174 ∷ 0xe49b_69c1 ∷ 0xefbe_4786 ∷ 0x0fc1_9dc6
    ∷ 0x240c_a1cc ∷ 0x2de9_2c6f ∷ 0x4a74_84aa ∷ 0x5cb0_a9dc ∷ 0x76f9_88da ∷ 0x983e_5152
    ∷ 0xa831_c66d ∷ 0xb003_27c8 ∷ 0xbf59_7fc7 ∷ 0xc6e0_0bf3 ∷ 0xd5a7_9147 ∷ 0x06ca_6351
    ∷ 0x1429_2967 ∷ 0x27b7_0a85 ∷ 0x2e1b_2138 ∷ 0x4d2c_6dfc ∷ 0x5338_0d13 ∷ 0x650a_7354
    ∷ 0x766a_0abb ∷ 0x81c2_c92e ∷ 0x9272_2c85 ∷ 0xa2bf_e8a1 ∷ 0xa81a_664b ∷ 0xc24b_8b70
    ∷ 0xc76c_51a3 ∷ 0xd192_e819 ∷ 0xd699_0624 ∷ 0xf40e_3585 ∷ 0x106a_a070 ∷ 0x19a4_c116
    ∷ 0x1e37_6c08 ∷ 0x2748_774c ∷ 0x34b0_bcb5 ∷ 0x391c_0cb3 ∷ 0x4ed8_aa4a ∷ 0x5b9c_ca4f
    ∷ 0x682e_6ff3 ∷ 0x748f_82ee ∷ 0x78a5_636f ∷ 0x84c8_7814 ∷ 0x8cc7_0208 ∷ 0x90be_fffa
    ∷ 0xa450_6ceb ∷ 0xbef9_a3f7 ∷ 0xc671_78f2 ∷ []

-- Four bytes as a word, the highest first.
abbrev load_be32 : List ℕ → ℕ → ℕ
load_be32 bytes at =
    bit_or
      (bit_or (get_or bytes at 0 * 2 ^ 24 % 2 ^ 32) (get_or bytes (at + 1) 0 * 2 ^ 16 % 2 ^ 32))
      (bit_or (get_or bytes (at + 2) 0 * 2 ^ 8 % 2 ^ 32) (get_or bytes (at + 3) 0))

-- `std::rotr`, by 1 to 31 bits.
abbrev rotr : ℕ → ℕ → ℕ
rotr x n = bit_or (x / 2 ^ n) (x * 2 ^ (32 - n) % 2 ^ 32)

abbrev choose : ℕ → ℕ → ℕ → ℕ
choose x y z = bit_xor (bit_and x y) (bit_and (2 ^ 32 - 1 - x) z)

abbrev majority : ℕ → ℕ → ℕ → ℕ
majority x y z = bit_xor (bit_xor (bit_and x y) (bit_and x z)) (bit_and y z)

-- The first loop of `compress`: so many words of the block, from an offset on.
load_words : List ℕ → ℕ → ℕ → List ℕ
load_words block at zero = []
load_words block at (suc count) = load_be32 block at ∷ load_words block (at + 4) count

-- The next word of the schedule.
abbrev next_word : List ℕ → ℕ → ℕ
next_word schedule index =
    let previous = get_or schedule (index - 15) 0 in
    let recent = get_or schedule (index - 2) 0 in
    let s0 = bit_xor (bit_xor (rotr previous 7) (rotr previous 18)) (previous / 2 ^ 3) in
    let s1 = bit_xor (bit_xor (rotr recent 17) (rotr recent 19)) (recent / 2 ^ 10) in
    (get_or schedule (index - 16) 0 + s0 + get_or schedule (index - 7) 0 + s1) % 2 ^ 32

-- The second loop: the words so far, the index of the next, and how many are left.
extend : List ℕ → ℕ → ℕ → List ℕ
extend schedule index zero = schedule
extend schedule index (suc count) =
    extend (schedule ++ (next_word schedule index ∷ [])) (suc index) count

-- The body of the third loop.
round : ℕ → ℕ → Words → Words
round constant word w =
    let s1 = bit_xor (bit_xor (rotr w.w4 6) (rotr w.w4 11)) (rotr w.w4 25) in
    let temp1 = (w.w7 + s1 + choose w.w4 w.w5 w.w6 + constant + word) % 2 ^ 32 in
    let s0 = bit_xor (bit_xor (rotr w.w0 2) (rotr w.w0 13)) (rotr w.w0 22) in
    let temp2 = (s0 + majority w.w0 w.w1 w.w2) % 2 ^ 32 in
    record {
      w0 = (temp1 + temp2) % 2 ^ 32;
      w1 = w.w0;
      w2 = w.w1;
      w3 = w.w2;
      w4 = (w.w3 + temp1) % 2 ^ 32;
      w5 = w.w4;
      w6 = w.w5;
      w7 = w.w6;
    }

-- The third loop, over the constants and the words of the schedule.
run_rounds : List ℕ → List ℕ → Words → Words
run_rounds [] schedule w = w
run_rounds (constant ∷ constants) [] w = w
run_rounds (constant ∷ constants) (word ∷ schedule) w =
    run_rounds constants schedule (round constant word w)

-- The last loop of `compress`.
abbrev add_words : Words → Words → Words
add_words a b = record {
  w0 = (a.w0 + b.w0) % 2 ^ 32;
  w1 = (a.w1 + b.w1) % 2 ^ 32;
  w2 = (a.w2 + b.w2) % 2 ^ 32;
  w3 = (a.w3 + b.w3) % 2 ^ 32;
  w4 = (a.w4 + b.w4) % 2 ^ 32;
  w5 = (a.w5 + b.w5) % 2 ^ 32;
  w6 = (a.w6 + b.w6) % 2 ^ 32;
  w7 = (a.w7 + b.w7) % 2 ^ 32;
}

-- `compress` on a block of 64 bytes.
unfoldable pub compress : Words → List ℕ → Words
unfolding load_words extend round run_rounds
compress state block =
    add_words state (run_rounds round_constants (extend (load_words block 0 16) 16 48) state)
