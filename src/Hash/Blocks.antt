-- ===== src/Hash/Blocks.antt =====
-- sha256.cpp: whole blocks, and copies into the buffer.
use lsfg_nx.Base.{
  ℕ, zero, suc, ◌+◌, ◌*◌, ◌≤◌, ◌<◌, ◌≡◌, arith, refl, sym, ap, ◌∙◌, Bool-cases, inl, inr, List, [],
  ◌∷◌, ◌++◌, append_assoc, ltb, length, take, drop, take_all, take-append_left, drop-append_left,
  take_prefix, drop_prefix, length-append, length-take, length-drop, take-append-drop,
}
use lsfg_nx.Hash.{compress_blocks, copy_at}
use lsfg_nx.Hash.Compress.{Words, compress}

-- The state after so many whole blocks.
unfoldable pub digest_blocks : ℕ → Words → List ℕ → Words
digest_blocks zero state bytes = state
digest_blocks (suc count) state bytes =
    digest_blocks count (compress state (take 64 bytes)) (drop 64 bytes)

digest_blocks_step :
    (n : ℕ) (state : Words) (bytes : List ℕ)
    → digest_blocks (suc n) state bytes
      ≡ digest_blocks n (compress state (take 64 bytes)) (drop 64 bytes)
unfolding digest_blocks
digest_blocks_step n state bytes = refl

pub digest_blocks_none : (state : Words) (bytes : List ℕ) → digest_blocks 0 state bytes ≡ state
unfolding digest_blocks
digest_blocks_none state bytes = refl

-- The first block, and then the others.
digest_blocks-first :
    (n : ℕ) (state : Words) (block ys : List ℕ)
    → length block ≡ 64
    → digest_blocks (suc n) state (block ++ ys) ≡ digest_blocks n (compress state block) ys
digest_blocks-first n state block ys h =
    rw (
      digest_blocks_step n state (block ++ ys),
      take_prefix 64 block ys h,
      drop_prefix 64 block ys h,
    )

-- The blocks of one text, and then those of another.
pub digest_blocks-append :
    (n k : ℕ) (state : Words) (xs ys : List ℕ)
    → length xs ≡ n * 64
    → digest_blocks (n + k) state (xs ++ ys) ≡ digest_blocks k (digest_blocks n state xs) ys
digest_blocks-append zero k state [] ys h =
    let e : 0 + k ≡ k = omega arith in rw (e, digest_blocks_none state [])
digest_blocks-append zero k state (x ∷ xs) ys h = absurd (omega (arith, h))
digest_blocks-append (suc n) k state xs ys h =
    let e : suc n + k ≡ suc (n + k) = omega arith in
    rw
      (
        e,
        digest_blocks_step (n + k) state (xs ++ ys),
        digest_blocks_step n state xs,
        take-append_left 64 xs ys (omega (arith, h)),
        drop-append_left 64 xs ys (omega (arith, h)),
      )
      (digest_blocks-append n k (compress state (take 64 xs)) (drop 64 xs) ys
        (omega (arith, h, length-drop 64 xs)))

-- One more block.
pub digest_blocks-block :
    (n : ℕ) (state : Words) (xs block : List ℕ)
    → length xs ≡ n * 64
    → length block ≡ 64
    → digest_blocks (n + 1) state (xs ++ block) ≡ compress (digest_blocks n state xs) block
digest_blocks-block n state xs block h k =
    digest_blocks-append n 1 state xs block h
    ∙ digest_blocks_step 0 (digest_blocks n state xs) block
    ∙ digest_blocks_none _ (drop 64 block)
    ∙ ap (compress (digest_blocks n state xs)) (take_all 64 block (omega (arith, k)))

-- What the loop over whole blocks leaves: fewer bytes than a block, and the state after the rest.
pub record Split (state : Words) (bytes : List ℕ) (result : Words × List ℕ) : Type 0 where
  pub count : ℕ
  pub whole : List ℕ
  pub parts : bytes ≡ whole ++ result.1
  pub size : length whole ≡ count * 64
  pub short : length result.1 < 64
  pub digested : result.0 ≡ digest_blocks count state whole

pub compress_blocks-Split :
    (fuel : ℕ) (state : Words) (bytes : List ℕ)
    → length bytes ≤ fuel
    → Split state bytes (compress_blocks fuel state bytes)
unfolding compress_blocks digest_blocks
compress_blocks-Split zero state bytes h = record {
  count = 0;
  whole = [];
  parts = refl;
  size = omega arith;
  short = omega (arith, h);
  digested = refl;
}
compress_blocks-Split (suc fuel) state bytes h = elim (Bool-cases (ltb (length bytes) 64)) [
  | inl few ↦ rw few (record {
    count = 0;
    whole = [];
    parts = refl;
    size = omega arith;
    short = ground (arith, few);
    digested = refl;
  })
  | inr many ↦
      let enough : 64 ≤ length bytes = ground (arith, many) in
      let size : length (take 64 bytes) ≡ 64 = omega (arith, length-take 64 bytes, enough) in
      let r =
        compress_blocks-Split fuel (compress state (take 64 bytes)) (drop 64 bytes)
          (omega (arith, h, enough, length-drop 64 bytes)) in
      rw many (record {
        count = suc r.count;
        whole = take 64 bytes ++ r.whole;
        parts =
            sym (take-append-drop 64 bytes)
            ∙ ap (λ rest. take 64 bytes ++ rest) r.parts
            ∙ sym (append_assoc (take 64 bytes) r.whole _);
        size = omega (arith, size, r.size, length-append (take 64 bytes) r.whole);
        short = r.short;
        digested =
            r.digested ∙ sym (digest_blocks-first r.count state (take 64 bytes) r.whole size);
      })
]

module _ (buffer : List ℕ) (at : ℕ) (bytes : List ℕ)
    (room : at + length bytes ≤ length buffer) where
  pub length-copy_at : length (copy_at buffer at bytes) ≡ length buffer
  length-copy_at = omega (
    arith,
    room,
    length-append (take at buffer) (bytes ++ drop (at + length bytes) buffer),
    length-append bytes (drop (at + length bytes) buffer),
    length-take at buffer,
    length-drop (at + length bytes) buffer,
  )

  pub take-copy_at : take (at + length bytes) (copy_at buffer at bytes) ≡ take at buffer ++ bytes
  take-copy_at =
      ap (take (at + length bytes))
        (sym (append_assoc (take at buffer) bytes (drop (at + length bytes) buffer)))
      ∙ take_prefix (at + length bytes) (take at buffer ++ bytes) _
          (omega (arith, room, length-append (take at buffer) bytes, length-take at buffer))
