-- ===== src/Hash/Stream.antt =====
-- sha256.cpp: `update` in any number of calls.
use lsfg_nx.Base.{
  ℕ, ◌+◌, ◌-◌, ◌*◌, ◌%◌, ◌^◌, ◌≤◌, ◌<◌, ◌≡◌, arith, refl, sym, ap, ◌∙◌, true, false, Bool-cases,
  inl, inr, List, [], ◌∷◌, ◌++◌, append_assoc, append-nil, ltb, ◌==◌, ==_iff, length, take, drop,
  length-append, length-take, take-append-drop, take_all, length-replicate, min,
}
use lsfg_nx.Hash.{
  Sha256, new_hasher, compress_blocks, update_blocks, fill_buffer, update, copy_at,
  sha256_block_size,
}
use lsfg_nx.Hash.Compress.{initial_words, compress}
use lsfg_nx.Hash.Blocks.{
  digest_blocks, digest_blocks-append, digest_blocks-block, digest_blocks_none,
  compress_blocks-Split, length-copy_at, take-copy_at,
}

-- A hasher that has taken in a message: the state is that after its whole blocks, and the buffer
-- starts with the bytes after these.
pub record Absorbed (message : List ℕ) (s : Sha256) : Type 0 where
  pub count : ℕ
  pub whole : List ℕ
  pub pending : List ℕ
  pub parts : message ≡ whole ++ pending
  pub size : length whole ≡ count * 64
  pub digested : s.state ≡ digest_blocks count initial_words whole
  pub held : take s.buffered s.buffer ≡ pending
  pub waiting : s.buffered ≡ length pending
  pub room : s.buffered < 64
  pub array : length s.buffer ≡ 64
  pub counted : s.length_ ≡ length message % 2 ^ 64
  pub open_ : s.finished ≡ false

pub new_hasher-Absorbed : Absorbed [] new_hasher
new_hasher-Absorbed = record {
  count = 0;
  whole = [];
  pending = [];
  parts = refl;
  size = omega arith;
  digested = sym (digest_blocks_none initial_words []);
  held = refl;
  waiting = refl;
  room = omega arith;
  array = length-replicate {A = ℕ} 64 0;
  counted = omega arith;
  open_ = refl;
}

length-zero : (xs : List ℕ) → length xs ≡ 0 → xs ≡ []
length-zero [] h = refl
length-zero (x ∷ xs) h = absurd (omega (arith, h))

-- `update` from its loop on, where all bytes before are in whole blocks.
update_blocks-Absorbed :
    (s : Sha256) (count : ℕ) (whole bytes message : List ℕ)
    → message ≡ whole ++ bytes
    → length whole ≡ count * 64
    → s.state ≡ digest_blocks count initial_words whole
    → s.buffered ≡ 0
    → length s.buffer ≡ 64
    → s.length_ ≡ length message % 2 ^ 64
    → s.finished ≡ false
    → Absorbed message (update_blocks s bytes)
unfolding update_blocks
update_blocks-Absorbed s count whole bytes message parts size digested empty array counted open_ =
    let r = compress_blocks-Split (length bytes) s.state bytes (omega arith) in
    let left = (compress_blocks (length bytes) s.state bytes).1 in
    let all = whole ++ r.whole in
    let split : message ≡ all ++ left =
      parts ∙ ap (λ xs. whole ++ xs) r.parts ∙ sym (append_assoc whole r.whole left) in
    let long : length all ≡ (count + r.count) * 64 =
      omega (arith, size, r.size, length-append whole r.whole) in
    let state =
      r.digested
      ∙ ap (λ w. digest_blocks r.count w r.whole) digested
      ∙ sym (digest_blocks-append count r.count initial_words whole r.whole size) in
    let zero_more : length left ≡ 0 + length left = omega arith in
    elim (Bool-cases (length left == 0)) [
      | inl none_left ↦ rw none_left (record {
        count = count + r.count;
        whole = all;
        pending = left;
        parts = split;
        size = long;
        digested = state;
        held =
            ap (λ n. take n s.buffer) empty
            ∙ sym (length-zero left ((==_iff (length left) 0).0 none_left));
        waiting = empty ∙ sym ((==_iff (length left) 0).0 none_left);
        room = omega (arith, empty);
        array = array;
        counted = counted;
        open_ = open_;
      })
      | inr some_left ↦ rw some_left (record {
        count = count + r.count;
        whole = all;
        pending = left;
        parts = split;
        size = long;
        digested = state;
        held =
            ap (λ n. take n (copy_at s.buffer 0 left)) zero_more
            ∙ take-copy_at s.buffer 0 left (omega (arith, array, r.short));
        waiting = refl;
        room = r.short;
        array = length-copy_at s.buffer 0 left (omega (arith, array, r.short)) ∙ array;
        counted = counted;
        open_ = open_;
      })
    ]

-- A part that does not fill the buffer.
fill_buffer-Absorbed :
    (message bytes : List ℕ) (s : Sha256)
    → Absorbed message s
    → s.buffered + length bytes < 64
    → Absorbed
        (message ++ bytes)
        (fill_buffer (record s { length_ = (s.length_ + length bytes) % 2 ^ 64 }) bytes)
unfolding fill_buffer
fill_buffer-Absorbed message bytes s a short =
    let few : min (sha256_block_size - s.buffered) (length bytes) ≡ length bytes =
      omega (arith, short) in
    let long = length-append message bytes in
    let total = length-append a.pending bytes in
    rw (few, take_all (length bytes) bytes (omega arith))
      (record {
        count = a.count;
        whole = a.whole;
        pending = a.pending ++ bytes;
        parts = ap (λ xs. xs ++ bytes) a.parts ∙ append_assoc a.whole a.pending bytes;
        size = a.size;
        digested = a.digested;
        held =
            take-copy_at s.buffer s.buffered bytes (omega (arith, short, a.array))
            ∙ ap (λ xs. xs ++ bytes) a.held;
        waiting = omega (arith, a.waiting, total);
        room = short;
        array = length-copy_at s.buffer s.buffered bytes (omega (arith, short, a.array)) ∙ a.array;
        counted = omega (arith, a.counted, long);
        open_ = a.open_;
      })

-- The three ways through `update`.
abbrev counted : Sha256 → List ℕ → Sha256
counted s bytes = record s { length_ = (s.length_ + length bytes) % 2 ^ 64 }

abbrev filled : Sha256 → List ℕ → Sha256
filled s bytes = fill_buffer (counted s bytes) bytes

module _ (s : Sha256) (bytes : List ℕ) (opened : s.finished ≡ false) where
  update_empty : (s.buffered == 0) ≡ true → update s bytes ≡ update_blocks (counted s bytes) bytes
  unfolding update
  update_empty e = rw (e, opened) refl

  update_short :
      (s.buffered == 0) ≡ false
      → ltb (filled s bytes).buffered 64 ≡ true
      → update s bytes ≡ filled s bytes
  unfolding update
  update_short e l = rw (l, e, opened) refl

  update_full :
      (s.buffered == 0) ≡ false
      → ltb (filled s bytes).buffered 64 ≡ false
      → update s bytes
        ≡ update_blocks
            (record (filled s bytes) {
              state = compress (filled s bytes).state (filled s bytes).buffer;
              buffered = 0;
            })
            (drop (min (64 - s.buffered) (length bytes)) bytes)
  unfolding update
  update_full e l = rw (l, e, opened) refl

-- The fields that filling the buffer sets by a sum, and those that it leaves.
filled_fields :
    (s : Sha256) (bytes : List ℕ)
    → ((filled s bytes).buffered ≡ s.buffered + min (64 - s.buffered) (length bytes))
      × ((filled s bytes).length_ ≡ (s.length_ + length bytes) % 2 ^ 64)
      × ((filled s bytes).finished ≡ s.finished)
      × ((filled s bytes).state ≡ s.state)
unfolding fill_buffer
filled_fields s bytes = (refl, refl, refl, refl)

-- A part that fills the buffer makes a block of it.
module _ (message bytes : List ℕ) (s : Sha256) (a : Absorbed message s) where
  abbrev added : ℕ
  added = min (64 - s.buffered) (length bytes)

  module _ (many : 64 ≤ s.buffered + added) where
    filled_buffer : (filled s bytes).buffer ≡ a.pending ++ take added bytes
    unfolding fill_buffer
    filled_buffer =
        let size : s.buffered + length (take added bytes) ≡ 64 =
          omega (arith, many, length-take added bytes) in
        let room : s.buffered + length (take added bytes) ≤ length s.buffer =
          omega (arith, size, a.array) in
        let whole = take-copy_at s.buffer s.buffered (take added bytes) room in
        let long = length-copy_at s.buffer s.buffered (take added bytes) room in
        sym
          (take_all (s.buffered + length (take added bytes)) _ (omega (arith, long, size, a.array)))
        ∙ whole
        ∙ ap (λ xs. xs ++ take added bytes) a.held

    filled_length : length (filled s bytes).buffer ≡ 64
    filled_length =
        ap (λ xs. length xs) filled_buffer
        ∙ omega (
          arith,
          many,
          a.waiting,
          length-append a.pending (take added bytes),
          length-take added bytes,
        )

    regroup : a.pending ++ bytes ≡ (filled s bytes).buffer ++ drop added bytes
    regroup =
        ap (λ xs. a.pending ++ xs) (sym (take-append-drop added bytes))
        ∙ sym (append_assoc a.pending (take added bytes) (drop added bytes))
        ∙ ap (λ xs. xs ++ drop added bytes) (sym filled_buffer)

-- `update` takes in the bytes that it is given.
pub update-Absorbed :
    (message bytes : List ℕ) (s : Sha256)
    → Absorbed message s
    → Absorbed (message ++ bytes) (update s bytes)
update-Absorbed message bytes s a =
    let count = min (64 - s.buffered) (length bytes) in
    let long = length-append message bytes in
    let again : message ++ bytes ≡ a.whole ++ (a.pending ++ bytes) =
      ap (λ xs. xs ++ bytes) a.parts ∙ append_assoc a.whole a.pending bytes in
    let (total, sum, still, kept) = filled_fields s bytes in
    elim (Bool-cases (s.buffered == 0)) [
      | inl empty ↦
          let zero_held = (==_iff s.buffered 0).0 empty in
          let none_held = length-zero a.pending (sym a.waiting ∙ zero_held) in
          rw (update_empty s bytes a.open_ empty) (
            update_blocks-Absorbed (counted s bytes) a.count a.whole bytes (message ++ bytes)
              (again ∙ ap (λ xs. a.whole ++ (xs ++ bytes)) none_held) a.size a.digested zero_held
              a.array (omega (arith, a.counted, long)) a.open_)
      | inr some_held ↦ elim (Bool-cases (ltb (filled s bytes).buffered 64)) [
        | inl short ↦
            rw (update_short s bytes a.open_ some_held short)
              (fill_buffer-Absorbed message bytes s a (ground (arith, short, total)))
        | inr full ↦
            let many : 64 ≤ s.buffered + count = ground (arith, full, total) in
            let block = (filled s bytes).buffer in
            let size = filled_length message bytes s a many in
            rw (update_full s bytes a.open_ some_held full) (
              update_blocks-Absorbed _ (a.count + 1) (a.whole ++ block) (drop count bytes)
                (message ++ bytes)
                (again
                  ∙ ap (λ xs. a.whole ++ xs) (regroup message bytes s a many)
                  ∙ sym (append_assoc a.whole block (drop count bytes)))
                (omega (arith, a.size, size, length-append a.whole block))
                (ap (λ w. compress w block) (kept ∙ a.digested)
                  ∙ sym (digest_blocks-block a.count initial_words a.whole block a.size size))
                refl size (sum ∙ omega (arith, a.counted, long)) (still ∙ a.open_))
      ]
    ]

-- Any number of updates.
unfoldable pub update_all : Sha256 → List (List ℕ) → Sha256
update_all s [] = s
update_all s (part ∷ parts) = update_all (update s part) parts

abbrev pub concat : List (List ℕ) → List ℕ
concat [] = []
concat (part ∷ parts) = part ++ concat parts

pub update_all-Absorbed :
    (parts : List (List ℕ)) (message : List ℕ) (s : Sha256)
    → Absorbed message s
    → Absorbed (message ++ concat parts) (update_all s parts)
unfolding update_all
update_all-Absorbed [] message s a = rw (append-nil message) a
update_all-Absorbed (part ∷ parts) message s a =
    rw (← append_assoc message part (concat parts)) (
      update_all-Absorbed parts (message ++ part) (update s part)
        (update-Absorbed message part s a))
