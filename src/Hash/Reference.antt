-- ===== src/Hash/Reference.antt =====
-- sha256.cpp: `finish`, against the padding and the blocks of the whole message.
use lsfg_nx.Base.{
  ℕ, zero, suc, ◌+◌, ◌-◌, ◌*◌, ◌/◌, ◌%◌, ◌^◌, ◌≤◌, ◌<◌, ◌≡◌, arith, refl, sym, ap, subst, ◌∙◌, true,
  false, List, [], ◌∷◌, ◌++◌, append_assoc, append-nil, Option, none, some, ◌==◌, ==_iff, length,
  take_all, length-append, replicate,
}
use lsfg_nx.Hash.{
  Sha256, new_hasher, update, copy_at, encode_be64, pad_zeros, close, finish, sha256, digest_of,
}
use lsfg_nx.Hash.Compress.{initial_words, compress}
use lsfg_nx.Hash.Blocks.{digest_blocks, digest_blocks-block, length-copy_at, take-copy_at}
use lsfg_nx.Hash.Stream.{
  Absorbed, new_hasher-Absorbed, update-Absorbed, update_all, concat, update_all-Absorbed,
}

-- A message with its padding: a one bit, zeros up to eight bytes before the end of a block, and the
-- count of its bits.
abbrev pub padding : ℕ → ℕ
padding size = (119 - size % 64) % 64

abbrev pub padded : List ℕ → List ℕ
padded message =
    message
    ++ (0x80
        ∷ (replicate (padding (length message)) 0 ++ encode_be64 (length message * 8 % 2 ^ 64)))

-- The digest of a whole message.
abbrev pub reference : List ℕ → List ℕ
reference message =
    digest_of (digest_blocks (length (padded message) / 64) initial_words (padded message))

Absorbed-size :
    (message : List ℕ) (s : Sha256) → Absorbed message s → s.buffered ≡ length message % 64
Absorbed-size message s a =
    let e = ap (λ xs. length xs) a.parts ∙ length-append a.whole a.pending in
    omega (arith, e, a.size, a.waiting, a.room)

-- What the loop over zeros leaves.
record Padded (fuel left : ℕ) (message : List ℕ) (s : Sha256) : Type 0 where
  pub next : Sha256
  pub result : pad_zeros fuel s ≡ some next
  pub absorbed : Absorbed (message ++ replicate left 0) next
  pub full : next.buffered ≡ 56

pad_zeros-Padded :
    (fuel left : ℕ) (message : List ℕ) (s : Sha256)
    → Absorbed message s
    → (length message + left) % 64 ≡ 56
    → left < 64
    → left < fuel
    → Padded fuel left message s
unfolding pad_zeros
pad_zeros-Padded zero left message s a e small l = absurd (omega arith)
pad_zeros-Padded (suc fuel) zero message s a e small l =
    let full : s.buffered ≡ 56 = omega (arith, e, Absorbed-size message s a) in
    record {
      next = s;
      result = let t = (==_iff s.buffered 56).1 full in rw t refl;
      absorbed = subst (λ xs. Absorbed xs s) (sym (append-nil message)) a;
      full = full;
    }
pad_zeros-Padded (suc fuel) (suc left) message s a e small l =
    let more : (s.buffered == 56) ≡ false = ground (arith, e, Absorbed-size message s a, small) in
    let one : length (message ++ (0 ∷ [])) ≡ length message + 1 =
      omega (arith, length-append message (0 ∷ [])) in
    let r =
      pad_zeros-Padded fuel left (message ++ (0 ∷ [])) (update s (0 ∷ []))
        (update-Absorbed message (0 ∷ []) s a) (omega (arith, e, one)) (omega (arith, small))
        (omega (arith, l)) in
    record {
      next = r.next;
      result = rw more r.result;
      absorbed =
          subst (λ xs. Absorbed xs r.next) (append_assoc message (0 ∷ []) (replicate left 0))
            r.absorbed;
      full = r.full;
    }

-- What closing a hasher leaves.
record Closed (message : List ℕ) (s : Sha256) : Type 0 where
  pub next : Sha256
  pub result : close s ≡ some next
  pub state :
      next.state ≡ digest_blocks (length (padded message) / 64) initial_words (padded message)
  pub still : next.finished ≡ true

close-Closed : (message : List ℕ) (s : Sha256) → Absorbed message s → Closed message s
unfolding close
close-Closed message s a =
    let size = length message in
    let marked = message ++ (0x80 ∷ []) in
    let one : length marked ≡ size + 1 = omega (arith, length-append message (0x80 ∷ [])) in
    let p =
      pad_zeros-Padded 64 (padding size) marked (update s (0x80 ∷ []))
        (update-Absorbed message (0x80 ∷ []) s a) (omega (arith, one)) (omega arith)
        (omega arith) in
    let bits = encode_be64 (s.length_ * 8 % 2 ^ 64) in
    let block = copy_at p.next.buffer p.next.buffered bits in
    let b = p.absorbed in
    let room : p.next.buffered + length bits ≤ length p.next.buffer =
      omega (arith, p.full, b.array) in
    let long : length block ≡ 64 =
      length-copy_at p.next.buffer p.next.buffered bits room ∙ b.array in
    let filled : block ≡ b.pending ++ bits =
      sym (take_all (p.next.buffered + length bits) block (omega (arith, long, p.full)))
      ∙ take-copy_at p.next.buffer p.next.buffered bits room
      ∙ ap (λ xs. xs ++ bits) b.held in
    let count : s.length_ * 8 % 2 ^ 64 ≡ size * 8 % 2 ^ 64 = omega (arith, a.counted) in
    let whole : b.whole ++ block ≡ padded message =
      ap (λ xs. b.whole ++ xs) filled
      ∙ sym (append_assoc b.whole b.pending bits)
      ∙ ap (λ xs. xs ++ bits) (sym b.parts)
      ∙ append_assoc marked (replicate (padding size) 0) bits
      ∙ append_assoc message (0x80 ∷ []) (replicate (padding size) 0 ++ bits)
      ∙ ap (λ n. message ++ (0x80 ∷ (replicate (padding size) 0 ++ encode_be64 n))) count in
    let blocks : length (padded message) / 64 ≡ b.count + 1 =
      omega (arith, ap (λ xs. length xs) whole, b.size, long, length-append b.whole block) in
    record {
      next = record p.next {
        state = compress p.next.state block;
        buffer = block;
        buffered = 0;
        finished = true;
      };
      result = rw (close, p.result) refl;
      state =
          ap (λ w. compress w block) b.digested
          ∙ sym (digest_blocks-block b.count initial_words b.whole block b.size long)
          ∙ ap (λ xs. digest_blocks (b.count + 1) initial_words xs) whole
          ∙ ap (λ n. digest_blocks n initial_words (padded message)) (sym blocks);
      still = refl;
    }

-- A finished hasher takes in nothing.
update-finished : (bytes : List ℕ) (s : Sha256) → s.finished ≡ true → update s bytes ≡ s
unfolding update
update-finished bytes s h = simp h

update_all-finished :
    (parts : List (List ℕ)) (s : Sha256) → s.finished ≡ true → update_all s parts ≡ s
unfolding update_all
update_all-finished [] s h = refl
update_all-finished (part ∷ parts) s h =
    ap (λ t. update_all t parts) (update-finished part s h) ∙ update_all-finished parts s h

-- The two ways through `finish`.
finish_open :
    (s next : Sha256)
    → s.finished ≡ false
    → close s ≡ some next
    → finish s ≡ some (next, digest_of next.state)
unfolding finish
finish_open s next h c = simp (h, c)

finish_again : (s : Sha256) → s.finished ≡ true → finish s ≡ some (s, digest_of s.state)
unfolding finish
finish_again s h = simp h

-- However a message is split into calls of `update`, `finish` then returns the digest of the whole
-- message: the loop over zeros ends, and the result is that of compressing the blocks of the padded
-- message. Updates after that change nothing, and a second `finish` returns the same digest.
pub finish-update_all :
    (parts later : List (List ℕ))
    → (s : Sha256) × (finish (update_all new_hasher parts) ≡ some (s, reference (concat parts)))
      × (finish (update_all s later) ≡ some (s, reference (concat parts)))
finish-update_all parts later =
    let whole = concat parts in
    let s = update_all new_hasher parts in
    let a = update_all-Absorbed parts [] new_hasher new_hasher-Absorbed in
    let c = close-Closed whole s a in
    let digest = ap (λ w. some (c.next, digest_of w)) c.state in
    (
      c.next,
      finish_open s c.next a.open_ c.result ∙ digest,
      ap finish (update_all-finished later c.next c.still) ∙ finish_again c.next c.still ∙ digest,
    )

abbrev digest_result : Option (Sha256 × List ℕ) → Option (List ℕ)
digest_result none = none
digest_result (some closed) = some closed.1

-- The digest of a message in one call.
pub sha256_lem : (message : List ℕ) → sha256 message ≡ some (reference message)
unfolding sha256 update_all
sha256_lem message =
    let (s, h, again) = finish-update_all (message ∷ []) [] in
    let same : finish (update new_hasher message) ≡ some (s, reference (message ++ [])) = h in
    ap (λ r. digest_result r) same ∙ ap (λ xs. some (reference xs)) (append-nil message)
