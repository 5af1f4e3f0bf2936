-- ===== src/PacketEngine/Packet/Checksum.antt =====
-- crates/packet-engine/src/packet.rs: the checksum of bytes that hold their own checksum is zero.
use vpn_ne_vpn.Prelude.{
  ℕ, zero, suc, ◌+◌, ◌-◌, ◌*◌, ◌/◌, ◌%◌, ◌≤◌, ◌<◌, ◌≡◌, true, ap, ◌∙◌, List, [], ◌∷◌, length, arith,
  ◌==◌, Bool-cases, inl, inr,
}
use vpn_ne_vpn.Prelude.Bytes.{AllBytes}
use vpn_ne_vpn.PacketEngine.Packet.{add_words, fold_carries, checksum}

-- The sum of the words without a bound.
abbrev pub words : List ℕ → ℕ
words [] = 0
words (x ∷ []) = x * 256
words (x ∷ y ∷ xs) = x * 256 + y + words xs

pub words-le : (xs : List ℕ) → AllBytes xs → 2 * words xs ≤ 65535 * (length xs + 1)
words-le [] h = omega arith
words-le (x ∷ []) h = omega arith
words-le (x ∷ y ∷ xs) (a, (b, h)) = omega (arith, words-le xs h)

add_words-words :
    (sum : ℕ) (xs : List ℕ) → sum + words xs < 4294967296 → add_words sum xs ≡ sum + words xs
add_words-words sum [] h = omega arith
add_words-words sum (x ∷ []) h = omega arith
add_words-words sum (x ∷ y ∷ xs) h =
    let small : (sum + (x * 256 + y)) % 4294967296 ≡ sum + (x * 256 + y) = omega arith in
    ap (λ n. add_words n xs) small
    ∙ add_words-words (sum + (x * 256 + y)) xs (omega arith)
    ∙ omega arith

-- What folding leaves of a sum: the same up to multiples of 65535, in 16 bits, zero only for zero.
pub record IsFolded (sum left : ℕ) : Type 0 where
  pub carried : ℕ
  pub same : sum ≡ left + carried * 65535
  pub fits : left ≤ 65535
  pub kept : 1 ≤ sum → 1 ≤ left

fold_small : (fuel sum : ℕ) → sum ≤ 65535 → IsFolded sum (fold_carries fuel sum)
fold_small zero sum h = record { carried = 0; same = omega arith; fits = h; kept = λ p. p }
fold_small (suc fuel) sum h =
    rw one (record { carried = 0; same = omega arith; fits = h; kept = λ p. p })
  where
    one : (sum / 65536 == 0) ≡ true
    one = ground arith

fold_round :
    (fuel sum : ℕ)
    → IsFolded (sum % 65536 + sum / 65536) (fold_carries fuel (sum % 65536 + sum / 65536))
    → IsFolded sum (fold_carries (suc fuel) sum)
fold_round fuel sum f = elim (Bool-cases (sum / 65536 == 0)) [
  | inl h ↦ rw h (record { carried = 0; same = omega arith; fits = ground arith; kept = λ p. p })
  | inr h ↦ rw h (record {
    carried = f.carried + sum / 65536;
    same = omega (arith, f.same);
    fits = f.fits;
    kept = λ p. f.kept (omega arith);
  })
]

-- Four rounds are enough for a sum of 32 bits.
pub fold_carries-IsFolded : (sum : ℕ) → sum < 4294967296 → IsFolded sum (fold_carries 4 sum)
fold_carries-IsFolded sum h =
    let one : sum % 65536 + sum / 65536 ≤ 131070 = omega arith in
    fold_round 3 sum (rounds (sum % 65536 + sum / 65536) one)
  where
    last : (n : ℕ) → n ≤ 65536 → IsFolded n (fold_carries 2 n)
    last n h = fold_round 1 n (fold_small 1 (n % 65536 + n / 65536) (omega arith))

    rounds : (n : ℕ) → n ≤ 131070 → IsFolded n (fold_carries 3 n)
    rounds n h = fold_round 2 n (last (n % 65536 + n / 65536) (omega arith))

-- The checksum of bytes whose words fit 32 bits.
pub checksum-words :
    (xs : List ℕ)
    → words xs < 4294967296
    → (left : ℕ) × (IsFolded (words xs) left × (checksum xs ≡ 65535 - left))
unfolding checksum
checksum-words xs h =
    let f = fold_carries-IsFolded (words xs) h in
    let sum : add_words 0 xs ≡ words xs = add_words-words 0 xs (omega arith) ∙ omega arith in
    (
      fold_carries 4 (words xs),
      (f, ap (λ n. 65535 - fold_carries 4 n % 65536) sum ∙ omega (arith, f.fits)),
    )

-- Bytes whose words sum to those of others and their checksum have the checksum zero.
pub checksum-zero :
    (xs ys : List ℕ)
    → words xs < 4294967296
    → words ys < 4294967296
    → words ys ≡ words xs + checksum xs
    → checksum ys ≡ 0
checksum-zero xs ys h k e =
    let (left, (f, c)) = checksum-words xs h in
    let (last, (g, d)) = checksum-words ys k in
    d
    ∙ omega
        (arith, e, c, f.same, f.fits, g.same, g.fits, g.kept (omega (arith, e, c, f.same, f.fits)))

pub checksum-le : (xs : List ℕ) → words xs < 4294967296 → checksum xs ≤ 65535
checksum-le xs h = let (left, (f, c)) = checksum-words xs h in omega (arith, c)
