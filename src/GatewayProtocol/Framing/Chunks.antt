-- ===== src/GatewayProtocol/Framing/Chunks.antt =====
-- crates/gateway-protocol/src/framing.rs: how the input is cut into chunks does not matter.
use mathlib.Core.List.{append_assoc}
use vpn_ne_vpn.Prelude.{
  ℕ, ◌+◌, ◌-◌, ◌≤◌, ◌<◌, ◌≡◌, refl, Bool, true, false, Result, ok, err, Option, some, none, List,
  [], ◌∷◌, ◌++◌, length, length-append, length-take, take-append, sym, ap, ◌∙◌, take, min, arith,
  Bool-cases, inl, Option-cases, Result-cases, inr,
}
use vpn_ne_vpn.GatewayProtocol.Error.{ProtocolError}
use vpn_ne_vpn.GatewayProtocol.Framing.Halves.{push_err, push_ok, push_body_more}
use vpn_ne_vpn.GatewayProtocol.Framing.{
  FrameDecoder, DecodeProgress, push, push_prefix, push_byte, push_body, announced,
}
use vpn_ne_vpn.GatewayProtocol.Framing.Bounds.{IsValid, push_prefix-IsValid}

-- A prefix that is still open has used up its chunk, and goes on in the next one.
prefix_open :
    (d : FrameDecoder) (xs ys rest : List ℕ)
    → (push_prefix d xs).1 ≡ ok rest
    → announced (push_prefix d xs).0 ≡ false
    → (rest ≡ []) × (push_prefix d (xs ++ ys) ≡ push_prefix (push_prefix d xs).0 ys)
unfolding push_prefix
prefix_open d [] ys rest h a = ground arith
prefix_open d (x ∷ xs) ys rest h a = ground (arith, prefix_open (push_byte d x).0 xs ys rest)

prefix_known :
    (d : FrameDecoder) (xs ys rest : List ℕ)
    → (push_prefix d xs).1 ≡ ok rest
    → announced (push_prefix d xs).0 ≡ true
    → push_prefix d (xs ++ ys) ≡ ((push_prefix d xs).0, ok (rest ++ ys))
unfolding push_prefix
prefix_known d [] [] rest h a = ground arith
prefix_known d [] (y ∷ ys) rest h a = ground arith
prefix_known d (x ∷ xs) ys rest h a = ground (arith, prefix_known (push_byte d x).0 xs ys rest)

prefix_rest :
    (d : FrameDecoder) (xs rest : List ℕ) → (push_prefix d xs).1 ≡ ok rest → length rest ≤ length xs
unfolding push_prefix
prefix_rest d [] rest h = ground arith
prefix_rest d (x ∷ xs) rest h = ground (arith, prefix_rest (push_byte d x).0 xs rest)

pub prefix_idle :
    (d : FrameDecoder) (ys : List ℕ) → announced d ≡ true → push_prefix d ys ≡ (d, ok ys)
unfolding push_prefix
prefix_idle d [] a = refl
prefix_idle d (y ∷ ys) a = ground arith

-- The progress of a second call, counted from the start of the first.
abbrev pub advance :
    {Frame : Type 0}
    → ℕ
    → FrameDecoder × Result ProtocolError (DecodeProgress Frame)
    → FrameDecoder × Result ProtocolError (DecodeProgress Frame)
advance n (d, err e) = (d, err e)
advance n (d, ok p) = (d, ok (record { consumed = n + p.consumed; frame = p.frame }))

module _ {Frame : Type 0} (decode_message : List ℕ → Option Frame) (has_body : Frame → Bool) where
  push_body-advance :
      (n m : ℕ) (d : FrameDecoder) (input : List ℕ)
      → push_body decode_message has_body (n + m) d input
        ≡ advance n (push_body decode_message has_body m d input)
  unfolding push_body
  push_body-advance n m d input = elim (Option-cases d.expected_body) [
    | inl e ↦ ground arith
    | inr (k, e) ↦ ground arith
  ]

  -- The same body, in one chunk and in two.
  body_chunks :
      (before n : ℕ) (d : FrameDecoder) (rest ys : List ℕ)
      → d.expected_body ≡ some n
      → length d.body + length rest < n
      → push_body decode_message has_body before d (rest ++ ys)
        ≡ advance
            (before + length rest)
            (push_body decode_message has_body 0 (record d { body = d.body ++ rest }) ys)
  unfolding push_body
  body_chunks before n d rest ys e h =
      let c = min (n - length (d.body ++ rest)) (length ys) in
      let k : min (n - length d.body) (length (rest ++ ys)) ≡ length rest + c =
        omega (arith, length-append d.body rest, length-append rest ys) in
      let b : d.body ++ take (length rest + c) (rest ++ ys) ≡ (d.body ++ rest) ++ take c ys =
        ap (◌++◌ d.body) (take-append c rest ys) ∙ sym (append_assoc d.body rest (take c ys)) in
      rw (e, push_body, k, b) (ground arith)

  push_body-none :
      (before : ℕ) (d : FrameDecoder) (input : List ℕ)
      → announced d ≡ false
      → push_body decode_message has_body before d input
        ≡ (d, ok (record { consumed = before; frame = none }))
  unfolding push_body
  push_body-none before d input a = ground arith

  awaited_lt : (n : ℕ) (d : FrameDecoder) → IsValid d → d.expected_body ≡ some n → length d.body < n
  awaited_lt n d v e = ground (arith, v.awaited)

  -- A chunk that brings no frame leaves the body incomplete.
  body_short :
      (before n : ℕ) (d : FrameDecoder) (input : List ℕ) (k : ℕ) (d1 : FrameDecoder)
      → length d.body < n
      → d.expected_body ≡ some n
      → push_body decode_message has_body before d input
        ≡ (d1, ok (record { consumed = k; frame = none }))
      → length d.body + length input < n
  unfolding push_body
  body_short before n d input k d1 lt e h =
      let c = min (n - length d.body) (length input) in
      ground (arith, length-append d.body (take c input), length-take c input)

  -- The second chunk goes on with the prefix.
  open_second :
      (xs ys : List ℕ) (d d' : FrameDecoder)
      → push_prefix d (xs ++ ys) ≡ push_prefix d' ys
      → push decode_message has_body (xs ++ ys) d
        ≡ advance (length xs) (push decode_message has_body ys d')
  open_second xs ys d d' e = elim (Result-cases (push_prefix d' ys).1) [
    | inl (x, p) ↦
        rw
          (
            push_err decode_message has_body ys d' x p,
            push_err decode_message has_body (xs ++ ys) d x (ap (λ r. r.1) e ∙ p),
          )
          (ap (λ r. (r.0, err x)) e)
    | inr (rest, p) ↦
        let le : length rest ≤ length ys = prefix_rest d' ys rest p in
        let count : length (xs ++ ys) - length rest ≡ length xs + (length ys - length rest) =
          omega (arith, length-append xs ys) in
        rw
          (
            push_ok decode_message has_body ys d' rest p,
            push_ok decode_message has_body (xs ++ ys) d rest (ap (λ r. r.1) e ∙ p),
            count,
            e,
          )
          (push_body-advance (length xs) (length ys - length rest) (push_prefix d' ys).0 rest)
  ]

  -- The two chunks, where the first ends inside the prefix.
  open_chunks :
      (xs ys : List ℕ) (d d1 : FrameDecoder) (k : ℕ) (rest : List ℕ)
      → push decode_message has_body xs d ≡ (d1, ok (record { consumed = k; frame = none }))
      → (push_prefix d xs).1 ≡ ok rest
      → announced (push_prefix d xs).0 ≡ false
      → (k ≡ length xs)
        × (push decode_message has_body (xs ++ ys) d
            ≡ advance (length xs) (push decode_message has_body ys d1))
  open_chunks xs ys d d1 k rest h p a =
      let (used, goes_on) = prefix_open d xs ys rest p a in
      let first = push_ok decode_message has_body xs d rest p in
      let idle = push_body-none (length xs - length rest) (push_prefix d xs).0 rest a in
      let same : d1 ≡ (push_prefix d xs).0 = ground (arith, first, idle) in
      let count : k ≡ length xs = ground (arith, first, idle) in
      (count, rw same (open_second xs ys d (push_prefix d xs).0 goes_on))

  -- The second chunk goes on with the body.
  known_second :
      (xs ys rest : List ℕ) (d d' : FrameDecoder) (n : ℕ)
      → push_prefix d (xs ++ ys) ≡ (d', ok (rest ++ ys))
      → length rest ≤ length xs
      → d'.expected_body ≡ some n
      → length d'.body + length rest < n
      → push decode_message has_body (xs ++ ys) d
        ≡ advance
            (length xs)
            (push decode_message has_body ys (record d' { body = d'.body ++ rest }))
  known_second xs ys rest d d' n p le e short =
      let d1 : FrameDecoder = record d' { body = d'.body ++ rest } in
      let idle : push_prefix d1 ys ≡ (d1, ok ys) = prefix_idle d1 ys (ground arith) in
      let before : length (xs ++ ys) - length (rest ++ ys) ≡ length xs - length rest =
        omega (arith, length-append xs ys, length-append rest ys) in
      let none_left : length ys - length ys ≡ 0 = omega arith in
      let count : length xs - length rest + length rest ≡ length xs = omega arith in
      rw
        (
          push_ok decode_message has_body (xs ++ ys) d (rest ++ ys) (ap (λ r. r.1) p),
          push_ok decode_message has_body ys d1 ys (ap (λ r. r.1) idle),
          p,
          idle,
          before,
          none_left,
        )
        (body_chunks (length xs - length rest) n d' rest ys e short
          ∙ ap (λ c. advance c (push_body decode_message has_body 0 d1 ys)) count)

  -- The two chunks, where the first ends inside the body.
  known_chunks :
      (xs ys : List ℕ) (d d1 : FrameDecoder) (k : ℕ) (rest : List ℕ)
      → IsValid d
      → push decode_message has_body xs d ≡ (d1, ok (record { consumed = k; frame = none }))
      → (push_prefix d xs).1 ≡ ok rest
      → announced (push_prefix d xs).0 ≡ true
      → (k ≡ length xs)
        × (push decode_message has_body (xs ++ ys) d
            ≡ advance (length xs) (push decode_message has_body ys d1))
  known_chunks xs ys d d1 k rest v h p a = elim (Option-cases (push_prefix d xs).0.expected_body) [
    | inl e ↦ absurd (ground arith)
    | inr (n, e) ↦
        let d' = (push_prefix d xs).0 in
        let before = length xs - length rest in
        let le : length rest ≤ length xs = prefix_rest d xs rest p in
        let first = push_ok decode_message has_body xs d rest p in
        let short : length d'.body + length rest < n =
          body_short before n d' rest k d1 (awaited_lt n d' (push_prefix-IsValid d xs v) e) e
            (sym first ∙ h) in
        let more = push_body_more decode_message has_body rest d' before n e short in
        let same : d1 ≡ record d' { body = d'.body ++ rest } = ground (arith, first, more) in
        let count : k ≡ length xs = ground (arith, first, more) in
        (count, rw same (known_second xs ys rest d d' n (prefix_known d xs ys rest p a) le e short))
  ]

  -- A chunk that completes no frame and fails at no byte is used up, and the next chunk goes on from the
  -- state it leaves: pushing both at once gives the same state, the same frame or error, and the same
  -- count of bytes.
  pub push_chunks :
      (xs ys : List ℕ) (d d1 : FrameDecoder) (k : ℕ)
      → IsValid d
      → push decode_message has_body xs d ≡ (d1, ok (record { consumed = k; frame = none }))
      → (k ≡ length xs)
        × (push decode_message has_body (xs ++ ys) d
            ≡ advance (length xs) (push decode_message has_body ys d1))
  push_chunks xs ys d d1 k v h = elim (Result-cases (push_prefix d xs).1) [
    | inl (e, p) ↦ absurd (ground (arith, push_err decode_message has_body xs d e p))
    | inr (rest, p) ↦ elim (Bool-cases (announced (push_prefix d xs).0)) [
      | inl known ↦ known_chunks xs ys d d1 k rest v h p known
      | inr partial ↦ open_chunks xs ys d d1 k rest h p partial
    ]
  ]
