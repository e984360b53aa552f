-- ===== src/Sender/Compress.antt =====
-- sender/src/lifi_session_sender.c: the compression of long messages in `main`, over the encoder
-- of the vendored library heatshrink.
use lifi_auth.Common.{ℕ, zero, suc, ◌-◌, ◌≤◌, ◌<◌, ◌≡◌, Bool, true, false, ◌&&◌, Option, some, none}
use lifi_auth.Common.{◌⊎◌, inl, inr, refl, Bool-cases}
use lifi_auth.Common.{List, [], ◌++◌, length, if◌then◌else◌, ltb, arith}

-- `heatshrink_encoder_alloc(8, 4)`, and the calls of an encoder: `sink` takes input, `poll`
-- answers whether there is more (`HSER_POLL_MORE`) and at most so many bytes of output, `finish`
-- whether there is still output (`HSER_FINISH_MORE`).
pub record Encoder : Type 1 where
  pub Handle : Type 0
  pub alloc : Option Handle
  pub sink : Handle → List ℕ → Handle
  pub poll : Handle → ℕ → Bool × List ℕ × Handle
  pub finish : Handle → Bool × Handle

-- What the library documents of `poll`: it writes at most the space it is given, and answers
-- that there is more only once it has filled that space.
pub record IsPolled (c : Encoder) : Type 0 where
  pub fits : (h : c.Handle) (space : ℕ) → length (c.poll h space).1 ≤ space
  pub fills :
      (h : c.Handle) (space : ℕ) → (c.poll h space).0 ≡ true → length (c.poll h space).1 ≡ space

abbrev pub buffer_size : ℕ
buffer_size = 8192

module _ (c : Encoder) where
  -- `do … while (pres == HSER_POLL_MORE && comp_sz < sizeof(compressed_buf))`, with a bound on
  -- the rounds; `none` if that is not enough.
  unfoldable pub poll_all : ℕ → c.Handle → List ℕ → Option (List ℕ × c.Handle)
  poll_all zero h out = none
  poll_all (suc rounds) h out =
      let (more, bytes, h') = c.poll h (buffer_size - length out) in
      let rest = poll_all rounds h' (out ++ bytes) in
      if more && ltb (length (out ++ bytes)) buffer_size then rest else some (out ++ bytes, h')

  -- The output of one more poll, if `finish` asks for it.
  unfoldable pub finish_out : c.Handle → List ℕ → List ℕ
  finish_out h out =
      let (more, h') = c.finish h in
      if more then out ++ (c.poll h' (buffer_size - length out)).1 else out

  -- What is sent, and its type: the compressed bytes only if they are fewer than the line's.
  unfoldable pub smaller : List ℕ → List ℕ → List ℕ × ℕ
  smaller line comp =
      if ltb (length comp) (length line) && ltb (length comp) buffer_size
      then (comp, 0x06)
      else (line, 0x02)

  -- With what `heatshrink_encoder_alloc` returned.
  unfoldable pub compress : Option c.Handle → List ℕ → Option (List ℕ × ℕ)
  compress none line = some (line, 0x02)
  compress (some h) line = elim (poll_all 2 (c.sink h line) []) [
    | none ↦ none
    | some (out, h') ↦ some (smaller line (finish_out h' out))
  ]

  unfoldable pub auto_compress : List ℕ → Option (List ℕ × ℕ)
  auto_compress line = if ltb 128 (length line) then compress c.alloc line else some (line, 0x02)

  -- The line itself as text, or fewer bytes as a file.
  abbrev pub IsChoice : List ℕ → List ℕ × ℕ → Type 0
  IsChoice line r = ((r.0 ≡ line) × (r.1 ≡ 0x02)) ⊎ ((length r.0 < length line) × (r.1 ≡ 0x06))

  smaller-IsChoice : (line comp : List ℕ) → IsChoice line (smaller line comp)
  unfolding smaller
  smaller-IsChoice line comp =
      elim (Bool-cases (ltb (length comp) (length line) && ltb (length comp) buffer_size)) [
        | inl fewer ↦ rw fewer (inr (ground (arith, fewer), refl))
        | inr more ↦ rw more (inl (refl, refl))
      ]

  module _ (polled : IsPolled c) where
    -- One round is enough: if there is more to come, the buffer is full.
    poll_all-returns : (h : c.Handle) → (r : List ℕ × c.Handle) × (poll_all 2 h [] ≡ some r)
    unfolding poll_all
    poll_all-returns h = elim (Bool-cases (c.poll h buffer_size).0) [
      | inl more ↦
          let full : ltb (length (c.poll h buffer_size).1) buffer_size ≡ false =
            ground (arith, polled.fills h buffer_size more) in
          (((c.poll h buffer_size).1, (c.poll h buffer_size).2), rw (more, full, poll_all) refl)
      | inr done ↦ (((c.poll h buffer_size).1, (c.poll h buffer_size).2), rw (done, poll_all) refl)
    ]

    compress-returns :
        (o : Option c.Handle) (line : List ℕ)
        → (r : List ℕ × ℕ) × (compress o line ≡ some r) × IsChoice line r
    unfolding compress
    compress-returns none line = ((line, 0x02), refl, inl (refl, refl))
    compress-returns (some h) line =
        let ((out, h'), returned) = poll_all-returns (c.sink h line) in
        (
          smaller line (finish_out h' out),
          rw (returned, compress) refl,
          smaller-IsChoice line (finish_out h' out),
        )

    -- With a compressor that polls as documented, the loops end, and what is sent is the line
    -- itself or fewer bytes.
    pub auto_compress-returns :
        (line : List ℕ) → (r : List ℕ × ℕ) × (auto_compress line ≡ some r) × IsChoice line r
    unfolding auto_compress
    auto_compress-returns line = elim (Bool-cases (ltb 128 (length line))) [
      | inr short ↦ ((line, 0x02), rw (short, auto_compress) refl, inl (refl, refl))
      | inl long ↦
          let (r, returned, choice) = compress-returns c.alloc line in
          (r, rw (long, auto_compress) returned, choice)
    ]
