-- ===== src/Frame/Batches.antt =====
-- ParseAll and ParseHello on whole bodies: the batches that they accept, and no others.
use tproxy_server.Base.{
  ℕ, zero, suc, ◌+◌, ◌≤◌, ◌<◌, ◌≡◌, ◌≢◌, refl, ap, sym, subst, ◌∙◌, List, [], ◌∷◌, ◌++◌, arith,
  length, All, length-append, ◌==◌, inl, inr, Bool-cases, ◌⊎◌, false,
}
use tproxy_server.Frame.{
  Frame, Error, Result, ok, err, stuck, ◌>>=◌, read_header, parse_frame, parse_loop, parse_all,
  max_payload, max_batch_frames, header_size, effective_limit, nonempty_batch,
}
use tproxy_server.Frame.Encoding.{
  IsSendable, IsByte, bytes_of, parse_frame-frame_bytes, parse_frame-ok, length-frame_bytes,
  parse_frame_shrinks, parse_frame-ne-stuck,
}

abbrev pub batch_bytes : List Frame → List ℕ
batch_bytes [] = []
batch_bytes (f ∷ frames) = bytes_of f ++ batch_bytes frames

Result-cases :
    (r : Result (Frame × List ℕ))
    → (r ≡ stuck)
      ⊎ ((e : Error) × (r ≡ err e))
      ⊎ ((f : Frame) × (rest : List ℕ) × (r ≡ ok (f, rest)))
Result-cases stuck = inl refl
Result-cases (err e) = inr (inl (e, refl))
Result-cases (ok p) = inr (inr (p.0, p.1, refl))

parse_loop-ne-stuck :
    (fuel limit count : ℕ) (input : List ℕ)
    → length input ≤ fuel
    → parse_loop fuel limit count input ≢ stuck
unfolding parse_loop
parse_loop-ne-stuck fuel limit count [] h e = cc
parse_loop-ne-stuck zero limit count (x ∷ input) h e = absurd (omega arith)
parse_loop-ne-stuck (suc fuel) limit count (x ∷ input) h e =
    elim (Result-cases (parse_frame limit (x ∷ input))) [
      | inl s ↦ absurd (parse_frame-ne-stuck limit (x ∷ input) s)
      | inr (inl (c, p)) ↦ ground (arith, p)
      | inr (inr (f, rest, p)) ↦ ground (
        arith,
        p,
        parse_frame_shrinks limit (x ∷ input) f rest,
        parse_loop-ne-stuck fuel limit (suc count) rest,
      )
    ]

-- ParseAll ends on every input: the loop never runs out of the rounds that it is given.
pub parse_all-ne-stuck : (input : List ℕ) (limit : ℕ) → parse_all input limit ≢ stuck
unfolding parse_all
parse_all-ne-stuck input limit e =
    nonempty-ne-stuck (parse_loop (length input) (effective_limit limit) 0 input)
      (parse_loop-ne-stuck (length input) (effective_limit limit) 0 input (omega arith)) e
  where
    nonempty-ne-stuck : (r : Result (List Frame)) → r ≢ stuck → (r >>= nonempty_batch) ≢ stuck
    nonempty-ne-stuck (ok []) h e = cc
    nonempty-ne-stuck (ok (f ∷ fs)) h e = cc
    nonempty-ne-stuck (err c) h e = cc
    nonempty-ne-stuck stuck h e = h refl

parse_loop_step :
    (fuel limit count : ℕ) (input : List ℕ) (f : Frame) (rest : List ℕ)
    → parse_frame limit input ≡ ok (f, rest)
    → count < max_batch_frames
    → parse_loop (suc fuel) limit count input
      ≡ (parse_loop fuel limit (suc count) rest >>= λ frames. ok (f ∷ frames))
unfolding parse_loop
parse_loop_step fuel limit count [] f rest p h = unfold parse_frame read_header in cc
parse_loop_step fuel limit count (x ∷ input) f rest p h =
    rw (p, ◌>>=◌)
      (elim (Bool-cases (count == max_batch_frames)) [
        | inl full ↦ absurd (ground arith)
        | inr room ↦ rw room
      ])

size_batch :
    (f : Frame) (frames : List Frame)
    → length (batch_bytes (f ∷ frames))
      ≡ header_size + length f.payload + length (batch_bytes frames)
size_batch f frames = omega (
  arith,
  length-append (bytes_of f) (batch_bytes frames),
  length-frame_bytes f.type_code f.stream_id f.payload,
)

parse_loop-batch_bytes :
    (frames : List Frame) (fuel limit count : ℕ)
    → limit ≤ max_payload
    → All (IsSendable limit) frames
    → count + length frames ≤ max_batch_frames
    → length (batch_bytes frames) ≤ fuel
    → parse_loop fuel limit count (batch_bytes frames) ≡ ok frames
parse_loop-batch_bytes [] fuel limit count hl s hc hf = unfold parse_loop in refl
parse_loop-batch_bytes (f ∷ frames) zero limit count hl s hc hf =
    absurd (omega (arith, size_batch f frames))
parse_loop-batch_bytes (f ∷ frames) (suc fuel) limit count hl s hc hf =
    parse_loop_step fuel limit count _ f (batch_bytes frames)
      (parse_frame-frame_bytes limit f (batch_bytes frames) hl s.0) (omega arith)
    ∙ rw (
      parse_loop-batch_bytes frames fuel limit (suc count) hl s.1 (omega arith)
          (omega (arith, size_batch f frames)),
      ◌>>=◌,
    )

effective_limit-le : (limit : ℕ) → effective_limit limit ≤ max_payload
effective_limit-le limit = ground arith

-- The joined encodings of 1 to 4096 frames within the limits are parsed back to the frames.
pub parse_all-batch_bytes :
    (f : Frame) (frames : List Frame) (limit : ℕ)
    → All (IsSendable (effective_limit limit)) (f ∷ frames)
    → length (f ∷ frames) ≤ max_batch_frames
    → parse_all (batch_bytes (f ∷ frames)) limit ≡ ok (f ∷ frames)
unfolding parse_all
parse_all-batch_bytes f frames limit s h = rw (
  parse_loop-batch_bytes (f ∷ frames) (length (batch_bytes (f ∷ frames))) (effective_limit limit) 0
      (effective_limit-le limit) s (omega arith) (omega arith),
  ◌>>=◌,
)

record Parsed (limit count : ℕ) (input : List ℕ) (frames : List Frame) : Type 0 where
  pub same_bytes : input ≡ batch_bytes frames
  pub sendable : All (IsSendable limit) frames
  pub few : count + length frames ≤ max_batch_frames

cons-Parsed :
    (limit count : ℕ) (input : List ℕ) (f : Frame) (rest : List ℕ) (frames : List Frame)
    → (input ≡ bytes_of f ++ rest) × IsSendable limit f
    → Parsed limit (suc count) rest frames
    → Parsed limit count input (f ∷ frames)
cons-Parsed limit count input f rest frames h p = record {
  same_bytes = h.0 ∙ ap (◌++◌ (bytes_of f)) p.same_bytes;
  sendable = (h.1, p.sendable);
  few = omega (arith, p.few);
}

All-tail : (xs ys : List ℕ) → All IsByte (xs ++ ys) → All IsByte ys
All-tail [] ys h = h
All-tail (x ∷ xs) ys h = All-tail xs ys h.1

record Round (fuel limit count : ℕ) (input : List ℕ) (frames : List Frame) : Type 0 where
  pub front : Frame
  pub rest : List ℕ
  pub tail : List Frame
  pub taken : parse_frame limit input ≡ ok (front, rest)
  pub later : parse_loop fuel limit (suc count) rest ≡ ok tail
  pub joined : frames ≡ front ∷ tail
  pub room : (count == max_batch_frames) ≡ false

parse_loop-Round :
    (fuel limit count x : ℕ) (input : List ℕ) (frames : List Frame)
    → parse_loop (suc fuel) limit count (x ∷ input) ≡ ok frames
    → Round fuel limit count (x ∷ input) frames
unfolding parse_loop
parse_loop-Round fuel limit count x input frames e =
    elim (Result-cases (parse_frame limit (x ∷ input))) [
      | inl s ↦ absurd (parse_frame-ne-stuck limit (x ∷ input) s)
      | inr (inl (c, p)) ↦ absurd (ground (arith, p))
      | inr (inr (f, rest, p)) ↦ go f rest p (parse_loop fuel limit (suc count) rest) refl
    ]
  where
    go :
        (f : Frame) (rest : List ℕ)
        → parse_frame limit (x ∷ input) ≡ ok (f, rest)
        → (r : Result (List Frame)) → parse_loop fuel limit (suc count) rest ≡ r
        → Round fuel limit count (x ∷ input) frames
    go f rest p (ok tail) q = record {
      front = f;
      rest = rest;
      tail = tail;
      taken = p;
      later = q;
      joined = ground (arith, p, q);
      room = ground (arith, p, q);
    }
    go f rest p (err c) q = absurd (ground (arith, p, q))
    go f rest p stuck q = absurd (ground (arith, p, q))

parse_loop-Parsed :
    (fuel limit count : ℕ) (input : List ℕ) (frames : List Frame)
    → count ≤ max_batch_frames
    → All IsByte input
    → parse_loop fuel limit count input ≡ ok frames
    → Parsed limit count input frames
parse_loop-Parsed fuel limit count [] [] hc bytes e = record {
  same_bytes = refl;
  sendable = tt;
  few = omega arith;
}
parse_loop-Parsed fuel limit count [] (f ∷ frames) hc bytes e = unfold parse_loop in cc
parse_loop-Parsed zero limit count (x ∷ input) frames hc bytes e = unfold parse_loop in cc
parse_loop-Parsed (suc fuel) limit count (x ∷ input) frames hc bytes e =
    let r = parse_loop-Round fuel limit count x input frames e in
    let p = parse_frame-ok limit (x ∷ input) r.front r.rest bytes r.taken in
    subst (Parsed limit count (x ∷ input)) (sym r.joined) (
      cons-Parsed limit count (x ∷ input) r.front r.rest r.tail p (
        parse_loop-Parsed fuel limit (suc count) r.rest r.tail (ground (arith, r.room))
          (All-tail (bytes_of r.front) r.rest (subst (All IsByte) p.0 bytes)) r.later))

-- What ParseAll accepts of a body of bytes is the encoding of the frames it returns, which are
-- 1 to 4096 and within the limits.
pub parse_all-ok :
    (input : List ℕ) (limit : ℕ) (frames : List Frame)
    → All IsByte input
    → parse_all input limit ≡ ok frames
    → (input ≡ batch_bytes frames)
      × All (IsSendable (effective_limit limit)) frames
      × (0 < length frames)
      × (length frames ≤ max_batch_frames)
unfolding parse_all
parse_all-ok input limit frames bytes e =
    go (parse_loop (length input) (effective_limit limit) 0 input) refl e
  where
    finish :
        (fs : List Frame)
        → Parsed (effective_limit limit) 0 input fs
        → nonempty_batch fs ≡ ok frames
        → (input ≡ batch_bytes frames)
          × All (IsSendable (effective_limit limit)) frames
          × (0 < length frames)
          × (length frames ≤ max_batch_frames)
    finish [] p q = cc
    finish (f ∷ fs) p q =
        let same : (f ∷ fs) ≡ frames = ground (arith, q) in
        (
          p.same_bytes ∙ ap batch_bytes same,
          subst (All (IsSendable (effective_limit limit))) same p.sendable,
          subst (λ l. 0 < length l) same (omega arith),
          subst (λ l. length l ≤ max_batch_frames) same (omega (arith, p.few)),
        )

    go :
        (r : Result (List Frame))
        → parse_loop (length input) (effective_limit limit) 0 input ≡ r
        → (r >>= nonempty_batch) ≡ ok frames
        → (input ≡ batch_bytes frames)
          × All (IsSendable (effective_limit limit)) frames
          × (0 < length frames)
          × (length frames ≤ max_batch_frames)
    go (ok fs) p q =
        finish fs (parse_loop-Parsed _ (effective_limit limit) 0 input fs (omega arith) bytes p) q
    go (err c) p q = cc
    go stuck p q = cc
