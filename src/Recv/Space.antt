-- ===== src/Recv/Space.antt =====
-- PrepareBuffer where its memcpy does not overlap: where the next bytes go, and how many may come.
use network.Prelude.{
  ℕ, ◌≤◌, ◌⊎◌, inl, inr, false, ◌≡◌, ◌≢◌, ◌<◌, ◌+◌, ◌-◌, ◌∙◌, ap, refl, List, length, take, drop,
  blit, arith, length-blit, length-take, length-drop, take-blit_end, sub32,
}
use native.Mathlib.Decide.{ℕ_discrete}
use network.Recv.{RecvIo, IsValid, arrange, overlaps}

-- The bytes that have come and are not yet part of a whole packet.
abbrev pub pending : RecvIo → List ℕ
pending s = take (s.end_pos - s.begin_pos) (drop s.begin_pos s.buf)

prepare_moved :
    (stale : ℕ) (s : RecvIo)
    → IsValid s
    → s.begin_pos ≢ s.end_pos
    → s.begin_pos ≢ 0
    → arrange stale s ≡ (
      s.size - (s.end_pos - s.begin_pos),
      s.end_pos - s.begin_pos,
      record s { buf = blit s.buf 0 (pending s); begin_pos = 0; end_pos = s.end_pos - s.begin_pos },
    )
unfolding arrange
prepare_moved stale s v d z =
    let e : sub32 s.end_pos s.begin_pos ≡ s.end_pos - s.begin_pos =
      omega (arith, v.fits, v.sized, v.order) in
    let f : sub32 s.size (s.end_pos - s.begin_pos) ≡ s.size - (s.end_pos - s.begin_pos) =
      omega (arith, v.fits, v.sized, v.order) in
    ground (arith, e, f)

pub prepare_empty :
    (stale : ℕ) (s : RecvIo)
    → s.begin_pos ≡ s.end_pos
    → arrange stale s ≡ (s.size, 0, record s { begin_pos = 0; end_pos = 0 })
unfolding arrange
prepare_empty stale s e = ground arith

prepare_kept :
    (stale : ℕ) (s : RecvIo)
    → s.begin_pos ≢ s.end_pos
    → s.begin_pos ≡ 0
    → arrange stale s ≡ (stale, s.end_pos, s)
unfolding arrange
prepare_kept stale s d z = ground arith

-- Kept bytes at the front, or no more of them than lie before them, do not overlap.
pub overlaps-false :
    (s : RecvIo)
    → IsValid s
    → (s.begin_pos ≡ 0) ⊎ (s.end_pos - s.begin_pos ≤ s.begin_pos)
    → overlaps s ≡ false
unfolding overlaps
overlaps-false s v (inl z) = ground (arith, z)
overlaps-false s v (inr h) =
    let e : sub32 s.end_pos s.begin_pos ≡ s.end_pos - s.begin_pos =
      omega (arith, v.fits, v.sized, v.order) in
    ground (arith, e, h)

pub length-pending : (s : RecvIo) → IsValid s → length (pending s) ≡ s.end_pos - s.begin_pos
length-pending s v = omega (
  arith,
  length-take (s.end_pos - s.begin_pos) (drop s.begin_pos s.buf),
  length-drop s.begin_pos s.buf,
  v.storage,
  v.order,
  v.fits,
)

-- What holds of the buffer that PrepareBuffer leaves: nothing pending is lost, it lies at the
-- front, and the next bytes go right behind it.
pub record Prepared (s : RecvIo) (at : ℕ) (s' : RecvIo) : Type 0 where
  pub valid : IsValid s'
  pub front : s'.begin_pos ≡ 0
  pub behind : at ≡ s'.end_pos
  pub same : pending s' ≡ pending s
  pub messages : s'.messages ≡ s.messages

-- On a valid session PrepareBuffer loses no pending byte: it leaves them at the front of the
-- buffer, gives the position right behind them for the next bytes, changes no message, and leaves
-- the session valid, whatever `len` was before.
pub prepare-Prepared :
    (stale : ℕ) (s : RecvIo) → IsValid s → let (len, at, s') = arrange stale s in Prepared s at s'
prepare-Prepared stale s v = elim (ℕ_discrete s.begin_pos s.end_pos) [
  | yes e ↦ rw (prepare_empty stale s e) (record {
    valid = record {
      storage = v.storage;
      sized = v.sized;
      order = omega arith;
      fits = omega arith;
    };
    front = refl;
    behind = refl;
    same =
        ap (λ n. take n (drop s.begin_pos s.buf)) {x = 0 - 0} {y = s.end_pos - s.begin_pos}
          (omega arith);
    messages = refl;
  })
  | no d ↦ elim (ℕ_discrete s.begin_pos 0) [
    | yes z ↦
        rw (prepare_kept stale s d z)
          (record { valid = v; front = z; behind = refl; same = refl; messages = refl })
    | no z ↦ rw (prepare_moved stale s v d z) (record {
      valid = record {
        storage = length-blit s.buf 0 (pending s) ∙ v.storage;
        sized = v.sized;
        order = omega arith;
        fits = omega (arith, v.fits);
      };
      front = refl;
      behind = refl;
      same =
          ap (λ n. take n (blit s.buf 0 (pending s))) {x = s.end_pos - s.begin_pos - 0}
            {y = s.end_pos - s.begin_pos} (omega arith)
          ∙ take-blit_end s.buf 0 (s.end_pos - s.begin_pos) (pending s)
              (omega (arith, length-pending s v)) (omega (arith, v.storage, v.fits));
      messages = refl;
    })
  ]
]

-- If an incomplete packet lies at the front of the buffer, and the `len` that the thread's WSABUF
-- was left with exceeds the rest of the buffer, the space that PrepareBuffer gives ends behind the
-- end of the buffer.
prepare_overrun :
    (stale : ℕ) (s : RecvIo)
    → s.begin_pos ≡ 0
    → 0 < s.end_pos
    → s.size < s.end_pos + stale
    → let (len, at, s') = arrange stale s in s'.size < at + len
prepare_overrun stale s z p h = rw (prepare_kept stale s (omega arith) z) h
