-- ===== src/Life/Solo.antt =====
-- A thread that has no reference works on the session alone: OnRelease, OnDisconnected, Close and the next
-- Accept run while nothing is pending and no other thread has anything to do.
use network.Prelude.{
  ◌≡◌, ◌≤◌, ◌<◌, ◌+◌, ◌-◌, refl, ap, ◌⊎◌, inl, inr, true, false, List, [], ◌∷◌, ◌++◌, ◌==◌, length,
  arith, append-nil, ◌∙◌,
}
use native.Mathlib.Decide.{ℕ_discrete}
use network.Life.{
  Act, Io, accept_io, recv_io, send_io, Call, called, completion, System, initial, run_act, holds,
  weigh, call_disconnect, call_send, runs, completes, calls, intrudes,
}
use network.Life.Weight.{
  weight, weight-call, weight-has, length_complete, sum, sum-split, weigh-append,
}
use network.Life.Effects.{run_act-Effects, bit, lone, unclosed, unclosed_behind, is_final, final}
use network.Life.Alone.{
  closed-holds, unclosed_behind-append, lone-append, lone-holds, bit-zero, lone-completion,
  split_of, one, one-lone_all, weigh-kind, weight-kind,
}
use network.Life.Count.{Reach, start, later, references, Reach-count, Reach-few}

-- At most one thread runs its last part without a reference, and then there is no reference.
pub record IsSolo (s : System) : Type 0 where
  pub shape : sum unclosed_behind s.threads ≡ 0
  pub alone : (sum lone s.threads ≡ 0) ⊎ ((sum lone s.threads ≡ 1) × (references s ≡ 0))
  pub ending : (weight final s.threads ≡ 0) ⊎ (references s ≡ 0)

-- The thread of `s` that runs is `a ∷ k`; it goes on as `next ++ k`.
module _ (s t : System) (solo : IsSolo s) (xs : List (List Act)) (a : Act) (ys : List (List Act))
    (next : List Act) (lonely : lone next ≤ bit (t.session.count == 0) + (1 - holds a))
    (behind : unclosed_behind next ≡ 0)
    (posted : length t.session.pending ≤ length s.session.pending + holds a)
    (count : t.session.count ≡ references t)
    (final_next : weigh final next ≤ final a + bit (t.session.count == 0))
    (final_free : weigh final next + weigh holds next ≤ 1) where
  run-ending :
      (k : List Act)
      → s.threads ≡ xs ++ (a ∷ k) ∷ ys
      → t.threads ≡ xs ++ (next ++ k) ∷ ys
      → (weight final t.threads ≡ 0) ⊎ (references t ≡ 0)
  run-ending k e f = elim (ℕ_discrete (references t) 0) [
    | yes z ↦ inr z
    | no more ↦ elim solo.ending [
      | inl none_before ↦ inl (
          omega (
            arith,
            none_before,
            more,
            bit-zero t.session.count,
            count,
            final_next,
            split_of (weigh final) xs (a ∷ k) ys e,
            split_of (weigh final) xs (next ++ k) ys f,
            weigh-append final next k,
          ))
      | inr free ↦ inl (
          omega (
            arith,
            free,
            more,
            posted,
            final_free,
            solo.alone,
            one-lone_all s.threads solo.shape (omega (arith, free)),
            split_of (weigh one) xs (a ∷ k) ys e,
            split_of (weigh final) xs (next ++ k) ys f,
            split_of (weigh holds) xs (a ∷ k) ys e,
            split_of (weigh holds) xs (next ++ k) ys f,
            weigh-append final next k,
            weigh-append holds next k,
            weigh-kind is_final k,
            weight-kind is_final xs,
            weight-kind is_final ys,
          ))
    ]
  ]

  run-IsSolo :
      (k : List Act)
      → s.threads ≡ xs ++ (a ∷ k) ∷ ys
      → t.threads ≡ xs ++ (next ++ k) ∷ ys
      → IsSolo t
  run-IsSolo [] e f =
      let g : t.threads ≡ xs ++ next ∷ ys = f ∙ ap (λ l. xs ++ l ∷ ys) (append-nil next) in
      record {
        shape = omega (
          arith,
          behind,
          solo.shape,
          split_of unclosed_behind xs (a ∷ []) ys e,
          split_of unclosed_behind xs next ys g,
        );
        alone = elim (lone-holds next) [
          | inl z ↦ inl (
              omega (
                arith,
                z,
                solo.alone,
                split_of lone xs (a ∷ []) ys e,
                split_of lone xs next ys g,
                split_of (weigh holds) xs (a ∷ []) ys e,
              ))
          | inr (z, h) ↦ inr (
              omega (
                arith,
                z,
                h,
                solo.alone,
                lonely,
                posted,
                count,
                bit-zero t.session.count,
                split_of lone xs (a ∷ []) ys e,
                split_of lone xs next ys g,
                split_of (weigh holds) xs (a ∷ []) ys e,
                split_of (weigh holds) xs next ys g,
              ))
        ];
        ending = run-ending [] e f;
      }
  run-IsSolo (b ∷ k) e f =
      let closed : unclosed (b ∷ k) ≡ 0 =
        omega (arith, solo.shape, split_of unclosed_behind xs (a ∷ b ∷ k) ys e) in
      record {
        shape = omega (
          arith,
          solo.shape,
          split_of unclosed_behind xs (a ∷ b ∷ k) ys e,
          split_of unclosed_behind xs (next ++ b ∷ k) ys f,
          unclosed_behind-append next (b ∷ k) behind closed,
        );
        alone = inl (
            omega (
              arith,
              solo.alone,
              closed-holds b k closed,
              lone-append next b k closed,
              split_of lone xs (a ∷ b ∷ k) ys e,
              split_of lone xs (next ++ b ∷ k) ys f,
              split_of (weigh holds) xs (a ∷ b ∷ k) ys e,
            ));
        ending = run-ending (b ∷ k) e f;
      }

IsSolo-start : IsSolo initial
IsSolo-start = record { shape = refl; alone = inr (refl, refl); ending = inr refl }

final-completion : (io : Io) → weigh final (completion io) ≡ 0
final-completion accept_io = refl
final-completion recv_io = refl
final-completion send_io = refl

final-called : (c : Call) → final (called c) ≡ 0
final-called call_disconnect = refl
final-called call_send = refl

unclosed-tail : (a : Act) (k : List Act) → 0 < weigh holds k → unclosed (a ∷ k) ≡ unclosed k
unclosed-tail a [] h = absurd (omega (arith, h))
unclosed-tail a (b ∷ k) h = refl

pub Reach-IsSolo : {s : System} → Reach false s → IsSolo s
Reach-IsSolo start = IsSolo-start
Reach-IsSolo (later {s = s} {t = t} r (runs xs a k ys answer e) few) =
    let f = run_act-Effects s.session (omega (arith, Reach-few r, Reach-count r)) a answer in
    run-IsSolo s t (Reach-IsSolo r) xs a ys (run_act a answer s.session).0 f.laws.1.1 f.laws.1.0
      f.laws.1.2 (Reach-count (later r (runs xs a k ys answer e) few)) f.laws.2.0 f.laws.2.1 k e
      refl
Reach-IsSolo (later {s = s} r (completes xs io ys e) few) =
    let solo = Reach-IsSolo r in
    let some_pending = length_complete xs io ys e in
    record {
      shape = omega (arith, solo.shape, lone-completion io);
      alone = inl (omega (arith, solo.alone, lone-completion io, some_pending));
      ending = inl (omega (arith, solo.ending, final-completion io, some_pending));
    }
Reach-IsSolo (later {s = s} r (calls xs a k ys c e h) few) =
    let solo = Reach-IsSolo r in
    let whole : s.threads ≡ xs ++ (a ∷ k) ∷ ys = e in
    let busy = split_of (weigh holds) xs (a ∷ k) ys e in
    record {
      shape = omega (
        arith,
        solo.shape,
        unclosed-tail a k h,
        sum-split unclosed_behind xs (called c ∷ a ∷ k) ys,
        split_of unclosed_behind xs (a ∷ k) ys e,
      );
      alone = inl (
          omega (
            arith,
            solo.alone,
            h,
            busy,
            sum-split lone xs (called c ∷ a ∷ k) ys,
            split_of lone xs (a ∷ k) ys e,
          ));
      ending = inl (
          omega (
            arith,
            solo.ending,
            h,
            busy,
            weight-call final xs (called c) a k ys e,
            final-called c,
          ));
    }
Reach-IsSolo (later r (intrudes c e) few) = cc e

no_pending : (l : List Io) → length l ≡ 0 → l ≡ []
no_pending [] e = refl
no_pending (io ∷ l) e = absurd (omega (arith, e))

-- A session of an acceptor is accepted, connects, receives, sends and disconnects in any
-- interleaving, with any answers of the system, calls of Disconnect and Send come only on threads
-- that will release a reference, and there are always fewer than 2 ^ 32 references: then whenever
-- OnRelease, _DelSession, OnDisconnected, Close or the next Accept's Open or Reference is about to
-- run, the count is 0, no I/O is pending, and no other thread has anything to run on the session.
pub Reach-final :
    {s : System} (xs : List (List Act)) (a : Act) (k : List Act) (ys : List (List Act))
    → Reach false s
    → s.threads ≡ xs ++ (a ∷ k) ∷ ys
    → is_final a ≡ true
    → (s.session.count ≡ 0) × (s.session.pending ≡ []) × (weight one s.threads ≡ 1)
Reach-final {s} xs a k ys r e h =
    let solo = Reach-IsSolo r in
    let there = weight-has final xs a k ys e in
    let free : references s ≡ 0 = omega (arith, solo.ending, there, ap bit h) in
    let ones = one-lone_all s.threads solo.shape (omega (arith, free)) in
    (
      Reach-count r ∙ free,
      no_pending s.session.pending (omega (arith, free)),
      omega (arith, ones, solo.alone, weight-has one xs a k ys e),
    )
