-- ===== src/Send/Order.antt =====
-- Interleavings of Send, `_Send` and Sended on one ring, and the order of what is posted.
use network.Prelude.{
  ℕ, zero, suc, ◌≡◌, ◌≤◌, ◌<◌, ◌∙◌, ap, sym, subst, refl, true, false, List, [], ◌∷◌, ◌++◌, length,
  arith, append_assoc, append-nil, inl, inr, if◌then◌else◌,
}
use network.Packet.{max_size}
use network.Send.{SendIo, send, done, sended, post}
use network.Send.Queue.{IsValid, waiting, accepted, concat, concat-append}
use network.Send.Steps.{send-Sends, post-accepted}
use network.Send.Completion.{sended-Completes, load, load_positive}

-- What has happened on a ring since the state `s`: calls of Send by any thread, with the messages
-- in the order of the lock, the call of `_Send` that one of them or Sended decided on, and the
-- completions of what was posted.
pub data Reach (s : SendIo) : List (List ℕ) → SendIo → Type 0 where
  start : Reach s [] s
  sends :
      {ms ns : List (List ℕ)} {t u : SendIo} (fuel : ℕ) (buf : List ℕ)
      → Reach s ms t
      → length buf < max_size
      → ns ≡ ms ++ buf ∷ []
      → send (suc (suc fuel)) buf t ≡ done u
      → Reach s ns u
  posts :
      {ms : List (List ℕ)} {t : SendIo}
      → Reach s ms t
      → t.pending ≡ true
      → t.due ≡ true
      → Reach s ms (post t)
  completes :
      {ms : List (List ℕ)} {t : SendIo}
      → Reach s ms t
      → t.pending ≡ true
      → t.due ≡ false
      → Reach s ms (sended t)

done-injective : {t u : SendIo} → done t ≡ done u → t ≡ u
done-injective e = cc e

Reach-accepted :
    {s u : SendIo} {ms : List (List ℕ)}
    → IsValid s
    → Reach s ms u
    → (accepted u ≡ accepted s ++ concat ms) × IsValid u
Reach-accepted {s} v start = (sym (append-nil (accepted s)), v)
Reach-accepted {s} v (sends {ms = ms} {t = t} {u = u} fuel buf r h n e) =
    let (a, w) = Reach-accepted v r in
    let (u', f, d) = send-Sends fuel buf t w h in
    let same : u' ≡ u = done-injective (sym f ∙ e) in
    (
      subst (λ k. accepted k ≡ accepted t ++ buf) same d.accepts
          ∙ ap (λ l. l ++ buf) a
          ∙ append_assoc (accepted s) (concat ms) buf
          ∙ ap (λ l. accepted s ++ (concat ms ++ l)) (sym (append-nil buf))
          ∙ ap (λ l. accepted s ++ l) (sym (concat-append ms (buf ∷ [])) ∙ ap concat (sym n)),
      subst IsValid same d.valid,
    )
Reach-accepted v (posts {t = t} r p d) =
    let (a, w) = Reach-accepted v r in let (b, x) = post-accepted t w p d in (b ∙ a, x)
Reach-accepted v (completes {t = t} r p d) =
    let (a, w) = Reach-accepted v r in let c = sended-Completes t w p d in (c.accepts ∙ a, c.valid)

-- A ring at rest has posted everything.
idle-accepted : (s : SendIo) → IsValid s → s.pending ≡ false → accepted s ≡ concat s.sent
idle-accepted s v p =
    let (b, c, d) = v.idle p in
    ap (λ l. concat s.sent ++ l) (rw (b, c, d) refl) ∙ append-nil (concat s.sent)

-- From a valid ring where nothing waits, after any interleaving of calls of Send with messages
-- shorter than MAX_SIZE, calls of `_Send` that were decided on, and completions, what was posted
-- and then what waits are together the accepted messages, in the order of the lock, each whole and
-- once, behind what had been posted before; and when no send is under way, everything accepted was
-- posted.
pub Reach-fifo :
    {s u : SendIo} {ms : List (List ℕ)}
    → IsValid s
    → waiting s ≡ []
    → Reach s ms u
    → (concat u.sent ++ waiting u ≡ concat s.sent ++ concat ms)
      × (u.pending ≡ false → concat u.sent ≡ concat s.sent ++ concat ms)
Reach-fifo {s} {u} {ms} v z r =
    let (a, w) = Reach-accepted v r in
    let all =
      a
      ∙ ap (λ l. (concat s.sent ++ l) ++ concat ms) z
      ∙ ap (λ l. l ++ concat ms) (append-nil (concat s.sent)) in
    (all, λ p. sym (idle-accepted u w p) ∙ all)

-- Send is not called any more: up to `n` times the head is posted and completed.
unfoldable pub drain : ℕ → SendIo → SendIo
drain zero s = s
drain (suc n) s = let rest = drain n (sended (post s)) in if s.pending then rest else s

drain_stop : (n : ℕ) (s : SendIo) → s.pending ≡ false → drain n s ≡ s
unfolding drain
drain_stop zero s p = refl
drain_stop (suc n) s p = ap (λ b. if b then drain n (sended (post s)) else s) p

-- On a valid ring with a send under way and `_Send` due, if Send is not called any more, as many
-- posts and completions are enough as there are buffers before `_tail`, and one more if `_tail`
-- holds bytes: then no send is under way, and everything accepted was posted.
pub drain-idle :
    (n : ℕ) (s : SendIo)
    → IsValid s
    → s.pending ≡ true
    → s.due ≡ true
    → load s ≤ n
    → ((drain n s).pending ≡ false) × (concat (drain n s).sent ≡ accepted s)
unfolding drain post
drain-idle zero s v p d h = absurd (omega (arith, load_positive s (v.busy p)))
drain-idle (suc n) s v p d h =
    let u = sended (post s) in
    let (a, w) = post-accepted s v p d in
    let c = sended-Completes (post s) w p refl in
    let step : drain (suc n) s ≡ drain n u = ap (λ b. if b then drain n u else s) p in
    subst (λ t. (t.pending ≡ false) × (concat t.sent ≡ accepted s)) (sym step)
      (elim c.next [
        | inl q ↦
            subst (λ t. (t.pending ≡ false) × (concat t.sent ≡ accepted s)) (sym (drain_stop n u q))
              (q, sym (idle-accepted u c.valid q) ∙ c.accepts ∙ a)
        | inr (q, e, l) ↦
            let (x, y) = drain-idle n u c.valid q e (omega (arith, l)) in (x, y ∙ c.accepts ∙ a)
      ])
