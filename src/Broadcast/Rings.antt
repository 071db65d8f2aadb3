-- ===== src/Broadcast/Rings.antt =====
-- What a message does to the rings of the sessions.
use network.Prelude.{
  ℕ, suc, ◌≡◌, ◌<◌, ◌∙◌, ap, sym, refl, subst, inl, inr, true, Option, none, some, List, [], ◌∷◌,
  ◌++◌, length, arith, append_assoc, length-append, Bool-cases, if◌then◌else◌,
}
use network.Packet.{max_size}
use network.Send.{SendIo, post}
use network.Send.Queue.{IsValid, accepted}
use network.Send.Steps.{send-Sends, post-accepted}
use network.Sessions.Slots.{Connects}
use network.Broadcast.{send_ring, send_slot, send_loop}

-- A ring takes a message behind all that it accepted before.
pub record Takes (buf : List ℕ) (r r' : SendIo) : Type 0 where
  pub accepts : accepted r' ≡ accepted r ++ buf
  pub valid : IsValid r'

-- The rings of the slots that hold a session take the message, the others stay.
pub data AllTake (buf : List ℕ) : List (Option ℕ) → List SendIo → List SendIo → Type 0 where
  no_slot : AllTake buf [] [] []
  slot_empty :
      {cs : List (Option ℕ)} {rs rs' : List SendIo} (r : SendIo)
      → AllTake buf cs rs rs'
      → AllTake buf (none ∷ cs) (r ∷ rs) (r ∷ rs')
  slot_held :
      {cs : List (Option ℕ)} {rs rs' : List SendIo} {r r' : SendIo} (i : ℕ)
      → Takes buf r r'
      → AllTake buf cs rs rs'
      → AllTake buf (some i ∷ cs) (r ∷ rs) (r' ∷ rs')

abbrev pub AllValid : List SendIo → Type 0
AllValid [] = Unit {0}
AllValid (r ∷ rs) = IsValid r × AllValid rs

pub send_ring-Takes :
    (fuel : ℕ) (buf : List ℕ) (r : SendIo)
    → IsValid r
    → length buf < max_size
    → (r' : SendIo) × (send_ring (suc (suc fuel)) buf r ≡ some r') × Takes buf r r'
unfolding send_ring
send_ring-Takes fuel buf r v h =
    let (u, e, s) = send-Sends fuel buf r v h in
    elim (Bool-cases r.pending) [
      | inl p ↦ (u, rw (send_ring, e, p) refl, record { accepts = s.accepts; valid = s.valid })
      | inr p ↦
          let due : u.due ≡ true = s.due ∙ ap (λ b. if b then r.due else true) p in
          let (same, valid) = post-accepted u s.valid s.pending due in
          (
            post u,
            rw (send_ring, e, p, due) refl,
            record { accepts = same ∙ s.accepts; valid = valid },
          )
    ]

pub send_slot-at :
    (fuel : ℕ) (buf : List ℕ) (front rs : List SendIo) (r r' : SendIo)
    → send_ring fuel buf r ≡ some r'
    → send_slot fuel buf (length front) (front ++ r ∷ rs) ≡ some (front ++ r' ∷ rs)
unfolding send_slot
send_slot-at fuel buf [] rs r r' e = rw (send_slot, e) refl
send_slot-at fuel buf (q ∷ front) rs r r' e =
    rw (send_slot, send_slot-at fuel buf front rs r r' e) refl

send_loop-held :
    (fuel : ℕ) (buf : List ℕ) (i : ℕ) (cs : List (Option ℕ)) (rings rings' : List SendIo)
    → send_slot fuel buf i rings ≡ some rings'
    → send_loop fuel buf (some i ∷ cs) rings ≡ send_loop fuel buf cs rings'
unfolding send_loop
send_loop-held fuel buf i cs rings rings' e = rw (send_loop, e) refl

pub send_loop-AllTake :
    (fuel : ℕ) (buf : List ℕ) (cs : List (Option ℕ)) (front rs : List SendIo)
    → length buf < max_size
    → Connects (length front) cs
    → AllValid rs
    → length rs ≡ length cs
    → (rs' : List SendIo) × (send_loop (suc (suc fuel)) buf cs (front ++ rs) ≡ some (front ++ rs'))
      × AllTake buf cs rs rs'
unfolding send_loop
send_loop-AllTake fuel buf [] front [] h c v e = ([], refl, no_slot)
send_loop-AllTake fuel buf [] front (r ∷ rs) h c v e = absurd (omega arith)
send_loop-AllTake fuel buf (x ∷ cs) front [] h c v e = absurd (omega arith)
send_loop-AllTake fuel buf (none ∷ cs) front (r ∷ rs) h c v e =
    let next : Connects (length (front ++ r ∷ [])) cs =
      subst (λ k. Connects k cs) (omega (arith, length-append front (r ∷ []))) c.1 in
    let (rs', run, all) =
      send_loop-AllTake fuel buf cs (front ++ r ∷ []) rs h next v.1 (omega (arith, e)) in
    (
      r ∷ rs',
      ap (send_loop (suc (suc fuel)) buf cs) (sym (append_assoc front (r ∷ []) rs))
          ∙ run
          ∙ ap some (append_assoc front (r ∷ []) rs'),
      slot_empty r all,
    )
send_loop-AllTake fuel buf (some i ∷ cs) front (r ∷ rs) h c v e =
    let (r', run_r, takes) = send_ring-Takes fuel buf r v.0 h in
    let next : Connects (length (front ++ r' ∷ [])) cs =
      subst (λ k. Connects k cs) (omega (arith, length-append front (r' ∷ []))) c.1 in
    let (rs', run, all) =
      send_loop-AllTake fuel buf cs (front ++ r' ∷ []) rs h next v.1 (omega (arith, e)) in
    (
      r' ∷ rs',
      send_loop-held (suc (suc fuel)) buf i cs _ _
            (rw c.0 (send_slot-at (suc (suc fuel)) buf front rs r r' run_r))
          ∙ ap (send_loop (suc (suc fuel)) buf cs) (sym (append_assoc front (r' ∷ []) rs))
          ∙ run
          ∙ ap some (append_assoc front (r' ∷ []) rs'),
      slot_held i takes all,
    )
