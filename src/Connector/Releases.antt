-- ===== src/Connector/Releases.antt =====
-- What holds between the calls and completions of a connector, and what Release and the completion of a receive keep.
use network.Prelude.{
  ℕ, ◌≡◌, ◌≤◌, ◌<◌, ◌+◌, refl, ap, sym, subst, ◌∙◌, Bool, true, false, List, [], ◌∷◌, ◌==◌, arith,
  Bool-cases, inl, inr, ==→eq, ==→ne,
}
use network.Connector.{
  Answer, succeeds, fails, Report, on_connected, on_reconnected, on_disconnected, Connector,
  disconnected, reference, release, disconnect, recv, completion,
}

-- OnConnected or OnReconnected, and OnDisconnected, are called in turns; `up` tells whether the last was one of the
-- first two. OnReconnected comes behind OnDisconnected only.
abbrev pub Alternates : Bool → List Report → Type 0
Alternates up [] = up ≡ false
Alternates up (on_connected ∷ l) = (up ≡ true) × Alternates false l
Alternates up (on_reconnected ∷ []) = ⊥
Alternates up (on_reconnected ∷ r ∷ l) = (up ≡ true) × Alternates false (r ∷ l)
Alternates up (on_disconnected ∷ l) = (up ≡ false) × Alternates true l

abbrev pub AfterDisconnect : List Report → Type 0
AfterDisconnect [] = ⊥
AfterDisconnect (r ∷ l) = r ≡ on_disconnected

abbrev pub bit : Bool → ℕ
bit true = 1
bit false = 0

pub record IsSound (c : Connector) : Type 0 where
  pub counted : c.count ≡ bit c.receiving
  pub active : c.registered ≡ c.receiving
  pub has_socket : c.registered ≡ true → c.socket ≡ true
  pub one_posted : c.posted ≤ 1
  pub waits : c.posted ≡ 1 → (c.registered ≡ false) × (c.socket ≡ true) × AfterDisconnect c.log
  pub in_turns : Alternates c.registered c.log

-- A session with references keeps them when it is disconnected.
pub disconnect_held : (c : Connector) → 0 < c.count → disconnect c ≡ record c { reason = true }
unfolding disconnect release
disconnect_held c h = ground arith

recv_fails : (c : Connector) → 0 < c.count → recv fails c ≡ record c { reason = true }
unfolding recv release disconnect
recv_fails c h = elim (Bool-cases c.reason) [
  | inl y ↦ ground arith
  | inr z ↦ rw (z, disconnect_held (reference c) (omega arith)) (ground arith)
]

-- A session that is registered, with one reference and nothing pending.
pub record Leaving (c : Connector) : Type 0 where
  pub counted : c.count ≡ 1
  pub registered : c.registered ≡ true
  pub socket : c.socket ≡ true
  pub none_pending : c.receiving ≡ false
  pub none_posted : c.posted ≡ 0
  pub in_turns : Alternates true c.log

release-Leaving : (c : Connector) → Leaving c → IsSound (release c)
unfolding release disconnected
release-Leaving c l = elim (Bool-cases c.reconnect) [
  | inl y ↦
      rw (l.counted, l.registered, y)
        (record {
          counted = ap bit (sym l.none_pending);
          active = sym l.none_pending;
          has_socket = λ e. l.socket;
          one_posted = omega (arith, l.none_posted);
          waits = λ e. (refl, l.socket, refl);
          in_turns = (refl, l.in_turns);
        })
  | inr z ↦
      rw (l.counted, l.registered, z)
        (record {
          counted = ap bit (sym l.none_pending);
          active = sym l.none_pending;
          has_socket = λ e. cc e;
          one_posted = omega (arith, l.none_posted);
          waits = λ e. absurd (omega (arith, l.none_posted, e));
          in_turns = (refl, l.in_turns);
        })
]

-- One that was not registered.
pub record Dropped (c : Connector) : Type 0 where
  pub counted : c.count ≡ 1
  pub registered : c.registered ≡ false
  pub none_pending : c.receiving ≡ false
  pub none_posted : c.posted ≡ 0
  pub in_turns : Alternates false c.log

pub release-Dropped : (c : Connector) → Dropped c → IsSound (release c)
unfolding release disconnected
release-Dropped c d =
    rw (d.counted, d.registered)
      (record {
        counted = ap bit (sym d.none_pending);
        active = sym d.none_pending;
        has_socket = λ e. cc e;
        one_posted = omega (arith, d.none_posted);
        waits = λ e. absurd (omega (arith, d.none_posted, e));
        in_turns = d.in_turns;
      })

pub Leaving-reason : (c : Connector) → Leaving c → Leaving (record c { reason = true })
Leaving-reason c l = record {
  counted = l.counted;
  registered = l.registered;
  socket = l.socket;
  none_pending = l.none_pending;
  none_posted = l.none_posted;
  in_turns = l.in_turns;
}

released_receiving :
    (c : Connector)
    → Leaving c
    → IsSound (release (record c { count = c.count + 1; receiving = true }))
unfolding release
released_receiving c l = rw l.counted (record {
  counted = refl;
  active = l.registered;
  has_socket = λ e. l.socket;
  one_posted = omega (arith, l.none_posted);
  waits = λ e. absurd (omega (arith, l.none_posted, e));
  in_turns = rw l.registered l.in_turns;
})

recv_stops : (c : Connector) → c.reason ≡ true → recv succeeds c ≡ c
unfolding recv
recv_stops c h = ground arith

recv_goes :
    (c : Connector)
    → c.reason ≡ false
    → recv succeeds c ≡ record c { count = c.count + 1; receiving = true }
unfolding recv
recv_goes c h = ground arith

pub release-recv :
    (receive : Answer) (c : Connector) → Leaving c → IsSound (release (recv receive c))
release-recv fails c l =
    subst (λ x. IsSound (release x)) (sym (recv_fails c (omega (arith, l.counted))))
      (release-Leaving (record c { reason = true }) (Leaving-reason c l))
release-recv succeeds c l = elim (Bool-cases c.reason) [
  | inl y ↦ subst (λ x. IsSound (release x)) (sym (recv_stops c y)) (release-Leaving c l)
  | inr z ↦ subst (λ x. IsSound (release x)) (sym (recv_goes c z)) (released_receiving c l)
]

pub none_posted_up : (c : Connector) → IsSound c → c.registered ≡ true → c.posted ≡ 0
none_posted_up c s h = elim (Bool-cases (c.posted == 1)) [
  | inl y ↦ cc ((s.waits (==→eq c.posted 1 y)).0, h)
  | inr z ↦ omega (arith, s.one_posted, ==→ne c.posted 1 z)
]

pub completion-IsSound :
    (more receive : Answer) (c : Connector)
    → IsSound c
    → c.receiving ≡ true
    → IsSound (completion more receive c)
unfolding completion
completion-IsSound more receive c s h =
    let up : c.registered ≡ true = s.active ∙ h in
    let left = record c { receiving = false } in
    let l : Leaving left = record {
      counted = s.counted ∙ ap bit h;
      registered = up;
      socket = s.has_socket up;
      none_pending = refl;
      none_posted = none_posted_up c s up;
      in_turns = subst (λ b. Alternates b c.log) up s.in_turns;
    } in
    elim more as (λ m. IsSound (completion m receive c)) [
      | succeeds ↦ release-recv receive left l
      | fails ↦
          subst (λ x. IsSound (release x)) (sym (disconnect_held left (omega (arith, l.counted))))
            (release-Leaving (record left { reason = true }) (Leaving-reason left l))
    ]
