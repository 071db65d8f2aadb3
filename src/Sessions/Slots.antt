-- ===== src/Sessions/Slots.antt =====
-- The invariant of the session table: a session's slot is the lower half of its net id.
use network.Prelude.{
  ℕ, zero, suc, ◌≡◌, ◌≤◌, ◌<◌, ◌+◌, ◌%◌, refl, subst, Bool, true, false, Option, none, some, List,
  [], ◌∷◌, ◌++◌, length, get_or, set, replicate, arith, length-append, length-set, length-replicate,
  Bool-cases, inl, inr, leb, leb→gt, min,
}
use network.Sessions.{Table, create, new_net_id, renew, create_session, add_session, del_session}

-- From slot `k` on.
abbrev pub Slots : ℕ → List ℕ → Type 0
Slots k [] = Unit {0}
Slots k (x ∷ xs) = (x % 65536 ≡ k) × Slots (suc k) xs

-- An entry of `_connectedSessions` is NULL or the session of its own slot.
abbrev pub Held : ℕ → Option ℕ → Type 0
Held k none = Unit {0}
Held k (some s) = s ≡ k

abbrev pub Connects : ℕ → List (Option ℕ) → Type 0
Connects k [] = Unit {0}
Connects k (x ∷ xs) = Held k x × Connects (suc k) xs

pub record IsValid (t : Table) : Type 0 where
  pub slots : Slots 0 t.sessions
  pub connects : Connects 0 t.connected
  pub room : length t.sessions ≤ length t.connected
  pub small : length t.connected ≤ 60000

Slots-set : (k i : ℕ) (xs : List ℕ) (n : ℕ) → Slots k xs → n % 65536 ≡ k + i → Slots k (set xs i n)
Slots-set k i [] n s e = tt
Slots-set k zero (x ∷ xs) n s e = (omega arith, s.1)
Slots-set k (suc i) (x ∷ xs) n s e = (s.0, Slots-set (suc k) i xs n s.1 (omega arith))

Slots-append :
    (k : ℕ) (xs : List ℕ) (n : ℕ) → Slots k xs → n % 65536 ≡ k + length xs → Slots k (xs ++ n ∷ [])
Slots-append k [] n s e = (omega arith, tt)
Slots-append k (x ∷ xs) n s e = (s.0, Slots-append (suc k) xs n s.1 (omega arith))

pub Slots-get_or :
    (k i : ℕ) (xs : List ℕ) → Slots k xs → i < length xs → get_or xs i 0 % 65536 ≡ k + i
Slots-get_or k i [] s h = absurd (omega arith)
Slots-get_or k zero (x ∷ xs) s h = omega (arith, s.0)
Slots-get_or k (suc i) (x ∷ xs) s h = omega (arith, Slots-get_or (suc k) i xs s.1 (omega arith))

Connects-set :
    (k i : ℕ) (xs : List (Option ℕ)) (o : Option ℕ)
    → Connects k xs
    → Held (k + i) o
    → Connects k (set xs i o)
Connects-set k i [] o s e = tt
Connects-set k zero (x ∷ xs) o s e =
    (subst (λ n. Held n o) {x = k + 0} {y = k} (omega arith) e, s.1)
Connects-set k (suc i) (x ∷ xs) o s e = (
  s.0,
  Connects-set (suc k) i xs o s.1
      (subst (λ n. Held n o) {x = k + suc i} {y = suc k + i} (omega arith) e),
)

Connects-replicate : (k n : ℕ) → Connects k (replicate n none)
unfolding replicate
Connects-replicate k zero = tt
Connects-replicate k (suc n) = (tt, Connects-replicate (suc k) n)

pub create-IsValid : (n id : ℕ) → IsValid (create n id)
unfolding create
create-IsValid n id = record {
  slots = tt;
  connects = Connects-replicate 0 (min 60000 n);
  room = omega arith;
  small = omega (arith, length-replicate {A = Option ℕ} (min 60000 n) none);
}

-- The new net id keeps the slot.
new_net_id-slot : (id n : ℕ) → (new_net_id id n).1 % 65536 ≡ n % 65536
unfolding new_net_id
new_net_id-slot id n = omega arith

pub renew-IsValid : (i : ℕ) (t : Table) → i < length t.sessions → IsValid t → IsValid (renew i t).1
unfolding renew
renew-IsValid i t h v =
    let n = (new_net_id t.id (get_or t.sessions i 0)).1 in
    let e : n % 65536 ≡ 0 + i = omega (
      arith,
      new_net_id-slot t.id (get_or t.sessions i 0),
      Slots-get_or 0 i t.sessions v.slots h,
      v.room,
      v.small,
    ) in
    record {
      slots = Slots-set 0 i t.sessions n v.slots e;
      connects = v.connects;
      room = omega (arith, v.room, length-set t.sessions i n);
      small = v.small;
    }

pub create_session_full :
    (c : Bool) (t : Table)
    → leb (length t.connected) (length t.sessions) ≡ true
    → create_session c t ≡ (none, t)
unfolding create_session
create_session_full c t e = rw e refl

-- What _CreateSession does where there is room.
abbrev pub grown : Bool → Table → Option ℕ × Table
grown true t =
    let (next, n) = new_net_id t.id (length t.sessions % 65536) in
    (some (length t.sessions), record t { sessions = t.sessions ++ n ∷ []; id = next })
grown false t = (none, record t { id = (new_net_id t.id (length t.sessions % 65536)).0 })

pub create_session_room :
    (c : Bool) (t : Table)
    → leb (length t.connected) (length t.sessions) ≡ false
    → create_session c t ≡ grown c t
unfolding create_session
create_session_room true t e = rw e refl
create_session_room false t e = rw e refl

grown-IsValid :
    (c : Bool) (t : Table)
    → IsValid t
    → length t.sessions < length t.connected
    → IsValid (grown c t).1
grown-IsValid false t v h = record {
  slots = v.slots;
  connects = v.connects;
  room = v.room;
  small = v.small;
}
grown-IsValid true t v h =
    let n = (new_net_id t.id (length t.sessions % 65536)).1 in
    record {
      slots =
          Slots-append 0 t.sessions n v.slots
            (omega (arith, new_net_id-slot t.id (length t.sessions % 65536), v.small));
      connects = v.connects;
      room = omega (arith, length-append t.sessions (n ∷ []));
      small = v.small;
    }

pub create_session-IsValid : (c : Bool) (t : Table) → IsValid t → IsValid (create_session c t).1
create_session-IsValid c t v = elim (Bool-cases (leb (length t.connected) (length t.sessions))) [
  | inl e ↦ rw (create_session_full c t e) v
  | inr e ↦ rw (create_session_room c t e) (grown-IsValid c t v (leb→gt _ _ e))
]

set_connected-IsValid :
    (t : Table) (i : ℕ) (o : Option ℕ)
    → IsValid t
    → Held i o
    → IsValid (record t { connected = set t.connected i o })
set_connected-IsValid t i o v h = record {
  slots = v.slots;
  connects =
      Connects-set 0 i t.connected o v.connects
        (subst (λ n. Held n o) {x = i} {y = 0 + i} (omega arith) h);
  room = omega (arith, v.room, length-set t.connected i o);
  small = omega (arith, v.small, length-set t.connected i o);
}

pub add_session-IsValid : (i : ℕ) (t : Table) → IsValid t → IsValid (add_session i t).1
unfolding add_session
add_session-IsValid i t v = cases (get_or t.connected i none) refl
  where
    cases : (o : Option ℕ) → get_or t.connected i none ≡ o → IsValid (add_session i t).1
    cases none e = rw (add_session, e) (set_connected-IsValid t i (some i) v refl)
    cases (some s) e = rw (add_session, e) v

pub del_session-IsValid : (i : ℕ) (t : Table) → IsValid t → IsValid (del_session i t).1
unfolding del_session
del_session-IsValid i t v = cases (get_or t.connected i none) refl
  where
    cases : (o : Option ℕ) → get_or t.connected i none ≡ o → IsValid (del_session i t).1
    cases none e = rw (del_session, e) v
    cases (some s) e = rw (del_session, e) (set_connected-IsValid t i none v tt)
