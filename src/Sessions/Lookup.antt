-- ===== src/Sessions/Lookup.antt =====
-- _FindSession finds a session under the net id that it has now, and under no other.
use network.Prelude.{
  ℕ, zero, suc, ◌≡◌, ◌≢◌, ◌<◌, ◌+◌, ◌/◌, ◌%◌, ◌∙◌, refl, sym, ap, none, some, List, [], ◌∷◌, length,
  get_or, set, arith, length-set, leb, ◌==◌, ◌↔◌, if◌then◌else◌,
}
use network.Sessions.{Table, new_net_id, renew, find_session}
use network.Sessions.Slots.{IsValid, Slots-get_or, renew-IsValid}

-- A session has this net id.
abbrev pub HasId : Table → ℕ → ℕ → Type 0
HasId t i net_id = (i < length t.sessions) × (get_or t.sessions i 0 ≡ net_id)

-- In a valid table _FindSession gives a session for a net id exactly when the session exists and
-- has this id.
pub find_session_iff :
    (t : Table) (net_id i : ℕ) → IsValid t → (find_session t net_id ≡ some i) ↔ HasId t i net_id
unfolding find_session
find_session_iff t net_id i v = (only, back)
  where
    only : find_session t net_id ≡ some i → HasId t i net_id
    only h = ground (arith, h)

    back : HasId t i net_id → find_session t net_id ≡ some i
    back (l, e) =
        let s : net_id % 65536 ≡ i =
          omega (arith, ap (λ n. n % 65536) e, Slots-get_or 0 i t.sessions v.slots l) in
        rw s (ground (arith, l, e))

get_or-set : (xs : List ℕ) (i n d : ℕ) → i < length xs → get_or (set xs i n) i d ≡ n
get_or-set [] i n d h = absurd (omega arith)
get_or-set (x ∷ xs) zero n d h = refl
get_or-set (x ∷ xs) (suc i) n d h = get_or-set xs i n d (omega arith)

get_or-set_other : (xs : List ℕ) (i j n d : ℕ) → i ≢ j → get_or (set xs i n) j d ≡ get_or xs j d
get_or-set_other [] i j n d h = refl
get_or-set_other (x ∷ xs) zero zero n d h = absurd (h refl)
get_or-set_other (x ∷ xs) zero (suc j) n d h = refl
get_or-set_other (x ∷ xs) (suc i) zero n d h = refl
get_or-set_other (x ∷ xs) (suc i) (suc j) n d h = get_or-set_other xs i j n d (λ e. h (ap suc e))

find_session-none :
    (t : Table) (n : ℕ) → get_or t.sessions (n % 65536) 0 ≢ n → find_session t n ≡ none
unfolding find_session
find_session-none t n h = ground arith

find_session_same :
    (t u : Table) (n : ℕ)
    → length u.sessions ≡ length t.sessions
    → get_or u.sessions (n % 65536) 0 ≡ get_or t.sessions (n % 65536) 0
    → find_session u n ≡ find_session t n
unfolding find_session
find_session_same t u n l e =
    λ i. if leb (l i) (n % 65536) then none else (if n == e i then some (n % 65536) else none)

new_net_id-half : (id n : ℕ) → (new_net_id id n).1 / 65536 ≡ (id + 1) % 65536
unfolding new_net_id
new_net_id-half id n = omega arith

-- In a valid table, when a session that is found under an old net id takes a new one by NewNetId,
-- and the new number differs from the upper half of the old id, the session is found under the new
-- id, nothing is found under the old one, and every id of another slot is looked up as before.
pub renew-find_session :
    (t : Table) (i old : ℕ)
    → IsValid t
    → find_session t old ≡ some i
    → old / 65536 ≢ (t.id + 1) % 65536
    → let (new, t') = renew i t in
      (find_session t' new ≡ some i)
      × (find_session t' old ≡ none)
      × ((other : ℕ) → other % 65536 ≢ i → find_session t' other ≡ find_session t other)
unfolding renew
renew-find_session t i old v f h =
    let (l, e) = (find_session_iff t old i v).0 f in
    let new = (renew i t).0 in
    let t' = (renew i t).1 in
    let w = renew-IsValid i t l v in
    let slot : old % 65536 ≡ i =
      omega (arith, ap (λ n. n % 65536) e, Slots-get_or 0 i t.sessions v.slots l) in
    let same = length-set t.sessions i new in
    (
      (find_session_iff t' new i w).1 (omega (arith, same), get_or-set t.sessions i new 0 l),
      find_session-none t' old (λ z. h (
          ap (λ n. n / 65536)
            (sym z
              ∙ ap (λ j. get_or (set t.sessions i new) j 0) slot
              ∙ get_or-set t.sessions i new 0 l)
          ∙ new_net_id-half t.id (get_or t.sessions i 0))),
      λ other d.
          find_session_same t t' other same
            (get_or-set_other t.sessions i (other % 65536) new 0 (λ z. d (sym z))),
    )
