-- ===== src/Send/Queue.antt =====
-- The ring is a queue: what was accepted is what was posted and what still waits, in order.
use network.Prelude.{
  ℕ, ◌≡◌, ◌≤◌, ◌<◌, ◌+◌, ◌∙◌, ap, sym, refl, true, false, Bool, none, some, List, [], ◌∷◌, ◌++◌,
  length, arith, append_assoc, append-nil, if◌then◌else◌,
}
use network.Packet.{max_size}
use network.Send.{Gathering, release, append, SendIo, next_buffer}

-- The bytes of buffers, in order.
abbrev pub flatten : List Gathering → List ℕ
flatten [] = []
flatten (g ∷ gs) = g.bytes ++ flatten gs

abbrev pub concat : List (List ℕ) → List ℕ
concat [] = []
concat (x ∷ xs) = x ++ concat xs

abbrev pub AllFree : List Gathering → Type 0
AllFree [] = Unit {0}
AllFree (g ∷ gs) = (g.bytes ≡ []) × AllFree gs

abbrev pub AllFilled : List Gathering → Type 0
AllFilled [] = Unit {0}
AllFilled (g ∷ gs) = (0 < length g.bytes) × AllFilled gs

-- While a send is under way `_head` is before `_tail`, and every buffer between them holds bytes.
abbrev pub Busy : List Gathering → Type 0
Busy [] = ⊥
Busy (g ∷ gs) = AllFilled gs

pub record IsValid (s : SendIo) : Type 0 where
  pub made : s.made ≡ true
  pub unlocked : s.locked ≡ false
  pub free : AllFree s.free
  pub busy : s.pending ≡ true → Busy s.ahead
  pub idle : s.pending ≡ false → (s.ahead ≡ []) × (s.tail.bytes ≡ []) × (s.due ≡ false)

-- The bytes that were accepted and not yet posted: all of the ring if the next `_Send` is due, and
-- otherwise all but the buffer that is being sent.
abbrev pub unsent : List Gathering → List ℕ
unsent [] = []
unsent (g ∷ gs) = flatten gs

abbrev pub queued : SendIo → List ℕ
queued s = if s.due then flatten s.ahead else unsent s.ahead

abbrev pub waiting : SendIo → List ℕ
waiting s = queued s ++ s.tail.bytes

-- All bytes that Send has taken: those given to WSASend, and those that wait.
abbrev pub accepted : SendIo → List ℕ
accepted s = concat s.sent ++ waiting s

pub flatten-append : (xs ys : List Gathering) → flatten (xs ++ ys) ≡ flatten xs ++ flatten ys
flatten-append [] ys = refl
flatten-append (g ∷ gs) ys =
    ap (λ l. g.bytes ++ l) (flatten-append gs ys)
    ∙ sym (append_assoc g.bytes (flatten gs) (flatten ys))

pub concat-append : (xs ys : List (List ℕ)) → concat (xs ++ ys) ≡ concat xs ++ concat ys
concat-append [] ys = refl
concat-append (x ∷ xs) ys =
    ap (λ l. x ++ l) (concat-append xs ys) ∙ sym (append_assoc x (concat xs) (concat ys))

pub AllFree-append :
    (xs : List Gathering) (g : Gathering) → AllFree xs → AllFree (xs ++ release g ∷ [])
AllFree-append [] g h = (refl, tt)
AllFree-append (x ∷ xs) g h = (h.0, AllFree-append xs g h.1)

pub AllFilled-append :
    (xs : List Gathering) (g : Gathering)
    → AllFilled xs
    → 0 < length g.bytes
    → AllFilled (xs ++ g ∷ [])
AllFilled-append [] g h p = (p, tt)
AllFilled-append (x ∷ xs) g h p = (h.0, AllFilled-append xs g h.1 p)

pub append_fits :
    (g : Gathering) (buf : List ℕ)
    → length buf + length g.bytes < max_size
    → append g buf ≡ some (record { bytes = g.bytes ++ buf; count = g.count + 1 })
unfolding append
append_fits g buf h = ground arith

pub append_full :
    (g : Gathering) (buf : List ℕ) → max_size ≤ length buf + length g.bytes → append g buf ≡ none
unfolding append
append_full g buf h = ground arith

-- A new tail: the old one joins the buffers before it.
pub record Moved (s t : SendIo) : Type 0 where
  pub ahead : t.ahead ≡ s.ahead ++ s.tail ∷ []
  pub empty : t.tail.bytes ≡ []
  pub free : AllFree t.free
  pub made : t.made ≡ s.made
  pub pending : t.pending ≡ s.pending
  pub locked : t.locked ≡ s.locked
  pub due : t.due ≡ s.due
  pub sent : t.sent ≡ s.sent

pub next_buffer-Moved : (s : SendIo) → AllFree s.free → Moved s (next_buffer s)
unfolding next_buffer
next_buffer-Moved s h = cases s.free refl h
  where
    cases : (f : List Gathering) → s.free ≡ f → AllFree f → Moved s (next_buffer s)
    cases [] e k =
        rw (e, next_buffer)
          (record {
            ahead = refl;
            empty = refl;
            free = tt;
            made = refl;
            pending = refl;
            locked = refl;
            due = refl;
            sent = refl;
          })
    cases (g ∷ gs) e k =
        rw (e, next_buffer)
          (record {
            ahead = refl;
            empty = k.0;
            free = k.1;
            made = refl;
            pending = refl;
            locked = refl;
            due = refl;
            sent = refl;
          })

-- The old tail waits as it did.
pub queued_moved :
    (d : Bool) (ahead : List Gathering) (g : Gathering)
    → Busy ahead
    → (if d then flatten (ahead ++ g ∷ []) else unsent (ahead ++ g ∷ []))
      ≡ (if d then flatten ahead else unsent ahead) ++ g.bytes
queued_moved d [] g b = absurd b
queued_moved true (x ∷ xs) g b =
    flatten-append (x ∷ xs) (g ∷ []) ∙ ap (λ l. flatten (x ∷ xs) ++ l) (append-nil g.bytes)
queued_moved false (x ∷ xs) g b =
    flatten-append xs (g ∷ []) ∙ ap (λ l. flatten xs ++ l) (append-nil g.bytes)
