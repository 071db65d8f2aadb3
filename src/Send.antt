-- ===== src/Send.antt =====
-- HNetIoSend and Gathering in Network/HNetIo.cpp: the ring of buffers that gathers sends.
-- The ring is written from `_head` on: the buffers before `_tail`, `_tail`, and the free ones up to
-- `_head` again. `_head == _tail` is then `ahead ≡ []`, and `_head == _tail->_next` is `free ≡ []`.
-- What Send and Sended do before they call `_Send` is one step, and `_Send` another. Sended releases
-- `_head` just before it takes the lock: no other call reads or writes that buffer meanwhile.
use network.Prelude.{
  ℕ, zero, suc, ◌≡◌, ◌≤◌, ◌<◌, ◌+◌, Bool, true, false, Option, none, some, List, [], ◌∷◌, ◌++◌, ltb,
  leb, ◌==◌, if◌then◌else◌, length,
}
use network.Packet.{max_size}
pub mod Queue
pub mod Storing
pub mod Steps
pub mod Completion
pub mod Order
pub mod Stuck
pub mod Job
mod Tests

-- `_buf` up to `_lenth`, and `_count`.
pub record Gathering : Type 0 where
  pub bytes : List ℕ
  pub count : ℕ

abbrev pub empty_gathering : Gathering
empty_gathering = record { bytes = []; count = 0 }

-- Gathering::Release
abbrev pub release : Gathering → Gathering
release g = record g { bytes = []; count = 0 }

-- Gathering::Append
unfoldable pub append : Gathering → List ℕ → Option Gathering
append g buf =
    if leb max_size (length buf + length g.bytes)
    then none
    else some (record { bytes = g.bytes ++ buf; count = g.count + 1 })

pub record SendIo : Type 0 where
  pub ahead : List Gathering
  pub tail : Gathering
  pub free : List Gathering
  -- `_head` and `_tail` are not NULL.
  pub made : Bool
  pub pending : Bool
  -- `_lock` is held.
  pub locked : Bool
  -- `_Send` is about to be called.
  pub due : Bool
  -- What WSASend was given, call by call.
  pub sent : List (List ℕ)

-- Initialize: a first buffer, whose `_next` is itself.
pub initialize : SendIo → SendIo
initialize s =
    if s.made
    then record s { pending = false }
    else record s { ahead = []; tail = empty_gathering; free = []; made = true; pending = false }

abbrev pub map_release : List Gathering → List Gathering
map_release [] = []
map_release (g ∷ gs) = release g ∷ map_release gs

-- Clear: every buffer of the ring is emptied, and `_head = _tail`. It reads through `_head`
-- unasked: `none` is the fault where that is NULL.
unfoldable pub clear : SendIo → Option SendIo
clear s =
    if s.made
    then some
        (record s { ahead = []; tail = release s.tail; free = map_release (s.free ++ s.ahead) })
    else none

-- NextBuffer
unfoldable pub next_buffer : SendIo → SendIo
next_buffer s = elim s.free [
  | [] ↦ record s { ahead = s.ahead ++ s.tail ∷ []; tail = empty_gathering; free = [] }
  | g ∷ gs ↦ record s { ahead = s.ahead ++ s.tail ∷ []; tail = g; free = gs }
]

-- `while (false == _tail->Append(...)) NextBuffer();` on fuel; `none` means that it ran out.
unfoldable pub append_loop : ℕ → List ℕ → SendIo → Option SendIo
append_loop zero buf s = none
append_loop (suc fuel) buf s = elim (append s.tail buf) [
  | some g ↦ some (record s { tail = g })
  | none ↦ append_loop fuel buf (next_buffer s)
]

-- The answer of Send: it may wait for the lock, or never come out of its loop.
pub data Outcome : Type 0 where
  done : SendIo → Outcome
  blocked : Outcome
  endless : Outcome

-- Send up to the call of `_Send`. A ring that is not made is left with the lock held.
unfoldable pub send : ℕ → List ℕ → SendIo → Outcome
send fuel buf s =
    if s.locked
    then blocked
    else (if s.made
        then (elim (append_loop fuel buf s) [
          | none ↦ endless
          | some t ↦
              if t.pending
              then done t
              else done (next_buffer (record t { pending = true; due = true }))
        ])
        else done (record s { locked = true }))

-- What `_head` points at.
unfoldable pub head_bytes : SendIo → List ℕ
head_bytes s = elim s.ahead [ [] ↦ s.tail.bytes | g ∷ gs ↦ g.bytes ]

-- `_head->Release(); _head = _head->_next;`
unfoldable pub pass_head : SendIo → SendIo
pass_head s = elim s.ahead [
  | [] ↦ record s { ahead = s.free; tail = release s.tail; free = [] }
  | g ∷ gs ↦ record s { ahead = gs; free = s.free ++ release g ∷ [] }
]

-- `if (_tail == _head) _tail = _tail->_next;`
unfoldable pub part_tail : SendIo → SendIo
part_tail s = elim s.ahead [
  | g ∷ gs ↦ s
  | [] ↦ elim s.free [ [] ↦ s | f ∷ fs ↦ record s { ahead = s.tail ∷ []; tail = f; free = fs } ]
]

-- Sended up to the call of `_Send`.
unfoldable pub sended : SendIo → SendIo
sended s =
    let t = pass_head s in
    if length (head_bytes t) == 0
    then record t { pending = false }
    else record (part_tail t) { due = true }

-- _Send: WSASend reads `_head`.
unfoldable pub post : SendIo → SendIo
post s = record s { due = false; sent = s.sent ++ head_bytes s ∷ [] }
