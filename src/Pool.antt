-- ===== src/Pool.antt =====
-- Network/Common/Memory.cpp: MemoryPool and CMemoryStack. A MemoryNode is its address. A stack is the list of its
-- nodes from `_head` on along `_next`. Thread ids are not 0. What malloc answers to its calls, one after the other, is
-- `malloc 0`, `malloc 1` and so on, `none` for NULL.
use network.Prelude.{
  ℕ, zero, suc, ◌+◌, ◌-◌, ◌*◌, Bool, true, false, Option, none, some, List, [], ◌∷◌, ltb, leb, ◌==◌,
  if◌then◌else◌,
}
pub mod Regions
pub mod Places
pub mod Moves
pub mod Filling
pub mod Handing
pub mod Safety
mod Tests

abbrev pub max_size : ℕ
max_size = 65535

abbrev pub alloc_size : ℕ
alloc_size = 1310700

abbrev pub fill_count : ℕ
fill_count = 32

-- sizeof(MemoryNode)
abbrev pub node_size : ℕ
node_size = 16

pub record MemoryPool : Type 0 where
  -- `_size` and `_threadId` of each node.
  pub size_of : ℕ → ℕ
  pub thread_of : ℕ → ℕ
  -- `t_stack[size]` of each thread; for 0, which is no thread, `_chunk[size]`.
  pub stacks : ℕ → ℕ → List ℕ
  -- `t_pop` and `t_buf` of each thread.
  pub pops : ℕ → ℕ
  pub bufs : ℕ → ℕ
  -- The calls of malloc so far.
  pub mallocs : ℕ

abbrev pub new_memory_pool : MemoryPool
new_memory_pool = record {
  size_of = λ n. 0;
  thread_of = λ n. 0;
  stacks = λ t s. [];
  pops = λ t. alloc_size;
  bufs = λ t. 0;
  mallocs = 0;
}

abbrev pub update {ℓ} : {A : Type ℓ} → (ℕ → A) → ℕ → A → ℕ → A
update f k v j = if j == k then v else f j

abbrev pub update_stack : (ℕ → ℕ → List ℕ) → ℕ → ℕ → List ℕ → ℕ → ℕ → List ℕ
update_stack f t s ns = update f t (update (f t) s ns)

-- CMemoryStack::Push and Pop, on the stack of thread `t` for `size`.
unfoldable pub push : ℕ → ℕ → ℕ → MemoryPool → MemoryPool
push t size node p = record p {
  thread_of = update p.thread_of node 0;
  stacks = update_stack p.stacks t size (node ∷ p.stacks t size);
}

abbrev pub pop_from : ℕ → ℕ → List ℕ → MemoryPool → Option ℕ × MemoryPool
pop_from t size [] p = (none, p)
pop_from t size (node ∷ rest) p =
    (some node, record p { stacks = update_stack p.stacks t size rest })

unfoldable pub pop : ℕ → ℕ → MemoryPool → Option ℕ × MemoryPool
pop t size p = pop_from t size (p.stacks t size) p

-- The parts of Fill: a new buffer from malloc, and a node cut from the thread's buffer.
unfoldable pub new_buffer : ℕ → ℕ → MemoryPool → MemoryPool
new_buffer t buf p = record p {
  bufs = update p.bufs t buf;
  pops = update p.pops t 0;
  mallocs = suc p.mallocs;
}

unfoldable pub cut_node : ℕ → ℕ → MemoryPool → MemoryPool
cut_node t size p =
    let node = p.bufs t + p.pops t in
    push t size node (record p {
      size_of = update p.size_of node size;
      pops = update p.pops t (p.pops t + (size + node_size));
    })

abbrev pub cut_from : Option ℕ → ℕ → ℕ → MemoryPool → Bool × MemoryPool
cut_from none t size p = (false, record p { bufs = update p.bufs t 0; mallocs = suc p.mallocs })
cut_from (some buf) t size p = (true, cut_node t size (new_buffer t buf p))

-- One turn of the loop of Fill.
unfoldable pub fill_turn : (ℕ → Option ℕ) → ℕ → ℕ → MemoryPool → Bool × MemoryPool
fill_turn malloc t size p = elim ((pop 0 size p).0) [
  | some node ↦ (true, push t size node (pop 0 size p).1)
  | none ↦
      if ltb (alloc_size - p.pops t) (size + node_size)
      then cut_from (malloc p.mallocs) t size p
      else (true, cut_node t size p)
]

unfoldable pub fill_loop : (ℕ → Option ℕ) → ℕ → ℕ → ℕ → MemoryPool → Bool × MemoryPool
fill_loop malloc zero t size p = (true, p)
fill_loop malloc (suc n) t size p =
    let (fine, p') = fill_turn malloc t size p in
    let rest = fill_loop malloc n t size p' in if fine then rest else (false, p')

-- Fill, under the lock.
unfoldable pub fill : (ℕ → Option ℕ) → ℕ → ℕ → MemoryPool → Bool × MemoryPool
fill malloc t size p = fill_loop malloc fill_count t size p

-- The loop of Allocate, on fuel: one turn with Fill and one more.
unfoldable pub allocate_loop :
    (ℕ → Option ℕ) → ℕ → ℕ → ℕ → MemoryPool → Option (Option ℕ × MemoryPool)
allocate_loop malloc zero t size p = none
allocate_loop malloc (suc fuel) t size p = elim ((pop t size p).0) [
  | some node ↦
      some (
        some node,
        record (pop t size p).1 { thread_of = update (pop t size p).1.thread_of node t },
      )
  | none ↦
      let (fine, p') = fill malloc t size p in
      let rest = allocate_loop malloc fuel t size p' in if fine then rest else some (none, p')
]

-- Allocate, called by thread `t`, with the test of GetStack.
unfoldable pub allocate : (ℕ → Option ℕ) → ℕ → ℕ → MemoryPool → Option (Option ℕ × MemoryPool)
allocate malloc t size p =
    if leb max_size size then some (none, p) else allocate_loop malloc 2 t size p

-- Deallocate, called by thread `t`.
unfoldable pub deallocate : ℕ → ℕ → MemoryPool → MemoryPool
deallocate t node p =
    if p.thread_of node == 0
    then p
    else (if leb max_size (p.size_of node)
        then p
        else (if p.thread_of node == t
            then push t (p.size_of node) node p
            else push 0 (p.size_of node) node p))
