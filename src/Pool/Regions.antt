-- ===== src/Pool/Regions.antt =====
-- The memory of the nodes: cut from the buffers of malloc, and never twice.
use network.Prelude.{
  ℕ, suc, ◌≡◌, ◌≢◌, ◌≤◌, ◌<◌, ◌+◌, ◌∙◌, refl, sym, ap, ◌⊎◌, inl, inr, true, Bool, ◌==◌, arith,
  Bool-cases, ==→eq, ==→ne,
}
use network.Pool.{alloc_size, node_size, update}

-- The headers of two nodes, and as many bytes as they are for, do not overlap.
abbrev pub Apart : ℕ → ℕ → ℕ → ℕ → Type 0
Apart n k m l = (n + (k + node_size) ≤ m) ⊎ (m + (l + node_size) ≤ n)

-- malloc has answered `base i` to call `i`, and its blocks do not overlap.
abbrev pub Separate : (ℕ → ℕ) → Type 0
Separate base = (i j : ℕ) → i ≢ j → (base i + alloc_size ≤ base j) ⊎ (base j + alloc_size ≤ base i)

module _ (base : ℕ → ℕ) where
  -- A node lies in one of the first `m` blocks.
  pub record IsWithin (m n k : ℕ) : Type 0 where
    pub block : ℕ
    pub made : block < m
    pub from : base block ≤ n
    pub to : n + (k + node_size) ≤ base block + alloc_size

  -- What a thread has left of its block.
  pub record Owns (m buf : ℕ) : Type 0 where
    pub block : ℕ
    pub made : block < m
    pub is : buf ≡ base block

  abbrev pub Source : ℕ → ℕ → ℕ → Type 0
  Source m pop buf = (pop ≡ alloc_size) ⊎ Owns m buf

  abbrev pub Clear : ℕ → ℕ → ℕ → ℕ → Type 0
  Clear pop buf n k =
      (pop ≡ alloc_size) ⊎ ((n + (k + node_size) ≤ buf + pop) ⊎ (buf + alloc_size ≤ n))

  abbrev pub Distinct : ℕ → ℕ → ℕ → ℕ → Type 0
  Distinct pop buf pop' buf' =
      (pop ≡ alloc_size)
      ⊎ ((pop' ≡ alloc_size) ⊎ ((buf + alloc_size ≤ buf') ⊎ (buf' + alloc_size ≤ buf)))

  pub record Regions (cut : ℕ → Bool) (size_of pops bufs : ℕ → ℕ) (m : ℕ) : Type 0 where
    pub apart : (n l : ℕ) → cut n ≡ true → cut l ≡ true → n ≢ l → Apart n (size_of n) l (size_of l)
    pub within : (n : ℕ) → cut n ≡ true → IsWithin m n (size_of n)
    pub bound : (t : ℕ) → pops t ≤ alloc_size
    pub source : (t : ℕ) → Source m (pops t) (bufs t)
    pub clear : (t n : ℕ) → cut n ≡ true → Clear (pops t) (bufs t) n (size_of n)
    pub distinct : (t u : ℕ) → t ≢ u → Distinct (pops t) (bufs t) (pops u) (bufs u)

  new-IsWithin :
      (m pop buf n size : ℕ)
      → n ≡ buf + pop
      → pop + (size + node_size) ≤ alloc_size
      → Source m pop buf
      → IsWithin m n size
  new-IsWithin m pop buf n size e h (inl full) = absurd (omega (arith, h, full))
  new-IsWithin m pop buf n size e h (inr o) = record {
    block = o.block;
    made = o.made;
    from = omega (arith, e, o.is);
    to = omega (arith, e, h, o.is);
  }

  pub cut-Regions :
      {cut : ℕ → Bool} {size_of pops bufs : ℕ → ℕ} {m : ℕ} (t size : ℕ)
      → Regions cut size_of pops bufs m
      → pops t + (size + node_size) ≤ alloc_size
      → let n = bufs t + pops t in
        Regions
          (update cut n true)
          (update size_of n size)
          (update pops t (pops t + (size + node_size)))
          bufs
          m
  cut-Regions {cut} {size_of} {pops} {bufs} {m} t size r h =
      let new : ℕ = bufs t + pops t in
      record {
        apart = λ n l a b ne. elim (Bool-cases (n == new)) [
          | inl y ↦ elim (Bool-cases (l == new)) [
            | inl z ↦ absurd (ne (==→eq n new y ∙ sym (==→eq l new z)))
            | inr z ↦ rw (y, z) (let c = r.clear t l (rw z at b) in ground (arith, ==→eq n new y))
          ]
          | inr y ↦ elim (Bool-cases (l == new)) [
            | inl z ↦ rw (y, z) (let c = r.clear t n (rw y at a) in ground (arith, ==→eq l new z))
            | inr z ↦ rw (y, z) (r.apart n l (rw y at a) (rw z at b) ne)
          ]
        ];
        within = λ n a. elim (Bool-cases (n == new)) [
          | inl y ↦ rw y (new-IsWithin m (pops t) (bufs t) n size (==→eq n new y) h (r.source t))
          | inr y ↦ rw y (r.within n (rw y at a))
        ];
        bound = λ u. ground (arith, r.bound u);
        source = λ u. elim (Bool-cases (u == t)) [
          | inl y ↦ rw y (
              let e = ==→eq u t y in
              elim (r.source t) [
                | inl full ↦ absurd (omega (arith, h, full))
                | inr o ↦ inr (record { block = o.block; made = o.made; is = ap bufs e ∙ o.is })
              ])
          | inr y ↦ rw y (r.source u)
        ];
        clear = λ u n a. elim (Bool-cases (n == new)) [
          | inl y ↦
              let e = ==→eq n new y in
              elim (Bool-cases (u == t)) [
                | inl z ↦ rw (y, z) (let same = ap bufs (==→eq u t z) in ground (arith, e))
                | inr z ↦
                    rw (y, z)
                      (let d = r.distinct t u (λ q. ==→ne u t z (sym q)) in ground (arith, e))
              ]
          | inr y ↦ elim (Bool-cases (u == t)) [
            | inl z ↦
                rw (y, z)
                  (let same = ap bufs (==→eq u t z) in
                    let c = r.clear t n (rw y at a) in ground arith)
            | inr z ↦ rw (y, z) (r.clear u n (rw y at a))
          ]
        ];
        distinct = λ u v ne. elim (Bool-cases (u == t)) [
          | inl y ↦ elim (Bool-cases (v == t)) [
            | inl z ↦ absurd (ne (==→eq u t y ∙ sym (==→eq v t z)))
            | inr z ↦
                rw (y, z)
                  (let same = ap bufs (==→eq u t y) in
                    let d = r.distinct t v (λ q. ==→ne v t z (sym q)) in ground arith)
          ]
          | inr y ↦ elim (Bool-cases (v == t)) [
            | inl z ↦
                rw (y, z)
                  (let same = ap bufs (==→eq v t z) in
                    let d = r.distinct u t (==→ne u t y) in ground arith)
            | inr z ↦ rw (y, z) (r.distinct u v ne)
          ]
        ];
      }

  IsWithin-suc : (m n k : ℕ) → IsWithin m n k → IsWithin (suc m) n k
  IsWithin-suc m n k w = record {
    block = w.block;
    made = omega (arith, w.made);
    from = w.from;
    to = w.to;
  }

  -- A new block is clear of all that is in older ones.
  block_clear :
      Separate base
      → (m n k : ℕ) → IsWithin m n k
      → (n + (k + node_size) ≤ base m + 0) ⊎ (base m + alloc_size ≤ n)
  block_clear far m n k w =
      let d = far w.block m (λ e. omega (arith, e, w.made)) in ground (arith, w.from, w.to)

  block_distinct :
      Separate base
      → (m pop buf : ℕ) → Source m pop buf
      → (pop ≡ alloc_size) ⊎ ((buf + alloc_size ≤ base m) ⊎ (base m + alloc_size ≤ buf))
  block_distinct far m pop buf (inl full) = inl full
  block_distinct far m pop buf (inr o) =
      let d = far o.block m (λ e. omega (arith, e, o.made)) in ground (arith, o.is)

  Source-suc : (m pop buf : ℕ) → Source m pop buf → Source (suc m) pop buf
  Source-suc m pop buf (inl full) = inl full
  Source-suc m pop buf (inr o) =
      inr (record { block = o.block; made = omega (arith, o.made); is = o.is })

  pub buffer-Regions :
      {cut : ℕ → Bool} {size_of pops bufs : ℕ → ℕ} {m : ℕ} (t : ℕ)
      → Separate base
      → Regions cut size_of pops bufs m
      → Regions cut size_of (update pops t 0) (update bufs t (base m)) (suc m)
  buffer-Regions {cut} {size_of} {pops} {bufs} {m} t far r = record {
    apart = r.apart;
    within = λ n a. IsWithin-suc m n (size_of n) (r.within n a);
    bound = λ u. ground (arith, r.bound u);
    source = λ u. elim (Bool-cases (u == t)) [
      | inl y ↦ rw y (inr (record { block = m; made = omega arith; is = refl }))
      | inr y ↦ rw y (Source-suc m (pops u) (bufs u) (r.source u))
    ];
    clear = λ u n a. elim (Bool-cases (u == t)) [
      | inl y ↦ rw y (inr (block_clear far m n (size_of n) (r.within n a)))
      | inr y ↦ rw y (r.clear u n a)
    ];
    distinct = λ u v ne. elim (Bool-cases (u == t)) [
      | inl y ↦ elim (Bool-cases (v == t)) [
        | inl z ↦ absurd (ne (==→eq u t y ∙ sym (==→eq v t z)))
        | inr z ↦
            rw (y, z) (let d = block_distinct far m (pops v) (bufs v) (r.source v) in ground arith)
      ]
      | inr y ↦ elim (Bool-cases (v == t)) [
        | inl z ↦
            rw (y, z) (let d = block_distinct far m (pops u) (bufs u) (r.source u) in ground arith)
        | inr z ↦ rw (y, z) (r.distinct u v ne)
      ]
    ];
  }
