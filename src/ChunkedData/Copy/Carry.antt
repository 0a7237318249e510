-- ===== src/ChunkedData/Copy/Carry.antt =====
-- The loop that carries from one counter of the rows to the next.
use getmatvar.Common.{
  ℕ, zero, suc, ◌≤◌, ◌<◌, ◌≡◌, refl, true, false, List, arith, get_or, set, ltb, lt→ltb, leb,
  Bool-cases, inl, inr, ltb→lt, if◌then◌else◌, ℤ, pos,
}
use getmatvar.ChunkedData.Copy.{Counters, eq_ℤ, carry_loop}

-- The counter `j` has reached its end: it starts again, and the next one goes on.
abbrev pub carried : ℕ → Counters → Counters
carried j c = record {
  chunk_pos = set (set c.chunk_pos j 0) (suc j) (suc (get_or (set c.chunk_pos j 0) (suc j) 0));
  curr_max_dim = if leb c.curr_max_dim (suc j) then suc c.curr_max_dim else c.curr_max_dim;
  use_update = suc c.use_update;
}

-- Where no counter has reached its end nothing is carried.
pub carry_loop-kept :
    (left j : ℕ) (sides : List ℤ) (c : Counters)
    → ((k : ℕ)
        → j ≤ k
        → k < c.curr_max_dim
        → eq_ℤ (pos (get_or c.chunk_pos k 0)) (get_or sides k (pos 0)) ≡ false)
    → carry_loop left j sides c ≡ c
unfolding carry_loop
carry_loop-kept zero j sides c open_end = refl
carry_loop-kept (suc left) j sides c open_end = elim (Bool-cases (ltb j c.curr_max_dim)) [
  | inl inside ↦
      rw (inside, open_end j (omega arith) (ltb→lt _ _ inside))
        (carry_loop-kept left (suc j) sides c (λ k from. open_end k (omega (arith, from))))
  | inr outside ↦ rw outside refl
]

pub carry_loop-carried :
    (left j : ℕ) (sides : List ℤ) (c : Counters)
    → j < c.curr_max_dim
    → eq_ℤ (pos (get_or c.chunk_pos j 0)) (get_or sides j (pos 0)) ≡ true
    → carry_loop (suc left) j sides c ≡ carry_loop left (suc j) sides (carried j c)
unfolding carry_loop
carry_loop-carried left j sides c inside end = rw (lt→ltb _ _ inside, end) refl
