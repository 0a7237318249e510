-- ===== src/Ezq/Spec.antt =====
-- What a queue of ezq.c promises: the data handed out, then the data still queued, in order.
use getmatvar.Common.{ℕ, List, [], ◌∷◌, ◌++◌}
use getmatvar.Heap.{Ptr, null}

pub record Contents : Type 0 where
  pub handed : List Ptr
  pub queued : List Ptr

pub data Op : Type 0 where
  put_back put_front : Ptr → Op
  take_front peek_front restart reset : Op

-- The reply is the error code of a call that returns one, and the data pointer of the others.
unfoldable pub step : Contents → Op → ℕ × Contents
step c (put_back d) = (0, record c { queued = c.queued ++ (d ∷ []) })
step c (put_front d) = (0, record c { queued = d ∷ c.queued })
step c take_front = elim c.queued [
  | [] ↦ (null, c)
  | d ∷ ds ↦ (d, record { handed = c.handed ++ (d ∷ []); queued = ds })
]
step c peek_front = elim c.queued [ [] ↦ (null, c) | d ∷ ds ↦ (d, c) ]
step c restart = (0, record { handed = []; queued = c.handed ++ c.queued })
step c reset = (0, record { handed = c.handed ++ c.queued; queued = [] })

unfoldable pub replies : Contents → List Op → List ℕ
unfolding step
replies c [] = []
replies c (op ∷ ops) = let (r, c') = step c op in r ∷ replies c' ops
