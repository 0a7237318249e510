-- ===== src/Mtezq/Tests.antt =====
-- The theorem on a queue of three nodes, one of them handed out.
use getmatvar.Common.{◌≡◌, refl, false, true, some, [], ◌∷◌}
use getmatvar.Ezq.Inv.{Ensures}
use getmatvar.Ezq.Spec.{put_front, take_front, restart, step, replies}
use getmatvar.Ezq.Tests.{three_nodes, three_ends, malloc_from_100, three-IsQueue, IsFresh-from_100}
use getmatvar.Mtezq.{MtQueue}
use getmatvar.Mtezq.Locked.{mt_calls, mt_calls_refines}

abbrev shared_queue : MtQueue
shared_queue = record { ends = three_ends; has_free = true; locked = false }

mt_calls_refines_example :
    Ensures
      (λ rs _. rs ≡ 0 ∷ 500 ∷ 200 ∷ 0 ∷ 100 ∷ [])
      (mt_calls malloc_from_100 0
        (some shared_queue)
        (put_front 500 ∷ take_front ∷ take_front ∷ restart ∷ take_front ∷ [])
        three_nodes)
unfolding step replies
mt_calls_refines_example =
    mt_calls_refines malloc_from_100 0
      (put_front 500 ∷ take_front ∷ take_front ∷ restart ∷ take_front ∷ []) shared_queue refl
      three-IsQueue IsFresh-from_100
