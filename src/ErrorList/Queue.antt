-- ===== src/ErrorList/Queue.antt =====
-- What the error list promises: a queue of at most 64 errors that gives up its oldest entry.
use e_rob_soem_linux.Base.{
  true, List, [], ◌∷◌, ◌++◌, Option, none, some, ◌==◌, if◌then◌else◌, length, drop,
}
use e_rob_soem_linux.ErrorList.{Error, max_elist}

unfoldable pub push : Error → List Error → List Error
push e q = (if length q == max_elist then drop 1 q else q) ++ (record e { signal = true } ∷ [])

unfoldable pub pop : List Error → Option Error × List Error
pop [] = (none, [])
pop (e ∷ q) = (some e, q)

-- The calls of a client, and what it sees of each.
pub data Op : Type 0 where
  put : Error → Op
  get : Op

unfoldable pub run : List Error → List Op → List (Option Error)
unfolding push pop
run q [] = []
run q (put e ∷ ops) = run (push e q) ops
run q (get ∷ ops) = let (r, q') = pop q in r ∷ run q' ops
