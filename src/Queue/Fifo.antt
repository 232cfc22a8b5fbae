-- ===== src/Queue/Fifo.antt =====
-- What Kernel/os_queue.c promises: a queue of bounded length that drops its oldest message for a new
-- one when it is full.
use sentinel_rtos.Base.{ℕ, Option, none, some, List, [], ◌∷◌, ◌++◌, ltb, length, if◌then◌else◌}
use sentinel_rtos.Kernel.State.{os_success, os_timeout}

-- The list without its first element.
abbrev pub rest : List ℕ → List ℕ
rest [] = []
rest (x ∷ xs) = xs

-- Oldest first.
unfoldable pub push : ℕ → List ℕ → ℕ → List ℕ
push capacity xs message = (if ltb (length xs) capacity then xs else rest xs) ++ (message ∷ [])

unfoldable pub pop : List ℕ → (ℕ × Option ℕ) × List ℕ
pop [] = ((os_timeout, none), [])
pop (x ∷ xs) = ((os_success, some x), xs)

-- A client's polls.
pub data Poll : Type 0 where
  sends : ℕ → Poll
  receives : Poll

-- What a client sees of each poll.
abbrev pub Reply : Type 0
Reply = ℕ × Option ℕ

unfoldable pub replies : ℕ → List ℕ → List Poll → List Reply
replies capacity xs [] = []
replies capacity xs (sends message ∷ polls) =
    (os_success, none) ∷ replies capacity (push capacity xs message) polls
replies capacity xs (receives ∷ polls) =
    let (reply, ys) = pop xs in reply ∷ replies capacity ys polls
