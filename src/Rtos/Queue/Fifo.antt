-- ===== src/Rtos/Queue/Fifo.antt =====
-- What a queue promises: a bounded sequence of items, oldest first, with a front for urgent ones.
use esp32s31_linux_function.Base.{
  ℕ, Bool, true, false, Option, none, some, List, [], ◌∷◌, ◌++◌, length, tail, leb, ◌==◌,
  if◌then◌else◌,
}
use esp32s31_linux_function.Rtos.Queue.{send_to_front, overwrite}

abbrev pub Item : Type 0
Item = List ℕ

-- An item is refused only when the queue is full and may not be overwritten; overwriting a full
-- queue drops the oldest item.
unfoldable pub send : ℕ → List Item → Item → ℕ → List Item × Bool
send cap xs x copy =
    if leb cap (length xs)
    then (if copy == overwrite then (tail xs ++ (x ∷ []), true) else (xs, false))
    else if copy == send_to_front
    then (x ∷ xs, true)
    else (xs ++ (x ∷ []), true)

unfoldable pub take : List Item → Option (Item × List Item)
take [] = none
take (x ∷ xs) = some (x, xs)
