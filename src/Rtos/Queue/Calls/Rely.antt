-- ===== src/Rtos/Queue/Calls/Rely.antt =====
-- What the other contexts may do to a queue while a task waits, as a relation that the waiting
-- calls rely on.
use esp32s31_linux_function.Base.{◌≡◌, List, [], ◌∷◌}
use esp32s31_linux_function.Rtos.Wait.{Round}
use esp32s31_linux_function.Rtos.Wait.Laws.{Keeps}
use esp32s31_linux_function.Rtos.Queue.Bounds.{IsValid}
use esp32s31_linux_function.Rtos.Queue.Contents.{contents}
use esp32s31_linux_function.Rtos.Queue.Fifo.{Item}
use esp32s31_linux_function.Rtos.Queue.Calls.{World}

-- What the other contexts may do between two looks of a task at the queue.
pub record Rely (R : World → World → Type 0) : Type 0 where
  pub idle : (w : World) → R w w
  pub then_more : (u v w : World) → R u v → R v w → R u w
  pub same_ring :
      (u v : World)
      → R u v
      → (v.queue.storage ≡ u.queue.storage)
        × (v.queue.capacity ≡ u.queue.capacity)
        × (v.queue.item_size ≡ u.queue.item_size)
  pub stable : (u v : World) → R u v → IsValid u.queue → IsValid v.queue

-- Each round's others act within the relation.
abbrev pub Obeys : (World → World → Type 0) → List (Round World) → Type 0
Obeys R [] = Unit
Obeys R (r ∷ rs) = ((w : World) → R w (r.others w)) × Obeys R rs

-- The items in the ring.
abbrev pub items : World → List Item
items w = contents w.queue w.memory

module _ {R : World → World → Type 0} (rely : Rely R) (w : World) where
  -- The others have led from `w` to a valid queue.
  abbrev pub Seen : World → Type 0
  Seen s = R w s × IsValid s.queue

  pub Obeys-Keeps : (rounds : List (Round World)) → Obeys R rounds → Keeps Seen Seen rounds
  Obeys-Keeps [] o = tt
  Obeys-Keeps (r ∷ rs) o = (keep, Obeys-Keeps rs o.1)
    where
      keep : (s : World) → Seen s → Seen (r.others s)
      keep s h =
          (rely.then_more w s (r.others s) h.0 (o.0 s), rely.stable s (r.others s) (o.0 s) h.1)
