-- ===== src/Fifo.antt =====
-- mqtt.c: the queue of the frames that wait for one device, a TAILQ of buffers, first in first out.
-- A buffer holds a C string shorter than REPLY_LEN; callers build it by an snprintf of that size.
use lora_mqtt.Prelude.{
  ℕ, ◌≡◌, refl, Bool, true, false, List, [], ◌∷◌, ◌++◌, Option, none, some, if◌then◌else◌,
}

abbrev pub Frame : Type 0
Frame = List ℕ

abbrev pub Fifo : Type 0
Fifo = List Frame

-- `memory` says whether malloc returns a cell.
unfoldable pub m_enqueue : Bool → Fifo → Frame → Bool × Fifo
m_enqueue memory l v = if memory then (true, l ++ v ∷ []) else (false, l)

-- The frame that is copied out is the last part; a caller that passes NULL drops it.
unfoldable pub m_dequeue : Fifo → Bool × Fifo × Option Frame
m_dequeue [] = (false, [], none)
m_dequeue (e ∷ l) = (true, l, some e)

-- `none` is the result false, and leaves the buffer of the caller as it was.
unfoldable pub m_peek : Fifo → Option Frame
m_peek [] = none
m_peek (e ∷ l) = some e

unfoldable pub is_fifo_empty : Fifo → Bool
is_fifo_empty [] = true
is_fifo_empty (e ∷ l) = false

-- while (m_dequeue(l, NULL)) {}
unfoldable pub drain : Fifo → Fifo
drain [] = []
drain (e ∷ l) = drain l

pub drain-eq-nil : (l : Fifo) → drain l ≡ []
unfolding drain
drain-eq-nil [] = refl
drain-eq-nil (e ∷ l) = drain-eq-nil l
