-- ===== src/Rtos/Queue/Trace.antt =====
-- The diagnostics of the queue calls: counters, the lines that are printed, and the Wi-Fi events that
-- are reported. They read the queue and change nothing of it.
use esp32s31_linux_function.Base.{
  ℕ, ◌+◌, ◌-◌, ◌*◌, ◌^◌, Bool, not, ◌&&◌, ◌||◌, List, ◌∷◌, leb, ◌==◌, if◌then◌else◌, add32,
}
use esp32s31_linux_function.Rtos.Queue.{Queue, Memory}

pub data Line : Type 0 where
  send_line : (number event rx : ℕ) (from_isr ret : Bool) (count head : ℕ) → Line
  receive_line : (number event rx : ℕ) (ret : Bool) (count head : ℕ) → Line

-- The file's static counters, with what has been printed and reported, newest first.
pub record Trace : Type 0 where
  pub enabled : Bool
  pub send_count : ℕ
  pub receive_count : ℕ
  pub rx_send_count : ℕ
  pub rx_receive_count : ℕ
  pub lines : List Line
  pub events : List ℕ

-- `s31_rtos_trace_queues`
unfoldable pub trace_queues : Bool → Trace → Trace
trace_queues enable tr = record tr { enabled = enable }

unfoldable pub is_wifi_main : Queue → Bool
is_wifi_main q = q.capacity == 200 && q.item_size == 8

abbrev pub rx_event : ℕ
rx_event = 13

-- `s31_queue_event_id`: the first four bytes of the item, little-endian.
unfoldable pub event_id : Queue → Memory → ℕ → ℕ
unfolding is_wifi_main
event_id q mem item =
    if is_wifi_main q && not (item == 0)
    then mem item + 256 * mem (item + 1) + 65536 * mem (item + 2) + 16777216 * mem (item + 3)
    else 2 ^ 32 - 1

abbrev count_if : Bool → ℕ → ℕ
count_if b n = if b then add32 n 1 else n

-- `s31_queue_trace_send`
unfoldable pub trace_send : Queue → Memory → ℕ → Bool → Bool → Trace → Trace
unfolding is_wifi_main event_id
trace_send q mem item from_isr ret tr =
    if not tr.enabled || not (is_wifi_main q) then tr else record tr {
      send_count = n;
      rx_send_count = rx;
      lines =
          if leb n 32 || event == rx_event && leb rx 32
          then send_line n event rx from_isr ret q.count q.head ∷ tr.lines
          else tr.lines;
    }
  where
    event : ℕ
    event = event_id q mem item

    n : ℕ
    n = add32 tr.send_count 1

    rx : ℕ
    rx = count_if (event == rx_event) tr.rx_send_count

-- `s31_queue_trace_receive`
unfoldable pub trace_receive : Queue → Memory → ℕ → Bool → Trace → Trace
unfolding is_wifi_main event_id
trace_receive q mem item ret tr =
    if not (is_wifi_main q)
    then tr
    else if not tr.enabled
    then record tr { events = reported }
    else record tr {
      events = reported;
      receive_count = n;
      rx_receive_count = rx;
      lines =
          if leb n 32 || event == rx_event && leb rx 32
          then receive_line n event rx ret q.count q.head ∷ tr.lines
          else tr.lines;
    }
  where
    event : ℕ
    event = event_id q mem item

    reported : List ℕ
    reported = if ret then event ∷ tr.events else tr.events

    n : ℕ
    n = add32 tr.receive_count 1

    rx : ℕ
    rx = count_if (event == rx_event) tr.rx_receive_count
