-- ===== src/Rtos/Event.antt =====
-- radio_firmware/s31_rtos/s31_rtos_event.c: event groups. `p` is the pointer that the caller passes,
-- `World` the object there, with the wakes sent and the counters of the diagnostics. The texts of
-- the printed lines are left out: only their number is kept.
pub mod Bits
pub mod Waiting
use esp32s31_linux_function.Base.{
  ℕ, ◌+◌, Bool, true, false, not, ◌&&◌, ◌||◌, Option, none, some, List, leb, ◌==◌, if◌then◌else◌,
  bit_and, bit_or, add32,
}
use esp32s31_linux_function.Base.Bits.{not32}
use esp32s31_linux_function.Rtos.Ledger.{Ledger, obtain, release}
use esp32s31_linux_function.Rtos.Wait.{
  Round, Attempt, finished, again, Outcome, returned, wait_loop,
}

-- `struct s31_event_group`
pub record Group : Type 0 where
  pub bits : ℕ
  pub wait_context : ℕ

pub record World : Type 0 where
  pub group : Group
  pub wakes : ℕ
  pub create_count : ℕ
  pub set_count : ℕ
  pub wait_count : ℕ
  pub lines : ℕ

abbrev pub is_group : ℕ → Group → Bool
is_group p g = not (p == 0) && not (g.wait_context == 0)

abbrev print_if : Bool → World → World
print_if b w = if b then record w { lines = w.lines + 1 } else w

-- `s31_eg_match`; `all` is the flag S31_EG_FLAG_ALL_BITS.
unfoldable pub eg_match : ℕ → ℕ → Bool → Bool
eg_match have want all = if all then bit_and have want == want else not (bit_and have want == 0)

-- `xEventGroupCreate`: what the heap and the bridge answered, the pointer, the object, the live.
unfoldable pub create : ℕ → ℕ → Ledger → ℕ × Option Group × Ledger
create block context l =
    if block == 0
    then (0, none, l)
    else if context == 0
    then (0, none, release block (obtain block l))
    else (
      block,
      some (record { bits = 0; wait_context = context }),
      obtain context (obtain block l),
    )

-- `vEventGroupDelete`
unfoldable pub delete : ℕ → Group → Ledger → Group × Ledger
delete p g l =
    if p == 0 then (g, l) else (record g { wait_context = 0 }, release p (release g.wait_context l))

-- `xEventGroupSetBits`
unfoldable pub set_bits : ℕ → ℕ → World → World × ℕ
set_bits p bits w =
    if is_group p w.group
    then (
      print_if (leb n 64) (record w {
        group = record (w.group) { bits = result };
        wakes = w.wakes + 1;
        set_count = n;
      }),
      result,
    )
    else (w, 0)
  where
    result : ℕ
    result = bit_or w.group.bits bits

    n : ℕ
    n = add32 w.set_count 1

-- `xEventGroupClearBits`
unfoldable pub clear_bits : ℕ → ℕ → World → World × ℕ
clear_bits p bits w =
    if is_group p w.group
    then (
      record w { group = record (w.group) { bits = bit_and w.group.bits (not32 bits) } },
      w.group.bits,
    )
    else (w, 0)

-- `if (clear_on_exit) g->bits &= ~bits;`
abbrev pub consume : ℕ → Bool → World → World
consume want clear w =
    if clear
    then record w { group = record (w.group) { bits = bit_and w.group.bits (not32 want) } }
    else w

-- One pass of `xEventGroupWaitBits` under the lock.
unfoldable pub try_wait : ℕ → Bool → Bool → World → Attempt World ℕ
try_wait want clear all w =
    if eg_match w.group.bits want all
    then finished (print_if (leb w.wait_count 64) (consume want clear w)) w.group.bits
    else again w

-- The return with nothing to wait for.
abbrev pub unmatched : World → World × ℕ
unmatched w = (w, w.group.bits)

-- The recheck after a wait that failed.
unfoldable pub recheck : ℕ → Bool → Bool → World → World × ℕ
recheck want clear all w = (
  print_if true (if eg_match w.group.bits want all && clear then consume want true w else w),
  w.group.bits,
)

-- `xEventGroupWaitBits`, started at tick `start`. In an ISR any timeout counts as zero.
unfoldable pub wait_bits :
    Bool → ℕ → ℕ → Bool → Bool → ℕ → ℕ → List (Round World) → World → Outcome World ℕ
wait_bits in_isr p want clear all timeout start rounds w =
    if is_group p w.group
    then wait_loop (try_wait want clear all) unmatched unmatched (recheck want clear all)
        (if in_isr then 0 else timeout) start rounds
        (print_if (leb n 64) (record w { wait_count = n }))
    else returned w 0
  where
    n : ℕ
    n = add32 w.wait_count 1
