-- ===== src/Radio/Capture.antt =====
-- The diagnostics of radio_firmware/radio_stack.c: samples of the frames that the driver transmits. The driver's own functions, which the
-- linker renames to `__real_...`, are arguments.
pub mod Samples
pub mod Window
pub mod Keys
use esp32s31_linux_function.Base.{
  ℕ, zero, suc, ◌+◌, ◌*◌, ◌%◌, ◌^◌, bit_and, Bool, true, false, not, ◌&&◌, ◌||◌, leb, ltb, ◌==◌,
  if◌then◌else◌, add32, bit_xor, u32_mod,
}
use esp32s31_linux_function.Base.Int.{ℤ, pos, negsuc, is_zero}
use esp32s31_linux_function.Copy.{Memory}
use esp32s31_linux_function.Netlink.{u16_at}
use esp32s31_linux_function.Radio.Config.{copied}

-- `struct s31_tx_desc_sample`
pub record Sample : Type 0 where
  pub eb : ℕ
  pub frame : ℕ
  pub flags : ℕ
  pub control : ℕ
  pub length : ℕ
  pub tid : ℕ
  pub desc : Memory
  pub header : Memory

-- The samples of transmitted frames, with what came of the calls.
pub record TxCapture : Type 0 where
  pub samples : ℕ → Sample
  pub sample_count : ℕ
  pub samples_dumped : Bool
  pub call_count : ℕ
  pub bad_eb_count : ℕ
  pub bad_desc_count : ℕ
  pub bad_frame_count : ℕ
  pub nondata_count : ℕ
  pub enabled : Bool
  pub ipv4_submit_count : ℕ

-- `array[i] = a`
abbrev pub put_at {ℓ} : {A : Type ℓ} → ℕ → A → (ℕ → A) → ℕ → A
put_at i a f x = if x == i then a else f x

-- `s31_radio_ptr_is_hpsram`, for a `length` of 32 bits
unfoldable pub is_hpsram : ℕ → ℕ → Bool
is_hpsram start length =
    leb 0x2f000000 start && leb start (add32 start length) && leb (add32 start length) 0x2f800000

-- A `uint32_t` or a pointer, in the byte order of the machine.
abbrev pub u32_at : Memory → ℕ → ℕ
u32_at m p = u16_at m p + u16_at m (p + 2) * 2 ^ 16

-- What the checks of a call find; a frame to sample comes with its descriptor and the frame itself.
pub data Look : Type 0 where
  bad_eb bad_desc bad_frame nondata : Look
  protected_data : ℕ → ℕ → Look

-- A protected data frame, by its frame control field.
abbrev pub is_protected_data : Memory → ℕ → Bool
is_protected_data m frame =
    bit_and (m frame) 0x0c == 0x08 && not (bit_and (m (frame + 1)) 0x40 == 0)

-- The pointer to the frame that the buffer of `eb` holds, or NULL.
abbrev pub frame_of : Memory → ℕ → ℕ
frame_of m eb = if is_hpsram (u32_at m (eb + 4)) 8 then u32_at m (u32_at m (eb + 4) + 4) else 0

-- The checks that both wrappers make.
unfoldable pub look : Bool → Memory → ℕ → Look
look enabled m eb =
    if not (is_hpsram eb 56)
    then bad_eb
    else if not (is_hpsram (u32_at m (eb + 52)) 72)
    then bad_desc
    else if not (is_hpsram (frame_of m eb) 56)
    then bad_frame
    else if not enabled || not (is_protected_data m (frame_of m eb + 8))
    then nondata
    else protected_data (u32_at m (eb + 52)) (frame_of m eb + 8)

-- The sample that a call takes, with the words that the two wrappers fill differently.
abbrev pub sample_of : Memory → ℕ → ℕ → ℕ → ℕ → ℕ → ℕ → Sample
sample_of m eb desc frame flags control tid = record {
  eb = eb;
  frame = frame;
  flags = flags;
  control = control;
  length = u16_at m (eb + 22);
  tid = tid % 2 ^ 8;
  desc = copied (λ i. m (desc + i)) 72;
  header = copied (λ i. m (frame + i)) 48;
}

-- What a call leaves, by what its checks found.
unfoldable pub record_look : Look → Memory → ℕ → ℕ → ℕ → ℕ → TxCapture → TxCapture
record_look bad_eb m eb flags control tid c = record c { bad_eb_count = add32 c.bad_eb_count 1 }
record_look bad_desc m eb flags control tid c = record c {
  bad_desc_count = add32 c.bad_desc_count 1;
}
record_look bad_frame m eb flags control tid c = record c {
  bad_frame_count = add32 c.bad_frame_count 1;
}
record_look nondata m eb flags control tid c = record c { nondata_count = add32 c.nondata_count 1 }
record_look (protected_data desc frame) m eb flags control tid c =
    if leb 24 c.sample_count then c else record c {
      sample_count = c.sample_count + 1;
      samples = put_at c.sample_count (sample_of m eb desc frame flags control tid) c.samples;
    }

-- What both wrappers do besides the driver's function.
unfoldable pub observe : Memory → ℕ → ℕ → ℕ → ℕ → TxCapture → TxCapture
unfolding look record_look
observe m eb flags control tid c =
    record_look (look c.enabled m eb) m eb flags control tid
      (record c { call_count = add32 c.call_count 1 })

-- `__wrap_ieee80211_set_tx_desc`: the driver's function first, which writes to the memory.
unfoldable pub wrap_set_tx_desc :
    (ℕ → ℕ → ℕ → ℕ → ℕ → Memory → Memory)
    → ℕ
    → ℕ
    → ℕ
    → ℕ
    → ℕ
    → Memory
    → TxCapture
    → Memory × TxCapture
unfolding observe
wrap_set_tx_desc real ic eb tid flags control m c = (
  real ic eb tid flags control m,
  observe (real ic eb tid flags control m) eb flags control tid c,
)

-- `__wrap_lmacTxFrame`: the driver's function last, on every path.
unfoldable pub wrap_lmac_tx_frame :
    (ℕ → ℕ → Memory → Memory × ℤ) → ℕ → ℕ → Memory → TxCapture → (Memory × ℤ) × TxCapture
unfolding observe
wrap_lmac_tx_frame real eb queue m c = (real eb queue m, observe m eb 0x4c4d4143 queue queue c)

-- An IPv4 frame has been submitted.
abbrev pub count_ipv4 : TxCapture → TxCapture
count_ipv4 c = record c { ipv4_submit_count = add32 c.ipv4_submit_count 1 }

-- STA_CONNECTED starts a fresh window.
unfoldable pub fresh_window : TxCapture → TxCapture
fresh_window c = record {
  samples = c.samples;
  sample_count = 0;
  samples_dumped = false;
  call_count = 0;
  bad_eb_count = 0;
  bad_desc_count = 0;
  bad_frame_count = 0;
  nondata_count = 0;
  ipv4_submit_count = 0;
  enabled = true;
}

-- The static variables before anything happens.
abbrev pub no_samples : TxCapture
no_samples = record {
  samples = λ i. record {
    eb = 0;
    frame = 0;
    flags = 0;
    control = 0;
    length = 0;
    tid = 0;
    desc = λ j. 0;
    header = λ j. 0;
  };
  sample_count = 0;
  samples_dumped = false;
  call_count = 0;
  bad_eb_count = 0;
  bad_desc_count = 0;
  bad_frame_count = 0;
  nondata_count = 0;
  enabled = false;
  ipv4_submit_count = 0;
}
