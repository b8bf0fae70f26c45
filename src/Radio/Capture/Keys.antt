-- ===== src/Radio/Capture/Keys.antt =====
-- The diagnostics of radio_firmware/radio_stack.c: samples of the keys that the driver installs, and counters
-- of the link layer.
use esp32s31_linux_function.Base.{
  ℕ, zero, suc, ◌+◌, ◌*◌, ◌%◌, Bool, true, false, not, ◌||◌, leb, ◌==◌, if◌then◌else◌, add32,
  bit_xor, u32_mod,
}
use esp32s31_linux_function.Base.Int.{ℤ, pos, negsuc, is_zero}
use esp32s31_linux_function.Copy.{Memory}
use esp32s31_linux_function.Radio.Config.{copied}
use esp32s31_linux_function.Radio.Capture.{put_at, is_hpsram}

-- `struct s31_key_sample`
pub record KeySample : Type 0 where
  pub slot : ℕ
  pub key_len : ℕ
  pub key_hash : ℕ
  pub key_info : Memory

pub record KeyCapture : Type 0 where
  pub samples : ℕ → KeySample
  pub sample_count : ℕ
  pub enabled : Bool

pub record LmacCounts : Type 0 where
  pub txerr : ℕ
  pub txerr_seckid : ℕ
  pub txdone : ℕ
  pub txdone_bad : ℕ

-- The loop of `s31_fnv1a` from `hash`, over `len` bytes.
unfoldable pub fnv1a_loop : Memory → ℕ → ℕ → ℕ → ℕ
fnv1a_loop m start zero hash = hash
fnv1a_loop m start (suc len) hash =
    fnv1a_loop m (start + 1) len (bit_xor hash (m start) * 16777619 % u32_mod)

-- `s31_fnv1a`
abbrev pub fnv1a : Memory → ℕ → ℕ → ℕ
fnv1a m start len = fnv1a_loop m start len 2166136261

-- `__wrap_hal_crypto_set_key_entry`; a length is not negative, for the driver's function has used it.
unfoldable pub wrap_set_key_entry :
    (ℕ → ℕ → ℕ → ℕ → Memory → Memory) → ℕ → ℕ → ℕ → ℕ → Memory → KeyCapture → Memory × KeyCapture
unfolding fnv1a_loop
wrap_set_key_entry real key_idx key key_len info m0 c =
    let m = real key_idx key key_len info m0 in
    if not c.enabled || (not (is_hpsram info 12) || leb 16 c.sample_count) then (m, c) else (
      m,
      record c {
        sample_count = c.sample_count + 1;
        samples =
            put_at c.sample_count
              (record {
                slot = key_idx;
                key_len = key_len;
                key_hash = fnv1a m key key_len;
                key_info = copied (λ i. m (info + i)) 12;
              })
              c.samples;
      },
    )

-- STA_START begins the capture of keys anew.
abbrev pub fresh_keys : KeyCapture → KeyCapture
fresh_keys c = record c { sample_count = 0; enabled = true }

-- `status == n`
abbrev pub is_status : ℕ → ℤ → Bool
is_status n (pos a) = a == n
is_status n (negsuc a) = false

-- `__wrap_lmacProcessTxError`, with whether it prints a line; the driver's function follows.
unfoldable pub wrap_process_tx_error : ℤ → LmacCounts → LmacCounts × Bool
wrap_process_tx_error status c = (
  record c {
    txerr = add32 c.txerr 1;
    txerr_seckid = if is_status 192 status then add32 c.txerr_seckid 1 else c.txerr_seckid;
  },
  leb (add32 c.txerr 1) 32
      || (is_status 192 status
          || (is_status 0 status || (is_status 1 status || is_status 2 status))),
)

-- `__wrap_lmacTxDone`; the driver's function follows.
unfoldable pub wrap_tx_done : ℤ → LmacCounts → LmacCounts
wrap_tx_done status c = record c {
  txdone = add32 c.txdone 1;
  txdone_bad = if is_zero status then c.txdone_bad else add32 c.txdone_bad 1;
}

abbrev pub no_counts : LmacCounts
no_counts = record { txerr = 0; txerr_seckid = 0; txdone = 0; txdone_bad = 0 }

abbrev pub no_keys : KeyCapture
no_keys = record {
  samples = λ i. record { slot = 0; key_len = 0; key_hash = 0; key_info = λ j. 0 };
  sample_count = 0;
  enabled = false;
}
