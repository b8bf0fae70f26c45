-- ===== src/Radio/Station/Scans.antt =====
-- The results of a scan as Linux gets them.
use esp32s31_linux_function.Base.{
  ℕ, zero, suc, ◌-◌, ◌≤◌, ◌≡◌, refl, ap, ◌∙◌, true, false, ◌&&◌, List, [], ◌∷◌, ◌++◌, ◌==◌,
  replicate, length, length-append, length-replicate, arith, ◌⊎◌, inl, inr, Bool-cases,
}
use esp32s31_linux_function.Base.Int.{ℤ, pos, negsuc, is_zero}
use esp32s31_linux_function.Text.{Text, take, until}
use esp32s31_linux_function.Radio.Driver.{Ap, scan_complete}
use esp32s31_linux_function.Radio.Station.{Station, note}
use esp32s31_linux_function.Radio.Station.Events.{
  ApRecord, strnlen, ap_of, aps_of, ScanAnswer, finish_scan,
}

-- The text of an SSID, up to a NUL and 32 bytes at most.
abbrev pub ssid_text : ApRecord → Text
ssid_text r = until (λ c. c == 0) (take 32 r.ssid)

abbrev pub padding : ℕ → Text
padding n = replicate n 0

-- An access point in Linux's form: its name of at most 32 bytes, filled up with zeros.
abbrev pub IsAp : ApRecord → Ap → Type 0
IsAp r a =
    (a.ssid_length ≤ 32)
    × (length (ssid_text r) ≡ a.ssid_length)
    × (a.ssid ≡ ssid_text r ++ padding (32 - a.ssid_length))
    × (length a.ssid ≡ 32)
    × (a.bssid ≡ r.bssid)
    × (a.channel ≡ r.primary)
    × (a.signal ≡ r.rssi)
    × (a.authmode ≡ r.authmode)

abbrev pub AreAps : List ApRecord → List Ap → Type 0
AreAps [] [] = Unit
AreAps [] (a ∷ aps) = ⊥
AreAps (r ∷ rs) [] = ⊥
AreAps (r ∷ rs) (a ∷ aps) = IsAp r a × AreAps rs aps

strnlen_lem :
    (s : Text) (n : ℕ)
    → (strnlen s n ≤ n)
      × (length (until (λ c. c == 0) (take n s)) ≡ strnlen s n)
      × (take (strnlen s n) s ≡ until (λ c. c == 0) (take n s))
unfolding strnlen until take
strnlen_lem s zero = (omega arith, refl, refl)
strnlen_lem [] (suc n) = (omega arith, refl, refl)
strnlen_lem (c ∷ s) (suc n) = elim (Bool-cases (c == 0)) [
  | inl e ↦ rw e (omega arith, refl, refl)
  | inr e ↦ let (a, b, k) = strnlen_lem s n in rw e (omega arith, ap suc b, ap (λ t. c ∷ t) k)
]

ap_of-IsAp : (r : ApRecord) → IsAp r (ap_of r)
unfolding ap_of
ap_of-IsAp r =
    let (small, long, same) = strnlen_lem r.ssid 32 in
    let n = strnlen r.ssid 32 in
    let zeros : length (padding (32 - n)) ≡ 32 - n = length-replicate (32 - n) 0 in
    let taken = ap length same in
    let whole : length (take n r.ssid ++ padding (32 - n)) ≡ 32 =
      length-append (take n r.ssid) (padding (32 - n)) ∙ omega arith in
    (small, long, ap (λ t. t ++ padding (32 - n)) same, whole, refl, refl, refl, refl)

aps_of-AreAps : (rs : List ApRecord) → AreAps rs (aps_of rs)
unfolding aps_of
aps_of-AreAps [] = tt
aps_of-AreAps (r ∷ rs) = (ap_of-IsAp r, aps_of-AreAps rs)

freed : {w : Station} {m n : ℕ} → m ≡ n → ◌≡◌ {A = Station × ℕ} (w, m) (w, n)
freed {w} e = ap (λ n. (w, n)) e

-- After SCAN_DONE Linux gets one report and both buffers are free again, whatever fails. The report is of
-- all the driver's records in Linux's form if both buffers were given and the driver handed the records
-- over, and of no access point with an error otherwise.
pub finish_scan_lem :
    (a : ScanAnswer) (w : Station) (live : ℕ)
    → (aps : List Ap) × (rc : ℤ) × (finish_scan a w live ≡ (note (scan_complete aps rc) w, live))
      × (((a.got_records && a.got_aps && is_zero a.rc ≡ true) × (rc ≡ pos 0) × AreAps a.records aps)
          ⊎ ((a.got_records && a.got_aps && is_zero a.rc ≡ false)
              × (is_zero rc ≡ false)
              × (aps ≡ [])))
unfolding finish_scan
finish_scan_lem a w live = elim (Bool-cases a.got_records) [
  | inr g ↦ elim (Bool-cases a.got_aps) [
    | inr h ↦ ([], negsuc 0, rw (g, h) (freed (omega arith)), inr (rw g refl, refl, refl))
    | inl h ↦ ([], negsuc 0, rw (g, h) (freed (omega arith)), inr (rw g refl, refl, refl))
  ]
  | inl g ↦ elim (Bool-cases a.got_aps) [
    | inr h ↦ ([], negsuc 0, rw (g, h) (freed (omega arith)), inr (rw (g, h) refl, refl, refl))
    | inl h ↦ elim (Bool-cases (is_zero a.rc)) [
      | inl z ↦ (
        aps_of a.records,
        pos 0,
        rw (g, h, z) (freed (omega arith)),
        inl (rw (g, h, z) refl, refl, aps_of-AreAps a.records),
      )
      | inr z ↦ ([], a.rc, rw (g, h, z) (freed (omega arith)), inr (rw (g, h, z) refl, z, refl))
    ]
  ]
]
