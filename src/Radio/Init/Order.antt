-- ===== src/Radio/Init/Order.antt =====
-- What the bring-up reports, and in which order it goes.
use esp32s31_linux_function.Base.{
  ℕ, ◌+◌, ◌≡◌, refl, sym, ap, ◌∙◌, subst, Bool, true, false, ◌&&◌, if◌then◌else◌, List, [], ◌∷◌,
  length, arith, ◌⊎◌, inl, inr, Bool-cases,
}
use esp32s31_linux_function.Base.Int.{ℤ, is_zero}
use esp32s31_linux_function.Radio.Init.{
  InitCall, psa_crypto_init, coex_adapter_register, coex_pre_init, event_loop_create, wifi_init,
  handler_register, bt_controller_init, bt_controller_enable, bt_controller_disable,
  vhci_register_callback, pmu_init, called, wifi_reported, bt_reported, History, Vendor, call,
  and_then, fail_early, init_bt, init_wifi, init_coex, init_radio, stack_task, wifi_cfg,
  report_wifi, drop_log_level, replace_adapters, set_lpclk,
}

abbrev pub is_bt : InitCall → Bool
is_bt bt_controller_init = true
is_bt bt_controller_enable = true
is_bt bt_controller_disable = true
is_bt vhci_register_callback = true
is_bt c = false

-- The return codes of the calls for Wi-Fi and for Bluetooth, the newest first.
abbrev pub wifi_codes : History → List ℤ
wifi_codes [] = []
wifi_codes (called c rc ∷ t) = if is_bt c then wifi_codes t else rc ∷ wifi_codes t
wifi_codes (a ∷ t) = wifi_codes t

abbrev pub bt_codes : History → List ℤ
bt_codes [] = []
bt_codes (called c rc ∷ t) = if is_bt c then rc ∷ bt_codes t else bt_codes t
bt_codes (a ∷ t) = bt_codes t

-- The reports to Linux, the newest first.
abbrev pub wifi_reports : History → List ℤ
wifi_reports [] = []
wifi_reports (wifi_reported rc ∷ t) = rc ∷ wifi_reports t
wifi_reports (a ∷ t) = wifi_reports t

abbrev pub bt_reports : History → List ℤ
bt_reports [] = []
bt_reports (bt_reported rc ∷ t) = rc ∷ bt_reports t
bt_reports (a ∷ t) = bt_reports t

abbrev pub all_zero : List ℤ → Bool
all_zero [] = true
all_zero (rc ∷ rcs) = is_zero rc && all_zero rcs

-- `n` calls for Wi-Fi have succeeded, and nothing else has been called or reported.
abbrev Progress : ℕ → History → Type 0
Progress n t =
    (all_zero (wifi_codes t) ≡ true)
    × (length (wifi_codes t) ≡ n)
    × (wifi_reports t ≡ [])
    × (bt_codes t ≡ [])
    × (bt_reports t ≡ [])

-- Wi-Fi's last code is reported, after zeros only; Bluetooth follows where all six are zeros.
abbrev pub IsBroughtUp : History → Type 0
IsBroughtUp t =
    (rc : ℤ) × (earlier : List ℤ) × (wifi_codes t ≡ rc ∷ earlier)
    × (all_zero earlier ≡ true)
    × (wifi_reports t ≡ rc ∷ [])
    × (((is_zero rc ≡ true)
          × (length earlier ≡ 5)
          × ((bt : ℤ) × (bt_codes t ≡ bt ∷ []) × (bt_reports t ≡ bt ∷ [])))
        ⊎ ((is_zero rc ≡ false) × (bt_codes t ≡ []) × (bt_reports t ≡ [])))

next :
    (c : InitCall) (rc : ℤ) (n : ℕ) (t : History)
    → is_bt c ≡ false
    → is_zero rc ≡ true
    → Progress n t
    → Progress (n + 1) (called c rc ∷ t)
next c rc n t b z (a, l, w, k, r) = rw (b, z) (a, omega arith, w, k, r)

failed :
    (c : InitCall) (rc : ℤ) (n : ℕ) (t : History)
    → is_bt c ≡ false
    → is_zero rc ≡ false
    → Progress n t
    → IsBroughtUp (fail_early (called c rc ∷ t, rc))
failed c rc n t b z (a, l, w, k, r) =
    (rc, wifi_codes t, rw b refl, a, ap (λ x. rc ∷ x) w, inr (z, rw b k, r))

init_bt_lem :
    (v : Vendor) (c : InitCall) (rc : ℤ) (n : ℕ) (t : History)
    → is_bt c ≡ false
    → Progress n t
    → (is_zero rc ≡ false) ⊎ (n ≡ 5)
    → IsBroughtUp (init_bt v (wifi_reported rc ∷ (called c rc ∷ t), rc))
unfolding init_bt
init_bt_lem v c rc n t b (a, l, w, k, r) h = elim (Bool-cases (is_zero rc)) [
  | inr z ↦ rw z (rc, wifi_codes t, rw b refl, a, ap (λ x. rc ∷ x) w, inr (z, rw b k, r))
  | inl z ↦ elim h [
    | inl z' ↦ absurd (ground arith)
    | inr e ↦
        let code = v (set_lpclk ∷ (wifi_reported rc ∷ (called c rc ∷ t))) bt_controller_init in
        rw z (
          rc,
          wifi_codes t,
          rw b refl,
          a,
          ap (λ x. rc ∷ x) w,
          inl (z, l ∙ e, (code, rw b (ap (λ x. code ∷ x) k), ap (λ x. code ∷ x) r)),
        )
  ]
]

-- A test whether a call succeeded, with what depends on it.
chosen :
    (rc : ℤ) (a b : History)
    → (is_zero rc ≡ true → IsBroughtUp a)
    → (is_zero rc ≡ false → IsBroughtUp b)
    → IsBroughtUp (if is_zero rc then a else b)
chosen rc a b f g = elim (Bool-cases (is_zero rc)) [
  | inl z ↦ subst (λ x. IsBroughtUp (if x then a else b)) (sym z) (f z)
  | inr z ↦ subst (λ x. IsBroughtUp (if x then a else b)) (sym z) (g z)
]

chosen_call :
    (v : Vendor) (c : InitCall) (t : History) (rc : ℤ)
    → (is_zero rc ≡ true → IsBroughtUp (init_bt v (report_wifi (call v c t))))
    → (is_zero rc ≡ false → IsBroughtUp (init_bt v (report_wifi (t, rc))))
    → IsBroughtUp (init_bt v (report_wifi (and_then v c (t, rc))))
chosen_call v c t rc f g = elim (Bool-cases (is_zero rc)) [
  | inl z ↦
      subst (λ x. IsBroughtUp (init_bt v (report_wifi (if x then call v c t else (t, rc))))) (sym z)
        (f z)
  | inr z ↦
      subst (λ x. IsBroughtUp (init_bt v (report_wifi (if x then call v c t else (t, rc))))) (sym z)
        (g z)
]

wifi_lem :
    (v : Vendor) (t : History)
    → Progress 3 t
    → IsBroughtUp (
        init_bt v (
          report_wifi (
            and_then v handler_register
              (and_then v (wifi_init wifi_cfg) (call v event_loop_create t)))))
wifi_lem v t p = elim (Bool-cases (is_zero rc1)) [
  | inl z ↦
      let p' = next event_loop_create rc1 3 t refl z p in
      subst (λ x. IsBroughtUp (init_bt v (report_wifi (and_then v handler_register x))))
        (sym (made rc1 t1 z))
        (chosen_call v handler_register t2 rc2
          (λ z'.
            init_bt_lem v handler_register (v t2 handler_register) 5 t2 refl
              (next (wifi_init wifi_cfg) rc2 4 t1 refl z' p') (inr refl))
          (λ z'. init_bt_lem v (wifi_init wifi_cfg) rc2 4 t1 refl p' (inl z')))
  | inr z ↦
      subst (λ x. IsBroughtUp (init_bt v (report_wifi (and_then v handler_register x))))
        (sym (skipped rc1 t1 z))
        (chosen_call v handler_register t1 rc1 (λ z'. absurd (ground arith))
          (λ z'. init_bt_lem v event_loop_create rc1 3 t refl p (inl z)))
]
  where
    rc1 : ℤ
    rc1 = v t event_loop_create

    t1 : History
    t1 = called event_loop_create rc1 ∷ t

    rc2 : ℤ
    rc2 = v t1 (wifi_init wifi_cfg)

    t2 : History
    t2 = called (wifi_init wifi_cfg) rc2 ∷ t1

    made :
        (rc : ℤ) (t : History)
        → is_zero rc ≡ true
        → and_then v (wifi_init wifi_cfg) (t, rc) ≡ call v (wifi_init wifi_cfg) t
    made rc t z = rw z refl

    skipped :
        (rc : ℤ) (t : History)
        → is_zero rc ≡ false
        → and_then v (wifi_init wifi_cfg) (t, rc) ≡ (t, rc)
    skipped rc t z = rw z refl

-- The bring-up reports Wi-Fi to Linux exactly once, with the code of the last of its calls for Wi-Fi; all
-- the calls before have succeeded. If that code is zero then all six have been made, and Bluetooth is
-- initialised and reported once, with its code; otherwise it is neither initialised nor reported.
pub stack_task-IsBroughtUp : (v : Vendor) → IsBroughtUp (stack_task v [])
unfolding stack_task init_radio init_coex init_wifi
stack_task-IsBroughtUp v =
    let t1 = drop_log_level ∷ (pmu_init ∷ []) in
    let p1 : Progress 0 t1 = (refl, refl, refl, refl, refl) in
    let rc1 = v t1 psa_crypto_init in
    chosen rc1 _ _
      (λ z1.
        let t2 = replace_adapters ∷ (called psa_crypto_init rc1 ∷ t1) in
        let p2 : Progress 1 t2 = next psa_crypto_init rc1 0 t1 refl z1 p1 in
        let rc2 = v t2 coex_adapter_register in
        chosen rc2 _ _
          (λ z2.
            let t3 = called coex_adapter_register rc2 ∷ t2 in
            let p3 = next coex_adapter_register rc2 1 t2 refl z2 p2 in
            let rc3 = v t3 coex_pre_init in
            chosen rc3 _ _
              (λ z3.
                wifi_lem v (called coex_pre_init rc3 ∷ t3) (next coex_pre_init rc3 2 t3 refl z3 p3))
              (λ z3. failed coex_pre_init rc3 2 t3 refl z3 p3))
          (λ z2. failed coex_adapter_register rc2 1 t2 refl z2 p2))
      (λ z1. failed psa_crypto_init rc1 0 t1 refl z1 p1)
