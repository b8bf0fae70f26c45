-- ===== src/Radio/Station/Failed.antt =====
-- A start that the driver refuses.
use esp32s31_linux_function.Base.{
  sym, subst, ◌≡◌, refl, ap, ◌∙◌, true, false, ◌∷◌, ◌⊎◌, inl, inr, zero, suc, arith,
}
use esp32s31_linux_function.Base.Int.{ℤ, pos, negsuc, neg, is_zero, is_negative}
use esp32s31_linux_function.Radio.Driver.{start, called, Driver}
use esp32s31_linux_function.Radio.Station.Submit.{start_operation-cases, true≢false}
use esp32s31_linux_function.Radio.Station.{
  Station, Pending, no_operation, is_pending, begin, submit, after_start, report, run,
}

-- What the task does with the value that a refused start gives it.
refused :
    (d : Driver) (op : Pending) (v : Station) (rc : ℤ)
    → is_zero rc ≡ false
    → ((is_negative rc ≡ false) × (begin d op (v, neg rc) ≡ report op rc v))
      ⊎ ((is_negative rc ≡ true) × (begin d op (v, neg rc) ≡ run d op v))
unfolding begin
refused d op v (pos zero) e = absurd (ground arith)
refused d op v (pos (suc n)) e = inl (refl, refl)
refused d op v (negsuc n) e = inr (refl, refl)

refused_value :
    (rc : ℤ) (v : Station)
    → is_zero rc ≡ false
    → after_start rc v ≡ (record v { pending = no_operation }, neg rc)
unfolding after_start
refused_value rc v z = rw z refl

-- A task that is the first to start the driver and finds its start failing reports the failure to Linux
-- and leaves nothing pending if the driver's error is positive; if the error is negative, as ESP_FAIL
-- is, it begins the operation instead although the driver has not started.
pub failed_start_lem :
    (d : Driver) (during : Station → Station) (op : Pending) (w : Station)
    → w.start_complete ≡ false
    → w.pending ≡ no_operation
    → w.start_requested ≡ false
    → is_zero (d w.log start) ≡ false
    → let rc = d w.log start in
      let v = during (record w { pending = op; log = called start rc ∷ w.log }) in
      ((is_negative rc ≡ false)
        × (submit d during op (w, pos 0) ≡ report op rc (record v { pending = no_operation })))
      ⊎ ((is_negative rc ≡ true)
          × (submit d during op (w, pos 0) ≡ run d op (record v { pending = no_operation })))
unfolding submit after_start
failed_start_lem d during op w c p r z = elim (start_operation-cases d during op w) [
  | inl (c', e) ↦ absurd (true≢false (sym c' ∙ c))
  | inr (inl (p', e)) ↦ absurd (true≢false (sym p' ∙ ap is_pending p))
  | inr (inr (_, _, inl (r', e))) ↦ absurd (true≢false (sym r' ∙ r))
  | inr (inr (_, _, inr e)) ↦
      subst To (sym (e ∙ refused_value (d w.log start) v z))
        (refused d op (record v { pending = no_operation }) (d w.log start) z)
]
  where
    v : Station
    v = during (record w { pending = op; log = called start (d w.log start) ∷ w.log })

    To : Station × ℤ → Type 0
    To x =
        ((is_negative (d w.log start) ≡ false)
          × (begin d op x ≡ report op (d w.log start) (record v { pending = no_operation })))
        ⊎ ((is_negative (d w.log start) ≡ true)
            × (begin d op x ≡ run d op (record v { pending = no_operation })))
