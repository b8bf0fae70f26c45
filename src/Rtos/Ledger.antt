-- ===== src/Rtos/Ledger.antt =====
-- The heap blocks and the Linux synchronisation objects that are live, by address. An allocation
-- that fails returns 0, and releasing 0 does nothing.
use esp32s31_linux_function.Base.{ℕ, ◌≡◌, List, [], ◌∷◌, arith, ◌==◌, if◌then◌else◌}

abbrev pub Ledger : Type 0
Ledger = List ℕ

unfoldable pub obtain : ℕ → Ledger → Ledger
obtain a l = if a == 0 then l else a ∷ l

remove : ℕ → Ledger → Ledger
remove a [] = []
remove a (b ∷ l) = if a == b then l else b ∷ remove a l

unfoldable pub release : ℕ → Ledger → Ledger
unfolding remove
release a l = if a == 0 then l else remove a l

-- What was obtained last is released to the ledger before.
pub release-obtain : (a : ℕ) (l : Ledger) → release a (obtain a l) ≡ l
unfolding release obtain
release-obtain a l = ground arith

-- The last two may be released in the order in which they were obtained.
pub release-obtain₂ : (a b : ℕ) (l : Ledger) → release b (release a (obtain b (obtain a l))) ≡ l
unfolding release obtain
release-obtain₂ a b l = ground arith
