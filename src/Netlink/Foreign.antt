-- ===== src/Netlink/Foreign.antt =====
-- What the loops of rootfs/wifi_scan.c make of messages that are not theirs.
use esp32s31_linux_function.Base.{
  ℕ, ◌≡◌, refl, true, false, Option, some, List, [], ◌∷◌, ◌==◌, ◌⊎◌, inl, inr, Bool-cases,
}
use esp32s31_linux_function.Base.Int.{pos, negsuc, neg}
use esp32s31_linux_function.Netlink.Scan.{
  Numbers, Reply, Received, failed, datagram, walk, receive_all, recv_ack, resolve_family,
  dump_scan, ack, resolve, dump,
}

-- The messages with that sequence number, in order.
abbrev pub own : ℕ → List Reply → List Reply
own seq [] = []
own seq (r ∷ rs) = elim (r.seq == seq) [ true ↦ r ∷ own seq rs | false ↦ own seq rs ]

abbrev pub own_only : ℕ → List Received → List Received
own_only seq [] = []
own_only seq (failed errno ∷ rest) = failed errno ∷ own_only seq rest
own_only seq (datagram rs ∷ rest) = datagram (own seq rs) ∷ own_only seq rest

module _ {ℓ} {S R : Type ℓ} (seq : ℕ) (act : Reply → S → S ⊎ R) (fail_with : ℕ → S → R) where
  walk-own :
      (rs : List Reply) (s : S)
      → walk seq act fail_with (own seq rs) s ≡ walk seq act fail_with rs s
  unfolding walk
  walk-own [] s = refl
  walk-own (r ∷ rs) s = elim (Bool-cases (r.seq == seq)) [
    | inr e ↦ rw (e, own, walk) (walk-own rs s)
    | inl e ↦ rw (e, own, walk) (rw (e, walk) (acted rs (walk-own rs) (act r s)))
  ]
    where
      acted :
          (rs : List Reply)
          → ((s : S) → walk seq act fail_with (own seq rs) s ≡ walk seq act fail_with rs s)
          → (x : S ⊎ R)
          → ◌≡◌ {A = S ⊎ R}
              (elim x [ inl s' ↦ walk seq act fail_with (own seq rs) s' | inr y ↦ inr y ])
              (elim x [ inl s' ↦ walk seq act fail_with rs s' | inr y ↦ inr y ])
      acted rs same (inl s') = same s'
      acted rs same (inr y) = refl

  receive_all-own_only :
      (arrivals : List Received) (s : S)
      → receive_all seq act fail_with (own_only seq arrivals) s
        ≡ receive_all seq act fail_with arrivals s
  unfolding receive_all
  receive_all-own_only [] s = refl
  receive_all-own_only (failed errno ∷ rest) s = refl
  receive_all-own_only (datagram rs ∷ rest) s =
      rw (walk-own rs s, receive_all)
        (walked (receive_all-own_only rest) (walk seq act fail_with rs s))
    where
      walked :
          ((s : S)
            → receive_all seq act fail_with (own_only seq rest) s
              ≡ receive_all seq act fail_with rest s)
          → (x : S ⊎ R)
          → ◌≡◌ {A = Option R}
              (elim x [
                | inl s' ↦ receive_all seq act fail_with (own_only seq rest) s'
                | inr y ↦ some y
              ])
              (elim x [ inl s' ↦ receive_all seq act fail_with rest s' | inr y ↦ some y ])
      walked same (inl s') = same s'
      walked same (inr y) = refl

-- None of the three loops is influenced by messages with another sequence number, wherever they stand
-- between its own: without them it gives the same value and prints the same, or still waits as well.
pub loops-own_only :
    (k : Numbers) (seq : ℕ) (arrivals : List Received)
    → (recv_ack seq (own_only seq arrivals) ≡ recv_ack seq arrivals)
      × (resolve_family k seq (own_only seq arrivals) ≡ resolve_family k seq arrivals)
      × (dump_scan k seq (own_only seq arrivals) ≡ dump_scan k seq arrivals)
unfolding recv_ack resolve_family dump_scan
loops-own_only k seq arrivals = (
  receive_all-own_only seq ack (λ errno s. neg (pos errno)) arrivals true,
  receive_all-own_only seq (resolve k) (λ errno s. negsuc 0) arrivals true,
  receive_all-own_only seq (dump k) (λ errno s. (negsuc 0, s)) arrivals
      (record { count = 0; lines = [] }),
)
