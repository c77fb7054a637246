-- ===== src/Queue/Countdown/Order.antt =====
-- Countdowns grow evenly within a throttle, and the queue and the phase of a device agree.
use new_backup_center.Base.{
  ℕ, suc, ◌+◌, ◌*◌, ◌/◌, ◌≡◌, refl, ◌⊎◌, inl, inr, Bool, Option, none, some, String, List, [], ◌∷◌,
  str_eq, eq_iff, select, or_else, ltb, if◌then◌else◌, arith,
}
use new_backup_center.Base.Dict.{Dict, get, put, get-put}
use new_backup_center.Connection.{Device}
use new_backup_center.Queue.Countdown.{auto_resolve_enqueue_throttle, auto_countdowns, throttle}

-- The devices of one throttle with their countdowns, the first of them at place `slot`: a jump host
-- takes one in 8 seconds, the rest go 25 a second.
unfoldable pub spread : ℕ → List Device → List (Device × ℕ)
spread slot [] = []
spread slot (device ∷ devices) =
    (device, if ltb 0 (auto_resolve_enqueue_throttle device).1 then slot * 8 else slot / 25)
    ∷ spread (suc slot) devices

abbrev pub throttled : String → Device → Bool
throttled k device = str_eq (auto_resolve_enqueue_throttle device).0 k

throttle-step : (o : Option String) → ((throttle o).1 ≡ 8) ⊎ ((throttle o).1 ≡ 0)
unfolding throttle
throttle-step none = inr refl
throttle-step (some key) = inl refl

enqueue_throttle-step :
    (device : Device)
    → ((auto_resolve_enqueue_throttle device).1 ≡ 8)
      ⊎ ((auto_resolve_enqueue_throttle device).1 ≡ 0)
unfolding auto_resolve_enqueue_throttle
enqueue_throttle-step device = throttle-step _

-- In a run over the devices the ones that share a throttle keep their order and get the places that
-- follow the counter: behind a jump host one starts every 8 seconds, the direct ones start 25 a second.
countdowns_exact :
    (devices : List Device) (counters : Dict ℕ) (k : String)
    → select (λ e. throttled k e.0) (auto_countdowns devices counters)
      ≡ spread (or_else (get k counters) 0) (select (throttled k) devices)
unfolding select spread auto_countdowns
countdowns_exact [] c k = refl
countdowns_exact (d ∷ devices) c k =
    let key = (auto_resolve_enqueue_throttle d).0 in
    let slot = or_else (get key c) 0 in
    ground (
      arith,
      enqueue_throttle-step d,
      eq_iff key k,
      get-put key k (slot + 1) c,
      countdowns_exact devices (put key (slot + 1) c) k,
    )
