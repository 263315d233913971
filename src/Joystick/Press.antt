-- ===== src/Joystick/Press.antt =====
-- What a press and a release of a button amount to.
use sws.Base.{
  ℕ, ◌+◌, ◌%◌, ◌^◌, ◌<◌, ◌≤◌, ◌≡◌, ◌⊎◌, inl, inr, dec_lt, true, false, none, length, get_or, set,
  get_or-set_self, arith, ℤ,
}
use sws.Base.Texts.{ℤ}
use sws.Joystick.{JsValue, Monitor, Settings, goes_on, monitor, fire, elapsed, press, release}

abbrev pub IsMonitor : Monitor → Type 0
IsMonitor m = (length m.p ≡ 24) × (length m.time_pressed ≡ 24)

abbrev pub down : ℕ → ℕ → JsValue
down button time = record { time = time; value = ℤ.pos 1; type = 1; button = button }

abbrev pub up : ℕ → ℕ → JsValue
up button time = record { time = time; value = ℤ.pos 0; type = 1; button = button }

abbrev pub pressed_at : Monitor → ℕ → ℕ → Monitor
pressed_at m b t = record m { p = set m.p b true; time_pressed = set m.time_pressed b t }

abbrev pub released : Monitor → ℕ → Monitor
released m b = record m { p = set m.p b false }

elapsed-add : (t d : ℕ) → t < 2 ^ 32 → d < 2 ^ 32 → elapsed ((t + d) % 2 ^ 32) t ≡ d
elapsed-add t d ht hd = omega arith

monitor-down :
    (s : Settings) (m : Monitor) (b t : ℕ)
    → b < 24
    → monitor s m (down b t) ≡ goes_on (pressed_at m b t) none
unfolding monitor press
monitor-down s m b t h = ground arith

module _ (s : Settings) (m : Monitor) (b t d : ℕ) (hb : b < 24) (hm : IsMonitor m) (ht : t < 2 ^ 32)
    (hd : d < 2 ^ 32) where
  abbrev m' : Monitor
  m' = pressed_at m b t

  was_pressed : get_or (set m.p b true) b false ≡ true
  was_pressed = get_or-set_self m.p b true false (omega arith)

  pressed_since : elapsed ((t + d) % 2 ^ 32) (get_or (set m.time_pressed b t) b 0) ≡ d
  pressed_since = rw (get_or-set_self m.time_pressed b t 0 (omega arith)) (elapsed-add t d ht hd)

  abbrev event : JsValue
  event = up b ((t + d) % 2 ^ 32)

  -- A button that is pressed, and released `d` milliseconds later, also where the clock wraps in
  -- between: up to 100 nothing is signalled, up to 2000 the action of the button, up to 10000 that of
  -- the button plus 100, and nothing beyond. The button is then no longer pressed.
  pub monitor-press_release :
      (monitor s m (down b t) ≡ goes_on m' none)
      × (((d ≤ 100) × (monitor s m' event ≡ goes_on (released m' b) none))
          ⊎ ((100 < d) × (d ≤ 2000) × (monitor s m' event ≡ fire s (released m' b) b))
          ⊎ ((2000 < d) × (d ≤ 10000) × (monitor s m' event ≡ fire s (released m' b) (b + 100)))
          ⊎ ((10000 < d) × (monitor s m' event ≡ goes_on (released m' b) none)))
  unfolding monitor release
  monitor-press_release = (monitor-down s m b t hb, by_time)
    where
      by_time :
          ((d ≤ 100) × (monitor s m' event ≡ goes_on (released m' b) none))
          ⊎ ((100 < d) × (d ≤ 2000) × (monitor s m' event ≡ fire s (released m' b) b))
          ⊎ ((2000 < d) × (d ≤ 10000) × (monitor s m' event ≡ fire s (released m' b) (b + 100)))
          ⊎ ((10000 < d) × (monitor s m' event ≡ goes_on (released m' b) none))
      by_time = elim (dec_lt 100 d) [
        | no h ↦ inl (omega arith, ground (arith, was_pressed, pressed_since))
        | yes h ↦ elim (dec_lt 2000 d) [
          | no k ↦ inr (inl (h, omega arith, ground (arith, was_pressed, pressed_since)))
          | yes k ↦ elim (dec_lt 10000 d) [
            | no l ↦ inr (inr (inl (k, omega arith, ground (arith, was_pressed, pressed_since))))
            | yes l ↦ inr (inr (inr (l, ground (arith, was_pressed, pressed_since))))
          ]
        ]
      ]
