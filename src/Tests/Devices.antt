-- ===== src/Tests/Devices.antt =====
-- Buttons, settings and devices.
use sws.Base.{ℕ, ◌-◌, ◌^◌, ◌≤◌, ◌<◌, ◌≡◌, ◌⊎◌, refl, arith, none, [], ◌∷◌}
use sws.Base.Texts.{ℤ}
use sws.Joystick.{Settings, Monitor, initial, monitor, goes_on, fire}
use sws.Joystick.Actions.{Action}
use sws.Joystick.Press.{IsMonitor, down, up, pressed_at, released, monitor-press_release}

abbrev settings : Settings
settings = (ℤ.pos 3, Action.pause) ∷ (ℤ.pos 103, Action.stop) ∷ []

initial-IsMonitor : IsMonitor initial
unfolding initial
initial-IsMonitor = (refl, refl)

-- The button 3, pressed 100 ms before the clock wraps, and released 500 ms later.
abbrev now : ℕ
now = 2 ^ 32 - 100

abbrev m' : Monitor
m' = pressed_at initial 3 now

monitor-press_release_example :
    (monitor settings initial (down 3 now) ≡ goes_on m' none)
    × (((500 ≤ 100) × (monitor settings m' (up 3 400) ≡ goes_on (released m' 3) none))
        ⊎ ((100 < 500)
            × (500 ≤ 2000)
            × (monitor settings m' (up 3 400) ≡ fire settings (released m' 3) 3))
        ⊎ ((2000 < 500)
            × (500 ≤ 10000)
            × (monitor settings m' (up 3 400) ≡ fire settings (released m' 3) 103))
        ⊎ ((10000 < 500) × (monitor settings m' (up 3 400) ≡ goes_on (released m' 3) none)))
monitor-press_release_example =
    monitor-press_release settings initial 3 now 500 (omega arith) initial-IsMonitor (omega arith)
      (omega arith)
