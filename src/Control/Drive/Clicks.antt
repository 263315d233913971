-- ===== src/Control/Drive/Clicks.antt =====
-- Clicks on a button of the joystick move the player on.
use sws.Base.{
  ℕ, ◌+◌, ◌%◌, ◌^◌, ◌<◌, ◌≤◌, ◌≡◌, refl, ap, sym, ◌∙◌, inl, inr, none, some, List, [], ◌∷◌, length,
  length-set, true, false, Text, ℤ, arith,
}
use sws.Base.Texts.{ℤ}
use sws.Track.{File}
use sws.Joystick.{JsValue, Monitor, Settings, goes_on, monitor, fire, at}
use sws.Joystick.Actions.{Action}
use sws.Joystick.Press.{IsMonitor, down, up, pressed_at, released, monitor-press_release}
use sws.Player
use sws.Player.{Player}
use sws.Player.Steps.{
  next_times, next_times-suc, next_times-zero, next-PlaysAt, next_times-position,
}
use sws.Control.{joystick_event_handler}
use sws.Control.Drive.{drive}

-- When a button was pressed, and for how many milliseconds.
pub record Click : Type 0 where
  pub time : ℕ
  pub held : ℕ

-- Long enough to count, and not for the second action of the button.
pub record IsShort (c : Click) : Type 0 where
  pub clock : c.time < 2 ^ 32
  pub counted : 100 < c.held
  pub not_long : c.held ≤ 2000

abbrev pub AllShort : List Click → Type 0
AllShort [] = Unit
AllShort (c ∷ cs) = IsShort c × AllShort cs

abbrev pub events : ℕ → List Click → List JsValue
events b [] = []
events b (c ∷ cs) = down b c.time ∷ up b ((c.time + c.held) % 2 ^ 32) ∷ events b cs

abbrev clicked : Monitor → ℕ → Click → Monitor
clicked m b c = released (pressed_at m b c.time) b

clicked-IsMonitor : (m : Monitor) (b : ℕ) (c : Click) → IsMonitor m → IsMonitor (clicked m b c)
clicked-IsMonitor m b c h =
    (length-set _ b false ∙ length-set m.p b true ∙ h.0, length-set m.time_pressed b c.time ∙ h.1)

-- What the loop makes of one click.
monitor-click :
    (s : Settings) (m : Monitor) (b : ℕ) (c : Click) (a : Action)
    → b < 24
    → IsMonitor m
    → IsShort c
    → at s (ℤ.pos b) ≡ some a
    → (monitor s m (down b c.time) ≡ goes_on (pressed_at m b c.time) none)
      × (monitor s (pressed_at m b c.time) (up b ((c.time + c.held) % 2 ^ 32))
          ≡ goes_on (clicked m b c) (some a))
unfolding fire
monitor-click s m b c a hb hm hc ha =
    let r = monitor-press_release s m b c.time c.held hb hm hc.clock (omega arith) in
    (
      r.0,
      elim r.1 [
        | inl (k, e) ↦ absurd (omega (arith, hc.counted))
        | inr (inl (k, l, e)) ↦ e ∙ rw (fire, ha)
        | inr (inr (inl (k, l, e))) ↦ absurd (omega (arith, hc.not_long))
        | inr (inr (inr (k, e))) ↦ absurd (omega (arith, hc.not_long))
      ],
    )

drive-click :
    (world : Text → File) (s : Settings) (b : ℕ) (c : Click) (m : Monitor) (p q : Player)
    (js : List JsValue)
    → b < 24
    → at s (ℤ.pos b) ≡ some Action.next
    → IsMonitor m
    → IsShort c
    → Player.next world p ≡ some q
    → drive world s m p (down b c.time ∷ up b ((c.time + c.held) % 2 ^ 32) ∷ js)
      ≡ drive world s (clicked m b c) q js
unfolding drive joystick_event_handler
drive-click world s b c m p q js hb ha hm hc e =
    let (d, u) = monitor-click s m b c Action.next hb hm hc ha in
    rw (d, drive) (rw (u, drive) (rw e))

drive-times :
    (world : Text → File) (s : Settings) (b : ℕ) (cs : List Click) (m : Monitor) (p : Player)
    (i : ℕ)
    → b < 24
    → at s (ℤ.pos b) ≡ some Action.next
    → IsMonitor m
    → AllShort cs
    → p.is_destroyed ≡ false
    → p.it_track ≡ Player.at i
    → i < length p.current_playlist.tracks
    → (m' : Monitor) × (q : Player) × (drive world s m p (events b cs) ≡ some (m', q))
      × (next_times world (length cs) p ≡ some q)
unfolding drive
drive-times world s b [] m p i hb ha hm h live e l = (m, p, refl, next_times-zero world p)
drive-times world s b (c ∷ cs) m p i hb ha hm h live e l =
    let (q, n, k, plays) = next-PlaysAt world p i live e l in
    let (m', r, d, t) =
      drive-times world s b cs (clicked m b c) q ((i + 1) % length p.current_playlist.tracks) hb ha
        (clicked-IsMonitor m b c hm) h.1 plays.alive plays.position plays.inside in
    (
      m',
      r,
      drive-click world s b c m p q (events b cs) hb ha hm h.0 n ∙ d,
      next_times-suc world (length cs) p q n ∙ t,
    )

-- Where the action of a button is next, so many clicks on it, each held from 101 to 2000 milliseconds,
-- lead the player, from a position inside the playlist, so many positions further, modulo the length;
-- where the current track was not destroyed before, nothing undefined happens, and the thread goes on.
pub drive-clicks :
    (world : Text → File) (s : Settings) (b : ℕ) (cs : List Click) (m : Monitor) (p : Player)
    (i : ℕ)
    → b < 24
    → at s (ℤ.pos b) ≡ some Action.next
    → IsMonitor m
    → AllShort cs
    → p.is_destroyed ≡ false
    → p.it_track ≡ Player.at i
    → i < length p.current_playlist.tracks
    → (m' : Monitor) × (q : Player) × (drive world s m p (events b cs) ≡ some (m', q))
      × (next_times world (length cs) p ≡ some q)
      × (q.it_track ≡ Player.at ((i + length cs) % length p.current_playlist.tracks))
drive-clicks world s b cs m p i hb ha hm h live e l =
    let (m', q, d, t) = drive-times world s b cs m p i hb ha hm h live e l in
    let (q', t', k, position) = next_times-position world (length cs) p i live e l in
    let q'≡q : q' ≡ q = cc in (m', q, d, t, ap (λ (x : Player). x.it_track) (sym q'≡q) ∙ position)
