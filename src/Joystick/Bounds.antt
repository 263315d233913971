-- ===== src/Joystick/Bounds.antt =====
-- What one event of the joystick can do to the thread that reads it: `monitor` in src/joystick.cpp does
-- not check the button against its arrays, nor the key against the settings.
use sws.Base.{
  ℕ, ◌+◌, ◌<◌, ◌≤◌, ◌≡◌, ◌⊎◌, inl, inr, refl, ◌∙◌, Bool, true, false, ◌&&◌, ◌||◌, ◌==◌,
  if◌then◌else◌, Option, none, length-set, set, Bool-cases, Option-cases, arith, ℤ, ltb,
}
use sws.Base.Texts.{ℤ}
use sws.Joystick.{
  JsValue, Monitor, Settings, Outcome, goes_on, out_of_bounds, out_of_range, at, fire, press,
  release, axis, monitor, same_int,
}
use sws.Joystick.Actions.{Action}
use sws.Joystick.Press.{IsMonitor}

-- The event makes the loop read or write its arrays.
abbrev pub touches : JsValue → Bool
touches j = j.type == 1 && (same_int j.value (ℤ.pos 1) || same_int j.value (ℤ.pos 0))

-- The keys that the loop can ask the settings for.
abbrev pub IsKeyOf : JsValue → ℕ → Type 0
IsKeyOf j k = (k ≡ j.button) ⊎ (k ≡ j.button + 100) ⊎ (k ≡ j.button + 200) ⊎ (k ≡ j.button + 300)

-- What an outcome is allowed to be.
pub data IsBoundedBy (s : Settings) (j : JsValue) : Outcome → Type 0 where
  within :
      {m : Monitor} {a : Option Action}
      → IsMonitor m
      → (touches j ≡ false) ⊎ (j.button < 24)
      → IsBoundedBy s j (goes_on m a)
  beyond : touches j ≡ true → 24 ≤ j.button → IsBoundedBy s j out_of_bounds
  unset :
      {m : Monitor} (k : ℕ)
      → IsMonitor m
      → IsKeyOf j k
      → at s (ℤ.pos k) ≡ none
      → IsBoundedBy s j (out_of_range m)

module _ (s : Settings) (j : JsValue) where
  fire-IsBoundedBy :
      (m : Monitor) (k : ℕ)
      → IsMonitor m
      → (touches j ≡ false) ⊎ (j.button < 24)
      → IsKeyOf j k
      → IsBoundedBy s j (fire s m k)
  unfolding fire
  fire-IsBoundedBy m k h b i = elim (Option-cases (at s (ℤ.pos k))) [
    | inl e ↦ rw (fire, e) (unset k h i e)
    | inr (a, e) ↦ rw (fire, e) (within h b)
  ]

  either :
      (b : Bool) (x y : Outcome)
      → IsBoundedBy s j x
      → IsBoundedBy s j y
      → IsBoundedBy s j (if b then x else y)
  either true x y p q = p
  either false x y p q = q

  press-IsBoundedBy : (m : Monitor) → IsMonitor m → touches j ≡ true → IsBoundedBy s j (press m j)
  unfolding press
  press-IsBoundedBy m h t = elim (Bool-cases (ltb j.button 24)) [
    | inl e ↦
        rw (press, e)
          (within
            (length-set m.p j.button true ∙ h.0, length-set m.time_pressed j.button j.time ∙ h.1)
            (inr (ground (arith, e))))
    | inr e ↦ rw (press, e) (beyond t (ground (arith, e)))
  ]

  release-IsBoundedBy :
      (m : Monitor) → IsMonitor m → touches j ≡ true → IsBoundedBy s j (release s m j)
  unfolding release
  release-IsBoundedBy m h t = elim (Bool-cases (ltb j.button 24)) [
    | inl e ↦
        let m' : Monitor = record m { p = set m.p j.button false } in
        let h' : IsMonitor m' = (length-set m.p j.button false ∙ h.0, h.1) in
        let b : (touches j ≡ false) ⊎ (j.button < 24) = inr (ground (arith, e)) in
        rw (release, e)
          (either _ _ _ (within h b) (
            either _ _ _ (within h' b) (
              either _ _ _ (fire-IsBoundedBy m' (j.button + 100) h' b (inr (inl refl)))
                (either _ _ _ (fire-IsBoundedBy m' j.button h' b (inl refl)) (within h' b)))))
    | inr e ↦ rw (release, e) (beyond t (ground (arith, e)))
  ]

  axis-IsBoundedBy : (m : Monitor) → IsMonitor m → touches j ≡ false → IsBoundedBy s j (axis s m j)
  unfolding axis
  axis-IsBoundedBy m h t =
      either _ _ _ (fire-IsBoundedBy m (j.button + 200) h (inl t) (inr (inr (inl refl)))) (
        either _ _ _ (fire-IsBoundedBy m (j.button + 300) h (inl t) (inr (inr (inr refl))))
          (within h (inl t)))

  -- The loop leaves its two arrays with their 24 elements. It reads or writes outside them exactly at a
  -- press or a release of a button from 24 on, and it ends by an exception only where the settings lack
  -- the key that the event asks for: the button, or the button plus 100, 200 or 300.
  pub monitor-IsBoundedBy : (m : Monitor) → IsMonitor m → IsBoundedBy s j (monitor s m j)
  unfolding monitor
  monitor-IsBoundedBy m h = elim (Bool-cases (j.type == 1)) [
    | inl e ↦ elim (Bool-cases (same_int j.value (ℤ.pos 1))) [
      | inl f ↦ rw (monitor, e) (rw f (press-IsBoundedBy m h (ground (arith, e, f))))
      | inr f ↦ elim (Bool-cases (same_int j.value (ℤ.pos 0))) [
        | inl g ↦ rw (monitor, e) (rw (f, g) (release-IsBoundedBy m h (ground (arith, e, g))))
        | inr g ↦ rw (monitor, e) (rw (f, g) (within h (inl (ground (arith, e, f, g)))))
      ]
    ]
    | inr e ↦
        let t : touches j ≡ false = ground (arith, e) in
        rw (monitor, e) (either _ _ _ (axis-IsBoundedBy m h t) (within h (inl t)))
  ]
