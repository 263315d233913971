-- ===== src/Joystick/Storage/Saved.antt =====
-- Settings that are saved and loaded again.
use sws.Base.{
  ◌≡◌, refl, ap, sym, ◌∙◌, ℕ, ◌==◌, arith, Bool, true, false, not, ◌||◌, ◌&&◌, if◌then◌else◌,
  Option-cases, inl, inr, none, some, List, [], ◌∷◌, ◌++◌, Text, codes, same, same→eq, same_refl, ℤ,
}
use mathlib.Core.List.{append_assoc, append-nil}
use sws.Ptree.{Ptree, IsLawful, lookup, replace, has_dot}
use sws.Ptree.Listed.{get-put, get-add}
use sws.Joystick.{Settings, at, load_settings}
use sws.Joystick.Config.{first_setting, at-load_settings}
use sws.Joystick.Actions.{find-enum_to_string, enum_to_string}
use sws.Joystick.Storage.Names.{has_dot-hwid, has_dot-enum_to_string}
use sws.Joystick.Storage.{hwid, put_settings, put_section, save_config, load_config}

-- An entry of the settings has the name.
abbrev has_name : Text → Settings → Bool
has_name n [] = false
has_name n ((key, a) ∷ s) = same n (enum_to_string a) || has_name n s

-- No two entries have the same action.
abbrev pub distinct : Settings → Bool
distinct [] = true
distinct ((key, a) ∷ s) = not (has_name (enum_to_string a) s) && distinct s

abbrev entries : Settings → List (Text × ℤ)
entries [] = []
entries ((key, a) ∷ s) = (enum_to_string a, key) ∷ entries s

abbrev absent : Text → List (Text × ℤ) → Bool
absent n [] = true
absent n ((m, key) ∷ l) = not (same m n) && absent n l

abbrev disjoint : List (Text × ℤ) → Settings → Bool
disjoint l [] = true
disjoint l ((key, a) ∷ s) = absent (enum_to_string a) l && disjoint l s

abbrev place : List (Text × ℤ) → Settings → List (Text × ℤ)
place l [] = l
place l ((key, a) ∷ s) = place (replace (enum_to_string a) key l) s

replace-absent :
    (n : Text) (key : ℤ) (l : List (Text × ℤ))
    → absent n l ≡ true
    → replace n key l ≡ l ++ ((n, key) ∷ [])
replace-absent n key [] h = refl
replace-absent n key ((m, k) ∷ l) h = ground (arith, replace-absent n key l)

absent-append :
    (n m : Text) (key : ℤ) (l : List (Text × ℤ))
    → absent n (l ++ ((m, key) ∷ [])) ≡ (absent n l && not (same m n))
absent-append n m key [] = ground arith
absent-append n m key ((i, k) ∷ l) = ground (arith, absent-append n m key l)

disjoint-append :
    (m : Text) (key : ℤ) (l : List (Text × ℤ)) (s : Settings)
    → has_name m s ≡ false
    → disjoint l s ≡ true
    → disjoint (l ++ ((m, key) ∷ [])) s ≡ true
disjoint-append m key l [] h d = refl
disjoint-append m key l ((k, a) ∷ s) h d =
    ground (arith, absent-append (enum_to_string a) m key l, disjoint-append m key l s)

place-entries :
    (l : List (Text × ℤ)) (s : Settings)
    → disjoint l s ≡ true
    → distinct s ≡ true
    → place l s ≡ l ++ entries s
place-entries l [] d h = sym (append-nil l)
place-entries l ((key, a) ∷ s) d h =
    let n = enum_to_string a in
    ap (λ c. place c s) (replace-absent n key l (ground arith))
    ∙ place-entries (l ++ ((n, key) ∷ [])) s
        (disjoint-append n key l s (ground arith) (ground arith)) (ground arith)
    ∙ append_assoc l ((n, key) ∷ []) (entries s)

disjoint-nil : (s : Settings) → disjoint [] s ≡ true
disjoint-nil [] = refl
disjoint-nil (x ∷ s) = disjoint-nil s

first_setting-entries : (s : Settings) (key : ℤ) → first_setting key (entries s) ≡ at s key
unfolding first_setting at
first_setting-entries [] key = refl
first_setting-entries ((k, a) ∷ s) key =
    ground (arith, first_setting-entries s key, find-enum_to_string a)

module _ (P : Ptree ℤ) (LP : IsLawful P) (Q : Ptree P.Tree) (LQ : IsLawful Q) where
  children-put_settings :
      (t : P.Tree) (s : Settings) → P.children (put_settings P Q t s) ≡ place (P.children t) s
  unfolding put_settings
  children-put_settings t [] = refl
  children-put_settings t ((key, a) ∷ s) =
      children-put_settings (P.put t (enum_to_string a) key) s
      ∙ ap (λ c. place c s) (LP.children-put t (enum_to_string a) key (has_dot-enum_to_string a))

  -- The settings that are loaded from a section that was saved.
  at-put_settings :
      (s : Settings) (key : ℤ)
      → distinct s ≡ true
      → at (load_settings [] (P.children (put_settings P Q P.empty s))) key ≡ at s key
  at-put_settings s key h =
      at-load_settings (P.children (put_settings P Q P.empty s)) key
      ∙ ap (first_setting key) (
          children-put_settings P.empty s
          ∙ ap (λ c. place c s) LP.children-empty
          ∙ place-entries [] s (disjoint-nil s) h)
      ∙ first_setting-entries s key

  lookup-put_section :
      (js : Q.Tree) (name : Text) (t : P.Tree) (j : Text)
      → has_dot name ≡ false
      → lookup j (Q.children (put_section P Q js name t))
        ≡ (if same name j then some t else lookup j (Q.children js))
  unfolding put_section
  lookup-put_section js name t j h = elim (Option-cases (lookup name (Q.children js))) [
    | inl e ↦ rw (put_section, e) (get-add Q LQ js name t j h e)
    | inr (u, e) ↦ rw (put_section, e) (get-put Q LQ js name t j h)
  ]

  -- The two writes of `save_config`.
  lookup-both :
      (name j : Text) (t : P.Tree) (js js' : Q.Tree)
      → has_dot name ≡ false
      → js' ≡ put_section P Q js name t
      → lookup j (
          Q.children
            (if not (same name (codes "default")) then Q.put js' (codes "default") t else js'))
        ≡ (if same (codes "default") j || same name j then some t else lookup j (Q.children js))
  lookup-both name j t js js' h e = ground (
    arith,
    get-put Q LQ js' (codes "default") t j refl,
    lookup-put_section js name t j h,
    same→eq name (codes "default"),
    same→eq name j,
    same_refl j,
    same_refl (codes "default"),
  )

  -- The sections after a save: the device's and the default one are the new section.
  lookup-save_config :
      (vid pid : ℕ) (s : Settings) (js : Q.Tree) (j : Text)
      → lookup j (Q.children (save_config P Q vid pid s js)) ≡ (
          if same (codes "default") j || (not ((vid == 0) || (pid == 0)) && same (hwid vid pid) j)
          then some (put_settings P Q P.empty s)
          else lookup j (Q.children js))
  unfolding save_config
  lookup-save_config vid pid s js j =
      let t = put_settings P Q P.empty s in
      ground (
        arith,
        lookup-both (codes "default") j t js (put_section P Q js (codes "default") t) refl refl,
        lookup-both (hwid vid pid) j t js (put_section P Q js (hwid vid pid) t)
            (has_dot-hwid vid pid) refl,
      )

  -- Where both identifiers of the device are known and no two entries have the same action, the device
  -- loads the settings that were saved, whatever else the file holds.
  pub load_config-save_config :
      (vid pid : ℕ) (s : Settings) (js : Q.Tree) (key : ℤ)
      → (vid == 0) ≡ false
      → (pid == 0) ≡ false
      → distinct s ≡ true
      → (loaded : Settings) × (load_config P Q vid pid (save_config P Q vid pid s js) ≡ some loaded)
        × (at loaded key ≡ at s key)
  unfolding load_config
  load_config-save_config vid pid s js key v p h =
      let t = put_settings P Q P.empty s in
      let e : lookup (hwid vid pid) (Q.children (save_config P Q vid pid s js)) ≡ some t =
        ground (arith, lookup-save_config vid pid s js (hwid vid pid), same_refl (hwid vid pid)) in
      (load_settings [] (P.children t), rw (load_config, e) refl, at-put_settings s key h)

  -- A device without a section of its own loads them too, from the default one.
  pub load_config-save_config_default :
      (vid pid other_vid other_pid : ℕ) (s : Settings) (js : Q.Tree) (key : ℤ)
      → lookup (hwid other_vid other_pid) (Q.children js) ≡ none
      → distinct s ≡ true
      → (loaded : Settings) × (load_config P Q other_vid other_pid (save_config P Q vid pid s js)
          ≡ some loaded)
        × (at loaded key ≡ at s key)
  unfolding load_config
  load_config-save_config_default vid pid other_vid other_pid s js key e h =
      let t = put_settings P Q P.empty s in
      let after = Q.children (save_config P Q vid pid s js) in
      let f : lookup (codes "default") after ≡ some t =
        ground
          (arith, lookup-save_config vid pid s js (codes "default"), same_refl (codes "default")) in
      elim (Option-cases (lookup (hwid other_vid other_pid) after)) [
        | inl g ↦
            (load_settings [] (P.children t), rw (load_config, g, f) refl, at-put_settings s key h)
        | inr (u, g) ↦
            let k : u ≡ t =
              ground (arith, lookup-save_config vid pid s js (hwid other_vid other_pid)) in
            (load_settings [] (P.children t), rw (load_config, g, k) refl, at-put_settings s key h)
      ]
