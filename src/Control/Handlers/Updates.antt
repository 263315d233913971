-- ===== src/Control/Handlers/Updates.antt =====
-- How many of the player's changes a client is sent.
use sws.Base.{
  ◌≡◌, refl, ap, sym, ◌∙◌, ℕ, suc, ◌+◌, leb, Bool, true, false, ◌&&◌, if◌then◌else◌, List, [], ◌∷◌,
  ◌++◌, arith,
}
use sws.Control.Handlers.{
  Phase, testing, sending, clearing, Handler, Clients, initial, Step, player_update, on_open,
  on_close, see, send, clear, Reach, here, next,
}

-- The send that a thread is about to do, if it must.
abbrev due : Bool → Phase → ℕ
due u testing = if u then 1 else 0
due u sending = 1
due u clearing = 0

abbrev pub within : Bool → ℕ → Handler → Bool
within u n h = leb (h.sends + due u h.phase) n

abbrev pub all_within : Bool → ℕ → List Handler → Bool
all_within u n [] = true
all_within u n (h ∷ hs) = within u n h && all_within u n hs

pub record IsBounded (s : Clients) : Type 0 where
  pub bounded : all_within s.update s.changes s.handlers ≡ true
  pub told : leb (if s.update then 1 else 0) s.changes ≡ true

all_within-append :
    (u : Bool) (n : ℕ) (before : List Handler) (h : Handler) (after : List Handler)
    → all_within u n (before ++ (h ∷ after))
      ≡ (all_within u n before && (within u n h && all_within u n after))
all_within-append u n [] h after = refl
all_within-append u n (x ∷ before) h after = ground (arith, all_within-append u n before h after)

due-change : (u : Bool) (p : Phase) → leb (due true p) (suc (due u p)) ≡ true
due-change true testing = refl
due-change false testing = refl
due-change u sending = refl
due-change u clearing = refl

due-clear : (u : Bool) (p : Phase) → leb (due false p) (due u p) ≡ true
due-clear true testing = refl
due-clear false testing = refl
due-clear u sending = refl
due-clear u clearing = refl

within-change :
    (u : Bool) (n : ℕ) (h : Handler) → within u n h ≡ true → within true (suc n) h ≡ true
within-change u n h w = ground (arith, due-change u h.phase)

all_within-change :
    (u : Bool) (n : ℕ) (hs : List Handler)
    → all_within u n hs ≡ true
    → all_within true (suc n) hs ≡ true
all_within-change u n [] w = refl
all_within-change u n (h ∷ hs) w = ground (arith, all_within-change u n hs, within-change u n h)

within-clear : (u : Bool) (n : ℕ) (h : Handler) → within u n h ≡ true → within false n h ≡ true
within-clear u n h w = ground (arith, due-clear u h.phase)

all_within-clear :
    (u : Bool) (n : ℕ) (hs : List Handler) → all_within u n hs ≡ true → all_within false n hs ≡ true
all_within-clear u n [] w = refl
all_within-clear u n (h ∷ hs) w = ground (arith, all_within-clear u n hs, within-clear u n h)

-- One handler takes the place of another that is bounded as well.
all_within-moved :
    (u : Bool) (n : ℕ) (before : List Handler) (h g : Handler) (after : List Handler)
    → leb (g.sends + due u g.phase) (h.sends + due u h.phase) ≡ true
    → all_within u n (before ++ (h ∷ after)) ≡ true
    → all_within u n (before ++ (g ∷ after)) ≡ true
all_within-moved u n before h g after m w =
    ground (arith, all_within-append u n before h after, all_within-append u n before g after)

Step-IsBounded : {s t : Clients} → Step s t → IsBounded s → IsBounded t
Step-IsBounded {s} player_update v = record {
  bounded = all_within-change s.update s.changes s.handlers v.bounded;
  told = ground arith;
}
Step-IsBounded {s} on_open v = record {
  bounded = ground (
    arith,
    v.bounded,
    v.told,
    all_within-append s.update s.changes s.handlers (record { phase = testing; sends = 0 }) [],
  );
  told = v.told;
}
Step-IsBounded {s} on_close v = v
Step-IsBounded {s} (see before after n e f) v = record {
  bounded =
      all_within-moved s.update s.changes before (record { phase = testing; sends = n })
        (record { phase = sending; sends = n }) after (ground arith)
        (ap (all_within s.update s.changes) (sym e) ∙ v.bounded);
  told = v.told;
}
Step-IsBounded {s} (send before after n e) v = record {
  bounded =
      all_within-moved s.update s.changes before (record { phase = sending; sends = n })
        (record { phase = clearing; sends = suc n }) after (ground arith)
        (ap (all_within s.update s.changes) (sym e) ∙ v.bounded);
  told = v.told;
}
Step-IsBounded {s} (clear before after n e) v = record {
  bounded =
      all_within-moved false s.changes before (record { phase = clearing; sends = n })
        (record { phase = testing; sends = n }) after (ground arith)
        (all_within-clear s.update s.changes
          (before ++ (record { phase = clearing; sends = n } ∷ after))
          (ap (all_within s.update s.changes) (sym e) ∙ v.bounded));
  told = ground arith;
}

-- In every state that the changes of the player, the connections and the threads reach, no client was
-- sent, or is about to be sent, more states than the player had changes.
pub Reach-IsBounded : {s : Clients} → Reach initial s → IsBounded s
unfolding initial
Reach-IsBounded here = record { bounded = refl; told = refl }
Reach-IsBounded (next r st) = Step-IsBounded st (Reach-IsBounded r)

-- A change whose flag one thread sees, sends and clears while the others do not run: they are as before,
-- and nothing tells them of it.
pub player_update-missed :
    (s : Clients) (before after : List Handler) (n : ℕ)
    → s.update ≡ false
    → s.handlers ≡ before ++ (record { phase = testing; sends = n } ∷ after)
    → (t : Clients) × Reach s t
      × (t.changes ≡ suc s.changes)
      × (t.update ≡ false)
      × (t.handlers ≡ before ++ (record { phase = testing; sends = suc n } ∷ after))
player_update-missed s before after n u e =
    let t = record s {
      changes = suc s.changes;
      update = false;
      handlers = before ++ (record { phase = testing; sends = suc n } ∷ after);
    } in
    (
      t,
      next
          (next (next (next here player_update) (see before after n e refl))
            (send before after n refl))
          (clear before after (suc n) refl),
      refl,
      refl,
      refl,
    )
