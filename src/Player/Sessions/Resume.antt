-- ===== src/Player/Sessions/Resume.antt =====
-- The next run of the player goes on where the last one was, if the database has a row for the
-- playlist.
use sws.Base.{
  ℕ, suc, ◌+◌, ◌%◌, ◌^◌, ◌<◌, ◌≤◌, ◌≡◌, ap, sym, ◌∙◌, true, false, Option, none, some, length, Text,
  ℤ, arith, inl, inr,
}
use mathlib.Core.Path.{subst}
use sws.Base.Texts.{ℤ}
use sws.Track.{File}
use sws.Db.Reads.{get_playlist_current}
use sws.Playlist.{Playlist}
use sws.Player.{Player, at}
use sws.Player.Steps.{PlaysAt, next_times}
use sws.Player.Startup.{Outside, player, start}
use sws.Player.Startup.Resumes.{Resumes, IsOutOfRange, has_answer, player-Resumes}
use sws.Player.Sessions.{Sqlite, executed, overwrite}
use sws.Player.Sessions.Position.{IsPlainWorld, next_times-current}

pub Resumes-PlaysAt :
    (world : Text → File) (p : Player) (saved : ℤ) (j : ℕ)
    → saved ≡ ℤ.pos j
    → j < length p.current_playlist.tracks
    → Resumes world p saved
    → (r : Player) × (start world p ≡ some r) × PlaysAt r j
Resumes-PlaysAt world p saved j e h (inl empty) =
    absurd (omega (arith, ap (length {A = Text}) empty))
Resumes-PlaysAt world p saved j e h (inr (r, i, s, plays, inl at_i)) =
    let k : i ≡ j = ground arith in (r, s, rw k at plays)
Resumes-PlaysAt world p saved j e h (inr (r, i, s, plays, inr (z, out))) =
    let beyond : length p.current_playlist.tracks ≤ j =
      subst (IsOutOfRange (length p.current_playlist.tracks)) e out in
    absurd (omega arith)

module _ {Db : Type 0} (S : Sqlite Db) (d : Db) (name : Text) where
  current-missing : S.current d name ≡ none → get_playlist_current (λ q. S.reply q d) name ≡ ℤ.pos 0
  unfolding get_playlist_current
  current-missing h = rw (S.row_missing name d h)

  current-read :
      (k : ℕ)
      → S.current d name ≡ some (ℤ.pos k)
      → k < 2 ^ 31
      → get_playlist_current (λ q. S.reply q d) name ≡ ℤ.pos k
  unfolding get_playlist_current
  current-read k h b = let (r, e, c) = S.row_read name d k h b in rw e c

-- The position behind a run that ended at `k`, of a playlist that had this row.
abbrev pub position_after : Option ℤ → ℕ → ℕ
position_after none k = 0
position_after (some z) k = k

pub read_after :
    {Db : Type 0} (S : Sqlite Db) (d : Db) (name : Text) (o : Option ℤ) (k : ℕ)
    → S.current d name ≡ overwrite (ℤ.pos k) o
    → k < 2 ^ 31
    → get_playlist_current (λ q. S.reply q d) name ≡ ℤ.pos (position_after o k)
read_after S d name none k h b = current-missing S d name h
read_after S d name (some z) k h b = current-read S d name k h b

pub position_after-lt : (o : Option ℤ) (k n : ℕ) → k < n → position_after o k < n
position_after-lt none k n h = omega arith
position_after-lt (some z) k n h = h

-- After next was called so many times, at least once, in one run, and the database has executed what
-- was pushed, the next run that is given the same playlist starts with the track at the position that
-- the last run had reached, if `_playlist` had a row for the playlist; without one, it starts with the
-- first track wherever the last run was. The playlist has less than 2^31 tracks, the texts that the
-- statements repeat hold no quote, and the database behaves as stated in `Sqlite`.
pub session-resumes :
    {Db : Type 0} (S : Sqlite Db) (world : Text → File) (d : Db) (k : ℕ) (p : Player) (i : ℕ)
    (o : Outside) (q p' : Player)
    → IsPlainWorld world
    → p.is_destroyed ≡ false
    → p.it_track ≡ at i
    → i < length p.current_playlist.tracks
    → length p.current_playlist.tracks < 2 ^ 31
    → next_times world (suc k) p ≡ some q
    → has_answer o.tables ≡ true
    → player o ≡ some p'
    → p'.current_playlist ≡ q.current_playlist
    → o.current p.current_playlist.name
      ≡ get_playlist_current (λ s. S.reply s (executed S q.effects d)) p.current_playlist.name
    → (r : Player) × (start world p' ≡ some r)
      × PlaysAt r (
          position_after
            (S.current (executed S p.effects d) p.current_playlist.name)
            ((i + suc k) % length p.current_playlist.tracks))
session-resumes S world d k p i o q p' w live e h b nexts tables made same_list told =
    let n = length p.current_playlist.tracks in
    let name = p.current_playlist.name in
    let row = S.current (executed S p.effects d) name in
    let last = (i + suc k) % n in
    let l : last < n = omega arith in
    let (q', a, c, f) = next_times-current S world d k p i w live e h in
    let q'≡q : q' ≡ q = cc in
    let resumes = player-Resumes world o p' made in
    let here : p'.current_playlist ≡ p.current_playlist =
      same_list ∙ ap (λ (x : Player). x.current_playlist) (sym q'≡q) ∙ c in
    let written : S.current (executed S q.effects d) name ≡ overwrite (ℤ.pos last) row =
      ap (λ (x : Player). S.current (executed S x.effects d) name) (sym q'≡q) ∙ f in
    let saved =
      ap (λ (x : Playlist). o.current x.name) here
      ∙ told
      ∙ read_after S (executed S q.effects d) name row last written (omega arith) in
    Resumes-PlaysAt world p' (o.current p'.current_playlist.name) (position_after row last) saved
      (rw here (position_after-lt row last n l)) resumes
