-- ===== src/Tests/Sessions.antt =====
-- A database that reads the statements on `_playlist`, and a player that is started again.
use sws.Base.{
  ℕ, zero, suc, ◌+◌, ◌-◌, ◌*◌, ◌/◌, ◌%◌, ◌^◌, ◌<◌, ◌≡◌, refl, sym, ◌∙◌, Bool, true, false, ◌&&◌,
  Option, none, some, List, [], ◌∷◌, ◌++◌, if◌then◌else◌, ◌==◌, leb, length, take, drop, Text,
  decimal, ℤ, codes, same, arith,
}
use sws.Base.Texts.{ℤ, decimal_loop, to_string}
use sws.Db.{Song, escape}
use sws.Db.Literal.{IsPlain, first, read_literal, read_literal-escape}
use sws.Db.Statements.{set_playlist_current, insert_path, insert_track, update_path_duration}
use sws.Db.Reads.{Row, Reply, rows, refused, current_query}
use sws.Db.Reads.{get_playlist_current}
use sws.Playlist.{from_tracks}
use sws.Player.{Player, named, find_named, play, play_path, next, previous}
use sws.Player
use sws.Player.Steps.{PlaysAt}
use sws.Player.Startup.{Outside, player, start, await_tables, populate_from_db, gather, begin_at}
use sws.Player.Sessions.{Sqlite, overwrite, executed}
use sws.Player.Sessions.Resume.{position_after}
use sws.Player.Reports.{position_json}
use sws.Joystick.Actions
use sws.Joystick.Actions.{Action, actions}
use sws.Control.{
  action, eos, joystick_event_handler, client_action, on_message, bus_delivers, on_bus_message,
}
use sws.Control.Navigation.{Input, joystick, client, bus, deliver, deliver_all}
use sws.Control.Program.{program}
use sws.Control.Session.Continues.{program-continues}
use sws.Tests.Players.{world, unasked, long}

-- A sign and digits: whether there was a sign, the number, and the rest.
scan_int : Bool → ℕ → Text → Bool × ℕ × Text
scan_int neg acc [] = (neg, acc, [])
scan_int neg acc (c ∷ s) =
    let signed = scan_int true acc s in
    let more = scan_int neg (acc * 10 + (c - 48)) s in
    if c == b'-' then signed else if leb 48 c && leb c 57 then more else (neg, acc, c ∷ s)

abbrev to_int : Bool → ℕ → ℤ
to_int true n = ℤ.negsuc (n - 1)
to_int false n = ℤ.pos n

scan_int-digits :
    (neg : Bool) (f n : ℕ) (acc rest : Text)
    → n < f
    → scan_int neg 0 (decimal_loop f n acc ++ rest) ≡ scan_int neg n (acc ++ rest)
unfolding scan_int decimal_loop
scan_int-digits neg zero n acc rest h = absurd (omega arith)
scan_int-digits neg (suc f) n acc rest h =
    ground (arith, scan_int-digits neg f (n / 10) ((n % 10 + 48) ∷ acc) rest)

scan_int-to_string :
    (z : ℤ) (rest : Text)
    → let r = scan_int false 0 (to_string z ++ (b' ' ∷ rest)) in
      (to_int r.0 r.1 ≡ z) × (r.2 ≡ b' ' ∷ rest)
unfolding to_string decimal scan_int
scan_int-to_string (ℤ.pos n) rest =
    rw (scan_int-digits false (suc n) n [] (b' ' ∷ rest) (omega arith)) (refl, refl)
scan_int-to_string (ℤ.negsuc n) rest =
    rw (scan_int-digits true (suc (suc n)) (suc n) [] (b' ' ∷ rest) (omega arith))
      (ground arith, refl)

abbrev Table : Type 0
Table = Text → Option ℤ

abbrev update_head : Text
update_head = codes "UPDATE _playlist SET current="

abbrev where_name : Text
where_name = codes " WHERE name='"

abbrev select_head : Text
select_head = codes "SELECT current from _playlist WHERE name='"

abbrev overwrite_named : ℤ → Option (Text × Text) → Table → Table
overwrite_named z none d = d
overwrite_named z (some (n, rest)) d = λ m. if same n m then overwrite z (d m) else d m

-- An UPDATE of the position, or another statement.
exec : Text → Table → Table
exec t d =
    if same (take (length update_head) t) update_head
    then (let r = scan_int false 0 (drop (length update_head) t) in
        overwrite_named (to_int r.0 r.1) (read_literal false (drop (length where_name) r.2)) d)
    else d

abbrev row_with : Option ℤ → List Row
row_with none = []
row_with (some z) = record { column_text = λ i. none; column_int = λ i. z } ∷ []

abbrev answer : Option (Text × Text) → Table → Reply
answer none d = refused
answer (some (n, rest)) d = rows (row_with (d n))

reply : Text → Table → Reply
reply t d = answer (read_literal false (drop (length select_head) t)) d

exec-update :
    (n : Text) (z : ℤ) (d : Table) (m : Text)
    → exec (first (set_playlist_current n z)) d m ≡ (if same n m then overwrite z (d m) else d m)
unfolding exec set_playlist_current same
exec-update n z d m =
    let r = scan_int-to_string z (codes "WHERE name='" ++ (escape n ++ codes "';")) in
    rw (r.1, r.0) (rw (read_literal-escape n (codes ";") (omega arith)))

exec-path : (p : Text) (d : Table) (m : Text) → exec (first (insert_path p)) d m ≡ d m
unfolding exec insert_path same
exec-path p d m = refl

exec-track :
    (s : Song) (d : Table) (m : Text)
    → IsPlain s.spotify_id
    → IsPlain s.md5
    → exec (first (insert_track s)) d m ≡ d m
unfolding exec insert_track same
exec-track s d m h k = refl

exec-duration :
    (p : Text) (n : ℕ) (d : Table) (m : Text) → exec (first (update_path_duration p n)) d m ≡ d m
unfolding exec update_path_duration same
exec-duration p n d m = refl

reply-current : (n : Text) (d : Table) → reply (current_query n) d ≡ rows (row_with (d n))
unfolding reply current_query
reply-current n d = rw (read_literal-escape n (codes ";") (omega arith))

row_read :
    (n : Text) (d : Table) (k : ℕ)
    → d n ≡ some (ℤ.pos k)
    → k < 2 ^ 31
    → (r : Row) × (reply (current_query n) d ≡ rows (r ∷ [])) × (r.column_int 0 ≡ ℤ.pos k)
row_read n d k h b =
    (record { column_text = λ i. none; column_int = λ i. ℤ.pos k }, reply-current n d ∙ rw h, refl)

row_missing : (n : Text) (d : Table) → d n ≡ none → reply (current_query n) d ≡ rows []
row_missing n d h = reply-current n d ∙ rw h

abbrev sqlite : Sqlite Table
sqlite = record {
  exec = exec;
  reply = reply;
  current = λ d. d;
  update = exec-update;
  path_inserted = exec-path;
  track_inserted = exec-track;
  duration_updated = exec-duration;
  row_missing = row_missing;
  row_read = row_read;
}

-- The table has a row for the long playlist, at its second track.
abbrev table : Table
table = λ m. if same m (codes "long") then some (ℤ.pos 1) else none

abbrev opened_at : (Text → ℤ) → Outside
opened_at current = record {
  tables = (codes "long" ∷ []) ∷ [];
  select_playlist = λ s. long.tracks;
  select_after = λ s. long.tracks;
  entries = [];
  file_exists = λ s. false;
  file_contents = λ s. none;
  queue_empty = [];
  current_playlist = codes "long";
  current = current;
}

abbrev outside : Outside
outside = opened_at (λ s. ℤ.pos 1)

-- The second end of a track is not heard, and a client leads back what the joystick led on.
abbrev inputs : List Input
inputs =
    bus eos
    ∷ bus eos
    ∷ client unasked (action (codes "Position"))
    ∷ joystick Action.next
    ∷ client unasked (action (codes "previous"))
    ∷ []

made :
    (current : Text → ℤ)
    → (p : Player) × (player (opened_at current) ≡ some p) × (p.current_playlist ≡ long)
unfolding player await_tables populate_from_db from_tracks named find_named gather begin_at same
made current = (_, refl, refl)

ran : (q : Player) × (program world outside inputs ≡ some q) × (q.current_playlist ≡ long)
unfolding program start play play_path next previous deliver deliver_all bus_delivers on_bus_message
    joystick_event_handler client_action on_message position_json Actions.find actions player
    await_tables populate_from_db from_tracks named find_named gather begin_at same
ran = (_, refl, refl)

abbrev after_run : Text → ℤ
after_run = get_playlist_current (λ s. reply s (executed sqlite ran.0.effects table))

program-continues_example :
    (i : ℕ) × (r : Player) × (ran.0.it_track ≡ Player.at i)
    × (start world (made after_run).0 ≡ some r)
    × PlaysAt r (
        position_after
          (sqlite.current
            (executed sqlite (made (λ s. ℤ.pos 1)).0.effects table)
            ran.0.current_playlist.name)
          i)
program-continues_example =
    program-continues sqlite world table outside inputs (made (λ s. ℤ.pos 1)).0 ran.0
      (opened_at after_run) (made after_run).0 (λ path. (tt, (omega arith))) (made (λ s. ℤ.pos 1)).1
      ran.1 (rw ran.2 (omega arith)) (made after_run).1 ((made after_run).2 ∙ sym ran.2) refl
