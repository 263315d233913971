-- ===== src/Tests/Settings.antt =====
-- Files of settings that are written and read again.
use sws.Base.{◌≡◌, refl, true, Option, some, none, [], ◌∷◌, List, ◌++◌, codes, Text, ℤ}
use sws.Base.Texts.{ℤ}
use sws.Ptree.{Ptree, lookup}
use sws.Ptree.Listed.{listed, listed-IsLawful}
use sws.Config.{Value, text, flag, Config, config, put}
use sws.Config.Restart.{ReadsBack, config-put}
use sws.Joystick.{Settings, at}
use sws.Joystick.Actions.{Action}
use sws.Joystick.Storage.{save_config, load_config}
use sws.Joystick.Storage.Saved.{load_config-save_config}

-- The file is the list of the settings.
abbrev values : Ptree Value
values = listed Value

abbrev some_ : List (Text × Value) → Option (List (Text × Value))
some_ l = some l

reads_back : ReadsBack values some_ some_
reads_back t = (t, t, refl, refl, refl)

abbrev root : Text
root = codes "/home/u/.sws/"

abbrev first_run : Config values some_ some_
first_run = record { root = root; settings = (codes "confirm", flag true) ∷ []; config_file = none }

config-put_example :
    (c' : Config values some_ some_) × (f : List (Text × Value)) × (d : Config values some_ some_)
    × (put values some_ some_ first_run (codes "music_root") (text (codes "/m/")) ≡ some c')
    × (c'.config_file ≡ some f)
    × (config values some_ some_ (codes "/home/u") (codes "sws") (some f) ≡ some d)
    × (lookup (codes "music_root") d.settings ≡ some (text (codes "/m/")))
unfolding sws.Base.same
config-put_example =
    config-put values (listed-IsLawful Value) some_ some_ reads_back (codes "/home/u") (codes "sws")
      first_run (codes "music_root") (codes "music_root") (text (codes "/m/")) refl

abbrev sections : Ptree ℤ
sections = listed ℤ

abbrev devices : Ptree (List (Text × ℤ))
devices = listed (List (Text × ℤ))

abbrev buttons : Settings
buttons = (ℤ.pos 3, Action.next) ∷ (ℤ.pos 105, Action.stop) ∷ []

load_config-save_config_example :
    (loaded : Settings) × (load_config sections devices 0x46d 0xc21d
        (save_config sections devices 0x46d 0xc21d buttons [])
      ≡ some loaded)
    × (at loaded (ℤ.pos 105) ≡ at buttons (ℤ.pos 105))
unfolding sws.Base.same sws.Joystick.Actions.enum_to_string
load_config-save_config_example =
    load_config-save_config sections (listed-IsLawful ℤ) devices (listed-IsLawful (List (Text × ℤ)))
      0x46d 0xc21d buttons [] (ℤ.pos 105) refl refl refl
