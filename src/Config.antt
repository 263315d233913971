-- ===== src/Config.antt =====
-- src/config.cpp and include/config.h: the settings, and the file that holds them.
--
-- The property tree is a parameter, and with it `write_json` and `read_json`: `save` is what a file
-- holds, none where the writer throws, as where the directory of the file is missing, which the program
-- never makes; `load` is what is read from it, none where the reader throws.
pub mod Restart
use sws.Base.{◌>>=◌, ◌≡◌, Bool, true, Option, none, some, List, [], ◌∷◌, ◌++◌, Text, codes}
use sws.Ptree.{Ptree}
use sws.Playlist.{filename}

-- The values that are put.
pub data Value : Type 0 where
  text : Text → Value
  flag : Bool → Value

-- `set_program_name`, which calls itself until the file exists that the link of the process names;
-- `links` are the answers in turn, with whether the file exists. A link that cannot be read is a NULL
-- pointer, from which a path is made.
unfoldable pub set_program_name : List (Option (Text × Bool)) → Option Text
unfolding filename
set_program_name [] = none
set_program_name (none ∷ links) = none
set_program_name (some (p, Bool.true) ∷ links) = some (filename p)
set_program_name (some (p, Bool.false) ∷ links) = set_program_name links

module _ (P : Ptree Value) {File : Type 0} (save : P.Tree → Option File)
    (load : File → Option P.Tree) where
  -- The members, and the file "settings.conf".
  pub record Config : Type 0 where
    pub root : Text
    pub settings : P.Tree
    pub config_file : Option File

  -- There is no configuration where the writer throws, and nothing catches that.
  unfoldable pub save_config_settings : Config → Option Config
  save_config_settings c = elim (save c.settings) [
    | none ↦ none
    | some f ↦ some (record c { config_file = some f })
  ]

  unfoldable pub put : Config → Text → Value → Option Config
  put c a b = save_config_settings (record c { settings = P.put c.settings a b })

  -- `config()`
  unfoldable pub config : (home prog_name : Text) → Option File → Option Config
  config home prog_name none = do
    let root = home ++ (codes "/." ++ (prog_name ++ codes "/"))
    let made : Config = record { root = root; settings = P.empty; config_file = none }
    c0 ← put made (codes "root") (text root)
    c1 ← put c0 (codes "db_file") (text (root ++ (prog_name ++ codes ".sqlite")))
    c2 ← put c1 (codes "confirm") (flag true)
    c3 ← put c2 (codes "music_root") (text (codes "/media/"))
    c4 ← put c3 (codes "current_playlist") (text (codes "db_catalog"))
    save_config_settings c4
  config home prog_name (some file) = elim (load file) [
    | none ↦ none
    | some settings ↦ some (record {
      root = home ++ (codes "/." ++ (prog_name ++ codes "/"));
      settings = settings;
      config_file = some file;
    })
  ]
