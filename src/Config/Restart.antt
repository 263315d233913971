-- ===== src/Config/Restart.antt =====
-- What a program reads from the settings that an earlier run has left.
use sws.Base.{◌≡◌, refl, ap, ◌∙◌, false, Option, none, some, ◌++◌, Text, codes, same, if◌then◌else◌}
use sws.Ptree.{Ptree, IsLawful, lookup, has_dot}
use sws.Ptree.Listed.{get-put}
use sws.Config.{Value, Config, config, put, save_config_settings}

-- A tree can be saved, and what was saved is read, with the children it was saved with.
abbrev pub ReadsBack :
    (P : Ptree Value) {File : Type 0} → (P.Tree → Option File) → (File → Option P.Tree) → Type 0
ReadsBack P {File = File} save load =
    (t : P.Tree)
    → (f : File) × (u : P.Tree) × (save t ≡ some f)
      × (load f ≡ some u)
      × (P.children u ≡ P.children t)

module _ (P : Ptree Value) (L : IsLawful P) {File : Type 0} (save : P.Tree → Option File)
    (load : File → Option P.Tree) (R : ReadsBack P save load) where
  -- The constructor on a file that is read.
  config-load :
      (home prog_name : Text) (f : File) (u : P.Tree)
      → load f ≡ some u
      → config P save load home prog_name (some f)
        ≡ some (record {
          root = home ++ (codes "/." ++ (prog_name ++ codes "/"));
          settings = u;
          config_file = some f;
        })
  unfolding config
  config-load home prog_name f u e = rw (config, e) refl

  put-saved :
      (c : Config P save load) (a : Text) (b : Value) (f : File)
      → save (P.put c.settings a b) ≡ some f
      → put P save load c a b
        ≡ some (record c { settings = P.put c.settings a b; config_file = some f })
  unfolding put save_config_settings
  put-saved c a b f e = ap written e
    where
      written : Option File → Option (Config P save load)
      written o = elim o [
        | none ↦ none
        | some g ↦ some (record c { settings = P.put c.settings a b; config_file = some g })
      ]

  -- Where the file can be written, and is read as it was written, what is put is read by the next
  -- construction, and the other keys keep their values: the file is written with every put.
  pub config-put :
      (home prog_name : Text) (c : Config P save load) (a k : Text) (b : Value)
      → has_dot a ≡ false
      → (c' : Config P save load) × (f : File) × (d : Config P save load) × (put P save load c a b
          ≡ some c')
        × (c'.config_file ≡ some f)
        × (config P save load home prog_name (some f) ≡ some d)
        × (lookup k (P.children d.settings)
            ≡ (if same a k then some b else lookup k (P.children c.settings)))
  config-put home prog_name c a k b n =
      let t = P.put c.settings a b in
      let (f, u, e, l, g) = R t in
      (
        record c { settings = t; config_file = some f },
        f,
        record {
          root = home ++ (codes "/." ++ (prog_name ++ codes "/"));
          settings = u;
          config_file = some f;
        },
        put-saved c a b f e,
        refl,
        config-load home prog_name f u l,
        ap (lookup k) g ∙ get-put P L c.settings a b k n,
      )
