-- ===== src/Tests/Tables.antt =====
-- Names of identifiers, bitmaps and texts of src/util.c.
use sws.Base.{◌≡◌, refl, arith, some, none, [], ◌∷◌, codes}
use sws.Util.Uuid.{bt_uuidstr_to_str, bt_uuid32_to_str}
use sws.Util.Uuid.Text.{uuid_text, bt_uuidstr_to_str-uuid_text}
use sws.Util.Appearance.{bt_appear_to_str, appearance_table}
use sws.Util.Appearance.Nearest.{or_category, exact, category, bt_appear_to_str-nearest}
use sws.Util.Text.{strdelimit}
use sws.Util.Text.Delimit.{strdelimit-same}

bt_uuidstr_to_str-uuid_text_example :
    bt_uuidstr_to_str (some (uuid_text 4363)) ≡ some (bt_uuid32_to_str 4363)
bt_uuidstr_to_str-uuid_text_example = bt_uuidstr_to_str-uuid_text 4363 (omega arith)

bt_appear_to_str-nearest_example :
    bt_appear_to_str 70
    ≡ some (or_category (exact 70 appearance_table) (category "Unknown" 70 appearance_table))
bt_appear_to_str-nearest_example = bt_appear_to_str-nearest 70

-- The identifiers 1 and 3 are taken.
strdelimit-same_example : strdelimit 100 (some (codes "a:b")) (58 ∷ []) 58 ≡ none
strdelimit-same_example = strdelimit-same 100 [] (codes "a:b") 58 (omega arith) refl
