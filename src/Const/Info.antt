-- ===== src/Const/Info.antt =====
-- The properties of `LockInfo` that depend on the model number.
use yalexs_ble.Prelude.{
  Bool, not, ◌&&◌, ◌||◌, List, [], ◌∷◌, ◌++◌, Text, codes, text_eq, starts_with, any, is_empty,
}
use yalexs_ble.Const.Records.{LockInfo}

abbrev pub no_door_sense_models : List Text
no_door_sense_models = codes "ASL-02" ∷ codes "ASL-01" ∷ []

abbrev pub no_battery_support_models : List Text
no_battery_support_models = codes "SL-103" ∷ codes "CERES" ∷ codes "Yale Linus L2" ∷ []

-- One turn of the generator: `startswith` with a tuple is true for either prefix.
abbrev pub matches_model : Text → Text → Bool
matches_model model entry =
    text_eq model entry
    || (starts_with (entry ++ codes "-") model || starts_with (entry ++ codes " ") model)

-- `LockInfo._model_in`
unfoldable pub model_in : LockInfo → List Text → Bool
model_in info models = any (matches_model info.model) models

unfoldable pub door_sense : LockInfo → Bool
unfolding model_in
door_sense info = not (is_empty info.model) && not (model_in info no_door_sense_models)

unfoldable pub battery_reporting : LockInfo → Bool
unfolding model_in
battery_reporting info = not (model_in info no_battery_support_models)
