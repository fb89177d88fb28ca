-- ===== src/Entry.antt =====
-- Home Assistant's `ConfigEntry` and `ConfigSubentry`, as far as the integration reads them.
use esphome_rf_cloner.Base.{ℤ, String, Bool, Option, List}
use esphome_rf_cloner.Base.Dict.{Dict}
use esphome_rf_cloner.Python.Value.{Value}

pub record ConfigSubentry : Type 0 where
  pub subentry_id : String
  pub subentry_type : String
  pub title : String
  pub unique_id : Option String
  pub content : Dict String Value

-- `loaded` is `state is ConfigEntryState.LOADED`; `content` is `data`; `subentries` is the values
-- of the mapping of that name, in its order.
pub record ConfigEntry : Type 0 where
  pub entry_id : String
  pub domain : String
  pub unique_id : Option String
  pub title : String
  pub version : ℤ
  pub minor_version : ℤ
  pub content : Dict String Value
  pub options : Dict String Value
  pub subentries : List ConfigSubentry
  pub loaded : Bool

-- `async_update_entry(entry, options=options)`, for the fields that it leaves.
abbrev pub with_options : ConfigEntry → Dict String Value → ConfigEntry
with_options entry options = record entry { options = options }
