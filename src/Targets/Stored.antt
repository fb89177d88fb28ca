-- ===== src/Targets/Stored.antt =====
-- How `CommandMeta` reads back what it stored, and what a stored dictionary reads as.
use esphome_rf_cloner.Base.{
  ℤ, String, ◌≡◌, refl, false, Option, none, some, [], ◌∷◌, if◌then◌else◌, int_eq, string_eq, arith,
}
use esphome_rf_cloner.Base.Dict.{Dict, lookup, insert, lookup-insert, NodupKeys}
use esphome_rf_cloner.Python.Text.{is_empty}
use esphome_rf_cloner.Python.Decimal.{parse_int}
use esphome_rf_cloner.Python.Value.{Value, str, dict, to_dict, of_dict}
use esphome_rf_cloner.Const.{opt_commands}
use esphome_rf_cloner.Entry.{ConfigEntry}
use esphome_rf_cloner.Targets.{
  CommandMeta, is_empty_meta, from_stored, as_stored, nonempty_text, add_meta, meta_of,
  command_meta, meta_from,
}

-- An empty text stands for an absent one.
abbrev pub clean : Option String → Option String
clean none = none
clean (some s) = if is_empty s then none else some s

-- What the store keeps of a command's organisation.
abbrev pub normal : CommandMeta → CommandMeta
normal meta = record { target_id = clean meta.target_id; icon = clean meta.icon }

read_back :
    (t i : Option String)
    → let meta : CommandMeta = record { target_id = t; icon = i } in
      from_stored (dict (of_dict (as_stored meta))) ≡ normal meta
unfolding from_stored as_stored string_eq
read_back none none = refl
read_back none (some i) = refl
read_back (some t) none = refl
read_back (some t) (some i) = refl

-- Reading back a stored organisation gives the same one, its empty texts as absent fields.
pub from_stored-as_stored-normal :
    (meta : CommandMeta) → from_stored (dict (of_dict (as_stored meta))) ≡ normal meta
from_stored-as_stored-normal meta = read_back meta.target_id meta.icon

-- What is worth storing.
abbrev pub worth : CommandMeta → Option CommandMeta
worth meta = if is_empty_meta meta then none else some meta

-- Neither field holds an empty text.
abbrev pub IsNormal : CommandMeta → Type 0
IsNormal meta = normal meta ≡ meta

clean-nonempty_text : (o : Option Value) → clean (nonempty_text o) ≡ nonempty_text o
unfolding nonempty_text
clean-nonempty_text (some (str s)) = ground arith
clean-nonempty_text _ = refl

from_stored-IsNormal : (v : Value) → IsNormal (from_stored v)
unfolding from_stored
from_stored-IsNormal (dict fs) =
    rw
      (
        clean-nonempty_text (lookup "target_id" (to_dict fs)),
        clean-nonempty_text (lookup "icon" (to_dict fs)),
      )
      refl
from_stored-IsNormal _ = refl

-- Of a dictionary that `meta_from` built: no id twice, and nothing empty or not normal in it.
abbrev pub IsTidy : Dict ℤ CommandMeta → Type 0
IsTidy [] = Unit
IsTidy ((k, m) ∷ d) = (is_empty_meta m ≡ false) × IsNormal m × (lookup k d ≡ none) × IsTidy d

insert-IsTidy :
    (k : ℤ) (m : CommandMeta) (d : Dict ℤ CommandMeta)
    → is_empty_meta m ≡ false
    → IsNormal m
    → IsTidy d
    → IsTidy (insert k m d)
unfolding insert lookup
insert-IsTidy k m [] e n t = (e, n, refl, tt)
insert-IsTidy k m ((j, w) ∷ d) e n t =
    ground (arith, insert-IsTidy k m d e n t.3, lookup-insert j k m d)

add_meta-IsTidy :
    (o : Option ℤ) (v : Value) (found : Dict ℤ CommandMeta)
    → IsTidy found
    → IsTidy (add_meta o (from_stored v) found)
add_meta-IsTidy none v found t = t
add_meta-IsTidy (some k) v found t =
    ground (arith, insert-IsTidy k (from_stored v) found, from_stored-IsNormal v)

meta_from-IsTidy :
    (stored : Dict String Value) (found : Dict ℤ CommandMeta)
    → IsTidy found
    → IsTidy (meta_from stored found)
unfolding meta_from
meta_from-IsTidy [] found t = t
meta_from-IsTidy ((key, v) ∷ stored) found t =
    meta_from-IsTidy stored (add_meta (parse_int key) (from_stored v) found)
      (add_meta-IsTidy (parse_int key) v found t)

meta_of-IsTidy : (o : Option Value) → IsTidy (meta_of o)
meta_of-IsTidy (some (dict fs)) = meta_from-IsTidy (to_dict fs) [] tt
meta_of-IsTidy _ = tt

pub command_meta-IsTidy : (entry : ConfigEntry) → IsTidy (command_meta entry)
unfolding command_meta
command_meta-IsTidy entry = meta_of-IsTidy (lookup opt_commands entry.options)

pub NodupKeys-IsTidy : (d : Dict ℤ CommandMeta) → IsTidy d → NodupKeys d
NodupKeys-IsTidy [] t = tt
NodupKeys-IsTidy (x ∷ d) t = (t.2, NodupKeys-IsTidy d t.3)

-- What a tidy dictionary holds is stored and read back as it is.
pub worth-normal :
    (k : ℤ) (m : CommandMeta) (d : Dict ℤ CommandMeta)
    → IsTidy d
    → lookup k d ≡ some m
    → worth (normal m) ≡ some m
unfolding lookup
worth-normal k m [] t h = cc
worth-normal k m ((j, w) ∷ d) t h = ground (arith, worth-normal k m d t.3)
