-- ===== src/Reconcile/UniqueId.antt =====
-- The unique ids of a bridge's commands name their commands.
use Prim.Native.String.{◌++◌}
use text.Mathlib.TextLemmas.{nil-append, cons-append}
use esphome_rf_cloner.Base.{ℤ, String, ◌≡◌, ap, ◌∙◌, some, arith}
use esphome_rf_cloner.Python.Decimal.{show_int, parse_int-show_int}
use esphome_rf_cloner.Reconcile.{
  after_prefix, prefix, read_id, command_id_from_unique_id, command_unique_id,
}

pub after_prefix-append : (p s : String) → after_prefix p (p ++ s) ≡ some s
unfolding after_prefix
after_prefix-append String.[] s = ap (λ t. some t) (nil-append s)
after_prefix-append (String.◌∷◌ c p) s =
    rw (cons-append c p s) (ground (arith, after_prefix-append p s))

-- Whatever the bridge and the command, the command's id is read back from the unique id that its
-- entities are given.
pub command_id_from_unique_id-command_unique_id :
    (bridge_id : String) (command_id : ℤ)
    → command_id_from_unique_id bridge_id (command_unique_id bridge_id command_id) ≡ some command_id
unfolding command_id_from_unique_id command_unique_id
command_id_from_unique_id-command_unique_id bridge_id command_id =
    ap read_id (after_prefix-append (prefix bridge_id) (show_int command_id))
    ∙ parse_int-show_int command_id
