-- ===== src/Targets/Options.antt =====
-- What `options_with` stores, read back by `command_meta`.
use mathlib.Core.List.{append-nil, append_assoc}
use esphome_rf_cloner.Base.{
  ℤ, String, ◌≡◌, ◌≢◌, refl, Option, none, some, [], ◌∷◌, map, ◌++◌, if◌then◌else◌, ◌==◌, int_eq,
  string_eq, arith, ap, sym, ◌∙◌, Option-cases, inl, inr,
}
use esphome_rf_cloner.Base.Dict.{
  Dict, lookup, insert, erase, lookup-insert, lookup-erase, lookup-insert_self, lookup-insert_ne,
  NodupKeys, insert-NodupKeys, erase-NodupKeys, insert_fresh,
}
use esphome_rf_cloner.Python.Decimal.{parse_int, show_int, parse_int-show_int}
use esphome_rf_cloner.Python.Value.{Value, dict, of_dict, to_dict-of_dict}
use esphome_rf_cloner.Const.{opt_commands}
use esphome_rf_cloner.Entry.{ConfigEntry, with_options}
use esphome_rf_cloner.Targets.{
  CommandMeta, is_empty_meta, from_stored, as_stored, add_meta, meta_from, meta_of, command_meta,
  merge, place, sorted, render_onto, options_with,
}
use esphome_rf_cloner.Targets.Stored.{
  normal, worth, IsTidy, from_stored-as_stored-normal, command_meta-IsTidy, NodupKeys-IsTidy,
  worth-normal,
}

-- Two ids with the same text are one id.
show_int_inj : (a b : ℤ) → show_int a ≡ show_int b → a ≡ b
show_int_inj a b e = cc (parse_int-show_int a, parse_int-show_int b)

-- The stored form of one command's organisation.
abbrev entry_of : ℤ × CommandMeta → String × Value
entry_of (k, m) = (show_int k, dict (of_dict (as_stored m)))

-- No id of `l` has its text among the keys of `d`.
abbrev Fresh : Dict ℤ CommandMeta → Dict String Value → Type 0
Fresh [] d = Unit
Fresh ((k, m) ∷ l) d = (lookup (show_int k) d ≡ none) × Fresh l d

Fresh-nil : (l : Dict ℤ CommandMeta) → Fresh l []
unfolding lookup
Fresh-nil [] = tt
Fresh-nil (x ∷ l) = (refl, Fresh-nil l)

Fresh-insert :
    (k : ℤ) (v : Value) (l : Dict ℤ CommandMeta) (d : Dict String Value)
    → lookup k l ≡ none
    → Fresh l d
    → Fresh l (insert (show_int k) v d)
unfolding lookup
Fresh-insert k v [] d h f = tt
Fresh-insert k v ((j, m) ∷ l) d h f = (
  ground (arith, lookup-insert (show_int j) (show_int k) v d, show_int_inj j k, f.0),
  Fresh-insert k v l d (ground arith) f.1,
)

render_onto-append :
    (l : Dict ℤ CommandMeta) (d : Dict String Value)
    → NodupKeys l
    → Fresh l d
    → render_onto l d ≡ d ++ map entry_of l
unfolding render_onto
render_onto-append [] d u f = sym (append-nil d)
render_onto-append ((k, m) ∷ l) d u f =
    let v : Value = dict (of_dict (as_stored m)) in
    render_onto-append l (insert (show_int k) v d) u.1 (Fresh-insert k v l d u.0 f.1)
    ∙ rw (insert_fresh (show_int k) v d f.0)
        (append_assoc d ((show_int k, v) ∷ []) (map entry_of l))

abbrev or_old : Option CommandMeta → Option CommandMeta → Option CommandMeta
or_old none old = old
or_old (some m) old = some m

abbrev read_of : Option CommandMeta → Option CommandMeta → Option CommandMeta
read_of none old = old
read_of (some m) old = or_old (worth (normal m)) old

abbrev added : ℤ → CommandMeta → Dict ℤ CommandMeta → Dict ℤ CommandMeta
added k m found = if is_empty_meta m then found else insert k m found

add_meta-entry_of :
    (k : ℤ) (m : CommandMeta) (found : Dict ℤ CommandMeta)
    → add_meta (parse_int (show_int k)) (from_stored (dict (of_dict (as_stored m)))) found
      ≡ added k (normal m) found
add_meta-entry_of k m found =
    ap (λ o. add_meta o (from_stored (dict (of_dict (as_stored m)))) found) (parse_int-show_int k)
    ∙ ap (λ n. added k n found) (from_stored-as_stored-normal m)

lookup-added :
    (k j : ℤ) (m : CommandMeta) (found : Dict ℤ CommandMeta)
    → lookup k (added j m found)
      ≡ (if k == j then or_old (worth m) (lookup k found) else lookup k found)
lookup-added k j m found = ground (arith, lookup-insert k j m found)

read_of_split :
    (k j : ℤ) (m : CommandMeta) (l found : Dict ℤ CommandMeta)
    → lookup j l ≡ none
    → read_of
        (lookup k l)
        (if k == j then or_old (worth (normal m)) (lookup k found) else lookup k found)
      ≡ read_of (if k == j then some m else lookup k l) (lookup k found)
read_of_split k j m l found h = ground arith

-- Reading a rendered dictionary finds under each id what was worth storing.
lookup-meta_from :
    (k : ℤ) (l found : Dict ℤ CommandMeta)
    → NodupKeys l
    → lookup k (meta_from (map entry_of l) found) ≡ read_of (lookup k l) (lookup k found)
unfolding lookup meta_from
lookup-meta_from k [] found u = refl
lookup-meta_from k ((j, m) ∷ l) found u =
    ap (λ f. lookup k (meta_from (map entry_of l) f)) (add_meta-entry_of j m found)
    ∙ lookup-meta_from k l (added j (normal m) found) u.1
    ∙ rw (lookup-added k j (normal m) found) (read_of_split k j m l found u.0)

-- The entries in the order of their ids are found as before.
lookup-place :
    (i k : ℤ) (v : CommandMeta) (d : Dict ℤ CommandMeta)
    → lookup k d ≡ none
    → lookup i (place k v d) ≡ (if i == k then some v else lookup i d)
unfolding lookup place
lookup-place i k v [] h = refl
lookup-place i k v ((j, w) ∷ d) h = ground (arith, lookup-place i k v d)

place-NodupKeys :
    (k : ℤ) (v : CommandMeta) (d : Dict ℤ CommandMeta)
    → lookup k d ≡ none
    → NodupKeys d
    → NodupKeys (place k v d)
unfolding lookup place
place-NodupKeys k v [] h u = (refl, tt)
place-NodupKeys k v ((j, w) ∷ d) h u = ground (arith, lookup-place j k v d, place-NodupKeys k v d)

lookup-sorted : (i : ℤ) (d : Dict ℤ CommandMeta) → NodupKeys d → lookup i (sorted d) ≡ lookup i d
unfolding sorted lookup
lookup-sorted i [] u = refl
lookup-sorted i ((k, v) ∷ d) u =
    rw (lookup-place i k v (sorted d) (lookup-sorted k d u.1 ∙ u.0), lookup-sorted i d u.1) refl

sorted-NodupKeys : (d : Dict ℤ CommandMeta) → NodupKeys d → NodupKeys (sorted d)
unfolding sorted
sorted-NodupKeys [] u = tt
sorted-NodupKeys ((k, v) ∷ d) u =
    place-NodupKeys k v (sorted d) (lookup-sorted k d u.1 ∙ u.0) (sorted-NodupKeys d u.1)

-- The update of one id.
abbrev merge_of : Option CommandMeta → Option CommandMeta → Option CommandMeta
merge_of none old = old
merge_of (some m) old = worth m

abbrev merged_one : ℤ → CommandMeta → Dict ℤ CommandMeta → Dict ℤ CommandMeta
merged_one k m d = if is_empty_meta m then erase k d else insert k m d

lookup-merged_one :
    (i k : ℤ) (m : CommandMeta) (d : Dict ℤ CommandMeta)
    → lookup i (merged_one k m d) ≡ (if i == k then worth m else lookup i d)
lookup-merged_one i k m d = ground (arith, lookup-insert i k m d, lookup-erase i k d)

merged_one-NodupKeys :
    (k : ℤ) (m : CommandMeta) (d : Dict ℤ CommandMeta) → NodupKeys d → NodupKeys (merged_one k m d)
merged_one-NodupKeys k m d u = ground (arith, insert-NodupKeys k m d u, erase-NodupKeys k d u)

merge-NodupKeys : (u d : Dict ℤ CommandMeta) → NodupKeys d → NodupKeys (merge u d)
unfolding merge
merge-NodupKeys [] d n = n
merge-NodupKeys ((k, m) ∷ u) d n =
    merge-NodupKeys u (merged_one k m d) (merged_one-NodupKeys k m d n)

lookup-merge :
    (i : ℤ) (u d : Dict ℤ CommandMeta)
    → NodupKeys u
    → lookup i (merge u d) ≡ merge_of (lookup i u) (lookup i d)
unfolding merge lookup
lookup-merge i [] d n = refl
lookup-merge i ((k, m) ∷ u) d n =
    lookup-merge i u (merged_one k m d) n.1 ∙ rw (lookup-merged_one i k m d) (ground (arith, n.0))

-- What is found under an id after an update that the entry stores.
abbrev pub updated : Option CommandMeta → Option CommandMeta → Option CommandMeta
updated none old = old
updated (some m) old = worth (normal m)

command_meta-insert :
    (entry : ConfigEntry) (d : Dict String Value)
    → command_meta (with_options entry (insert opt_commands (dict (of_dict d)) entry.options))
      ≡ meta_from d []
unfolding command_meta
command_meta-insert entry d =
    ap meta_of (lookup-insert_self opt_commands (dict (of_dict d)) entry.options)
    ∙ ap (λ d. meta_from d []) (to_dict-of_dict d)

read_of-merge_of :
    (o old : Option CommandMeta)
    → read_of old none ≡ old
    → read_of (merge_of o old) none ≡ updated o old
read_of-merge_of none old h = h
read_of-merge_of (some m) old h = ground arith

read_of_tidy : (k : ℤ) (d : Dict ℤ CommandMeta) → IsTidy d → read_of (lookup k d) none ≡ lookup k d
read_of_tidy k d t = elim (Option-cases (lookup k d)) [
  | inl absent ↦ rw absent refl
  | inr (m, found) ↦ rw found (ground (arith, worth-normal k m d t found))
]

lookup-nil : (k : ℤ) → lookup {V = CommandMeta} k [] ≡ none
unfolding lookup
lookup-nil k = refl

lookup-render_onto :
    (k : ℤ) (d : Dict ℤ CommandMeta)
    → NodupKeys d
    → lookup k (meta_from (render_onto (sorted d) []) []) ≡ read_of (lookup k d) none
lookup-render_onto k d u =
    let n : NodupKeys (sorted d) = sorted-NodupKeys d u in
    ap (λ s. lookup k (meta_from s [])) (render_onto-append (sorted d) [] n (Fresh-nil (sorted d)))
    ∙ lookup-meta_from k (sorted d) [] n
    ∙ ap (λ o. read_of o (lookup k [])) (lookup-sorted k d u)
    ∙ ap (read_of (lookup k d)) (lookup-nil k)

-- After `options_with` an updated command has what the update says, its empty texts as absent and
-- nothing at all if nothing is left, and every other command has what it had.
pub command_meta-options_with :
    (entry : ConfigEntry) (updates : Dict ℤ CommandMeta) (k : ℤ)
    → NodupKeys updates
    → lookup k (command_meta (with_options entry (options_with entry updates)))
      ≡ updated (lookup k updates) (lookup k (command_meta entry))
unfolding options_with
command_meta-options_with entry updates k n =
    let old : Dict ℤ CommandMeta = command_meta entry in
    let tidy : IsTidy old = command_meta-IsTidy entry in
    let u : NodupKeys old = NodupKeys-IsTidy old tidy in
    ap (lookup k) (command_meta-insert entry (render_onto (sorted (merge updates old)) []))
    ∙ lookup-render_onto k (merge updates old) (merge-NodupKeys updates old u)
    ∙ ap (λ o. read_of o none) (lookup-merge k updates old n)
    ∙ read_of-merge_of (lookup k updates) (lookup k old) (read_of_tidy k old tidy)

lookup_one :
    (k command_id : ℤ) (meta : CommandMeta)
    → lookup k ((command_id, meta) ∷ []) ≡ (if k == command_id then some meta else none)
unfolding lookup
lookup_one k command_id meta = refl

-- One update changes one command's organisation.
pub command_meta-options_with_one :
    (entry : ConfigEntry) (command_id : ℤ) (meta : CommandMeta) (k : ℤ)
    → lookup k (command_meta (with_options entry (options_with entry ((command_id, meta) ∷ []))))
      ≡ updated (if k == command_id then some meta else none) (lookup k (command_meta entry))
unfolding lookup
command_meta-options_with_one entry command_id meta k =
    command_meta-options_with entry ((command_id, meta) ∷ []) k (refl, tt)
    ∙ ap (λ o. updated o (lookup k (command_meta entry))) (lookup_one k command_id meta)

-- `options_with` writes under the key of the commands only.
pub lookup-options_with :
    (entry : ConfigEntry) (updates : Dict ℤ CommandMeta) (key : String)
    → key ≢ opt_commands
    → lookup key (options_with entry updates) ≡ lookup key entry.options
unfolding options_with
lookup-options_with entry updates key h = lookup-insert_ne key opt_commands _ entry.options h
