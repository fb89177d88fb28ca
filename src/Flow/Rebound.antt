-- ===== src/Flow/Rebound.antt =====
-- When a bridge's entry is pointed at another node.
use esphome_rf_cloner.Base.{
  String, ◌≡◌, ◌≢◌, ◌⊎◌, inl, inr, refl, Bool, true, false, Option, none, some, List, [], ◌∷◌, ◌==◌,
  string_eq, option_string_eq, arith,
}
use esphome_rf_cloner.Base.Dict.{Dict}
use esphome_rf_cloner.Python.Result.{
  Result, ok, err, Exception, restore_not_possible, is_home_assistant_error,
}
use esphome_rf_cloner.Python.Exec
use esphome_rf_cloner.Python.Value.{Value}
use esphome_rf_cloner.Entry.{ConfigEntry}
use esphome_rf_cloner.Host.{Host}
use esphome_rf_cloner.Registry.{EntityRegistry}
use esphome_rf_cloner.Devices.{DeviceRegistry}
use esphome_rf_cloner.Models.BridgeStatus.{BridgeStatus}
use esphome_rf_cloner.Snapshot.{Snapshot}
use esphome_rf_cloner.Transport.{async_status}
use esphome_rf_cloner.Restore.{check_restore_target, async_restore}
use esphome_rf_cloner.Restore.Check.{IsRestored}
use esphome_rf_cloner.Restore.Run.{async_restore-IsRestored}
use esphome_rf_cloner.Runtime.{World, entry_of}
use esphome_rf_cloner.Flow.{FlowResult, aborts, Strings, async_probe}
use esphome_rf_cloner.Flow.Bridge.{
  submitted_binding, rebind, failed_onto, restored_onto, replaced, fitting, snapshot_of,
  replace_with, async_step_replace, compared, read_back, point_at, async_step_reconfigure,
}

module _ (H : Host) (R : EntityRegistry) (D : DeviceRegistry) (S : Strings) where
  -- The node was last read reporting all of the replica, under its identity.
  abbrev pub RestoredOnto : String × String → Snapshot H.Datetime → H.State → Type 0
  RestoredOnto bound_to snapshot s =
      (before : H.State) × (result : BridgeStatus) × (async_status H
          (record { esphome_entry_id = bound_to.0; action_prefix = bound_to.1 }) before
        ≡ (ok result, s))
      × IsRestored result snapshot

  -- What the confirmation of a restore may do: the entry stays where it points and no success is
  -- reported, or it is pointed at the replacement after a restore onto it that ended well.
  abbrev pub Replaces :
      String × String
      → Option (Snapshot H.Datetime)
      → World H R D
      → Result FlowResult × World H R D
      → Type 0
  Replaces bound_to held w (r, w') =
      ((entry_of w' ≡ entry_of w) × (r ≢ ok (aborts "restore_successful" [])))
      ⊎ ((snapshot : Snapshot H.Datetime) × (held ≡ some snapshot)
          × (async_restore H (record { esphome_entry_id = bound_to.0; action_prefix = bound_to.1 })
                snapshot w.host
              ≡ (ok tt, w'.host))
          × RestoredOnto bound_to snapshot w'.host
          × (r ≡ ok (aborts "restore_successful" []))
          × (entry_of w' ≡ entry_of (rebind H S R D bound_to w)))

  raised_onto-Replaces :
      (e : Exception) (b : Bool) (bound_to : String × String) (held : Option (Snapshot H.Datetime))
      (w w₁ : World H R D)
      → entry_of w₁ ≡ entry_of w
      → Replaces bound_to held w (failed_onto H S R D e b w₁)
  raised_onto-Replaces e true bound_to held w w₁ same = inl (same, λ h. cc)
  raised_onto-Replaces e false bound_to held w w₁ same = inl (same, λ h. cc)

  restored_onto-Replaces :
      (r : Result (Unit {0})) (bound_to : String × String) (snapshot : Snapshot H.Datetime)
      (w : World H R D) (s : H.State)
      → async_restore H
          (record { esphome_entry_id = bound_to.0; action_prefix = bound_to.1 })
          snapshot
          w.host
        ≡ (r, s)
      → Replaces bound_to
          (some snapshot)
          w
          (restored_onto H S R D bound_to r (record w { host = s }))
  restored_onto-Replaces (err e) bound_to snapshot w s ran =
      raised_onto-Replaces e (is_home_assistant_error e) bound_to (some snapshot) w
        (record w { host = s }) refl
  restored_onto-Replaces (ok _) bound_to snapshot w s ran = inr (
    snapshot,
    refl,
    ran,
    async_restore-IsRestored H
        (record { esphome_entry_id = bound_to.0; action_prefix = bound_to.1 }) snapshot w.host s
        ran,
    refl,
    refl,
  )

  replaced-Replaces :
      (user_input : Option (Dict String Value)) (bound_to : String × String) (status : BridgeStatus)
      (snapshot : Snapshot H.Datetime) (w : World H R D)
      → Replaces bound_to (some snapshot) w (replaced H S R D user_input bound_to status snapshot w)
  replaced-Replaces none bound_to status snapshot w = inl (refl, λ h. cc)
  replaced-Replaces (some fields) bound_to status snapshot w =
      let (r, s) =
        async_restore H (record { esphome_entry_id = bound_to.0; action_prefix = bound_to.1 })
          snapshot w.host in
      restored_onto-Replaces r bound_to snapshot w s refl

  fitting-Replaces :
      (fits : Result (Unit {0})) (user_input : Option (Dict String Value))
      (bound_to : String × String) (status : BridgeStatus) (snapshot : Snapshot H.Datetime)
      (w : World H R D)
      → Replaces bound_to
          (some snapshot)
          w
          (fitting H S R D user_input bound_to status snapshot fits w)
  fitting-Replaces (ok _) user_input bound_to status snapshot w =
      replaced-Replaces user_input bound_to status snapshot w
  fitting-Replaces (err (restore_not_possible reason)) user_input bound_to status snapshot w =
      inl (refl, λ h. cc)
  fitting-Replaces (err _) user_input bound_to status snapshot w = inl (refl, λ h. cc)

  replace_with-Replaces :
      (held : Option (Snapshot H.Datetime)) (user_input : Option (Dict String Value))
      (bound_to : String × String) (status : BridgeStatus) (w : World H R D)
      → Replaces bound_to held w
          (replace_with H S R D user_input (bound_to.0, bound_to.1, status) held w)
  replace_with-Replaces none user_input bound_to status w = inl (refl, λ h. cc)
  replace_with-Replaces (some snapshot) user_input bound_to status w =
      fitting-Replaces (check_restore_target status snapshot) user_input bound_to status snapshot w

  -- Confirming a replacement points the entry at the new node, and reports success, only after
  -- `async_restore` of the replica that this bridge holds has returned without an error for that
  -- node, whose last status reports the replica's identity and all of its commands. In every other
  -- case the entry is as it was and no success is reported.
  pub async_step_replace-Replaces :
      (user_input : Option (Dict String Value)) (bound_to : String × String) (status : BridgeStatus)
      (w : World H R D)
      → let (r, (_, w')) =
          async_step_replace H S R D user_input (some (bound_to.0, bound_to.1, status), w) in
        Replaces bound_to (snapshot_of H S R D w.runtime) w (r, w')
  unfolding async_step_replace
  async_step_replace-Replaces user_input bound_to status w =
      replace_with-Replaces (snapshot_of H S R D w.runtime) user_input bound_to status w

  offered-entry :
      (fits : Result (Unit {0})) (bound_to : String × String) (status : BridgeStatus)
      (snapshot : Snapshot H.Datetime) (w : World H R D)
      → entry_of (fitting H S R D none bound_to status snapshot fits w).1 ≡ entry_of w
  offered-entry (ok _) bound_to status snapshot w = refl
  offered-entry (err e) bound_to status snapshot w = refl

  offer_with-entry :
      (held : Option (Snapshot H.Datetime)) (bound_to : String × String) (status : BridgeStatus)
      (w : World H R D)
      → entry_of (replace_with H S R D none (bound_to.0, bound_to.1, status) held w).1 ≡ entry_of w
  offer_with-entry none bound_to status w = refl
  offer_with-entry (some snapshot) bound_to status w =
      offered-entry (check_restore_target status snapshot) bound_to status snapshot w

  -- What a reconfiguration may do: the entry stays where it points, or it is pointed at a node that
  -- was just probed and reported the entry's own identity.
  abbrev pub Rebinds : Option (Dict String Value) → World H R D → World H R D → Type 0
  Rebinds user_input w w' =
      (entry_of w' ≡ entry_of w)
      ⊎ ((fields : Dict String Value) × (bound_to : String × String) × (status : BridgeStatus)
          × (error : Option String) × (user_input ≡ some fields)
          × (submitted_binding fields ≡ ok bound_to)
          × (async_probe H bound_to.0 bound_to.1 w.host ≡ (ok (some status, error), w'.host))
          × ((entry_of w).unique_id ≡ some status.bridge_id)
          × (entry_of w' ≡ entry_of (rebind H S R D bound_to w)))

  compared-Rebinds :
      (same : Bool) (fields : Dict String Value) (bound_to : String × String)
      (status : BridgeStatus) (error : Option String)
      (replacement : Option (String × String × BridgeStatus)) (w : World H R D) (s : H.State)
      → submitted_binding fields ≡ ok bound_to
      → async_probe H bound_to.0 bound_to.1 w.host ≡ (ok (some status, error), s)
      → (some status.bridge_id == (entry_of w).unique_id) ≡ same
      → Rebinds
          (some fields)
          w
          (compared H S R D bound_to status same (replacement, record w { host = s })).1.1
  unfolding async_step_replace
  compared-Rebinds true fields bound_to status error replacement w s given read equal =
      inr (fields, bound_to, status, error, refl, given, read, ground arith, refl)
  compared-Rebinds false fields bound_to status error replacement w s given read equal =
      inl (offer_with-entry (snapshot_of H S R D w.runtime) bound_to status (record w { host = s }))

  read_back-Rebinds :
      (o : Option BridgeStatus) (error : Option String) (choices : List ConfigEntry)
      (fields : Dict String Value) (bound_to : String × String)
      (replacement : Option (String × String × BridgeStatus)) (w : World H R D) (s : H.State)
      → submitted_binding fields ≡ ok bound_to
      → async_probe H bound_to.0 bound_to.1 w.host ≡ (ok (o, error), s)
      → Rebinds
          (some fields)
          w
          (read_back H S R D choices bound_to (o, error) (replacement, record w { host = s })).1.1
  read_back-Rebinds none error choices fields bound_to replacement w s given read = inl refl
  read_back-Rebinds (some status) error choices fields bound_to replacement w s given read =
      compared-Rebinds (some status.bridge_id == (entry_of w).unique_id) fields bound_to status
        error replacement w s given read refl

  probed-Rebinds :
      (r : Result (Option BridgeStatus × Option String)) (choices : List ConfigEntry)
      (fields : Dict String Value) (bound_to : String × String)
      (replacement : Option (String × String × BridgeStatus)) (w : World H R D) (s : H.State)
      → submitted_binding fields ≡ ok bound_to
      → async_probe H bound_to.0 bound_to.1 w.host ≡ (r, s)
      → Rebinds
          (some fields)
          w
          (Exec.continue r
            (read_back H S R D choices bound_to)
            (replacement, record w { host = s })).1.1
  probed-Rebinds (err e) choices fields bound_to replacement w s given read = inl refl
  probed-Rebinds (ok (o, error)) choices fields bound_to replacement w s given read =
      read_back-Rebinds o error choices fields bound_to replacement w s given read

  point_at-Rebinds :
      (r : Result (String × String)) (choices : List ConfigEntry) (fields : Dict String Value)
      (replacement : Option (String × String × BridgeStatus)) (w : World H R D)
      → submitted_binding fields ≡ r
      → Rebinds (some fields) w (point_at H S R D choices r (replacement, w)).1.1
  point_at-Rebinds (err e) choices fields replacement w given = inl refl
  point_at-Rebinds (ok bound_to) choices fields replacement w given =
      let (r, s) = async_probe H bound_to.0 bound_to.1 w.host in
      probed-Rebinds r choices fields bound_to replacement w s given refl

  -- A reconfiguration points the entry only at a node that was probed just then and that reported
  -- the entry's own identity. Whatever else is submitted or answered, other hardware included, the
  -- entry is as it was.
  pub async_step_reconfigure-Rebinds :
      (choices : List ConfigEntry) (user_input : Option (Dict String Value))
      (replacement : Option (String × String × BridgeStatus)) (w : World H R D)
      → Rebinds user_input w
          (async_step_reconfigure H S R D choices user_input (replacement, w)).1.1
  unfolding async_step_reconfigure
  async_step_reconfigure-Rebinds [] user_input replacement w = inl refl
  async_step_reconfigure-Rebinds (choice ∷ choices) none replacement w = inl refl
  async_step_reconfigure-Rebinds (choice ∷ choices) (some fields) replacement w =
      point_at-Rebinds (submitted_binding fields) (choice ∷ choices) fields replacement w refl
