-- ===== src/Setup/System.antt =====
-- A bridge's life in Home Assistant, as steps on its `World`: what the integration does, and what
-- users and other integrations do in between.
use esphome_rf_cloner.Base.{ℕ, String, ◌≡◌, refl, ◌∙◌, Bool, Option, none, some, List}
use esphome_rf_cloner.Base.Dict.{Dict}
use esphome_rf_cloner.Python.Value.{Value}
use esphome_rf_cloner.Entry.{ConfigSubentry, ConfigEntry}
use esphome_rf_cloner.Host.{Host}
use esphome_rf_cloner.Registry.{EntityRegistry}
use esphome_rf_cloner.Devices.{DeviceRegistry}
use esphome_rf_cloner.Models.BridgeStatus.{BridgeStatus}
use esphome_rf_cloner.Reconcile.{
  async_reserve, async_release, async_visible_commands, async_add_listener, remove_listener,
  async_deactivate,
}
use esphome_rf_cloner.Reconcile.Kept.{async_visible_commands-identity}
use esphome_rf_cloner.Runtime.{World, entry_of, on_reconciler}
use esphome_rf_cloner.Setup.{
  async_handle_status, async_setup_entry, async_poll, async_entry_updated, async_unload_entry,
}
use esphome_rf_cloner.Setup.Sound.{
  whose, Fine, async_poll-Fine, async_handle_status-Fine, async_entry_updated-Fine,
}
use esphome_rf_cloner.Setup.Start.{async_setup_entry-SetUp}
use esphome_rf_cloner.Setup.Identity.{IsSound}
use esphome_rf_cloner.Setup.Own.{
  IsOwn, LoadsOwn, async_poll-IsOwn, async_handle_status-IsOwn, async_entry_updated-IsOwn,
  async_setup_entry-IsOwn,
}

-- An edit of an entry, by a user or a flow: everything but its id and its identity.
abbrev pub edited :
    Dict String Value → Dict String Value → List ConfigSubentry → Bool → ConfigEntry → ConfigEntry
edited content options subentries loaded entry = record entry {
  content = content;
  options = options;
  subentries = subentries;
  loaded = loaded;
}

module _ (H : Host) (R : EntityRegistry) (D : DeviceRegistry) where
  abbrev edit : (ConfigEntry → ConfigEntry) → World H R D → World H R D
  edit f = on_reconciler (λ m. record m { entry = f m.entry })

  -- One step: what the integration does, and what happens around it.
  pub data Step : World H R D → World H R D → Type 0 where
    polls : (w : World H R D) → Step w (async_poll H R D w)
    -- The listener of the polls is called again, as Home Assistant does after a poll that failed.
    handles : (w : World H R D) → Step w (async_handle_status H R D w)
    hears : (w : World H R D) → Step w (async_entry_updated H R D w).1
    reserves :
        (now : ℕ) (name : String) (w : World H R D)
        → Step w (on_reconciler (async_reserve R now name) w)
    releases : (name : String) (w : World H R D) → Step w (on_reconciler (async_release R name) w)
    lists :
        (now : ℕ) (status : Option BridgeStatus) (w : World H R D)
        → Step w (on_reconciler (λ m. (async_visible_commands R now status m).1) w)
    subscribes :
        (listener : ℕ) (w : World H R D) → Step w (on_reconciler (async_add_listener R listener) w)
    unsubscribes :
        (listener : ℕ) (w : World H R D) → Step w (on_reconciler (remove_listener R listener) w)
    edits :
        (content options : Dict String Value) (subentries : List ConfigSubentry) (loaded : Bool)
        (w : World H R D)
        → Step w (edit (edited content options subentries loaded) w)
    -- Other code changes its state, the entity registry or the devices.
    drifts :
        (host : H.State) (registry : R.State) (devices : D.State) (w : World H R D)
        → Step w (record w {
          host = host;
          devices = devices;
          reconciler = record w.reconciler { registry = registry };
        })
    unloads : (w : World H R D) → Step w (async_unload_entry H R D w)
    -- A set-up, of an entry that is not loaded, whether it succeeds or raises.
    sets_up : (w : World H R D) → w.runtime ≡ none → Step w (async_setup_entry H R D w).1

  -- The worlds that steps lead to.
  pub data Reach : World H R D → World H R D → Type 0 where
    done : (w : World H R D) → Reach w w
    next : (w₁ w₂ w₃ : World H R D) → Step w₁ w₂ → Reach w₂ w₃ → Reach w₁ w₃

  -- What a set-up finds in the store, when it loads the replica, is of the bridge it is stored for.
  abbrev pub LoadsIn : (w w' : World H R D) → Step w w' → Type 0
  LoadsIn _ _ (sets_up w off) = LoadsOwn H R D w
  LoadsIn _ _ _ = Unit {0}

  abbrev pub Trusts : (w w' : World H R D) → Reach w w' → Type 0
  Trusts _ _ (done w) = Unit {0}
  Trusts _ _ (next w₁ w₂ w₃ step steps) = LoadsIn w₁ w₂ step × Trusts w₂ w₃ steps

  Step-IsOwn :
      (w w' : World H R D) (step : Step w w') → LoadsIn w w' step → IsOwn H R D w → IsOwn H R D w'
  unfolding async_unload_entry async_deactivate
  Step-IsOwn _ _ (polls w) loads own = async_poll-IsOwn H R D w own
  Step-IsOwn _ _ (handles w) loads own = async_handle_status-IsOwn H R D w own
  Step-IsOwn _ _ (hears w) loads own = async_entry_updated-IsOwn H R D w own
  Step-IsOwn _ _ (reserves now name w) loads own = own
  Step-IsOwn _ _ (releases name w) loads own = own
  Step-IsOwn _ _ (lists now status w) loads own = own
  Step-IsOwn _ _ (subscribes listener w) loads own = own
  Step-IsOwn _ _ (unsubscribes listener w) loads own = own
  Step-IsOwn _ _ (edits content options subentries loaded w) loads own = own
  Step-IsOwn _ _ (drifts host registry devices w) loads own = own
  Step-IsOwn _ _ (unloads w) loads own = tt
  Step-IsOwn _ _ (sets_up w off) loads own = async_setup_entry-IsOwn H R D w loads own

  Reach-IsOwn :
      (w w' : World H R D) (steps : Reach w w') → Trusts w w' steps → IsOwn H R D w → IsOwn H R D w'
  Reach-IsOwn _ _ (done w) loads own = own
  Reach-IsOwn _ _ (next w₁ w₂ w₃ step steps) loads own =
      Reach-IsOwn w₂ w₃ steps loads.1 (Step-IsOwn w₁ w₂ step loads.0 own)

  -- What every step keeps: an identity that the entry has, and a loaded bridge of one identity.
  abbrev Keeps : World H R D → World H R D → Type 0
  Keeps w w' = ((u : String) → whose H R D w ≡ some u → whose H R D w' ≡ some u) × IsSound H R D w'

  Fine-Keeps : (w w' : World H R D) → Fine H R D w w' → Keeps w w'
  Fine-Keeps w w' (same, sound) = ((λ u h. same ∙ h), sound)

  same-Keeps :
      (w w' : World H R D)
      → whose H R D w' ≡ whose H R D w
      → w'.runtime ≡ w.runtime
      → IsSound H R D w
      → Keeps w w'
  same-Keeps w w' same loaded sound = ((λ u h. same ∙ h), rw (same, loaded) sound)

  Step-Keeps : (w w' : World H R D) → Step w w' → IsSound H R D w → Keeps w w'
  unfolding async_reserve async_release async_add_listener remove_listener async_unload_entry
      async_deactivate
  Step-Keeps _ _ (polls w) sound = Fine-Keeps w (async_poll H R D w) (async_poll-Fine H R D w sound)
  Step-Keeps _ _ (handles w) sound =
      Fine-Keeps w (async_handle_status H R D w) (async_handle_status-Fine H R D w sound)
  Step-Keeps _ _ (hears w) sound =
      Fine-Keeps w (async_entry_updated H R D w).1 (async_entry_updated-Fine H R D w sound)
  Step-Keeps _ _ (reserves now name w) sound = ((λ u h. h), sound)
  Step-Keeps _ _ (releases name w) sound = ((λ u h. h), sound)
  Step-Keeps _ _ (lists now status w) sound =
      same-Keeps w (on_reconciler (λ m. (async_visible_commands R now status m).1) w)
        (async_visible_commands-identity R now status w.reconciler) refl sound
  Step-Keeps _ _ (subscribes listener w) sound = ((λ u h. h), sound)
  Step-Keeps _ _ (unsubscribes listener w) sound = ((λ u h. h), sound)
  Step-Keeps _ _ (edits content options subentries loaded w) sound = ((λ u h. h), sound)
  Step-Keeps _ _ (drifts host registry devices w) sound = ((λ u h. h), sound)
  Step-Keeps _ _ (unloads w) sound = ((λ u h. h), tt)
  Step-Keeps _ _ (sets_up w off) sound = async_setup_entry-SetUp H R D w off

  Reach-Keeps : (w w' : World H R D) → Reach w w' → IsSound H R D w → Keeps w w'
  Reach-Keeps _ _ (done w) sound = ((λ u h. h), sound)
  Reach-Keeps _ _ (next w₁ w₂ w₃ step steps) sound =
      let (kept, sound₂) = Step-Keeps w₁ w₂ step sound in
      let (kept₃, sound₃) = Reach-Keeps w₂ w₃ steps sound₂ in ((λ u h. kept₃ u (kept u h)), sound₃)

  -- Through any run of steps, a bridge that is loaded stays of one identity: its runtime data and
  -- its replica are of the same bridge, which is the entry's own unless that is the empty text, and
  -- the runtime data's and the replica's calls go to the node that the runtime data say it is bound
  -- to. The replica that it holds was captured of that bridge: its own identity is the bridge's,
  -- whatever hardware was polled. Each set-up of the run has to find in the store, when it loads the
  -- replica, only replicas of the bridge that they are stored for.
  pub Reach-IsSound :
      (w w' : World H R D) (steps : Reach w w')
      → Trusts w w' steps
      → IsSound H R D w
      → IsOwn H R D w
      → IsSound H R D w' × IsOwn H R D w'
  Reach-IsSound w w' steps loads sound own =
      ((Reach-Keeps w w' steps sound).1, Reach-IsOwn w w' steps loads own)

  -- Through any run of steps from a sound world, polls of other hardware, set-ups against it and
  -- edits of the entry included, an entry that has an identity keeps it.
  pub Reach-unique_id :
      (w w' : World H R D) {u : String}
      → Reach w w'
      → IsSound H R D w
      → (entry_of w).unique_id ≡ some u
      → (entry_of w').unique_id ≡ some u
  Reach-unique_id w w' {u} steps sound = (Reach-Keeps w w' steps sound).0 u
