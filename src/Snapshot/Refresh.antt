-- ===== src/Snapshot/Refresh.antt =====
-- A refresh replaces the replica whole or leaves it as it was.
use esphome_rf_cloner.Base.{
  ◌≡◌, ◌≢◌, refl, ◌⊎◌, inl, inr, Bool, true, false, none, some, List, [], ◌∷◌, arith, ap, ◌∙◌,
  Option, string_eq, int_eq,
}
use esphome_rf_cloner.Python.Result.{Result, ok, err, Exception, is_home_assistant_error}
use esphome_rf_cloner.Python.Exec
use esphome_rf_cloner.Host.{Host}
use esphome_rf_cloner.Models.CommandInfo.{CommandInfo}
use esphome_rf_cloner.Models.BridgeStatus.{BridgeStatus}
use esphome_rf_cloner.Models.ExportedCommand.{ExportedCommand}
use esphome_rf_cloner.Transport.{BridgeTransport, async_export}
use esphome_rf_cloner.Snapshot.{
  Snapshot, SnapshotManager, as_stored, store_key, export_next, export_all, and_rest, snapshot_of,
  stored, wants_refresh, async_refresh,
}

module _ (H : Host) where
  -- Each listed command was exported, one after the other, and none of them was missing.
  abbrev pub Exported :
      BridgeTransport → List CommandInfo → H.State → List ExportedCommand → H.State → Type 0
  Exported t [] s es s' = (es ≡ []) × (s' ≡ s)
  Exported t (c ∷ cs) s es s' =
      (e : ExportedCommand) × (s₁ : H.State) × (rest : List ExportedCommand) × (async_export H t
          c.command_id s
        ≡ (ok (some e), s₁))
      × (es ≡ e ∷ rest)
      × Exported t cs s₁ rest s'

  -- What was done is export calls of listed commands, one after the other, of a beginning of them.
  abbrev pub Attempted : BridgeTransport → List CommandInfo → H.State → H.State → Type 0
  Attempted t [] s s' = s' ≡ s
  Attempted t (c ∷ cs) s s' = (s' ≡ s) ⊎ Attempted t cs (async_export H t c.command_id s).1 s'

  Attempted-none : (t : BridgeTransport) (cs : List CommandInfo) (s : H.State) → Attempted t cs s s
  Attempted-none t [] s = refl
  Attempted-none t (c ∷ cs) s = inl refl

  Attempted-next :
      (t : BridgeTransport) (cs : List CommandInfo) (s : H.State) (o : Option ExportedCommand)
      → Attempted t cs s (export_all H t cs s).1
      → Attempted t cs s (export_next H o (export_all H t cs) s).1
  Attempted-next t cs s none rest = Attempted-none t cs s
  Attempted-next t cs s (some exported) rest =
      Exec.continue-holds (Attempted t cs s) (export_all H t cs s).0 _ (export_all H t cs s).1 rest
        λ found _. rest

  export_all-Attempted :
      (t : BridgeTransport) (cs : List CommandInfo) (s : H.State)
      → Attempted t cs s (export_all H t cs s).1
  unfolding export_all
  export_all-Attempted t [] s = refl
  export_all-Attempted t (c ∷ cs) s =
      let (r, s₁) = async_export H t c.command_id s in
      inr (
        Exec.continue-holds (Attempted t cs s₁) r _ s₁ (Attempted-none t cs s₁)
          λ o _. Attempted-next t cs s₁ o (export_all-Attempted t cs s₁))

  Exported-found :
      (t : BridgeTransport) (c : CommandInfo) (cs : List CommandInfo) (s s₁ s₂ s' : H.State)
      (x : ExportedCommand) (es : List ExportedCommand) (found : Option (List ExportedCommand))
      → async_export H t c.command_id s ≡ (ok (some x), s₁)
      → export_all H t cs s₁ ≡ (ok found, s₂)
      → Exec.pure (and_rest H x found) s₂ ≡ (ok (some es), s')
      → ((rest : List ExportedCommand)
          → export_all H t cs s₁ ≡ (ok (some rest), s')
          → Exported t cs s₁ rest s')
      → Exported t (c ∷ cs) s es s'
  Exported-found t c cs s s₁ s₂ s' x es none e k l ih = absurd (ground arith)
  Exported-found t c cs s s₁ s₂ s' x es (some rest) e k l ih = (
    x,
    s₁,
    rest,
    e,
    ground arith,
    ih rest (k ∙ ap (λ (σ : H.State). (ok (some rest), σ)) (ground arith)),
  )

  Exported-next :
      (t : BridgeTransport) (c : CommandInfo) (cs : List CommandInfo) (s s₁ s' : H.State)
      (o : Option ExportedCommand) (es : List ExportedCommand)
      → async_export H t c.command_id s ≡ (ok o, s₁)
      → export_next H o (export_all H t cs) s₁ ≡ (ok (some es), s')
      → ((rest : List ExportedCommand)
          → export_all H t cs s₁ ≡ (ok (some rest), s')
          → Exported t cs s₁ rest s')
      → Exported t (c ∷ cs) s es s'
  Exported-next t c cs s s₁ s' none es e h ih =
      cc (ap (λ (ρ : Result (Option (List ExportedCommand)) × H.State). ρ.0) h)
  Exported-next t c cs s s₁ s' (some x) es e h ih =
      let (found, s₂, k, l) = Exec.>>=-eq-ok (export_all H t cs) _ s₁ h in
      Exported-found t c cs s s₁ s₂ s' x es found e k l ih

  export_all-Exported :
      (t : BridgeTransport) (cs : List CommandInfo) (s : H.State) (es : List ExportedCommand)
      (s' : H.State)
      → export_all H t cs s ≡ (ok (some es), s')
      → Exported t cs s es s'
  unfolding export_all
  export_all-Exported t [] s es s' h = (ground arith, ground arith)
  export_all-Exported t (c ∷ cs) s es s' h =
      let (o, s₁, e, k) = Exec.>>=-eq-ok (async_export H t c.command_id) _ s h in
      Exported-next t c cs s s₁ s' o es e k (λ rest. export_all-Exported t cs s₁ rest s')

  abbrev Managed : Type 0
  Managed = SnapshotManager H × H.State

  -- What a refresh of `m` may leave: the same replica, after export calls and nothing else, or a new
  -- one of every listed command, which is what the store was given last.
  abbrev pub Leaves :
      BridgeStatus → SnapshotManager H → H.State → Result (Unit {0}) × Managed → Type 0
  Leaves status m s (r, (m', s')) =
      ((m' ≡ m) × Attempted m.transport status.commands s s')
      ⊎ ((es : List ExportedCommand) × (s₁ : H.State) × Exported m.transport status.commands s es s₁
          × (wants_refresh H m status ≡ true)
          × (r ≡ ok tt)
          × (m' ≡ record m { snapshot = some (snapshot_of H status es s₁) })
          × (s'
              ≡ H.store_save (store_key H m.bridge_id) (as_stored H (snapshot_of H status es s₁))
                  s₁))

  Leaves-stored :
      (status : BridgeStatus) (m : SnapshotManager H) (s s₁ : H.State)
      (o : Result (Option (List ExportedCommand)))
      → wants_refresh H m status ≡ true
      → export_all H m.transport status.commands s ≡ (o, s₁)
      → Attempted m.transport status.commands s s₁
      → Leaves status m s (stored H status m o s₁)
  Leaves-stored status m s s₁ (err x) w e calls = inl (refl, calls)
  Leaves-stored status m s s₁ (ok none) w e calls = inl (refl, calls)
  Leaves-stored status m s s₁ (ok (some es)) w e calls =
      inr (es, s₁, export_all-Exported m.transport status.commands s es s₁ e, w, refl, refl, refl)

  abbrev refresh_if :
      BridgeStatus → SnapshotManager H → H.State → Bool → Result (Unit {0}) × Managed
  refresh_if status m s wanted = elim wanted [
    | false ↦ (ok tt, (m, s))
    | true ↦ let (r, s') = export_all H m.transport status.commands s in stored H status m r s'
  ]

  Leaves-refresh_if :
      (status : BridgeStatus) (m : SnapshotManager H) (s : H.State) (wanted : Bool)
      → wants_refresh H m status ≡ wanted
      → Leaves status m s (refresh_if status m s wanted)
  Leaves-refresh_if status m s false w = inl (refl, Attempted-none m.transport status.commands s)
  Leaves-refresh_if status m s true w =
      let (o, s₁) = export_all H m.transport status.commands s in
      Leaves-stored status m s s₁ o w refl (export_all-Attempted m.transport status.commands s)

  raised :
      (x e : Exception) (b : Bool)
      → is_home_assistant_error x ≡ b
      → ◌≡◌ {A = Result (Unit {0})} (elim b [ true ↦ ok tt | false ↦ err x ]) (err e)
      → (is_home_assistant_error e ≡ false) × (x ≡ e)
  raised x e true p h = cc
  raised x e false p h = let same : x ≡ e = ground arith in (rw (← same) p, same)

  stored-raises :
      (status : BridgeStatus) (m : SnapshotManager H) (s : H.State)
      (o : Result (Option (List ExportedCommand))) (e : Exception)
      → (stored H status m o s).0 ≡ err e
      → (is_home_assistant_error e ≡ false) × (o ≡ err e) × ((stored H status m o s).1.0 ≡ m)
  stored-raises status m s (err x) e h =
      let (p, q) = raised x e (is_home_assistant_error x) refl h in (p, ap (λ x. err x) q, refl)
  stored-raises status m s (ok none) e h = cc
  stored-raises status m s (ok (some es)) e h = cc

  refresh_if-raises :
      (status : BridgeStatus) (m : SnapshotManager H) (s : H.State) (wanted : Bool) (e : Exception)
      → (refresh_if status m s wanted).0 ≡ err e
      → (is_home_assistant_error e ≡ false)
        × ((export_all H m.transport status.commands s).0 ≡ err e)
        × ((refresh_if status m s wanted).1.0 ≡ m)
  refresh_if-raises status m s false e h = cc
  refresh_if-raises status m s true e h =
      let (o, s₁) = export_all H m.transport status.commands s in stored-raises status m s₁ o e h

  wants_refresh-false :
      (status : BridgeStatus) (m : SnapshotManager H)
      → (status.bridge_id ≢ m.bridge_id)
        ⊎ (status.restore_incomplete ≡ true)
        ⊎ ((current : Snapshot H.Datetime) × (m.snapshot ≡ some current)
            × (current.bridge_id ≡ status.bridge_id)
            × (current.revision ≡ status.revision))
      → wants_refresh H m status ≡ false
  unfolding wants_refresh
  wants_refresh-false status m (inl foreign) = ground arith
  wants_refresh-false status m (inr (inl incomplete)) = ground arith
  wants_refresh-false status m (inr (inr (current, held, same, revision))) = rw held (ground arith)

  -- Whatever the bridge answers, a refresh leaves the old replica and has done nothing but export
  -- listed commands, one after the other, so that the store is not written; or it has exported every
  -- listed command, and all of them, under the status's identity and revision, are the replica and
  -- what the store is given.
  pub async_refresh-Leaves :
      (status : BridgeStatus) (m : SnapshotManager H) (s : H.State)
      → Leaves status m s (async_refresh H status (m, s))
  unfolding async_refresh
  async_refresh-Leaves status m s = Leaves-refresh_if status m s (wants_refresh H m status) refl

  -- A status of another bridge, one read in the middle of a restore, or one of the revision that
  -- the replica already has, causes no call at all and changes nothing.
  pub async_refresh-unchanged :
      (status : BridgeStatus) (m : SnapshotManager H) (s : H.State)
      → (status.bridge_id ≢ m.bridge_id)
        ⊎ (status.restore_incomplete ≡ true)
        ⊎ ((current : Snapshot H.Datetime) × (m.snapshot ≡ some current)
            × (current.bridge_id ≡ status.bridge_id)
            × (current.revision ≡ status.revision))
      → async_refresh H status (m, s) ≡ (ok tt, (m, s))
  unfolding async_refresh
  async_refresh-unchanged status m s h = ap (refresh_if status m s) (wants_refresh-false status m h)

  -- A refresh that raises passes on what the export raised, never an error of Home Assistant's, and
  -- keeps the replica.
  pub async_refresh-raises :
      (status : BridgeStatus) (m : SnapshotManager H) (s : H.State) {e : Exception}
      → (async_refresh H status (m, s)).0 ≡ err e
      → (is_home_assistant_error e ≡ false)
        × ((export_all H m.transport status.commands s).0 ≡ err e)
        × ((async_refresh H status (m, s)).1.0 ≡ m)
  unfolding async_refresh
  async_refresh-raises status m s {e} h =
      refresh_if-raises status m s (wants_refresh H m status) e h
