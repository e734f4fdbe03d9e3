-- ===== src/Storage/Execute/Scope.antt =====
-- Which devices the job of `execute_plan` in agent/handlers/storage.py overwrites.
use nas_os.Common.{
  ℕ, String, true, false, List, [], ◌∷◌, ◌++◌, ok, err, Result-cases, succeeds, ◌≡◌, refl, sym, ap,
  ◌∙◌, ◌==◌, ◌⊎◌, inl, inr, string_eq,
}
use mathlib.Core.Path.{subst}
use nas_os.Common.Dict.{Dict}
use nas_os.Common.Errors.{Exc}
use nas_os.Config.{Settings}
use nas_os.Storage.Device.{StorageInventoryResult}
use nas_os.Storage.Spec.{StoragePlanSpec}
use nas_os.Storage.Steps.{PlanStep, build_steps}
use nas_os.Storage.Steps.Scope.{target, targets-build_steps}
use nas_os.Storage.Steps.Devices.{written, devices_of, written-build_steps}
use nas_os.Storage.Execute.{
  Host, Machine, and_then, ◌>>=◌, use_host, report, do_plan, resolve_fresh, body,
}
use nas_os.Storage.Execute.Wipes.{overwritten}
use nas_os.Storage.Execute.Prefix.{Part, whole_of, do_plan-Part}

-- A command of another tool has no target.
no_target :
    (tool other : String)
    → (other == tool) ≡ false
    → (args : List String) → target tool (other ∷ args) ≡ []
no_target tool other h [] = refl
no_target tool other h (a ∷ []) = refl
no_target tool other h (a ∷ b ∷ rest) = rw h refl

module _ {S : Type 0} where
  -- The machine when the job's body begins.
  abbrev pub fresh_machine : S → Machine S
  fresh_machine s = record { system = s; commands = []; reports = [] }

  -- The machine once the inventory has been gathered.
  abbrev gathered : Host S → S → Machine S
  gathered host s = record {
    system = (host.gather s).1;
    commands = [];
    reports = (0, "Re-checking device safety") ∷ [];
  }

  module _ (host : Host S) (settings : Settings) (spec : StoragePlanSpec) (sizes : Dict String ℕ)
      (managed : List String) (s : S) where
    body-refused_inventory :
        (e : Exc)
        → (host.gather s).0 ≡ err e
        → body host settings spec sizes managed (fresh_machine s) ≡ (err e, gathered host s)
    unfolding body report use_host ◌>>=◌ and_then
    body-refused_inventory e h = rw h refl

    body-refused_plan :
        (e : Exc) (fresh : StorageInventoryResult)
        → (host.gather s).0 ≡ ok fresh
        → resolve_fresh spec sizes fresh ≡ err e
        → body host settings spec sizes managed (fresh_machine s) ≡ (err e, gathered host s)
    unfolding body report use_host ◌>>=◌ and_then
    body-refused_plan e fresh h r = rw (h, r) refl

    body-resolved :
        (fresh : StorageInventoryResult) (resolved : StoragePlanSpec)
        → (host.gather s).0 ≡ ok fresh
        → resolve_fresh spec sizes fresh ≡ ok resolved
        → body host settings spec sizes managed (fresh_machine s)
          ≡ do_plan host settings resolved managed (gathered host s)
    unfolding body report use_host ◌>>=◌ and_then
    body-resolved fresh resolved h r = rw (h, r) refl

    do_plan-none :
        (resolved : StoragePlanSpec) (e : Exc)
        → build_steps resolved ≡ err e
        → do_plan host settings resolved managed (gathered host s) ≡ (err e, gathered host s)
    unfolding do_plan ◌>>=◌ and_then
    do_plan-none resolved e h = rw h refl

    -- All that the commands write to, for one resolved plan.
    written-Part :
        (resolved : StoragePlanSpec) (steps : List PlanStep)
        → build_steps resolved ≡ ok steps
        → Part written
            (devices_of resolved)
            (do_plan host settings resolved managed (gathered host s))
    unfolding string_eq
    written-Part resolved steps h =
        subst (λ xs. Part written xs (do_plan host settings resolved managed (gathered host s)))
          (written-build_steps resolved steps h)
          (do_plan-Part written host settings (λ args. refl) (λ args. refl) (λ args. refl) resolved
            managed steps (gathered host s) h)

    -- The two tools that overwrite disks, for one resolved plan.
    both_Parts :
        (resolved : StoragePlanSpec) (steps : List PlanStep)
        → build_steps resolved ≡ ok steps
        → Part
            (target "wipefs")
            resolved.disk_paths
            (do_plan host settings resolved managed (gathered host s))
          × Part
              (target "parted")
              resolved.disk_paths
              (do_plan host settings resolved managed (gathered host s))
    unfolding string_eq
    both_Parts resolved steps h =
        let (w, p) = targets-build_steps resolved steps h in
        (
          subst
              (λ xs.
                Part (target "wipefs") xs
                  (do_plan host settings resolved managed (gathered host s)))
              w
              (do_plan-Part (target "wipefs") host settings (no_target "wipefs" "blkid" refl)
                (no_target "wipefs" "systemd-escape" refl) (no_target "wipefs" "restorecon" refl)
                resolved managed steps (gathered host s) h),
          subst
              (λ xs.
                Part (target "parted") xs
                  (do_plan host settings resolved managed (gathered host s)))
              p
              (do_plan-Part (target "parted") host settings (no_target "parted" "blkid" refl)
                (no_target "parted" "systemd-escape" refl) (no_target "parted" "restorecon" refl)
                resolved managed steps (gathered host s) h),
        )

    -- The disks that the commands of a list wipe, and those that they repartition, are the first of
    -- the disks of a plan, in their order, and all the devices that the commands write to are the
    -- first of the plan's devices.
    abbrev pub Begins : StoragePlanSpec → List (List String) → Type 0
    Begins resolved commands =
        ((rest : List String) × (overwritten (target "wipefs") commands ++ rest
            ≡ resolved.disk_paths))
        × ((rest : List String) × (overwritten (target "parted") commands ++ rest
              ≡ resolved.disk_paths))
        × ((rest : List String) × (overwritten written commands ++ rest ≡ devices_of resolved))

    do_plan-Begins :
        (resolved : StoragePlanSpec)
        → Begins resolved (do_plan host settings resolved managed (gathered host s)).1.commands
    do_plan-Begins resolved = elim (Result-cases (build_steps resolved)) [
      | inl (e, h) ↦
          rw (do_plan-none resolved e h)
            ((resolved.disk_paths, refl), (resolved.disk_paths, refl), (devices_of resolved, refl))
      | inr (steps, h) ↦
          let (w, p) = both_Parts resolved steps h in
          let d = written-Part resolved steps h in
          ((w.rest, w.begins), (p.rest, p.begins), (d.rest, d.begins))
    ]

    do_plan-whole :
        (resolved : StoragePlanSpec)
        → (do_plan host settings resolved managed (gathered host s)).0 ≡ ok tt
        → (overwritten
              (target "wipefs")
              (do_plan host settings resolved managed (gathered host s)).1.commands
            ≡ resolved.disk_paths)
          × (overwritten
                (target "parted")
                (do_plan host settings resolved managed (gathered host s)).1.commands
              ≡ resolved.disk_paths)
          × (overwritten written
                (do_plan host settings resolved managed (gathered host s)).1.commands
              ≡ devices_of resolved)
    do_plan-whole resolved returned = elim (Result-cases (build_steps resolved)) [
      | inl (e, h) ↦ cc (sym (ap (λ a. a.0) (do_plan-none resolved e h)) ∙ returned)
      | inr (steps, h) ↦
          let (w, p) = both_Parts resolved steps h in
          let fine : succeeds (do_plan host settings resolved managed (gathered host s)).0 ≡ true =
            ap succeeds returned in
          let d = written-Part resolved steps h in
          (
            whole_of (target "wipefs") w fine,
            whole_of (target "parted") p fine,
            whole_of written d fine,
          )
    ]

    -- Whatever the runner, the inventory and systemd answer or raise, the body that has ended either
    -- has run no command, or it resolved its plan against the inventory that it gathered, and: the
    -- disks that it wiped, and those that it repartitioned, are the first of the resolved disks, in
    -- their order; and all the devices that its commands wrote to, by any tool, are the first of the
    -- resolved plan's devices, which are these disks, their first partitions, the array made of
    -- them where there is one, and the logical volume.
    pub body-overwrites :
        ((body host settings spec sizes managed (fresh_machine s)).1.commands ≡ [])
        ⊎ ((fresh : StorageInventoryResult) × (resolved : StoragePlanSpec) × ((host.gather s).0
              ≡ ok fresh)
            × (resolve_fresh spec sizes fresh ≡ ok resolved)
            × Begins resolved (body host settings spec sizes managed (fresh_machine s)).1.commands)
    body-overwrites = elim (Result-cases (host.gather s).0) [
      | inl (e, h) ↦ inl (ap (λ a. a.1.commands) (body-refused_inventory e h))
      | inr (fresh, h) ↦ elim (Result-cases (resolve_fresh spec sizes fresh)) [
        | inl (e, r) ↦ inl (ap (λ a. a.1.commands) (body-refused_plan e fresh h r))
        | inr (resolved, r) ↦
            inr (
              fresh,
              resolved,
              h,
              r,
              rw (body-resolved fresh resolved h r) (do_plan-Begins resolved),
            )
      ]
    ]

    -- If the job returns without an exception, it resolved its plan against the inventory that it
    -- gathered, it wiped and repartitioned exactly the resolved disks, in their order, and its
    -- commands wrote to exactly the devices of the resolved plan.
    pub body-completes :
        (body host settings spec sizes managed (fresh_machine s)).0 ≡ ok tt
        → (fresh : StorageInventoryResult) × (resolved : StoragePlanSpec) × ((host.gather s).0
            ≡ ok fresh)
          × (resolve_fresh spec sizes fresh ≡ ok resolved)
          × (overwritten
                (target "wipefs")
                (body host settings spec sizes managed (fresh_machine s)).1.commands
              ≡ resolved.disk_paths)
          × (overwritten
                (target "parted")
                (body host settings spec sizes managed (fresh_machine s)).1.commands
              ≡ resolved.disk_paths)
          × (overwritten written
                (body host settings spec sizes managed (fresh_machine s)).1.commands
              ≡ devices_of resolved)
    body-completes returned = elim (Result-cases (host.gather s).0) [
      | inl (e, h) ↦ cc (sym (ap (λ a. a.0) (body-refused_inventory e h)) ∙ returned)
      | inr (fresh, h) ↦ elim (Result-cases (resolve_fresh spec sizes fresh)) [
        | inl (e, r) ↦ cc (sym (ap (λ a. a.0) (body-refused_plan e fresh h r)) ∙ returned)
        | inr (resolved, r) ↦
            let same = body-resolved fresh resolved h r in
            let (w, p, d) = do_plan-whole resolved (sym (ap (λ a. a.0) same) ∙ returned) in
            (fresh, resolved, h, r, rw same w, rw same p, rw same d)
      ]
    ]
