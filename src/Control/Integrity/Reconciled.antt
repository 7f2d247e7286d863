-- ===== src/Control/Integrity/Reconciled.antt =====
-- A reconciliation of a profile with the runtime location keeps the entities consistent.
use webperf_selfhosted.Base.{
  ℕ, String, ◌≡◌, refl, ap, ◌∙◌, Option, none, some, ◌=ₛ◌, Bool-cases, inl, inr,
}
use webperf_selfhosted.Control.Types.{CheckProfile, LocationMigration, Store}
use webperf_selfhosted.Control.Store.{get_entity}
use webperf_selfhosted.Control.Inputs.{Platform}
use webperf_selfhosted.Control.Profiles.{reconcile_with, put_in_review}
use webperf_selfhosted.Control.Integrity.{IsConsistent}
use webperf_selfhosted.Control.Integrity.Profiles.{
  IsCurrent, IsCurrent-save_check_profile, save_current-IsConsistent,
}

-- What a reconciliation leaves: the profile that it returns is stored, and so are the others.
pub reconcile-IsCurrent :
    (region : String) (profile : CheckProfile) (now : ℕ) (migration : Option LocationMigration)
    (store : Store) (p : CheckProfile)
    → IsCurrent store profile
    → IsCurrent store p
    → IsCurrent (reconcile_with region profile now migration store).1 p
reconcile-IsCurrent region profile now none store p h k = k
reconcile-IsCurrent region profile now (some migration) store p h k =
    elim (Bool-cases (migration.runtime_region_id =ₛ region)) [
      | inl t ↦ rw t k
      | inr t ↦
          rw t
            (IsCurrent-save_check_profile store (put_in_review region profile migration now) p h k)
    ]

pub reconciled-IsCurrent :
    (region : String) (profile : CheckProfile) (now : ℕ) (migration : Option LocationMigration)
    (store : Store)
    → IsCurrent store profile
    → IsCurrent
        (reconcile_with region profile now migration store).1
        (reconcile_with region profile now migration store).0.0
reconciled-IsCurrent region profile now none store h = h
reconciled-IsCurrent region profile now (some migration) store h =
    elim (Bool-cases (migration.runtime_region_id =ₛ region)) [
      | inl t ↦ rw t h
      | inr t ↦
          let reviewed = put_in_review region profile migration now in
          rw t (IsCurrent-save_check_profile store reviewed reviewed h h)
    ]

module _ (platform : Platform) where
  pub reconcile-IsConsistent :
      (region : String) (profile : CheckProfile) (now : ℕ) (migration : Option LocationMigration)
      (store : Store)
      → IsConsistent platform store
      → IsCurrent store profile
      → IsConsistent platform (reconcile_with region profile now migration store).1
  reconcile-IsConsistent region profile now none store c h = c
  reconcile-IsConsistent region profile now (some migration) store c h =
      elim (Bool-cases (migration.runtime_region_id =ₛ region)) [
        | inl t ↦ rw t c
        | inr t ↦ rw t (
            save_current-IsConsistent platform store c (put_in_review region profile migration now)
              h)
      ]

  pub stored-IsCurrent :
      (store : Store) (id : String) (profile : CheckProfile)
      → IsConsistent platform store
      → get_entity id store.check_profiles ≡ some profile
      → IsCurrent store profile
  stored-IsCurrent store id profile c h =
      let key = c.profile_keys id profile h in
      (profile, ap (λ k. get_entity k store.check_profiles) key ∙ h, (refl, refl, refl, refl))
