-- ===== src/Units/Loads.antt =====
-- The cases of `GetByID`.
use cim_backend.Prelude.{ℕ, suc, ◌≡◌, refl, inl, inr, none, some, Option-cases, List, length}
use cim_backend.Units.{
  MeasureUnit, unit_by_id, absent, endless, loaded, get_root_base_unit_id, get_by_id,
}

module _ {F : Type 0} where
  -- What GetByID does, by the row that the query finds.
  pub data Load (us : List (MeasureUnit F)) (id : ℕ) : Type 0 where
    missing : unit_by_id id us ≡ none → get_by_id id us ≡ absent → Load us id
    cycles :
        (u : MeasureUnit F)
        → unit_by_id id us ≡ some u
        → get_root_base_unit_id (suc (length us)) us u ≡ none
        → get_by_id id us ≡ endless
        → Load us id
    loads :
        (u : MeasureUnit F) → unit_by_id id us ≡ some u → get_by_id id us ≡ loaded u → Load us id

  pub Load-cases : (us : List (MeasureUnit F)) (id : ℕ) → Load us id
  unfolding get_by_id
  Load-cases us id = elim (Option-cases (unit_by_id id us)) [
    | inl e ↦ missing e (rw (e, get_by_id) refl)
    | inr (u, e) ↦ elim (Option-cases (get_root_base_unit_id (suc (length us)) us u)) [
      | inl bad ↦ cycles u e bad (rw (e, get_by_id, bad) refl)
      | inr (root, good) ↦ loads u e (rw (e, get_by_id, good) refl)
    ]
  ]
