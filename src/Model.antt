-- ===== src/Model.antt =====
-- The handlers of the feedforward reads and the dynamics model store
-- (litearm_driver/src/litearm_driver_model.cpp).
pub mod Permission
pub mod Commit
pub mod Effect
pub mod Success
use litearm_ros.Prelude.{
  ℕ, ◌%◌, ◌^◌, ◌==◌, ℤ, pos, Bool, true, not, List, [], ◌∷◌, String, ◌<>◌, to_string, int_to_string,
  if◌then◌else◌, length,
}
use litearm_ros.Double.{Double}
use litearm_ros.Sdk.{
  get_ff_vec, get_ff_mask, set_gravity_scale, set_inertia_scale, set_gravity_vector, model_probe,
  get_body, set_body as set_model_body, get_jm, set_jm, commit, revert, model_status, Sdk, Vector3,
}
use litearm_ros.Gates.{
  check_finite_values, check_finite_values_of, check_finite_vector3, check_requires_disabled,
}
use litearm_ros.Node.{
  Handler, gated, reading, on_success, append_message, set_message, set_body, tell, command,
  motors_enabled,
}

-- "item: name" for the SDK's static feedforward tables.
unfoldable pub format_items : List (ℤ × String) → List String
format_items [] = []
format_items ((item, name) ∷ items) = (int_to_string item <> ": " <> name) ∷ format_items items

pub record Catalog : Type 0 where
  pub vector_items : List String
  pub scalar_items : List String
  pub scalar_read_only_items : List String

pub record ModelReport : Type 0 where
  pub override_level : ℤ
  pub staged_mask : ℕ
  pub dirty : ℤ

-- An `int` used as a condition.
abbrev pub is_nonzero : ℤ → Bool
is_nonzero (pos n) = not (n == 0)
is_nonzero _ = true

module _ {Arm : Type 0} ⦃sdk : Sdk Arm⦄ where
  unfoldable pub handle_get_feedforward_vector : ℤ → Handler Arm (List Double)
  handle_get_feedforward_vector item =
      command "get_feedforward_vector" (get_ff_vec item) (λ answer. set_body answer.value)

  -- `static_cast<uint32_t>`.
  unfoldable pub handle_get_feedforward_mask : Handler Arm ℕ
  handle_get_feedforward_mask =
      command "get_feedforward_mask" get_ff_mask (λ mask. set_body (mask % 2 ^ 32))

  -- The tables are constants of the SDK, so this one works without a link.
  unfoldable pub handle_get_feedforward_catalog : Handler Arm Catalog
  unfolding format_items
  handle_get_feedforward_catalog call =
      let vectors = format_items sdk.ff_vec_items in
      let scalars = format_items sdk.ff_scalar_items in
      let read_only = format_items sdk.ff_scalar_ro_items in
      record call {
        response = record {
          success = true;
          message =
              "static SDK tables, not a firmware read: "
              <> to_string (length vectors)
              <> " vector items, "
              <> to_string (length scalars)
              <> " scalar items, "
              <> to_string (length read_only)
              <> " read-only scalars";
          body = record {
            vector_items = vectors;
            scalar_items = scalars;
            scalar_read_only_items = read_only;
          };
        };
      }

  unfoldable pub handle_set_gravity_scale : List Double → Handler Arm (Unit {0})
  handle_set_gravity_scale values =
      gated (check_finite_values_of values 7 "values")
        (tell "set_gravity_scale" (set_gravity_scale values))

  unfoldable pub handle_set_inertia_scale : List Double → Handler Arm (Unit {0})
  handle_set_inertia_scale values = gated (check_finite_values_of values 7 "values") (
      on_success
        (append_message (
          " (the default MOVE_JS path has no acceleration source, "
          <> "so this has no effect there)"))
        (tell "set_inertia_scale" (set_inertia_scale values)))

  unfoldable pub handle_set_gravity_vector : Vector3 → Handler Arm (Unit {0})
  handle_set_gravity_vector g =
      gated (check_finite_vector3 g) (tell "set_gravity_vector" (set_gravity_vector g))

  unfoldable pub handle_probe_model : Handler Arm Bool
  handle_probe_model = command "probe_model" model_probe λ supported call.
      set_message
        (if supported
          then "the firmware answers the model store commands"
          else "the firmware has no model store: it refuses or ignores those commands")
        (set_body supported call)

  unfoldable pub handle_get_model_body : ℤ → Handler Arm (List Double)
  handle_get_model_body body =
      command "get_model_body" (get_body body) (λ answer. set_body answer.value)

  unfoldable pub handle_set_model_body : ℤ → List Double → Handler Arm (Unit {0})
  handle_set_model_body body values = gated (check_finite_values values "values") (
      on_success (append_message " (staged in RAM: commit_model stores it, revert_model drops it)")
        (tell "set_model_body" (set_model_body body values)))

  unfoldable pub handle_get_model_jm : Handler Arm (List Double)
  handle_get_model_jm = command "get_model_jm" get_jm (λ answer. set_body answer.value)

  unfoldable pub handle_set_model_jm : List Double → Handler Arm (Unit {0})
  handle_set_model_jm values = gated (check_finite_values values "values") (
      on_success (append_message " (staged in RAM: commit_model stores it)")
        (tell "set_model_jm" (set_jm values)))

  -- The gate is given the negation of what the motors report, as in the source; the mask is cast to
  -- `uint16_t`.
  unfoldable pub handle_commit_model : ℕ → Handler Arm (Unit {0})
  handle_commit_model expected_mask = reading λ node.
      gated (check_requires_disabled (not (motors_enabled node)) "commit_model") (
        on_success
          (append_message (
            " (expected_mask must match what the firmware has staged, "
            <> "or it refuses the commit)"))
          (tell "commit_model" (commit (expected_mask % 2 ^ 16))))

  unfoldable pub handle_revert_model : Handler Arm (Unit {0})
  handle_revert_model = tell "revert_model" revert

  unfoldable pub handle_get_model_status : Handler Arm ModelReport
  handle_get_model_status = command "get_model_status" model_status λ answer call.
      set_message
        (if is_nonzero answer.value.dirty
          then "RAM differs from flash: commit_model or revert_model"
          else "RAM and flash agree")
        (set_body
          (record {
            override_level = answer.value.override_level;
            staged_mask = answer.value.staged_mask;
            dirty = answer.value.dirty;
          })
          call)
