-- ===== src/Lifecycle/Services.antt =====
-- The services of `create_service_servers` (litearm_driver/src/litearm_driver_node.cpp), in its order,
-- and `register_service` (litearm_driver/include/litearm_driver/litearm_driver_node.hpp).
use litearm_ros.Prelude.{String, List, [], ◌∷◌, ◌++◌, ◌≡◌, sym, ap, ◌∙◌}
use mathlib.Core.List.{append_assoc, append-nil}

abbrev pub service_names : List String
service_names =
    "reconnect" ∷ "home" ∷ "revert_model" ∷ "log_stop" ∷ "enable" ∷ "disable" ∷ "reset"
    ∷ "clear_faults" ∷ "emergency_stop" ∷ "park" ∷ "save_params" ∷ "reset_factory_params"
    ∷ "enter_dfu" ∷ "zero_g" ∷ "get_tcp" ∷ "get_diagnostics" ∷ "kin_bench" ∷ "move_j"
    ∷ "move_j_sync" ∷ "move_p" ∷ "move_js" ∷ "send_mit" ∷ "send_mit_all" ∷ "move_l" ∷ "move_c"
    ∷ "move_path" ∷ "poll_cart" ∷ "inverse_kinematics" ∷ "get_feedforward_vector"
    ∷ "get_feedforward_mask" ∷ "get_feedforward_catalog" ∷ "set_gravity_scale" ∷ "set_inertia_scale"
    ∷ "set_gravity_vector" ∷ "probe_model" ∷ "get_model_body" ∷ "set_model_body" ∷ "get_model_jm"
    ∷ "set_model_jm" ∷ "commit_model" ∷ "get_model_status" ∷ "log_start" ∷ "log_dump" ∷ "get_status"
    ∷ "set_speed_scaling" ∷ "set_motion_mode" ∷ "set_payload" ∷ "set_feedforward_mask"
    ∷ "set_feedforward_preset" ∷ "set_feedforward_scalar" ∷ "set_feedforward_vector"
    ∷ "get_feedforward_scalar" ∷ "get_joint_params" ∷ "set_joint_gains" ∷ "set_joint_limits" ∷ []

-- `services_.push_back(create_service(name, ..))`: `register_service`, the lambda `trigger` and
-- `create_service_servers` itself do it alike.
unfoldable pub register_service : String → List String → List String
register_service name services = services ++ (name ∷ [])

-- The services are created in the order of the names.
unfoldable pub register_services : List String → List String → List String
register_services [] services = services
register_services (name ∷ names) services = register_services names (register_service name services)

register_services_lem :
    (names services : List String) → register_services names services ≡ services ++ names
unfolding register_services register_service
register_services_lem [] services = sym (append-nil services)
register_services_lem (name ∷ names) services =
    register_services_lem names (services ++ (name ∷ [])) ∙ append_assoc services (name ∷ []) names

-- Each service is offered, after those that there were.
pub services_offered :
    (services : List String) → register_services service_names services ≡ services ++ service_names
services_offered services = register_services_lem service_names services

-- A node that offers none offers then exactly these.
pub services_from_none :
    (services : List String)
    → services ≡ []
    → register_services service_names services ≡ service_names
services_from_none services h = ap (register_services service_names) h ∙ services_offered []
