-- ===== src/Service/Names.antt =====
-- The names under which `create_service_servers` advertises the handlers.
use litearm_ros.Prelude.{
  Bool, true, false, not, ◌||◌, ◌&&◌, List, [], ◌∷◌, String, same_text, ◌≡◌, refl, length,
}
use litearm_ros.Lifecycle.Services.{service_names}
use litearm_ros.Service.{Request}

abbrev pub name_of : Request → String
name_of Request.reconnect = "reconnect"
name_of Request.home = "home"
name_of Request.revert_model = "revert_model"
name_of Request.log_stop = "log_stop"
name_of Request.enable = "enable"
name_of Request.disable = "disable"
name_of Request.reset = "reset"
name_of Request.clear_faults = "clear_faults"
name_of Request.emergency_stop = "emergency_stop"
name_of Request.park = "park"
name_of Request.save_params = "save_params"
name_of Request.reset_factory_params = "reset_factory_params"
name_of Request.enter_dfu = "enter_dfu"
name_of (Request.zero_g _) = "zero_g"
name_of Request.get_tcp = "get_tcp"
name_of Request.get_diagnostics = "get_diagnostics"
name_of (Request.kin_bench _) = "kin_bench"
name_of (Request.move_j _ _) = "move_j"
name_of (Request.move_j_sync _ _) = "move_j_sync"
name_of (Request.move_p _ _ _) = "move_p"
name_of (Request.move_js _ _ _) = "move_js"
name_of (Request.send_mit _ _ _ _ _ _) = "send_mit"
name_of (Request.send_mit_all _ _ _ _ _) = "send_mit_all"
name_of (Request.move_l _ _ _) = "move_l"
name_of (Request.move_c _ _ _ _ _) = "move_c"
name_of (Request.move_path _ _ _) = "move_path"
name_of Request.poll_cart = "poll_cart"
name_of (Request.inverse_kinematics _ _ _) = "inverse_kinematics"
name_of (Request.get_feedforward_vector _) = "get_feedforward_vector"
name_of Request.get_feedforward_mask = "get_feedforward_mask"
name_of Request.get_feedforward_catalog = "get_feedforward_catalog"
name_of (Request.set_gravity_scale _) = "set_gravity_scale"
name_of (Request.set_inertia_scale _) = "set_inertia_scale"
name_of (Request.set_gravity_vector _) = "set_gravity_vector"
name_of Request.probe_model = "probe_model"
name_of (Request.get_model_body _) = "get_model_body"
name_of (Request.set_model_body _ _) = "set_model_body"
name_of Request.get_model_jm = "get_model_jm"
name_of (Request.set_model_jm _) = "set_model_jm"
name_of (Request.commit_model _) = "commit_model"
name_of Request.get_model_status = "get_model_status"
name_of (Request.log_start _) = "log_start"
name_of (Request.log_dump _ _ _) = "log_dump"
name_of (Request.get_status _) = "get_status"
name_of (Request.set_speed_scaling _) = "set_speed_scaling"
name_of (Request.set_motion_mode _) = "set_motion_mode"
name_of (Request.set_payload _ _) = "set_payload"
name_of (Request.set_feedforward_mask _) = "set_feedforward_mask"
name_of (Request.set_feedforward_preset _) = "set_feedforward_preset"
name_of (Request.set_feedforward_scalar _ _ _) = "set_feedforward_scalar"
name_of (Request.set_feedforward_vector _ _) = "set_feedforward_vector"
name_of (Request.get_feedforward_scalar _ _) = "get_feedforward_scalar"
name_of (Request.get_joint_params _) = "get_joint_params"
name_of (Request.set_joint_gains _ _ _ _) = "set_joint_gains"
name_of (Request.set_joint_limits _ _ _) = "set_joint_limits"

abbrev pub lists : List String → String → Bool
lists [] name = false
lists (x ∷ xs) name = same_text x name || lists xs name

abbrev distinct : List String → Bool
distinct [] = true
distinct (x ∷ xs) = not (lists xs x) && distinct xs

-- Each of the requests is advertised, under a name of its own: 55 names, no two alike.
pub every_request_advertised :
    ((request : Request) → lists service_names (name_of request) ≡ true)
    × (length service_names ≡ 55)
    × (distinct service_names ≡ true)
every_request_advertised = (advertised, refl, refl)
  where
    advertised : (request : Request) → lists service_names (name_of request) ≡ true
    advertised Request.reconnect = refl
    advertised Request.home = refl
    advertised Request.revert_model = refl
    advertised Request.log_stop = refl
    advertised Request.enable = refl
    advertised Request.disable = refl
    advertised Request.reset = refl
    advertised Request.clear_faults = refl
    advertised Request.emergency_stop = refl
    advertised Request.park = refl
    advertised Request.save_params = refl
    advertised Request.reset_factory_params = refl
    advertised Request.enter_dfu = refl
    advertised (Request.zero_g _) = refl
    advertised Request.get_tcp = refl
    advertised Request.get_diagnostics = refl
    advertised (Request.kin_bench _) = refl
    advertised (Request.move_j _ _) = refl
    advertised (Request.move_j_sync _ _) = refl
    advertised (Request.move_p _ _ _) = refl
    advertised (Request.move_js _ _ _) = refl
    advertised (Request.send_mit _ _ _ _ _ _) = refl
    advertised (Request.send_mit_all _ _ _ _ _) = refl
    advertised (Request.move_l _ _ _) = refl
    advertised (Request.move_c _ _ _ _ _) = refl
    advertised (Request.move_path _ _ _) = refl
    advertised Request.poll_cart = refl
    advertised (Request.inverse_kinematics _ _ _) = refl
    advertised (Request.get_feedforward_vector _) = refl
    advertised Request.get_feedforward_mask = refl
    advertised Request.get_feedforward_catalog = refl
    advertised (Request.set_gravity_scale _) = refl
    advertised (Request.set_inertia_scale _) = refl
    advertised (Request.set_gravity_vector _) = refl
    advertised Request.probe_model = refl
    advertised (Request.get_model_body _) = refl
    advertised (Request.set_model_body _ _) = refl
    advertised Request.get_model_jm = refl
    advertised (Request.set_model_jm _) = refl
    advertised (Request.commit_model _) = refl
    advertised Request.get_model_status = refl
    advertised (Request.log_start _) = refl
    advertised (Request.log_dump _ _ _) = refl
    advertised (Request.get_status _) = refl
    advertised (Request.set_speed_scaling _) = refl
    advertised (Request.set_motion_mode _) = refl
    advertised (Request.set_payload _ _) = refl
    advertised (Request.set_feedforward_mask _) = refl
    advertised (Request.set_feedforward_preset _) = refl
    advertised (Request.set_feedforward_scalar _ _ _) = refl
    advertised (Request.set_feedforward_vector _ _) = refl
    advertised (Request.get_feedforward_scalar _ _) = refl
    advertised (Request.get_joint_params _) = refl
    advertised (Request.set_joint_gains _ _ _ _) = refl
    advertised (Request.set_joint_limits _ _ _) = refl
