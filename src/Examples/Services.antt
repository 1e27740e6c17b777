-- ===== src/Examples/Services.antt =====
-- The domain's checks, and a service over a trace of effects: its one profile has a website on the
-- first key, its opener fails and its sink answers.
use keyro_core.Common.{
  ◌≡◌, ◌↔◌, refl, List, [], ◌∷◌, ◌++◌, Option, none, some, true, ok, err, if◌then◌else◌,
}
use keyro_core.Common.Exec.{pure}
use keyro_core.Domain.Ids.{ProfileId}
use keyro_core.Domain.Layout.{ControlId, IsInLayout, control_eq, left}
use keyro_core.Domain.Layout.Ranges.{rebuild, rebuild-ok_iff}
use keyro_core.Domain.Urls.{SafeUrl, parse_safe_url}
use keyro_core.Domain.Urls.Safety.{IsWeb, parse_safe_url_iff}
use keyro_core.Domain.Profiles.{Profile, new_profile, rename}
use keyro_core.Domain.Profiles.Names.{new_profile-rename}
use keyro_core.Domain.Assignments.{Action, Assignment}
use keyro_core.App.Service.{CoreService, route_virtual_control}
use keyro_core.App.Errors.{OpenUrlError}
use keyro_core.Common.Effects.{Emits}
use keyro_core.App.Routing.Rules.{Effect, listed, looked_up, drawn, emitted, opened, Run}
use keyro_core.App.Routing.Order.{IsTraced, route_virtual_control-Run}
use keyro_core.Examples.Crates.{urls}

abbrev first_key : ControlId
first_key = ControlId.key (record { get = 0 }) (record { get = 0 })

abbrev outside : ControlId
outside = ControlId.encoder (record { get = 0 }) (record { get = 2 }) left

rebuild-ok_iff_example : (rebuild outside ≡ ok outside) ↔ IsInLayout outside
rebuild-ok_iff_example = rebuild-ok_iff outside

parse_safe_url_iff_example :
    (parse_safe_url "https://example.com/" ≡ ok (record { as_str = "https://example.com/" }))
    ↔ IsWeb "https://example.com/"
parse_safe_url_iff_example = parse_safe_url_iff "https://example.com/"

abbrev main_profile : Profile
main_profile = record { id = 1; name = "Default"; is_active = true }

new_profile-rename_example :
    (new_profile 2 " Games" true ≡ ok (record { id = 2; name = " Games"; is_active = true }))
    × (rename main_profile " Games" ≡ ok (record { id = 1; name = " Games"; is_active = true }))
unfolding keyro_core.Common.Text.has_content
new_profile-rename_example = new_profile-rename 2 " Games" true main_profile

abbrev website : SafeUrl
website = record { as_str = "https://example.com/" }

abbrev Trace : Type 0
Trace = List Effect

abbrev assigned : ProfileId → ControlId → Option Assignment
assigned id control =
    if control_eq control first_key
    then some
        (record { profile_id = id; control = control; actions = Action.open_url website ∷ [] })
    else none

abbrev no_browser : OpenUrlError
no_browser = record { message = "no browser" }

abbrev service : CoreService Trace
service = record {
  repository = record {
    ensure_default_profile = pure main_profile;
    create_profile = λ name. pure main_profile;
    list_profiles = λ w. (ok (main_profile ∷ []), w ++ listed (ok (main_profile ∷ [])) ∷ []);
    rename_profile = λ id name. pure main_profile;
    set_active_profile = λ id. pure tt;
    save_assignment = λ assignment. pure tt;
    clear_assignment = λ id control. pure tt;
    load_snapshot_state = pure (record { profiles = main_profile ∷ []; assignments = [] });
    find_assignment = λ id control w.
        (ok (assigned id control), w ++ looked_up id control (ok (assigned id control)) ∷ []);
  };
  url_opener = record { open_url = λ u w. (err no_browser, w ++ opened u (err no_browser) ∷ []) };
  event_sink = record { emit = λ e w. (ok tt, w ++ emitted e (ok tt) ∷ []) };
  uuids = record { new_v4 = λ w. (ok 7, w ++ drawn (ok 7) ∷ []) };
}

abbrev whole : Trace → Trace
whole w = w

service-IsTraced : IsTraced service whole
service-IsTraced = record {
  lists = record { at = λ w. refl };
  finds = λ p c. record { at = λ w. refl };
  draws = record { at = λ w. refl };
  emits = λ e. record { at = λ w. refl };
  opens = λ u. record { at = λ w. refl };
}

route_virtual_control-Run_example :
    Emits whole (Run first_key) (route_virtual_control service first_key)
route_virtual_control-Run_example =
    route_virtual_control-Run service whole service-IsTraced first_key
