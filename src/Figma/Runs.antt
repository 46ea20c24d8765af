-- ===== src/Figma/Runs.antt =====
-- tools/figma-plugin/src/stages: the three stages that draw components and screens.
use smart_parcel_locker.Figma.{components, mini_app, admin_web}
use smart_parcel_locker.Figma.Requests.{Request, component_requests}
use smart_parcel_locker.Figma.ScreenRequests.{mini_app_requests, admin_requests}
use smart_parcel_locker.Figma.Stages.{FigmaPort, Ending, run_stage}

module _ {S : Type 0} (port : FigmaPort S Request) where
  -- `runComponents`
  unfoldable pub run_components : S → Ending S
  run_components file = run_stage port components component_requests file

  -- `runMiniApp`
  unfoldable pub run_mini_app : S → Ending S
  run_mini_app file = run_stage port mini_app mini_app_requests file

  -- `runAdminWeb`
  unfoldable pub run_admin_web : S → Ending S
  run_admin_web file = run_stage port admin_web admin_requests file
