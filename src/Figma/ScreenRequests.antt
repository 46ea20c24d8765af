-- ===== src/Figma/ScreenRequests.antt =====
-- tools/figma-plugin/src/stages/mini-app.ts and admin-web.ts: the screens that the two stages ask the
-- port for.
use smart_parcel_locker.Prelude.{ℕ, ◌+◌, ◌*◌, ◌/◌, ◌%◌, Text, text, true, List, [], ◌∷◌, ◌++◌, map}
use smart_parcel_locker.Figma.Catalog.{
  ScreenItem, mini_app_page, admin_page, mini_app_screens, admin_screens, required_states,
}
use smart_parcel_locker.Figma.Contents.{
  mini_app_screen_sections, admin_screen_sections, state_description,
}
use smart_parcel_locker.Figma.Requests.{
  Value, number, word, flag, words, layout, Request, upsert_screen, page_request, indexed,
}

mini_app_request : ℕ × ScreenItem → Request
mini_app_request (index, screen) = upsert_screen (record {
  key = screen.key;
  name = screen.name;
  properties =
      (text "width", number screen.width)
      ∷ (text "height", number screen.height)
      ∷ (text "pageKey", word mini_app_page.key)
      ∷ (text "x", number (80 + index % 5 * 455))
      ∷ (text "y", number (80 + index / 5 * 892))
      ∷ (text "layout", layout (text "VERTICAL") 16 16)
      ∷ (text "sections", words (mini_app_screen_sections screen.key))
      ∷ (
        text "componentRefs",
        words (
            text "component/miniapp-top-bar"
            ∷ text "component/button"
            ∷ text "component/card"
            ∷ text "component/miniapp-bottom-tab-bar"
            ∷ []),
      )
      ∷ [];
})

state_matrix : Request
state_matrix = upsert_screen (record {
  key = text "screen/miniapp/state-matrix";
  name = text "Mini App / State Matrix";
  properties =
      (text "pageKey", word mini_app_page.key)
      ∷ (text "width", number 1600)
      ∷ (text "height", number 2200)
      ∷ (text "x", number 80)
      ∷ (text "y", number 2850)
      ∷ (text "states", words (map state_description required_states))
      ∷ (
        text "componentRefs",
        words (
            text "component/alert"
            ∷ text "component/result"
            ∷ text "component/empty-state"
            ∷ text "component/error-state"
            ∷ []),
      )
      ∷ [];
})

-- The requests of `runMiniApp`
unfoldable pub mini_app_requests : List Request
unfolding page_request indexed mini_app_request state_matrix
mini_app_requests =
    page_request mini_app_page
    ∷ (map mini_app_request (indexed 0 mini_app_screens) ++ state_matrix ∷ [])

themes : List (Text × Value)
themes =
    (text "navigationTheme", word (text "dark")) ∷ (text "contentTheme", word (text "light")) ∷ []

admin_request : ℕ × ScreenItem → Request
unfolding themes
admin_request (index, screen) = upsert_screen (record {
  key = screen.key;
  name = screen.name;
  properties =
      (text "width", number screen.width)
      ∷ (text "height", number screen.height)
      ∷ (text "pageKey", word admin_page.key)
      ∷ (text "x", number (80 + index % 3 * 1520))
      ∷ (text "y", number (80 + index / 3 * 980))
      ∷ (themes
          ++ (text "layout", layout (text "HORIZONTAL") 0 0)
            ∷ (text "sections", words (admin_screen_sections screen.key))
            ∷ (
              text "componentRefs",
              words (
                  text "component/admin-sidebar"
                  ∷ text "component/admin-header"
                  ∷ text "component/filter-bar"
                  ∷ text "component/data-table"
                  ∷ text "component/pagination"
                  ∷ []),
            )
            ∷ []);
})

-- The place of one of the last two screens, and its themes.
placed : ℕ → List (Text × Value)
unfolding themes
placed x =
    (text "pageKey", word admin_page.key)
    ∷ (text "width", number 1440)
    ∷ (text "height", number 900)
    ∷ (text "x", number x)
    ∷ (text "y", number 3040)
    ∷ themes

permission_denied_request : Request
unfolding placed
permission_denied_request = upsert_screen (record {
  key = text "screen/admin/permission-denied";
  name = text "Admin / Permission Denied";
  properties =
      placed 80 ++ (text "actions", words (text "return" ∷ text "request-permission" ∷ [])) ∷ [];
})

risk_confirmations_request : Request
unfolding placed
risk_confirmations_request = upsert_screen (record {
  key = text "screen/admin/risk-confirmations";
  name = text "Admin / High-risk Confirmations";
  properties =
      placed 1600
      ++ (
        text "actions",
        words (text "remote-open" ∷ text "restart" ∷ text "isolate" ∷ text "rollback" ∷ []),
      )
        ∷ (
          text "fields",
          words (text "device" ∷ text "reason" ∷ text "risk-warning" ∷ text "audit-notice" ∷ []),
        )
        ∷ (text "requiresSecondConfirmation", flag true)
        ∷ [];
})

-- The requests of `runAdminWeb`
unfoldable pub admin_requests : List Request
unfolding page_request indexed admin_request permission_denied_request risk_confirmations_request
admin_requests =
    page_request admin_page
    ∷ (map admin_request (indexed 0 admin_screens)
        ++ permission_denied_request ∷ risk_confirmations_request ∷ [])
