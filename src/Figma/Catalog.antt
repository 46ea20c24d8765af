-- ===== src/Figma/Catalog.antt =====
-- tools/figma-plugin/src/domain/catalog.ts: the keys and names of what the plugin draws.
use smart_parcel_locker.Prelude.{
  ℕ, Text, text, text_eq, ◌++◌, any, List, [], ◌∷◌, map, Result, ok, err, plain_error,
  if◌then◌else◌,
}

-- `PageCatalogItem`
pub record PageItem : Type 0 where
  pub key : Text
  pub name : Text

-- `ScreenCatalogItem`
pub record ScreenItem : Type 0 where
  pub key : Text
  pub name : Text
  pub width : ℕ
  pub height : ℕ

abbrev page : Text → Text → PageItem
page key name = record { key = key; name = name }

abbrev screen : Text → Text → ℕ → ℕ → ScreenItem
screen key name width height = record { key = key; name = name; width = width; height = height }

-- `PAGE_KEYS`
abbrev pub design_system : PageItem
design_system = page (text "page/design-system") (text "00 Design System")

abbrev pub mini_app_page : PageItem
mini_app_page = page (text "page/mini-app") (text "01 Mini App")

abbrev pub admin_page : PageItem
admin_page = page (text "page/admin-web") (text "02 Admin Web")

abbrev pub page_keys : List PageItem
page_keys = design_system ∷ mini_app_page ∷ admin_page ∷ []

-- `COMPONENT_KEYS`
abbrev pub component_keys : List Text
component_keys =
    text "button"
    ∷ text "icon-button"
    ∷ text "input"
    ∷ text "search"
    ∷ text "select"
    ∷ text "status-pill"
    ∷ text "alert"
    ∷ text "result"
    ∷ text "empty-state"
    ∷ text "error-state"
    ∷ text "skeleton"
    ∷ text "card"
    ∷ text "site-card"
    ∷ text "locker-size-card"
    ∷ text "order-card"
    ∷ text "modal"
    ∷ text "bottom-sheet"
    ∷ text "confirm-dialog"
    ∷ text "miniapp-top-bar"
    ∷ text "miniapp-bottom-tab-bar"
    ∷ text "admin-sidebar"
    ∷ text "admin-header"
    ∷ text "filter-bar"
    ∷ text "data-table"
    ∷ text "pagination"
    ∷ []

-- `MINI_APP_SCREENS`
abbrev pub mini_app_screens : List ScreenItem
mini_app_screens =
    screen (text "screen/miniapp/home") (text "01 首页") 375 812
    ∷ screen (text "screen/miniapp/location") (text "02 城市定位") 375 812
    ∷ screen (text "screen/miniapp/nearby-sites") (text "03 附近网点") 375 812
    ∷ screen (text "screen/miniapp/site-detail") (text "04 网点详情") 375 812
    ∷ screen (text "screen/miniapp/locker-duration") (text "05 柜格与时长") 375 812
    ∷ screen (text "screen/miniapp/order-confirm") (text "06 订单确认") 375 812
    ∷ screen (text "screen/miniapp/payment") (text "07 支付") 375 812
    ∷ screen (text "screen/miniapp/store-door") (text "08 存件开门") 375 812
    ∷ screen (text "screen/miniapp/orders") (text "09 订单列表") 375 812
    ∷ screen (text "screen/miniapp/order-detail") (text "10 订单详情") 375 812
    ∷ screen (text "screen/miniapp/overdue-payment") (text "11 超时补缴") 375 812
    ∷ screen (text "screen/miniapp/pickup") (text "12 取件") 375 812
    ∷ screen (text "screen/miniapp/profile") (text "13 个人中心") 375 812
    ∷ []

-- `ADMIN_SCREENS`
abbrev pub admin_screens : List ScreenItem
admin_screens =
    screen (text "screen/admin/login") (text "01 登录与权限") 1440 900
    ∷ screen (text "screen/admin/dashboard") (text "02 Dashboard") 1440 900
    ∷ screen (text "screen/admin/sites") (text "03 网点管理") 1440 900
    ∷ screen (text "screen/admin/devices") (text "04 柜机管理") 1440 900
    ∷ screen (text "screen/admin/orders") (text "05 订单管理") 1440 900
    ∷ screen (text "screen/admin/payments") (text "06 支付管理") 1440 900
    ∷ screen (text "screen/admin/notifications") (text "07 通知管理") 1440 900
    ∷ screen (text "screen/admin/permissions") (text "08 权限管理") 1440 900
    ∷ screen (text "screen/admin/audit") (text "09 审计日志") 1440 900
    ∷ []

-- `REQUIRED_STATES`
abbrev pub required_states : List Text
required_states =
    text "loading"
    ∷ text "empty"
    ∷ text "network-failure"
    ∷ text "payment-processing"
    ∷ text "payment-failure"
    ∷ text "payment-success"
    ∷ text "cell-contention"
    ∷ text "device-offline"
    ∷ text "door-open-failure"
    ∷ text "door-not-closed"
    ∷ text "overdue-payment"
    ∷ text "permission-denied"
    ∷ []

-- The keys that `assertUniqueKeys` compares.
unfoldable pub all_keys : List Text
all_keys =
    map (λ (item : PageItem). item.key) page_keys
    ++ (map (λ (key : Text). text "component/" ++ key) component_keys
        ++ (map (λ (item : ScreenItem). item.key) mini_app_screens
            ++ (map (λ (item : ScreenItem). item.key) admin_screens
                ++ map (λ (key : Text). text "state/" ++ key) required_states)))

-- `keys.filter((key, index) => keys.indexOf(key) !== index)`, behind the keys `before`.
unfoldable pub duplicates : List Text → List Text → List Text
duplicates before [] = []
duplicates before (key ∷ rest) =
    let later = duplicates (key ∷ before) rest in
    if any (text_eq key) before then key ∷ later else later

-- `[...new Set(keys)]`, behind the keys `before`.
unfoldable pub distinct : List Text → List Text → List Text
distinct before [] = []
distinct before (key ∷ rest) =
    let later = distinct (key ∷ before) rest in
    if any (text_eq key) before then later else key ∷ later

-- `keys.join(", ")`
unfoldable pub comma_join : List Text → Text
comma_join [] = []
comma_join (key ∷ []) = key
comma_join (key ∷ next ∷ rest) = key ++ (text ", " ++ comma_join (next ∷ rest))

abbrev unique_or_throw : List Text → Result (List Text)
unique_or_throw [] = ok []
unique_or_throw (key ∷ rest) =
    err (plain_error (text "Duplicate stable keys: " ++ comma_join (distinct [] (key ∷ rest))))

check_unique : List Text → Result (List Text)
unfolding duplicates
check_unique keys = unique_or_throw (duplicates [] keys)

-- `assertUniqueKeys`; what it returns is not used.
unfoldable pub assert_unique_keys : Result (List Text)
unfolding check_unique all_keys
assert_unique_keys = check_unique all_keys
